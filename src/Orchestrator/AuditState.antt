-- ===== src/Orchestrator/AuditState.antt =====
-- apps/api/src/orchestrator/audit-state-machine.ts: the states of an audit, the transitions that
-- are allowed, and the state in which a settled audit ends.
use kase_ai.Prelude.{
  ◌≡◌, ◌↔◌, ◌⊎◌, inl, inr, refl, Bool, true, false, not, ◌||◌, List, [], ◌∷◌, String, arith, Eq,
  ◌==◌, contains, if◌then◌else◌, Result, ok, err,
}

pub data AuditStatus : Type 0 where
  queued running completed partial failed cancelled : AuditStatus

abbrev pub audit_status_beq : AuditStatus → AuditStatus → Bool
audit_status_beq queued queued = true
audit_status_beq running running = true
audit_status_beq completed completed = true
audit_status_beq partial partial = true
audit_status_beq failed failed = true
audit_status_beq cancelled cancelled = true
audit_status_beq _ _ = false

pub audit_status_beq_iff : (a b : AuditStatus) → (audit_status_beq a b ≡ true) ↔ (a ≡ b)
audit_status_beq_iff a b = ground arith

instance abbrev pub audit_status_eq : Eq AuditStatus
audit_status_eq = record { eqb = audit_status_beq; eqb_iff = audit_status_beq_iff }

-- `TERMINAL_AUDIT_STATUSES` and `isTerminalAuditStatus`
abbrev pub terminal_audit_statuses : List AuditStatus
terminal_audit_statuses = completed ∷ partial ∷ failed ∷ cancelled ∷ []

abbrev pub is_terminal_audit_status : AuditStatus → Bool
is_terminal_audit_status status = contains terminal_audit_statuses status

-- `TRANSITIONS`
abbrev pub transitions : AuditStatus → List AuditStatus
transitions queued = running ∷ failed ∷ cancelled ∷ []
transitions running = completed ∷ partial ∷ failed ∷ cancelled ∷ []
transitions _ = []

pub data AuditTransitionError : Type 0 where
  invalid_audit_transition : AuditStatus → AuditStatus → AuditTransitionError

unfoldable pub assert_audit_transition :
    AuditStatus → AuditStatus → Result AuditTransitionError (Unit {0})
assert_audit_transition from to =
    if from == to
    then ok tt
    else if not (contains (transitions from) to)
    then err (invalid_audit_transition from to)
    else ok tt

pub record AuditCompletionInput : Type 0 where
  pub setup_failed : Bool
  pub cancellation_requested : Bool
  pub has_usable_results : Bool
  pub required_jobs_failed : Bool
  pub degradation_reasons : List String

abbrev pub has_reasons : List String → Bool
has_reasons [] = false
has_reasons (r ∷ rs) = true

unfoldable pub completion_status : AuditCompletionInput → AuditStatus
completion_status input =
    if input.cancellation_requested
    then cancelled
    else if input.setup_failed || not input.has_usable_results
    then failed
    else if input.required_jobs_failed || has_reasons input.degradation_reasons
    then partial
    else completed

-- The diagram of the states, as a relation.
infix 40 ◌⟶◌ ◌⟶*◌
pub data ◌⟶◌ : AuditStatus → AuditStatus → Type 0 where
  start : queued ⟶ running
  fail_unstarted : queued ⟶ failed
  cancel_unstarted : queued ⟶ cancelled
  complete : running ⟶ completed
  degrade : running ⟶ partial
  fail : running ⟶ failed
  cancel : running ⟶ cancelled

pub data ◌⟶*◌ : AuditStatus → AuditStatus → Type 0 where
  here : {s : AuditStatus} → s ⟶* s
  onward : {s t u : AuditStatus} → s ⟶ t → t ⟶* u → s ⟶* u

ruleset edges = (start, fail_unstarted, cancel_unstarted, complete, degrade, fail, cancel)

edge_of_allowed : (s t : AuditStatus) → assert_audit_transition s t ≡ ok tt → (s ≡ t) ⊎ (s ⟶ t)
unfolding assert_audit_transition
edge_of_allowed s t h = grind (arith, edges)

allowed_of_edge : {s t : AuditStatus} → s ⟶ t → assert_audit_transition s t ≡ ok tt
unfolding assert_audit_transition
allowed_of_edge start = refl
allowed_of_edge fail_unstarted = refl
allowed_of_edge cancel_unstarted = refl
allowed_of_edge complete = refl
allowed_of_edge degrade = refl
allowed_of_edge fail = refl
allowed_of_edge cancel = refl

allowed_of_eq : (s t : AuditStatus) → s ≡ t → assert_audit_transition s t ≡ ok tt
unfolding assert_audit_transition
allowed_of_eq s t h = ground arith

no_exit : {s t : AuditStatus} → s ⟶ t → is_terminal_audit_status s ≡ false
no_exit start = refl
no_exit fail_unstarted = refl
no_exit cancel_unstarted = refl
no_exit complete = refl
no_exit degrade = refl
no_exit fail = refl
no_exit cancel = refl

-- Asserting a transition succeeds exactly on the edges of the diagram and on staying in the same
-- state.
pub assert_audit_transition_iff :
    (from to : AuditStatus)
    → (assert_audit_transition from to ≡ ok tt) ↔ ((from ≡ to) ⊎ (from ⟶ to))
assert_audit_transition_iff from to = (
  edge_of_allowed from to,
  λ h. elim h [ inl same ↦ allowed_of_eq from to same | inr edge ↦ allowed_of_edge edge ],
)

-- A terminal state has no way out: whatever a sequence of transitions reaches from it is it.
pub terminal_absorbing : {s t : AuditStatus} → is_terminal_audit_status s ≡ true → s ⟶* t → s ≡ t
terminal_absorbing h here = refl
terminal_absorbing h (onward e r) = let open_state = no_exit e in cc

-- The state in which a settled audit ends is terminal, may be entered from `running` always, and
-- from `queued` if there are no usable results.
pub completion_status_legal :
    (input : AuditCompletionInput)
    → (is_terminal_audit_status (completion_status input) ≡ true)
      × (assert_audit_transition running (completion_status input) ≡ ok tt)
      × ((input.has_usable_results ≡ true)
          ⊎ (assert_audit_transition queued (completion_status input) ≡ ok tt))
unfolding completion_status assert_audit_transition
completion_status_legal input = ground arith

-- Only an audit that was not cancelled, was set up, has usable results, has no failed required job
-- and no reason of degradation is completed, and every such audit is.
pub completed_iff :
    (input : AuditCompletionInput)
    → (completion_status input ≡ completed) ↔ (
        (input.cancellation_requested ≡ false)
        × (input.setup_failed ≡ false)
        × (input.has_usable_results ≡ true)
        × (input.required_jobs_failed ≡ false)
        × (input.degradation_reasons ≡ []))
unfolding completion_status
completed_iff input = ground arith
