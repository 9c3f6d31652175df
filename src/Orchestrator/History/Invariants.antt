-- ===== src/Orchestrator/History/Invariants.antt =====
-- What holds after any sequence of the orchestrator's operations.
use kase_ai.Prelude.{
  ℕ, suc, ◌+◌, ◌≤◌, ◌<◌, max, String, ◌≡◌, ap, inl, inr, true, List, [], ◌∷◌, ◌++◌, arith, ◌==◌,
  string_eq, Bool-cases, All, All-append, Star-keeps, Rows-All,
}
use kase_ai.Orchestrator.JobGraph.{is_running}
use kase_ai.Orchestrator.Store.{
  StoredJob, AuditEvent, Tables, is_pending, last_sequence, next_event,
}
use kase_ai.Orchestrator.History.Moves.{
  JobStep, JobPath, marked, claimed, suspends, ends, requeued, dropped, resumed, EventStep,
  allowance,
}
use kase_ai.Orchestrator.History.Keys.{HasKeys}
use kase_ai.Orchestrator.History.Steps.{Reach, Reach-Evolves}

-- What bounds the attempts of a job: those that were not suspended are at most one more than the
-- failures that are forgiven, and while the job may still be claimed there is room for one.
pub record IsBounded (j : StoredJob) : Type 0 where
  pub suspended : j.continuations ≤ j.attempts
  pub in_progress : is_running j.status ≡ true → j.continuations < j.attempts
  pub claimable : is_pending j.status ≡ true → j.attempts ≤ j.continuations + allowance j
  pub bound : j.attempts ≤ j.continuations + suc (allowance j)

JobStep-IsBounded : (j j' : StoredJob) → JobStep j j' → IsBounded j → IsBounded j'
JobStep-IsBounded j j' s b =
    let same : allowance j' ≡ allowance j = ap (λ m. max m 1) s.frozen.max_retries in
    elim s.move [
      | marked q (a, c) ↦ ground arith
      | claimed q r a c ↦ ground arith
      | suspends q r a c ↦ ground arith
      | ends q r (a, c) ↦ ground arith
      | requeued q r (a, c) l ↦ ground arith
      | resumed q r (a, c) ↦ ground arith
      | dropped q r n (a, c) ↦ ground arith
    ]

-- However the operations interleave, a job of bounded attempts stays so: at most one attempt more
-- than `max_retries` (than one, if that is zero) is ever started that does not end by waiting.
pub attempts-IsBounded :
    (db db' : Tables) → HasKeys db → Reach db db' → All IsBounded db.jobs → All IsBounded db'.jobs
attempts-IsBounded db db' keys r b =
    let e = Reach-Evolves keys r in
    Rows-All JobPath IsBounded (λ j j' p. Star-keeps IsBounded JobStep-IsBounded p) e.jobs b

-- Each event of an audit has a number greater than those before it.
abbrev pub IsOrdered : List AuditEvent → Type 0
IsOrdered [] = Unit
IsOrdered (e ∷ es) = All (λ d. d.audit_id ≡ e.audit_id → e.sequence < d.sequence) es × IsOrdered es

IsOrdered-append :
    (es : List AuditEvent) (d : AuditEvent)
    → IsOrdered es
    → All (λ e. d.audit_id ≡ e.audit_id → e.sequence < d.sequence) es
    → IsOrdered (es ++ d ∷ [])
IsOrdered-append [] d h k = (tt, tt)
IsOrdered-append (e ∷ es) d (p, h) (q, k) =
    (All-append _ es (d ∷ []) p (q, tt), IsOrdered-append es d h k)

last_sequence-bound :
    (id : String) (n : ℕ) (es : List AuditEvent)
    → last_sequence id es < n
    → All (λ e. id ≡ e.audit_id → e.sequence < n) es
unfolding last_sequence
last_sequence-bound id n [] h = tt
last_sequence-bound id n (e ∷ es) h = elim (Bool-cases (e.audit_id == id)) [
  | inl here ↦
      let most : max e.sequence (last_sequence id es) < n = rw (here, last_sequence) at h in
      (λ _. omega (arith, most), last_sequence-bound id n es (omega (arith, most)))
  | inr other ↦ (
    λ same. absurd (ground (arith, string_eq.eqb_iff e.audit_id id)),
    last_sequence-bound id n es (rw (other, last_sequence) at h),
  )
]

EventStep-IsOrdered : (es es' : List AuditEvent) → EventStep es es' → IsOrdered es → IsOrdered es'
unfolding next_event
EventStep-IsOrdered es es' (id, content, same) h =
    rw same (IsOrdered-append es _ h (last_sequence-bound id _ es (omega arith)))

-- The events of each audit stay in strictly increasing order of their numbers, so no two of
-- them share one.
pub events-IsOrdered :
    (db db' : Tables) → HasKeys db → Reach db db' → IsOrdered db.events → IsOrdered db'.events
events-IsOrdered db db' keys r h =
    let e = Reach-Evolves keys r in Star-keeps IsOrdered EventStep-IsOrdered e.events h
