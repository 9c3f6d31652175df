-- ===== src/Agents/Budget/Operations.antt =====
-- The operations of BudgetService: apps/api/src/agent-runtime/budget/budget.service.ts.
use kase_ai.Prelude.{
  ℕ, ◌+◌, ◌-◌, ◌^◌, String, Bool, true, false, not, ◌&&◌, Option, none, some, List, [], ◌∷◌, ◌++◌,
  Result, ok, ◌>>=◌, ◌>>◌, throw_if, or_throw, is_some, is_none, ◌==◌, string_eq, nat_eq, find,
  filter, leb, ltb, update_where, if◌then◌else◌,
}
use kase_ai.Orchestrator.Lifecycle.{is_open}
use kase_ai.Agents.Budget.{
  DegradationState, exceeded, AgentRole, is_role, Usage, active, settled, expired, is_active,
  AiReservation, AiTables, stage_tokens, stage_calls, stage_usage, update_usage, tokens_of,
  calls_of, compute, transition, degradation_state_for,
}

pub data BudgetError : Type 0 where
  invalid_size reservation_not_found : BudgetError

-- `Number.isSafeInteger`
abbrev pub is_safe_integer : ℕ → Bool
is_safe_integer n = ltb n (2 ^ 53)

abbrev before_deadline : Option ℕ → ℕ → Bool
before_deadline none now = true
before_deadline (some deadline) now = ltb now deadline

abbrev is_exceeded : DegradationState → Bool
is_exceeded exceeded = true
is_exceeded _ = false

unfoldable pub is_allowed : AgentRole → ℕ → ℕ → AiTables → Bool
is_allowed role tokens now t =
    is_none t.cancellation_requested_at
    && is_open t.status
    && before_deadline t.budget.deadline_at now
    && not (is_exceeded t.budget.degradation_state)
    && leb (tokens_of t.budget.total + tokens) t.budget.total_tokens_limit
    && leb (calls_of t.budget.total + 1) t.budget.total_calls_limit
    && leb (tokens_of (stage_usage role t.budget) + tokens) (stage_tokens role t.snapshot)
    && leb (calls_of (stage_usage role t.budget) + 1) (stage_calls role t.snapshot)

-- What a call wants to reserve; the id is `deterministicId` of the call's coordinates.
pub record CallRequest : Type 0 where
  pub id : String
  pub agent_role : AgentRole
  pub estimated_input : ℕ
  pub max_output : ℕ
  pub context_bytes : ℕ

abbrev pub reserved_more : ℕ → Usage → Usage
reserved_more tokens u = record u {
  tokens_reserved = u.tokens_reserved + tokens;
  calls_reserved = u.calls_reserved + 1;
}

abbrev pub new_reservation : CallRequest → AiReservation
new_reservation r = record {
  id = r.id;
  agent_role = r.agent_role;
  estimated_input = r.estimated_input;
  max_output = r.max_output;
  context_bytes = r.context_bytes;
  status = active;
  settled_input = 0;
  settled_output = 0;
  settled_cached = 0;
}

abbrev pub find_reservation : String → List AiReservation → Option AiReservation
find_reservation id = find (λ r. r.id == id)

-- The rows after an allowed reservation, before the transition.
abbrev pub reserved_rows : CallRequest → AiTables → AiTables
reserved_rows r t = record t {
  reservations = t.reservations ++ new_reservation r ∷ [];
  budget = update_usage r.agent_role (reserved_more (r.estimated_input + r.max_output)) t.budget;
}

-- `reserve`: whether the call is allowed, with the rows. A repeated id never is.
unfoldable pub reserve : CallRequest → ℕ → AiTables → Result BudgetError (Bool × AiTables)
unfolding is_allowed compute degradation_state_for transition
reserve r now t = do
  throw_if
      (not (
        is_safe_integer r.estimated_input
        && is_safe_integer r.max_output
        && is_safe_integer r.context_bytes))
      invalid_size
  if is_some (find_reservation r.id t.reservations)
      then ok (false, t)
      else if not (is_allowed r.agent_role (r.estimated_input + r.max_output) now t)
      then ok (false, transition t.budget.degradation_state exceeded now t)
      else ok (
        true,
        transition t.budget.degradation_state (compute (reserved_rows r t).budget t.snapshot) now
            (reserved_rows r t),
      )

pub record Settlement : Type 0 where
  pub reservation_id : String
  pub actual_input : ℕ
  pub actual_output : ℕ
  pub actual_cached : ℕ
  pub unknown_outcome : Bool

abbrev pub settled_usage : ℕ → ℕ → Usage → Usage
settled_usage estimate actual u = record {
  tokens_consumed = u.tokens_consumed + actual;
  tokens_reserved = u.tokens_reserved - estimate;
  calls_consumed = u.calls_consumed + 1;
  calls_reserved = u.calls_reserved - 1;
}

abbrev pub settled_row : Settlement → AiReservation → AiReservation
settled_row s r = record r {
  status = if s.unknown_outcome then expired else settled;
  settled_input = s.actual_input;
  settled_output = s.actual_output;
  settled_cached = s.actual_cached;
}

abbrev pub settled_rows : Settlement → AiReservation → AiTables → AiTables
settled_rows s r t = record t {
  reservations = update_where (λ k. k.id == r.id) (settled_row s) t.reservations;
  budget =
      update_usage r.agent_role
        (settled_usage (r.estimated_input + r.max_output) (s.actual_input + s.actual_output))
        t.budget;
  usages =
      t.usages
      ++ record {
        reservation_id = r.id;
        stage = r.agent_role;
        input_tokens = s.actual_input;
        output_tokens = s.actual_output;
        cached_tokens = s.actual_cached;
      }
        ∷ [];
}

unfoldable pub settle : Settlement → ℕ → AiTables → Result BudgetError AiTables
unfolding compute degradation_state_for transition
settle s now t = do
  throw_if
      (not (
        is_safe_integer s.actual_input
        && is_safe_integer s.actual_output
        && is_safe_integer s.actual_cached))
      invalid_size
  r ← or_throw (find_reservation s.reservation_id t.reservations) reservation_not_found
  if not (is_active r.status)
      then ok t
      else ok (
          transition t.budget.degradation_state (compute (settled_rows s r t).budget t.snapshot) now
            (settled_rows s r t))

-- A call of unknown outcome is charged in full.
abbrev pub in_full : String → AiReservation → Settlement
in_full id r = record {
  reservation_id = id;
  actual_input = r.estimated_input;
  actual_output = r.max_output;
  actual_cached = 0;
  unknown_outcome = true;
}

-- `expireReservation`
unfoldable pub expire_reservation : String → ℕ → AiTables → Result BudgetError AiTables
unfolding settle
expire_reservation id now t = do
  r ← or_throw (find_reservation id t.reservations) reservation_not_found
  settle (in_full id r) now t

unfoldable pub expire_all : List AiReservation → ℕ → AiTables → Result BudgetError AiTables
unfolding expire_reservation
expire_all [] now t = ok t
expire_all (r ∷ rs) now t = expire_reservation r.id now t >>= expire_all rs now

-- `recoverRun`
unfoldable pub recover_run : AgentRole → ℕ → AiTables → Result BudgetError AiTables
unfolding expire_all
recover_run role now t =
    expire_all (filter (λ r. is_role r.agent_role role && is_active r.status) t.reservations) now t
