-- ===== src/Agents/Budget.antt =====
-- apps/api/src/agent-runtime/budget: the tokens and the calls that the agents of an audit may use.
-- An operation holds the lock of its audit and reads and writes the rows of that audit only, so the
-- state is these rows. The columns of a prefix (`total`, `bb`, `wb`) are one record each.
use kase_ai.Prelude.{
  ℕ, zero, suc, ◌+◌, ◌-◌, ◌*◌, ◌^◌, max, String, Bool, true, false, not, ◌&&◌, ◌||◌, Option, none,
  some, List, [], ◌∷◌, ◌++◌, map, Result, ok, err, ◌>>=◌, ◌>>◌, throw_if, or_throw, is_some,
  is_none, ◌==◌, string_eq, nat_eq, find, filter, any, all, leb, ltb, update_where, if◌then◌else◌,
}
use kase_ai.Orchestrator.AuditState.{AuditStatus, audit_status_eq}
use kase_ai.Orchestrator.Lifecycle.{is_open}
pub mod Operations
pub mod Outcome
pub mod Conservation
pub mod Limits

pub data DegradationState : Type 0 where
  green yellow red exceeded : DegradationState

-- `order.indexOf(state)`
abbrev pub rank : DegradationState → ℕ
rank green = 0
rank yellow = 1
rank red = 2
rank exceeded = 3

-- `used / limit`, which is not a number if both are zero.
abbrev pub Fraction : Type 0
Fraction = ℕ × ℕ

abbrev is_nan : Fraction → Bool
is_nan f = f.0 == 0 && f.1 == 0

-- `used / limit >= n / 10`
abbrev is_at_least : ℕ → Fraction → Bool
is_at_least n f = leb (n * f.1) (10 * f.0)

-- `degradationStateFor(Math.max(…))`: of several numbers, one that is not a number prevails, and
-- compares as less than every threshold.
unfoldable pub degradation_state_for : List Fraction → DegradationState
degradation_state_for fs =
    if any is_nan fs
    then green
    else if any (is_at_least 10) fs
    then exceeded
    else if any (is_at_least 8) fs
    then red
    else if any (is_at_least 5) fs
    then yellow
    else green

pub data AgentRole : Type 0 where
  blackbox whitebox : AgentRole

abbrev pub is_role : AgentRole → AgentRole → Bool
is_role blackbox blackbox = true
is_role whitebox whitebox = true
is_role _ _ = false

pub record Usage : Type 0 where
  pub tokens_consumed : ℕ
  pub tokens_reserved : ℕ
  pub calls_consumed : ℕ
  pub calls_reserved : ℕ

-- `AuditAiBudget`
pub record AiBudget : Type 0 where
  pub total_tokens_limit : ℕ
  pub total_calls_limit : ℕ
  pub total : Usage
  pub bb : Usage
  pub wb : Usage
  pub degradation_state : DegradationState
  pub degraded_at : Option ℕ
  pub deadline_at : Option ℕ

-- `AuditAiSnapshot`
pub record AiSnapshot : Type 0 where
  pub budget_blackbox_tokens : ℕ
  pub budget_blackbox_calls : ℕ
  pub budget_whitebox_tokens : ℕ
  pub budget_whitebox_calls : ℕ

pub data ReservationStatus : Type 0 where
  active settled expired : ReservationStatus

abbrev pub is_active : ReservationStatus → Bool
is_active active = true
is_active _ = false

-- `AiBudgetReservation`
pub record AiReservation : Type 0 where
  pub id : String
  pub agent_role : AgentRole
  pub estimated_input : ℕ
  pub max_output : ℕ
  pub context_bytes : ℕ
  pub status : ReservationStatus
  pub settled_input : ℕ
  pub settled_output : ℕ
  pub settled_cached : ℕ

-- `AiUsage`
pub record AiUsage : Type 0 where
  pub reservation_id : String
  pub stage : AgentRole
  pub input_tokens : ℕ
  pub output_tokens : ℕ
  pub cached_tokens : ℕ

-- The rows of an audit; an event of type `budget.transition` is its `from` and `to`.
pub record AiTables : Type 0 where
  pub status : AuditStatus
  pub cancellation_requested_at : Option ℕ
  pub degraded : Bool
  pub degradation_reasons : List DegradationState
  pub budget : AiBudget
  pub snapshot : AiSnapshot
  pub reservations : List AiReservation
  pub usages : List AiUsage
  pub transitions : List (DegradationState × DegradationState)

abbrev pub stage_tokens : AgentRole → AiSnapshot → ℕ
stage_tokens blackbox s = s.budget_blackbox_tokens
stage_tokens whitebox s = s.budget_whitebox_tokens

abbrev pub stage_calls : AgentRole → AiSnapshot → ℕ
stage_calls blackbox s = s.budget_blackbox_calls
stage_calls whitebox s = s.budget_whitebox_calls

-- `budget[prefix + …]`
abbrev pub stage_usage : AgentRole → AiBudget → Usage
stage_usage blackbox b = b.bb
stage_usage whitebox b = b.wb

abbrev pub update_usage : AgentRole → (Usage → Usage) → AiBudget → AiBudget
update_usage blackbox f b = record b { total = f b.total; bb = f b.bb }
update_usage whitebox f b = record b { total = f b.total; wb = f b.wb }

abbrev pub tokens_of : Usage → ℕ
tokens_of u = u.tokens_consumed + u.tokens_reserved

abbrev pub calls_of : Usage → ℕ
calls_of u = u.calls_consumed + u.calls_reserved

abbrev pub fractions : AiBudget → AiSnapshot → List Fraction
fractions b s =
    (tokens_of b.total, b.total_tokens_limit)
    ∷ (calls_of b.total, b.total_calls_limit)
    ∷ (tokens_of b.bb, s.budget_blackbox_tokens)
    ∷ (tokens_of b.wb, s.budget_whitebox_tokens)
    ∷ (calls_of b.bb, s.budget_blackbox_calls)
    ∷ (calls_of b.wb, s.budget_whitebox_calls)
    ∷ []

abbrev pub worse : DegradationState → DegradationState → DegradationState
worse a b = if leb (rank a) (rank b) then b else a

-- `compute`, of which only the state is used.
unfoldable pub compute : AiBudget → AiSnapshot → DegradationState
compute b s = worse b.degradation_state (degradation_state_for (fractions b s))

unfoldable pub transition : DegradationState → DegradationState → ℕ → AiTables → AiTables
transition from to now t = if leb (rank to) (rank from) then t else record t {
  budget = record (t.budget) { degradation_state = to; degraded_at = some now };
  degraded = true;
  degradation_reasons = t.degradation_reasons ++ to ∷ [];
  transitions = t.transitions ++ (from, to) ∷ [];
}
