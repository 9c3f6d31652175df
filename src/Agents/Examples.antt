-- ===== src/Agents/Examples.antt =====
-- The budget's theorems at a small budget: a call that is reserved and settled.
use kase_ai.Prelude.{◌≡◌, refl, Bool, false, none, [], Result, ok, err, Star, done, more, arith}
use kase_ai.Orchestrator.AuditState.{AuditStatus}
use kase_ai.Agents.Budget.{
  green, blackbox, Usage, AiTables, compute, degradation_state_for, transition,
}
use kase_ai.Agents.Budget.Operations.{CallRequest, Settlement, reserve, settle, is_allowed}
use kase_ai.Agents.Budget.Outcome.{AiStep, reserves, settles}
use kase_ai.Agents.Budget.Conservation.{IsBalanced, budget-IsBalanced}
use kase_ai.Agents.Budget.Limits.{IsWithin, reserve-IsWithin}
use kase_ai.Prelude.{String}
use kase_ai.Agents.RetryStrategy.{classify_error, permanent_error, auth}

abbrev unused : Usage
unused = record { tokens_consumed = 0; tokens_reserved = 0; calls_consumed = 0; calls_reserved = 0 }

abbrev fresh : AiTables
fresh = record {
  status = AuditStatus.running;
  cancellation_requested_at = none;
  degraded = false;
  degradation_reasons = [];
  budget = record {
    total_tokens_limit = 1_000;
    total_calls_limit = 10;
    total = unused;
    bb = unused;
    wb = unused;
    degradation_state = green;
    degraded_at = none;
    deadline_at = none;
  };
  snapshot = record {
    budget_blackbox_tokens = 450;
    budget_blackbox_calls = 5;
    budget_whitebox_tokens = 350;
    budget_whitebox_calls = 4;
  };
  reservations = [];
  usages = [];
  transitions = [];
}

abbrev call : CallRequest
call = record {
  id = "abr_1";
  agent_role = blackbox;
  estimated_input = 200;
  max_output = 50;
  context_bytes = 0;
}

abbrev ok_or {ℓ κ} : {E : Type ℓ} {A : Type κ} → A → Result E A → A
ok_or a (ok b) = b
ok_or a (err e) = a

abbrev reserved : Bool × AiTables
reserved = ok_or (false, fresh) (reserve call 5 fresh)

reserved_lem : reserve call 5 fresh ≡ ok reserved
unfolding reserve is_allowed compute degradation_state_for transition
reserved_lem = refl

abbrev bill : Settlement
bill = record {
  reservation_id = "abr_1";
  actual_input = 190;
  actual_output = 20;
  actual_cached = 0;
  unknown_outcome = false;
}

abbrev billed : AiTables
billed = ok_or fresh (settle bill 9 reserved.1)

billed_lem : settle bill 9 reserved.1 ≡ ok billed
unfolding reserve settle is_allowed compute degradation_state_for transition
billed_lem = refl

one_call : Star AiStep fresh billed
one_call = more (reserves call 5 reserved reserved_lem refl) (more (settles bill 9 billed_lem) done)

fresh-IsBalanced : IsBalanced fresh
fresh-IsBalanced = record {
  keys = tt;
  total = record { tokens = refl; calls = refl };
  bb = record { tokens = refl; calls = refl };
  wb = record { tokens = refl; calls = refl };
}

budget_example : IsBalanced billed
budget_example = budget-IsBalanced fresh billed one_call fresh-IsBalanced

fresh-IsWithin : IsWithin fresh
fresh-IsWithin = ground arith

room_example : IsWithin reserved.1
room_example = reserve-IsWithin call 5 fresh reserved reserved_lem fresh-IsWithin

abbrev as_is : String → String
as_is s = s

auth_first : classify_error as_is (permanent_error "invalid_auth") ≡ auth
unfolding classify_error
auth_first = refl
