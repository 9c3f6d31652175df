-- ===== src/Agents/Budget/Limits.antt =====
-- The limits of the budget, and its degradation.
use kase_ai.Prelude.{
  ℕ, ◌+◌, ◌≤◌, ◌≡◌, refl, inl, inr, Bool, true, List, arith, ok, string_eq, leb, Bool-cases, Star,
  done, more,
}
use kase_ai.Orchestrator.AuditState.{audit_status_eq}
use kase_ai.Agents.Budget.{
  DegradationState, exceeded, rank, AgentRole, blackbox, whitebox, Usage, AiBudget, AiReservation,
  AiTables, transition, update_usage, stage_usage, stage_tokens, stage_calls, tokens_of, calls_of,
}
use kase_ai.Agents.Budget.Operations.{
  CallRequest, Settlement, reserved_rows, reserved_more, reserve, settled_rows, settle, is_allowed,
}
use kase_ai.Agents.Budget.Outcome.{AiStep, reserve-eq-ok, settle-eq-ok, AiStep-keeps}

-- What is consumed and reserved fits the limits, in total and for each role.
pub record IsWithin (t : AiTables) : Type 0 where
  pub tokens : tokens_of t.budget.total ≤ t.budget.total_tokens_limit
  pub calls : calls_of t.budget.total ≤ t.budget.total_calls_limit
  pub bb_tokens : tokens_of t.budget.bb ≤ t.snapshot.budget_blackbox_tokens
  pub bb_calls : calls_of t.budget.bb ≤ t.snapshot.budget_blackbox_calls
  pub wb_tokens : tokens_of t.budget.wb ≤ t.snapshot.budget_whitebox_tokens
  pub wb_calls : calls_of t.budget.wb ≤ t.snapshot.budget_whitebox_calls

transition-IsWithin :
    (from to : DegradationState) (now : ℕ) (t : AiTables)
    → IsWithin t
    → IsWithin (transition from to now t)
unfolding transition
transition-IsWithin from to now t w = elim (Bool-cases (leb (rank to) (rank from))) [
  | inl kept ↦ rw (kept, transition) w
  | inr worse_state ↦
      rw (worse_state, transition)
        (record {
          tokens = w.tokens;
          calls = w.calls;
          bb_tokens = w.bb_tokens;
          bb_calls = w.bb_calls;
          wb_tokens = w.wb_tokens;
          wb_calls = w.wb_calls;
        })
]

-- What an allowed call asks for is left.
pub record HasRoom (role : AgentRole) (tokens : ℕ) (t : AiTables) : Type 0 where
  pub total_tokens : tokens_of t.budget.total + tokens ≤ t.budget.total_tokens_limit
  pub total_calls : calls_of t.budget.total + 1 ≤ t.budget.total_calls_limit
  pub role_tokens : tokens_of (stage_usage role t.budget) + tokens ≤ stage_tokens role t.snapshot
  pub role_calls : calls_of (stage_usage role t.budget) + 1 ≤ stage_calls role t.snapshot

is_allowed-HasRoom :
    (role : AgentRole) (tokens now : ℕ) (t : AiTables)
    → is_allowed role tokens now t ≡ true
    → HasRoom role tokens t
unfolding is_allowed
is_allowed-HasRoom role tokens now t h = record {
  total_tokens = ground arith;
  total_calls = ground arith;
  role_tokens = ground arith;
  role_calls = ground arith;
}

reserved-IsWithin :
    (role : AgentRole) (tokens : ℕ) (t : AiTables) (rs : List AiReservation)
    → HasRoom role tokens t
    → IsWithin t
    → IsWithin
        (record t { reservations = rs; budget = update_usage role (reserved_more tokens) t.budget })
reserved-IsWithin blackbox tokens t rs h w = record {
  tokens = omega (arith, h.total_tokens);
  calls = omega (arith, h.total_calls);
  bb_tokens = omega (arith, h.role_tokens);
  bb_calls = omega (arith, h.role_calls);
  wb_tokens = w.wb_tokens;
  wb_calls = w.wb_calls;
}
reserved-IsWithin whitebox tokens t rs h w = record {
  tokens = omega (arith, h.total_tokens);
  calls = omega (arith, h.total_calls);
  bb_tokens = w.bb_tokens;
  bb_calls = w.bb_calls;
  wb_tokens = omega (arith, h.role_tokens);
  wb_calls = omega (arith, h.role_calls);
}

-- A reservation, whatever it asks for and whether it is granted or refused, never takes what is
-- consumed and reserved over a limit, neither the audit's nor that of the role.
pub reserve-IsWithin :
    (r : CallRequest) (now : ℕ) (t : AiTables) (x : Bool × AiTables)
    → reserve r now t ≡ ok x
    → IsWithin t
    → IsWithin x.1
reserve-IsWithin r now t x e w = elim (reserve-eq-ok r now t x e) [
  | inl same ↦ rw same w
  | inr (inl same) ↦ rw same (transition-IsWithin _ exceeded now t w)
  | inr (inr (_, allowed, same)) ↦ rw same (
      transition-IsWithin _ _ now _ (
        reserved-IsWithin r.agent_role (r.estimated_input + r.max_output) t _
          (is_allowed-HasRoom r.agent_role _ now t allowed) w))
]

update_usage-state :
    (role : AgentRole) (f : Usage → Usage) (b : AiBudget)
    → (update_usage role f b).degradation_state ≡ b.degradation_state
update_usage-state blackbox f b = refl
update_usage-state whitebox f b = refl

transition-le :
    (n : ℕ) (to : DegradationState) (from : DegradationState) (now : ℕ) (t : AiTables)
    → t.budget.degradation_state ≡ from
    → n ≤ rank from
    → n ≤ rank (transition from to now t).budget.degradation_state
unfolding transition
transition-le n to from now t same h = elim (Bool-cases (leb (rank to) (rank from))) [
  | inl kept ↦ rw (kept, transition) (rw same h)
  | inr worse_state ↦ rw (worse_state, transition) (ground (arith, worse_state))
]

reserve-le :
    (n : ℕ) (r : CallRequest) (now : ℕ) (t : AiTables) (x : Bool × AiTables)
    → reserve r now t ≡ ok x
    → n ≤ rank t.budget.degradation_state
    → n ≤ rank x.1.budget.degradation_state
reserve-le n r now t x e h = elim (reserve-eq-ok r now t x e) [
  | inl same ↦ rw same h
  | inr (inl same) ↦ rw same (transition-le n exceeded _ now t refl h)
  | inr (inr (_, _, same)) ↦
      rw same
        (transition-le n _ _ now (reserved_rows r t) (update_usage-state r.agent_role _ t.budget) h)
]

settle-le :
    (n : ℕ) (s : Settlement) (now : ℕ) (t t' : AiTables)
    → settle s now t ≡ ok t'
    → n ≤ rank t.budget.degradation_state
    → n ≤ rank t'.budget.degradation_state
settle-le n s now t t' e h = elim (settle-eq-ok s now t t' e) [
  | inl same ↦ rw same h
  | inr (r, _, _, same) ↦
      rw same (
        transition-le n _ _ now (settled_rows s r t) (update_usage-state r.agent_role _ t.budget) h)
]

Star-le :
    (n : ℕ) (t t' : AiTables)
    → Star AiStep t t'
    → n ≤ rank t.budget.degradation_state
    → n ≤ rank t'.budget.degradation_state
Star-le n t t' done h = h
Star-le n t t' (more {y = u} s steps) h = Star-le n u t' steps (
    AiStep-keeps (λ k. n ≤ rank k.budget.degradation_state) (reserve-le n) (settle-le n)
      (λ status requested k p. p) t u s h)

-- The degradation of a budget is irreversible: no sequence of operations takes it back to a better
-- state, also when consumption falls.
pub degradation_monotone :
    (t t' : AiTables)
    → Star AiStep t t'
    → rank t.budget.degradation_state ≤ rank t'.budget.degradation_state
degradation_monotone t t' steps = Star-le _ t t' steps (omega arith)
