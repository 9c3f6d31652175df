-- ===== src/Agents/Budget/Outcome.antt =====
-- What the operations of the budget have done when they return.
use mathlib.Core.List.{Memᴰ}
use mathlib.Core.Path.{subst}
use kase_ai.Prelude.{
  ℕ, ◌+◌, String, ◌≡◌, sym, inl, inr, ◌⊎◌, Bool, true, false, not, ◌&&◌, Option, is_some, List, [],
  ◌∷◌, Result, ok, ok_injective, >>=-eq-ok, or_throw, or_throw-eq-ok, throw_if, Bool-cases,
}
use kase_ai.Orchestrator.AuditState.{AuditStatus}
use kase_ai.Orchestrator.History.Keys.{find-eq-some}
use kase_ai.Agents.Budget.{
  exceeded, AgentRole, is_active, AiReservation, AiTables, compute, transition,
}
use kase_ai.Agents.Budget.Operations.{
  BudgetError, CallRequest, Settlement, find_reservation, reserved_rows, reserve, settled_rows,
  settle, is_allowed, is_safe_integer, invalid_size, reservation_not_found, in_full,
  expire_reservation, expire_all, recover_run,
}

-- A reservation is a repetition, is refused, or is made.
pub reserve-eq-ok :
    (r : CallRequest) (now : ℕ) (t : AiTables) (x : Bool × AiTables)
    → reserve r now t ≡ ok x
    → (x ≡ (false, t))
      ⊎ (x ≡ (false, transition t.budget.degradation_state exceeded now t))
      ⊎ ((is_some (find_reservation r.id t.reservations) ≡ false)
          × (is_allowed r.agent_role (r.estimated_input + r.max_output) now t ≡ true)
          × (x ≡ (
            true,
            transition t.budget.degradation_state
                (compute (reserved_rows r t).budget t.snapshot)
                now
                (reserved_rows r t),
          )))
unfolding reserve
reserve-eq-ok r now t x e =
    let bad = not (
      is_safe_integer r.estimated_input
      && is_safe_integer r.max_output
      && is_safe_integer r.context_bytes) in
    let (_, _, e') = >>=-eq-ok (throw_if bad invalid_size) _ e in
    elim (Bool-cases (is_some (find_reservation r.id t.reservations))) [
      | inl again ↦
          let same : ◌≡◌ {A = Result BudgetError (Bool × AiTables)} (ok (false, t)) (ok x) =
            rw again at e' in
          inl (sym (ok_injective same))
      | inr fresh ↦
          elim (Bool-cases (is_allowed r.agent_role (r.estimated_input + r.max_output) now t)) [
            | inl allowed ↦
                let same : ◌≡◌ {A = Result BudgetError (Bool × AiTables)}
                    (ok (
                      true,
                      transition t.budget.degradation_state
                          (compute (reserved_rows r t).budget t.snapshot) now (reserved_rows r t),
                    ))
                    (ok x) =
                  rw (fresh, allowed) at e' in
                inr (inr (fresh, allowed, sym (ok_injective same)))
            | inr refused ↦
                let same : ◌≡◌ {A = Result BudgetError (Bool × AiTables)}
                    (ok (false, transition t.budget.degradation_state exceeded now t)) (ok x) =
                  rw (fresh, refused) at e' in
                inr (inl (sym (ok_injective same)))
          ]
    ]

-- A settlement finds its reservation settled, or settles it.
pub settle-eq-ok :
    (s : Settlement) (now : ℕ) (t t' : AiTables)
    → settle s now t ≡ ok t'
    → (t' ≡ t)
      ⊎ ((r : AiReservation) × Memᴰ r t.reservations
          × (is_active r.status ≡ true)
          × (t'
              ≡ transition t.budget.degradation_state
                  (compute (settled_rows s r t).budget t.snapshot)
                  now
                  (settled_rows s r t)))
unfolding settle
settle-eq-ok s now t t' e =
    let bad = not (
      is_safe_integer s.actual_input
      && is_safe_integer s.actual_output
      && is_safe_integer s.actual_cached) in
    let (_, _, e₁) = >>=-eq-ok (throw_if bad invalid_size) _ e in
    let (r, found, e₂) =
      >>=-eq-ok (or_throw (find_reservation s.reservation_id t.reservations) reservation_not_found)
        _ e₁ in
    let (m, _) = find-eq-some _ t.reservations r (or_throw-eq-ok _ _ found) in
    elim (Bool-cases (is_active r.status)) [
      | inr over ↦
          let same : ◌≡◌ {A = Result BudgetError AiTables} (ok t) (ok t') = rw over at e₂ in
          inl (sym (ok_injective same))
      | inl on ↦
          let same : ◌≡◌ {A = Result BudgetError AiTables}
              (ok (
                transition t.budget.degradation_state
                  (compute (settled_rows s r t).budget t.snapshot) now (settled_rows s r t)))
              (ok t') =
            rw on at e₂ in
          inr (r, m, on, sym (ok_injective same))
    ]

-- One operation on the budget, or a change of the audit by another part.
pub data AiStep (t t' : AiTables) : Type 0 where
  reserves :
      (r : CallRequest) (now : ℕ) (x : Bool × AiTables)
      → reserve r now t ≡ ok x
      → x.1 ≡ t'
      → AiStep t t'
  settles : (s : Settlement) (now : ℕ) → settle s now t ≡ ok t' → AiStep t t'
  expires : (id : String) (now : ℕ) → expire_reservation id now t ≡ ok t' → AiStep t t'
  recovers : (role : AgentRole) (now : ℕ) → recover_run role now t ≡ ok t' → AiStep t t'
  audit_changes :
      (status : AuditStatus) (requested : Option ℕ)
      → record t { status = status; cancellation_requested_at = requested } ≡ t'
      → AiStep t t'

-- What reservations and settlements keep, every operation keeps.
module _ {ℓ} (P : AiTables → Type ℓ)
    (reserve_keeps : (r : CallRequest) (now : ℕ) (t : AiTables) (x : Bool × AiTables)
      → reserve r now t ≡ ok x
      → P t
      → P x.1)
    (settle_keeps : (s : Settlement) (now : ℕ) (t t' : AiTables)
      → settle s now t ≡ ok t'
      → P t
      → P t')
    (audit_keeps : (status : AuditStatus) (requested : Option ℕ) (t : AiTables)
      → P t
      → P (record t { status = status; cancellation_requested_at = requested })) where
  expire_keeps :
      (id : String) (now : ℕ) (t t' : AiTables) → expire_reservation id now t ≡ ok t' → P t → P t'
  unfolding expire_reservation
  expire_keeps id now t t' e p =
      let (r, _, e') =
        >>=-eq-ok (or_throw (find_reservation id t.reservations) reservation_not_found) _ e in
      settle_keeps (in_full id r) now t t' e' p

  expire_all_keeps :
      (rs : List AiReservation) (now : ℕ) (t t' : AiTables)
      → expire_all rs now t ≡ ok t'
      → P t
      → P t'
  unfolding expire_all
  expire_all_keeps [] now t t' e p = subst P (ok_injective e) p
  expire_all_keeps (r ∷ rs) now t t' e p =
      let (t₁, a, e') = >>=-eq-ok (expire_reservation r.id now t) (expire_all rs now) e in
      expire_all_keeps rs now t₁ t' e' (expire_keeps r.id now t t₁ a p)

  pub AiStep-keeps : (t t' : AiTables) → AiStep t t' → P t → P t'
  unfolding recover_run
  AiStep-keeps t t' (reserves r now x e same) p = subst P same (reserve_keeps r now t x e p)
  AiStep-keeps t t' (settles s now e) p = settle_keeps s now t t' e p
  AiStep-keeps t t' (expires id now e) p = expire_keeps id now t t' e p
  AiStep-keeps t t' (recovers role now e) p = expire_all_keeps _ now t t' e p
  AiStep-keeps t t' (audit_changes status requested same) p =
      subst P same (audit_keeps status requested t p)
