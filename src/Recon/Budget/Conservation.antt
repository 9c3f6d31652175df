-- ===== src/Recon/Budget/Conservation.antt =====
-- What is reserved of a request budget is what the active reservations hold.
use mathlib.Core.List.{Memᴰ}
use mathlib.Core.Path.{subst}
use kase_ai.Prelude.{
  ℕ, ◌+◌, ◌-◌, String, ◌≡◌, refl, inl, inr, true, false, ◌&&◌, ◌||◌, none, List, [], ◌∷◌, ◌++◌, map,
  arith, ◌==◌, string_eq, nat_eq, Result, ok, ok_injective, >>=-eq-ok, or_throw, or_throw-eq-ok,
  throw_if, find, ltb, update_where, contains, if◌then◌else◌, All, Bool-cases, mem-update_where,
  sum_by, sum_by-append, sum_by-update, IsKeyed, IsKeyed-update, IsKeyed-snoc,
}
use kase_ai.Orchestrator.History.Keys.{find-eq-some}
use kase_ai.Recon.Budget.{
  Slot, is_active_slot, RequestBudget, ReconTables, SlotRequest, ReconError, budget_not_found,
  slot_not_found, does_not_fit, update_budget, update_slot, charged, reclaimed_slot, reclaim,
  granted_slot, new_slot, more_requests, upsert_slot, settled_slot, settle_requests,
}

-- What a reservation holds of the budget of an audit.
abbrev pub held : String → Slot → ℕ
held audit_id s = if is_active_slot s.status && audit_id == s.audit_id then s.reserved_count else 0

pub record IsBalanced (db : ReconTables) : Type 0 where
  pub keys : IsKeyed (λ s. s.id) db.slots
  pub covers : All (λ b. b.reserved ≡ sum_by (held b.audit_id) db.slots) db.budgets

-- Slots change by what the audit's share of the sum gains and loses; the budget follows.
Covers-move :
    (audit_id : String) (gained lost : ℕ) (f : RequestBudget → RequestBudget)
    (slots slots' : List Slot) (budgets : List RequestBudget)
    → ((x : String)
        → sum_by (held x) slots' + (if x == audit_id then lost else 0)
          ≡ sum_by (held x) slots + (if x == audit_id then gained else 0))
    → ((b : RequestBudget) → (f b).reserved ≡ b.reserved + gained - lost)
    → ((b : RequestBudget) → (f b).audit_id ≡ b.audit_id)
    → All (λ b. b.reserved ≡ sum_by (held b.audit_id) slots) budgets
    → All
        (λ b. b.reserved ≡ sum_by (held b.audit_id) slots')
        (update_where (λ b. b.audit_id == audit_id) f budgets)
Covers-move audit_id gained lost f slots slots' [] sums amount own h = tt
Covers-move audit_id gained lost f slots slots' (b ∷ bs) sums amount own (p, h) =
    let moved = sums b.audit_id in
    (
      elim (Bool-cases (b.audit_id == audit_id)) [
        | inl hit ↦
            let total : sum_by (held b.audit_id) slots' + lost
                ≡ sum_by (held b.audit_id) slots + gained =
              rw hit at moved in
            rw (hit, own b, amount b) (omega (arith, total, p))
        | inr miss ↦
            let total : sum_by (held b.audit_id) slots' + 0 ≡ sum_by (held b.audit_id) slots + 0 =
              rw miss at moved in
            rw miss (omega (arith, total, p))
      ],
      Covers-move audit_id gained lost f slots slots' bs sums amount own h,
    )

-- An active slot that ends gives back what it holds.
release-IsBalanced :
    (s : Slot) (spent : ℕ) (f : Slot → Slot) (db : ReconTables)
    → Memᴰ s db.slots
    → is_active_slot s.status ≡ true
    → ((k : Slot) → is_active_slot (f k).status ≡ false)
    → ((k : Slot) → (f k).id ≡ k.id)
    → IsBalanced db
    → IsBalanced (update_slot s.id f (update_budget s.audit_id (charged s.reserved_count spent) db))
release-IsBalanced s spent f db m on off same b = record {
  keys = IsKeyed-update (λ k. k.id) (λ k. k.id == s.id) f db.slots same b.keys;
  covers =
      Covers-move s.audit_id 0 s.reserved_count (charged s.reserved_count spent) db.slots
        (update_where (λ k. k.id == s.id) f db.slots) db.budgets
        (λ x.
          let sums = sum_by-update (λ k. k.id) (held x) f db.slots s b.keys m in
          let gone = off s in ground (arith, sums, on, gone))
        (λ k. omega arith) (λ k. refl) b.covers;
}

-- A row that has expired and is reclaimed stays in its place, and holds nothing.
pub reclaim-IsBalanced :
    (s : Slot) (now : ℕ) (db db' : ReconTables)
    → reclaim s now db ≡ ok db'
    → Memᴰ s db.slots
    → is_active_slot s.status ≡ true
    → IsBalanced db
    → IsBalanced db' × Memᴰ (reclaimed_slot now s) db'.slots
unfolding reclaim
reclaim-IsBalanced s now db db' e m on b =
    let (_, _, e') =
      >>=-eq-ok (or_throw (find (λ b. b.audit_id == s.audit_id) db.budgets) budget_not_found) _ e in
    subst (λ t. IsBalanced t × Memᴰ (reclaimed_slot now s) t.slots) (ok_injective e')
      (
        release-IsBalanced s s.reserved_count (reclaimed_slot now) db m on (λ k. refl) (λ k. refl)
            b,
        mem-update_where (λ k. k.id == s.id) (reclaimed_slot now) db.slots s m
            ((string_eq.eqb_iff s.id s.id).1 refl),
      )

-- A settlement, whatever it charges, releases what its reservation held, once: the budget stays equal
-- to what the active reservations hold.
pub settle_requests-IsBalanced :
    (id : String) (granted consumed now : ℕ) (db db' : ReconTables)
    → settle_requests id granted consumed now db ≡ ok db'
    → IsBalanced db
    → IsBalanced db'
unfolding settle_requests
settle_requests-IsBalanced id granted consumed now db db' e b =
    elim (Bool-cases (id == "" || granted == 0)) [
      | inl nothing ↦
          let same : ◌≡◌ {A = Result ReconError ReconTables} (ok db) (ok db') =
            rw (nothing, settle_requests) at e in
          subst IsBalanced (ok_injective same) b
      | inr something ↦
          let (_, _, e₁) =
            >>=-eq-ok (throw_if (ltb granted consumed) does_not_fit) _
              (rw (something, settle_requests) at e) in
          let (s, found, e₂) =
            >>=-eq-ok (or_throw (find (λ s. s.id == id) db.slots) slot_not_found) _ e₁ in
          let (m, _) = find-eq-some _ db.slots s (or_throw-eq-ok _ _ found) in
          elim (Bool-cases (is_active_slot s.status)) [
            | inr over ↦
                let same : ◌≡◌ {A = Result ReconError ReconTables} (ok db) (ok db') =
                  rw over at e₂ in
                subst IsBalanced (ok_injective same) b
            | inl on ↦
                let (_, _, e₃) =
                  >>=-eq-ok
                    (or_throw (find (λ b. b.audit_id == s.audit_id) db.budgets) budget_not_found) _
                    (rw on at e₂) in
                let same : ◌≡◌ {A = Result ReconError ReconTables}
                    (ok (
                      update_slot s.id (settled_slot consumed now)
                        (update_budget s.audit_id (charged s.reserved_count consumed) db)))
                    (ok db') =
                  e₃ in
                subst IsBalanced (ok_injective same) (
                  release-IsBalanced s consumed (settled_slot consumed now) db m on (λ k. refl)
                    (λ k. refl) b)
          ]
    ]

-- The row that an `upsert` finds holds nothing before, and what is granted after.
pub grant_existing-IsBalanced :
    (r : SlotRequest) (n : ℕ) (t : Slot) (db : ReconTables)
    → Memᴰ t db.slots
    → is_active_slot t.status ≡ false
    → t.audit_id ≡ r.audit_id
    → IsBalanced db
    → IsBalanced
        (update_slot t.id (granted_slot r n) (update_budget r.audit_id (more_requests n) db))
grant_existing-IsBalanced r n t db m off own b = record {
  keys =
      IsKeyed-update (λ k. k.id) (λ k. k.id == t.id) (granted_slot r n) db.slots (λ k. refl) b.keys;
  covers =
      Covers-move r.audit_id n 0 (more_requests n) db.slots
        (update_where (λ k. k.id == t.id) (granted_slot r n) db.slots) db.budgets
        (λ x.
          let sums = sum_by-update (λ k. k.id) (held x) (granted_slot r n) db.slots t b.keys m in
          let sums' = rw (own, off) at sums in ground (arith, sums'))
        (λ k. omega arith) (λ k. refl) b.covers;
}

pub grant_new-IsBalanced :
    (r : SlotRequest) (new_id : String) (n : ℕ) (db : ReconTables)
    → contains (map (λ s. s.id) db.slots) new_id ≡ false
    → IsBalanced db
    → IsBalanced (upsert_slot r new_id n none (update_budget r.audit_id (more_requests n) db))
grant_new-IsBalanced r new_id n db fresh b = record {
  keys = IsKeyed-snoc (λ k. k.id) db.slots (new_slot r new_id n) b.keys fresh;
  covers =
      Covers-move r.audit_id n 0 (more_requests n) db.slots (db.slots ++ new_slot r new_id n ∷ [])
        db.budgets
        (λ x.
          let sums = sum_by-append (held x) db.slots (new_slot r new_id n ∷ []) in
          rw sums (ground arith))
        (λ k. omega arith) (λ k. refl) b.covers;
}
