-- ===== src/Agents/Budget/Conservation.antt =====
-- What is reserved of a budget is what the active reservations ask for.
use mathlib.Core.List.{Memᴰ}
use kase_ai.Prelude.{
  ℕ, ◌+◌, String, ◌≡◌, refl, inl, inr, Bool, true, false, ◌&&◌, is_some, List, [], ◌∷◌, ◌++◌, map,
  arith, ok, ◌==◌, string_eq, contains, update_where, leb, Bool-cases, if◌then◌else◌, sum_by,
  sum_by-append, sum_by-update, IsKeyed, IsKeyed-update, IsKeyed-snoc, Star, Star-keeps,
}
use kase_ai.Agents.Budget.{
  DegradationState, exceeded, AgentRole, blackbox, whitebox, is_role, Usage, AiBudget,
  ReservationStatus, is_active, AiReservation, AiTables, transition, rank, update_usage,
}
use kase_ai.Agents.Budget.Outcome.{AiStep, reserve-eq-ok, settle-eq-ok, AiStep-keeps}
use kase_ai.Agents.Budget.Operations.{
  CallRequest, Settlement, find_reservation, new_reservation, reserved_rows, reserved_more, reserve,
  settled_rows, settled_row, settled_usage, settle,
}

-- What an active reservation of the roles in question asks for: its tokens, and one call.
abbrev pub tokens_if : (AgentRole → Bool) → AiReservation → ℕ
tokens_if roles r =
    if is_active r.status && roles r.agent_role then r.estimated_input + r.max_output else 0

abbrev pub call_if : (AgentRole → Bool) → AiReservation → ℕ
call_if roles r = if is_active r.status && roles r.agent_role then 1 else 0

pub record Covers (roles : AgentRole → Bool) (u : Usage) (rs : List AiReservation) : Type 0 where
  pub tokens : u.tokens_reserved ≡ sum_by (tokens_if roles) rs
  pub calls : u.calls_reserved ≡ sum_by (call_if roles) rs

pub record IsBalanced (t : AiTables) : Type 0 where
  pub keys : IsKeyed (λ r. r.id) t.reservations
  pub total : Covers (λ role. true) t.budget.total t.reservations
  pub bb : Covers (is_role blackbox) t.budget.bb t.reservations
  pub wb : Covers (is_role whitebox) t.budget.wb t.reservations

transition-IsBalanced :
    (from to : DegradationState) (now : ℕ) (t : AiTables)
    → IsBalanced t
    → IsBalanced (transition from to now t)
unfolding transition
transition-IsBalanced from to now t b = elim (Bool-cases (leb (rank to) (rank from))) [
  | inl kept ↦ rw (kept, transition) b
  | inr worse ↦
      rw (worse, transition) (record { keys = b.keys; total = b.total; bb = b.bb; wb = b.wb })
]

find-none-keys :
    (id : String) (rs : List AiReservation)
    → is_some (find_reservation id rs) ≡ false
    → contains (map (λ r. r.id) rs) id ≡ false
find-none-keys id [] h = refl
find-none-keys id (r ∷ rs) h = ground (arith, find-none-keys id rs)

Covers-more :
    (roles : AgentRole → Bool) (r : CallRequest) (u : Usage) (rs : List AiReservation)
    → roles r.agent_role ≡ true
    → Covers roles u rs
    → Covers roles
        (reserved_more (r.estimated_input + r.max_output) u)
        (rs ++ new_reservation r ∷ [])
Covers-more roles r u rs hit c = record {
  tokens =
      rw (sum_by-append (tokens_if roles) rs (new_reservation r ∷ []), hit)
        (omega (arith, c.tokens));
  calls =
      rw (sum_by-append (call_if roles) rs (new_reservation r ∷ []), hit) (omega (arith, c.calls));
}

Covers-same :
    (roles : AgentRole → Bool) (r : CallRequest) (u : Usage) (rs : List AiReservation)
    → roles r.agent_role ≡ false
    → Covers roles u rs
    → Covers roles u (rs ++ new_reservation r ∷ [])
Covers-same roles r u rs miss c = record {
  tokens =
      rw (sum_by-append (tokens_if roles) rs (new_reservation r ∷ []), miss)
        (omega (arith, c.tokens));
  calls =
      rw (sum_by-append (call_if roles) rs (new_reservation r ∷ []), miss) (omega (arith, c.calls));
}

update_usage-total :
    (role : AgentRole) (f : Usage → Usage) (b : AiBudget)
    → (update_usage role f b).total ≡ f b.total
update_usage-total blackbox f b = refl
update_usage-total whitebox f b = refl

update_usage-bb :
    (role : AgentRole) (f : Usage → Usage) (b : AiBudget)
    → (update_usage role f b).bb ≡ (if is_role blackbox role then f b.bb else b.bb)
update_usage-bb blackbox f b = refl
update_usage-bb whitebox f b = refl

update_usage-wb :
    (role : AgentRole) (f : Usage → Usage) (b : AiBudget)
    → (update_usage role f b).wb ≡ (if is_role whitebox role then f b.wb else b.wb)
update_usage-wb blackbox f b = refl
update_usage-wb whitebox f b = refl

-- Where each of the three usages covers its roles before and after a change of the rows, the budget
-- changed for the role of the change covers them.
module _ (role : AgentRole) (f : Usage → Usage) (t : AiTables) (rs : List AiReservation)
    (hit : (roles : AgentRole → Bool) (u : Usage)
      → roles role ≡ true
      → Covers roles u t.reservations
      → Covers roles (f u) rs)
    (miss : (roles : AgentRole → Bool) (u : Usage)
      → roles role ≡ false
      → Covers roles u t.reservations
      → Covers roles u rs) where
  Covers-if :
      (roles : AgentRole → Bool) (u : Usage)
      → Covers roles u t.reservations
      → Covers roles (if roles role then f u else u) rs
  Covers-if roles u c = elim (Bool-cases (roles role)) [
    | inl e ↦ rw e (hit roles u e c)
    | inr e ↦ rw e (miss roles u e c)
  ]

  update_usage-IsBalanced :
      IsKeyed (λ r. r.id) rs
      → IsBalanced t
      → IsBalanced (record t { reservations = rs; budget = update_usage role f t.budget })
  update_usage-IsBalanced keys b = record {
    keys = keys;
    total = rw (update_usage-total role f t.budget) (hit (λ r. true) t.budget.total refl b.total);
    bb = rw (update_usage-bb role f t.budget) (Covers-if (is_role blackbox) t.budget.bb b.bb);
    wb = rw (update_usage-wb role f t.budget) (Covers-if (is_role whitebox) t.budget.wb b.wb);
  }

reserved_rows-IsBalanced :
    (r : CallRequest) (t : AiTables)
    → is_some (find_reservation r.id t.reservations) ≡ false
    → IsBalanced t
    → IsBalanced (reserved_rows r t)
reserved_rows-IsBalanced r t fresh b =
    let keys =
      IsKeyed-snoc (λ k. k.id) t.reservations (new_reservation r) b.keys
        (find-none-keys r.id t.reservations fresh) in
    update_usage-IsBalanced r.agent_role (reserved_more (r.estimated_input + r.max_output)) t
      (t.reservations ++ new_reservation r ∷ [])
      (λ roles u e c. Covers-more roles r u t.reservations e c)
      (λ roles u e c. Covers-same roles r u t.reservations e c) keys b

settled-inactive :
    (s : Settlement)
    → is_active (if s.unknown_outcome then ReservationStatus.expired else ReservationStatus.settled)
      ≡ false
settled-inactive s = elim (Bool-cases s.unknown_outcome) [ inl e ↦ rw e refl | inr e ↦ rw e refl ]

-- A settled row counts no more.
Covers-less :
    (roles : AgentRole → Bool) (s : Settlement) (r : AiReservation) (u : Usage)
    (rs : List AiReservation)
    → IsKeyed (λ k. k.id) rs
    → Memᴰ r rs
    → is_active r.status ≡ true
    → roles r.agent_role ≡ true
    → Covers roles u rs
    → Covers roles
        (settled_usage (r.estimated_input + r.max_output) (s.actual_input + s.actual_output) u)
        (update_where (λ k. k.id == r.id) (settled_row s) rs)
Covers-less roles s r u rs keys m on hit c =
    let tokens = sum_by-update (λ k. k.id) (tokens_if roles) (settled_row s) rs r keys m in
    let calls = sum_by-update (λ k. k.id) (call_if roles) (settled_row s) rs r keys m in
    let off = settled-inactive s in
    record {
      tokens =
          let sums : sum_by (tokens_if roles) (update_where (λ k. k.id == r.id) (settled_row s) rs)
                + (r.estimated_input + r.max_output)
              ≡ sum_by (tokens_if roles) rs + 0 =
            rw (on, hit, off) at tokens in
          omega (arith, sums, c.tokens);
      calls =
          let sums : sum_by (call_if roles) (update_where (λ k. k.id == r.id) (settled_row s) rs)
                + 1
              ≡ sum_by (call_if roles) rs + 0 =
            rw (on, hit, off) at calls in
          omega (arith, sums, c.calls);
    }

Covers-kept :
    (roles : AgentRole → Bool) (s : Settlement) (r : AiReservation) (u : Usage)
    (rs : List AiReservation)
    → IsKeyed (λ k. k.id) rs
    → Memᴰ r rs
    → roles r.agent_role ≡ false
    → Covers roles u rs
    → Covers roles u (update_where (λ k. k.id == r.id) (settled_row s) rs)
Covers-kept roles s r u rs keys m miss c =
    let tokens = sum_by-update (λ k. k.id) (tokens_if roles) (settled_row s) rs r keys m in
    let calls = sum_by-update (λ k. k.id) (call_if roles) (settled_row s) rs r keys m in
    record {
      tokens = ground (arith, tokens, c.tokens, miss);
      calls = ground (arith, calls, c.calls, miss);
    }

settled_rows-IsBalanced :
    (s : Settlement) (r : AiReservation) (t : AiTables)
    → Memᴰ r t.reservations
    → is_active r.status ≡ true
    → IsBalanced t
    → IsBalanced (settled_rows s r t)
settled_rows-IsBalanced s r t m on b =
    let keys =
      IsKeyed-update (λ k. k.id) (λ k. k.id == r.id) (settled_row s) t.reservations (λ k. refl)
        b.keys in
    let moved =
      update_usage-IsBalanced r.agent_role
        (settled_usage (r.estimated_input + r.max_output) (s.actual_input + s.actual_output)) t
        (update_where (λ k. k.id == r.id) (settled_row s) t.reservations)
        (λ roles u e c. Covers-less roles s r u t.reservations b.keys m on e c)
        (λ roles u e c. Covers-kept roles s r u t.reservations b.keys m e c) keys b in
    record { keys = moved.keys; total = moved.total; bb = moved.bb; wb = moved.wb }

reserve-IsBalanced :
    (r : CallRequest) (now : ℕ) (t : AiTables) (x : Bool × AiTables)
    → reserve r now t ≡ ok x
    → IsBalanced t
    → IsBalanced x.1
reserve-IsBalanced r now t x e b = elim (reserve-eq-ok r now t x e) [
  | inl same ↦ rw same b
  | inr (inl same) ↦ rw same (transition-IsBalanced _ exceeded now t b)
  | inr (inr (fresh, _, same)) ↦
      rw same (transition-IsBalanced _ _ now _ (reserved_rows-IsBalanced r t fresh b))
]

settle-IsBalanced :
    (s : Settlement) (now : ℕ) (t t' : AiTables)
    → settle s now t ≡ ok t'
    → IsBalanced t
    → IsBalanced t'
settle-IsBalanced s now t t' e b = elim (settle-eq-ok s now t t' e) [
  | inl same ↦ rw same b
  | inr (r, m, on, same) ↦
      rw same (transition-IsBalanced _ _ now _ (settled_rows-IsBalanced s r t m on b))
]

-- Over any sequence of reservations, settlements, expiries and recoveries, what the budget holds as
-- reserved, of tokens and of calls, in total and for each role, is what the active reservations ask
-- for: none is lost and none is counted twice.
pub budget-IsBalanced : (t t' : AiTables) → Star AiStep t t' → IsBalanced t → IsBalanced t'
budget-IsBalanced t t' steps b =
    Star-keeps IsBalanced
      (AiStep-keeps IsBalanced reserve-IsBalanced settle-IsBalanced
        (λ status requested k b. record { keys = b.keys; total = b.total; bb = b.bb; wb = b.wb }))
      steps b
