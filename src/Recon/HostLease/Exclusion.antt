-- ===== src/Recon/HostLease/Exclusion.antt =====
-- While a lease runs, nobody else takes it.
use mathlib.Core.Path.{subst}
use kase_ai.Prelude.{
  ℕ, ◌+◌, ◌≤◌, ◌<◌, String, ◌≡◌, ◌≢◌, refl, sym, ap, ◌∙◌, ◌⊎◌, inl, inr, Bool, true, false, some,
  arith, ◌==◌, string_eq, ltb, Bool-cases, Option-cases, Star, Star-keeps,
}
use kase_ai.Recon.HostLease.{
  HostKey, LeaseState, min_lease_ms, holder, leased, try_acquire, is_token, renew, release,
}

-- What may happen while the worker of a token has the lease: others try, any worker renews, others
-- release, and time passes.
pub data LeaseStep (mine : String) (s s' : LeaseState) : Type 0 where
  tries :
      (token : String) (lease_ms : ℕ) → (try_acquire token lease_ms s).1 ≡ s' → LeaseStep mine s s'
  renews :
      (token : String) (lease_ms : ℕ)
      → min_lease_ms ≤ lease_ms
      → (renew token lease_ms s).1 ≡ s'
      → LeaseStep mine s s'
  releases : (token : String) → token ≢ mine → release token s ≡ s' → LeaseStep mine s s'
  passes : (ms : ℕ) → record s { now = s.now + ms } ≡ s' → LeaseStep mine s s'

-- The lease that was taken at a time, until it may have run out.
record IsHeld (mine : String) (since : ℕ) (s : LeaseState) : Type 0 where
  later : since ≤ s.now
  held :
      (since + min_lease_ms ≤ s.now)
      ⊎ ((k : HostKey) × (s.key ≡ some k)
          × (k.token ≡ mine)
          × (since + min_lease_ms ≤ k.expires_at))

module _ (mine : String) (since : ℕ) where
  -- The key is as it was.
  same_key :
      (s s' : LeaseState)
      → s'.key ≡ s.key
      → s.now ≤ s'.now
      → IsHeld mine since s
      → IsHeld mine since s'
  same_key s s' key later h = record {
    later = omega (arith, later, h.later);
    held = elim h.held [
      | inl over ↦ inl (omega (arith, over, later))
      | inr (k, found, own, long) ↦ inr (k, key ∙ found, own, long)
    ];
  }

  live_holder :
      (s : LeaseState) (k : HostKey)
      → s.key ≡ some k
      → k.token ≡ mine
      → since + min_lease_ms ≤ k.expires_at
      → s.now < since + min_lease_ms
      → holder s ≡ some mine
  live_holder s k found own long early =
      let live : ltb s.now k.expires_at ≡ true = ground (arith, long, early) in
      rw (found, live, own) refl

  -- Who tries while the worker has the lease changes nothing.
  tried_key :
      (s : LeaseState) (token : String) (lease_ms : ℕ)
      → holder s ≡ some mine
      → try_acquire token lease_ms s ≡ (false, s)
  unfolding try_acquire
  tried_key s token lease_ms h = rw h refl

  tried_later :
      (s : LeaseState) (token : String) (lease_ms : ℕ)
      → (try_acquire token lease_ms s).1.now ≡ s.now
  unfolding try_acquire
  tried_later s token lease_ms = elim (Option-cases (holder s)) [
    | inl free ↦ rw free refl
    | inr (other, taken) ↦ rw taken refl
  ]

  renewed_later :
      (s : LeaseState) (token : String) (lease_ms : ℕ) → (renew token lease_ms s).1.now ≡ s.now
  unfolding renew
  renewed_later s token lease_ms = elim (Bool-cases (is_token token (holder s))) [
    | inl hit ↦ rw hit refl
    | inr miss ↦ rw miss refl
  ]

  released_later : (s : LeaseState) (token : String) → (release token s).now ≡ s.now
  unfolding release
  released_later s token = elim (Bool-cases (is_token token (holder s))) [
    | inl hit ↦ rw hit refl
    | inr miss ↦ rw miss refl
  ]

  renewed-IsHeld :
      (s : LeaseState) (token : String) (lease_ms : ℕ) (k : HostKey)
      → holder s ≡ some mine
      → since ≤ s.now
      → min_lease_ms ≤ lease_ms
      → s.key ≡ some k
      → k.token ≡ mine
      → since + min_lease_ms ≤ k.expires_at
      → IsHeld mine since (renew token lease_ms s).1
  unfolding renew
  renewed-IsHeld s token lease_ms k h later long found own until =
      elim (Bool-cases (mine == token)) [
        | inl same ↦
            let one = (string_eq.eqb_iff mine token).0 same in
            rw (h, same)
              (record {
                later = later;
                held = inr (
                  record { token = token; expires_at = s.now + lease_ms },
                  refl,
                  sym one,
                  omega (arith, later, long),
                );
              })
        | inr other ↦ rw (h, other) (record { later = later; held = inr (k, found, own, until) })
      ]

  released_held :
      (s : LeaseState) (token : String) → token ≢ mine → holder s ≡ some mine → release token s ≡ s
  unfolding release
  released_held s token apart h = elim (Bool-cases (mine == token)) [
    | inl same ↦ elim (apart (sym ((string_eq.eqb_iff mine token).0 same))) [ ]
    | inr other ↦ rw (h, other) refl
  ]

  over-IsHeld :
      (s s' : LeaseState)
      → s'.now ≡ s.now
      → since ≤ s.now
      → since + min_lease_ms ≤ s.now
      → IsHeld mine since s'
  over-IsHeld s s' same later over = record {
    later = omega (arith, same, later);
    held = inl (omega (arith, same, over));
  }

  early_or_over : (n : ℕ) → (n < since + min_lease_ms) ⊎ (since + min_lease_ms ≤ n)
  early_or_over n = elim (Bool-cases (ltb n (since + min_lease_ms))) [
    | inl early ↦ inl (ground (arith, early))
    | inr over ↦ inr (ground (arith, over))
  ]

  case-IsHeld :
      (s s' : LeaseState)
      → s'.now ≡ s.now
      → IsHeld mine since s
      → ((k : HostKey)
          → holder s ≡ some mine
          → s.key ≡ some k
          → k.token ≡ mine
          → since + min_lease_ms ≤ k.expires_at
          → IsHeld mine since s')
      → IsHeld mine since s'
  case-IsHeld s s' same h go = elim h.held [
    | inl over ↦ over-IsHeld s s' same h.later over
    | inr (k, found, own, until) ↦ elim (early_or_over s.now) [
      | inl early ↦ go k (live_holder s k found own until early) found own until
      | inr over ↦ over-IsHeld s s' same h.later over
    ]
  ]

  step-IsHeld :
      (s s' : LeaseState) → LeaseStep mine s s' → IsHeld mine since s → IsHeld mine since s'
  step-IsHeld s s' (passes ms e) h = subst (IsHeld mine since) e (same_key s _ refl (omega arith) h)
  step-IsHeld s s' (tries token lease_ms e) h = subst (IsHeld mine since) e (
      case-IsHeld s _ (tried_later s token lease_ms) h (λ k live found own until.
        subst (IsHeld mine since)
          (sym (ap (λ (r : Bool × LeaseState). r.1) (tried_key s token lease_ms live))) h))
  step-IsHeld s s' (renews token lease_ms long e) h = subst (IsHeld mine since) e (
      case-IsHeld s _ (renewed_later s token lease_ms) h (λ k live found own until.
        renewed-IsHeld s token lease_ms k live h.later long found own until))
  step-IsHeld s s' (releases token apart e) h = subst (IsHeld mine since) e (
      case-IsHeld s _ (released_later s token) h (λ k live found own until.
        subst (IsHeld mine since) (sym (released_held s token apart live)) h))

true_or_false {ℓ} : {P : Type ℓ} → false ≡ true → P
true_or_false e = cc

no_number {ℓ} : {P : Type ℓ} (m n : ℕ) → m < n → n ≤ m → P
no_number m n h k = let bad : ⊥ = omega (arith, h, k) in elim bad [ ]

taken-IsHeld :
    (mine : String) (lease_ms : ℕ) (s taken : LeaseState)
    → min_lease_ms ≤ lease_ms
    → try_acquire mine lease_ms s ≡ (true, taken)
    → IsHeld mine s.now taken
unfolding try_acquire
taken-IsHeld mine lease_ms s taken long e = elim (Option-cases (holder s)) [
  | inl free ↦
      let out : leased mine lease_ms s ≡ taken =
        ap (λ (r : Bool × LeaseState). r.1) (rw free at e) in
      subst (IsHeld mine s.now) out (record {
        later = omega arith;
        held = inr (
          record { token = mine; expires_at = s.now + lease_ms },
          refl,
          refl,
          omega (arith, long),
        );
      })
  | inr (other, held) ↦
      let bad : false ≡ true = ap (λ (r : Bool × LeaseState). r.0) (rw held at e) in
      true_or_false bad
]

-- As long as less than a minute has passed since a worker took the lease of a host, then whatever others
-- try or release and whoever renews, no other worker takes it.
pub lease_is_exclusive :
    (mine : String) (lease_ms : ℕ) (s taken s' : LeaseState) (token : String) (other_ms : ℕ)
    → min_lease_ms ≤ lease_ms
    → try_acquire mine lease_ms s ≡ (true, taken)
    → Star (LeaseStep mine) taken s'
    → s'.now < s.now + min_lease_ms
    → try_acquire token other_ms s' ≡ (false, s')
lease_is_exclusive mine lease_ms s taken s' token other_ms long e steps early =
    let h =
      Star-keeps (IsHeld mine s.now) (step-IsHeld mine s.now) steps
        (taken-IsHeld mine lease_ms s taken long e) in
    elim h.held [
      | inl over ↦ no_number s'.now (s.now + min_lease_ms) early over
      | inr (k, found, own, until) ↦
          tried_key mine s.now s' token other_ms (live_holder mine s.now s' k found own until early)
    ]
