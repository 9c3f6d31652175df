-- ===== src/Prelude/Lists.antt =====
-- Lists with Boolean tests, measured by native numbers, and the predicates over them.
use Prim.Native.Nat.{ℕ, zero, suc, ◌+◌, min}
use mathlib.Core.Path.{◌≡◌, refl, ap, sym, subst}
use mathlib.Core.Logic.{inl, inr}
use mathlib.Core.Bool.{Bool, true, false, not, ◌&&◌, ◌||◌}
use mathlib.Core.Option.{Option, none, some}
use mathlib.Core.List.{List, [], ◌∷◌, ◌++◌, map, Memᴰ}
use native.Mathlib.Omega.{arith}
use kase_ai.Prelude.Tests.{if◌then◌else◌, Bool-cases, Eq, ◌==◌}

module _ {ℓ} {A : Type ℓ} where
  abbrev pub length : List A → ℕ
  length [] = 0
  length (x ∷ xs) = suc (length xs)

  abbrev pub take : ℕ → List A → List A
  take zero xs = []
  take (suc n) [] = []
  take (suc n) (x ∷ xs) = x ∷ take n xs

  abbrev pub filter : (A → Bool) → List A → List A
  filter p [] = []
  filter p (x ∷ xs) = let rest = filter p xs in if p x then x ∷ rest else rest

  abbrev pub any : (A → Bool) → List A → Bool
  any p [] = false
  any p (x ∷ xs) = p x || any p xs

  abbrev pub all : (A → Bool) → List A → Bool
  all p [] = true
  all p (x ∷ xs) = p x && all p xs

  -- `findFirst`: the first row that meets the condition.
  abbrev pub find : (A → Bool) → List A → Option A
  find p [] = none
  find p (x ∷ xs) = let rest = find p xs in if p x then some x else rest

  abbrev pub count_where : (A → Bool) → List A → ℕ
  count_where p [] = 0
  count_where p (x ∷ xs) = let rest = count_where p xs in if p x then suc rest else rest

  -- `updateMany`: a change of each row that meets the condition.
  abbrev pub update_where : (A → Bool) → (A → A) → List A → List A
  update_where p f [] = []
  update_where p f (x ∷ xs) = (if p x then f x else x) ∷ update_where p f xs

  pub length-append : (xs ys : List A) → length (xs ++ ys) ≡ length xs + length ys
  length-append [] ys = omega arith
  length-append (x ∷ xs) ys = omega (arith, length-append xs ys)

  pub length-take : (n : ℕ) (xs : List A) → length (take n xs) ≡ min n (length xs)
  length-take zero xs = omega arith
  length-take (suc n) [] = omega arith
  length-take (suc n) (x ∷ xs) = omega (arith, length-take n xs)

  pub length-update_where :
      (p : A → Bool) (f : A → A) (xs : List A) → length (update_where p f xs) ≡ length xs
  length-update_where p f [] = refl
  length-update_where p f (x ∷ xs) = ap suc (length-update_where p f xs)

module _ {ℓ κ} {A : Type ℓ} where
  abbrev pub All : (A → Type κ) → List A → Type κ
  All P [] = Unit
  All P (x ∷ xs) = P x × All P xs

  pub All-append : (P : A → Type κ) (xs ys : List A) → All P xs → All P ys → All P (xs ++ ys)
  All-append P [] ys h k = k
  All-append P (x ∷ xs) ys (p, h) k = (p, All-append P xs ys h k)

  pub All-update_where :
      (P : A → Type κ) (p : A → Bool) (f : A → A) (xs : List A)
      → ((x : A) → P x → p x ≡ true → P (f x))
      → All P xs
      → All P (update_where p f xs)
  All-update_where P p f [] k h = tt
  All-update_where P p f (x ∷ xs) k (q, h) = elim (Bool-cases (p x)) [
    | inl e ↦ rw e (k x q e, All-update_where P p f xs k h)
    | inr e ↦ rw e (q, All-update_where P p f xs k h)
  ]

  pub All-map : (P Q : A → Type κ) → ((x : A) → P x → Q x) → (xs : List A) → All P xs → All Q xs
  All-map P Q k [] h = tt
  All-map P Q k (x ∷ xs) (p, h) = (k x p, All-map P Q k xs h)

  pub All-zip : (P Q : A → Type κ) (xs : List A) → All P xs → All Q xs → All (λ x. P x × Q x) xs
  All-zip P Q [] h k = tt
  All-zip P Q (x ∷ xs) (p, h) (q, k) = ((p, q), All-zip P Q xs h k)

-- `includes`, `has`: membership as a test.
module _ {ℓ} {A : Type ℓ} ⦃e : Eq A⦄ where
  abbrev pub contains : List A → A → Bool
  contains [] a = false
  contains (x ∷ xs) a = x == a || contains xs a

  pub contains-cons_self : (a : A) (xs : List A) → contains (a ∷ xs) a ≡ true
  contains-cons_self a xs = rw ((e.eqb_iff a a).1 refl) refl

  pub contains-cons : (x a : A) (xs : List A) → contains xs a ≡ true → contains (x ∷ xs) a ≡ true
  contains-cons x a xs h = ground arith

  pub contains-cons_ne :
      (x a : A) (xs : List A) → contains (x ∷ xs) a ≡ true → contains xs a ≡ false → x ≡ a
  contains-cons_ne x a xs h k = ground (arith, e.eqb_iff x a)

  pub contains-append :
      (xs ys : List A) (a : A) → contains (xs ++ ys) a ≡ (contains xs a || contains ys a)
  contains-append [] ys a = refl
  contains-append (x ∷ xs) ys a = ground (arith, contains-append xs ys a)

module _ {ℓ κ} {A : Type ℓ} ⦃e : Eq A⦄ (P : A → Type κ) where
  pub All-contains : (xs : List A) (a : A) → All P xs → contains xs a ≡ true → P a
  All-contains [] a h m = cc
  All-contains (x ∷ xs) a (p, h) m = elim (Bool-cases (x == a)) [
    | inl here ↦ subst P ((e.eqb_iff x a).0 here) p
    | inr apart ↦ All-contains xs a h (rw apart at m)
  ]

  pub All-of_contains : (xs : List A) → ((a : A) → contains xs a ≡ true → P a) → All P xs
  All-of_contains [] k = tt
  All-of_contains (x ∷ xs) k =
      (k x (contains-cons_self x xs), All-of_contains xs (λ a m. k a (contains-cons x a xs m)))

module _ {ℓ} {A : Type ℓ} where
  mem-filter_kept :
      (p : A → Bool) (y : A) (xs : List A) (x : A)
      → p y ≡ true
      → Memᴰ x (y ∷ filter p xs)
      → (Memᴰ x (filter p xs) → Memᴰ x xs × (p x ≡ true))
      → Memᴰ x (y ∷ xs) × (p x ≡ true)
  mem-filter_kept p y xs x kept (Memᴰ.head e) k = (Memᴰ.head e, rw e kept)
  mem-filter_kept p y xs x kept (Memᴰ.tail m) k = (Memᴰ.tail (k m).0, (k m).1)

  pub any-eq-true :
      (p : A → Bool) (xs : List A) → any p xs ≡ true → (x : A) × Memᴰ x xs × (p x ≡ true)
  any-eq-true p [] h = cc
  any-eq-true p (x ∷ xs) h = elim (Bool-cases (p x)) [
    | inl here ↦ (x, Memᴰ.head refl, here)
    | inr not_here ↦ let (y, m, q) = any-eq-true p xs (rw not_here at h) in (y, Memᴰ.tail m, q)
  ]

  pub any_of_mem : (p : A → Bool) (xs : List A) (x : A) → Memᴰ x xs → p x ≡ true → any p xs ≡ true
  any_of_mem p [] x m h = elim m [ ]
  any_of_mem p (y ∷ xs) x (Memᴰ.head e) h = rw (rw e at h)
  any_of_mem p (y ∷ xs) x (Memᴰ.tail m) h = ground (arith, any_of_mem p xs x m h)

  pub not-all : (p : A → Bool) (xs : List A) → not (all p xs) ≡ any (λ x. not (p x)) xs
  not-all p [] = refl
  not-all p (x ∷ xs) = ground (arith, not-all p xs)

  pub any-filter_nil : (p : A → Bool) (xs : List A) → filter p xs ≡ [] → any p xs ≡ false
  any-filter_nil p [] h = refl
  any-filter_nil p (x ∷ xs) h = ground (arith, any-filter_nil p xs)

  pub mem-filter :
      (p : A → Bool) (xs : List A) (x : A) → Memᴰ x (filter p xs) → Memᴰ x xs × (p x ≡ true)
  mem-filter p [] x m = elim m [ ]
  mem-filter p (y ∷ xs) x m = elim (Bool-cases (p y)) [
    | inr out ↦ let (k, h) = mem-filter p xs x (rw out at m) in (Memᴰ.tail k, h)
    | inl kept ↦
        let m' : Memᴰ x (y ∷ filter p xs) = rw kept at m in
        mem-filter_kept p y xs x kept m' (mem-filter p xs x)
  ]

  pub mem-update_where :
      (p : A → Bool) (f : A → A) (xs : List A) (x : A)
      → Memᴰ x xs
      → p x ≡ true
      → Memᴰ (f x) (update_where p f xs)
  mem-update_where p f [] x m h = elim m [ ]
  mem-update_where p f (y ∷ xs) x (Memᴰ.head e) h = Memᴰ.head (rw (sym e, h) refl)
  mem-update_where p f (y ∷ xs) x (Memᴰ.tail m) h = Memᴰ.tail (mem-update_where p f xs x m h)

  pub mem-take : (n : ℕ) (xs : List A) (x : A) → Memᴰ x (take n xs) → Memᴰ x xs
  mem-take zero xs x m = elim m [ ]
  mem-take (suc n) [] x m = elim m [ ]
  mem-take (suc n) (y ∷ xs) x (Memᴰ.head e) = Memᴰ.head e
  mem-take (suc n) (y ∷ xs) x (Memᴰ.tail m) = Memᴰ.tail (mem-take n xs x m)

  pub take-eq-nil : (n : ℕ) (xs : List A) → take (suc n) xs ≡ [] → xs ≡ []
  take-eq-nil n [] h = refl
  take-eq-nil n (x ∷ xs) h = cc

module _ {ℓ κ} {A : Type ℓ} where
  pub All-mem : (P : A → Type κ) (xs : List A) (x : A) → All P xs → Memᴰ x xs → P x
  All-mem P [] x h m = elim m [ ]
  All-mem P (y ∷ xs) x (q, h) (Memᴰ.head e) = subst P (sym e) q
  All-mem P (y ∷ xs) x (q, h) (Memᴰ.tail m) = All-mem P xs x h m

module _ {ℓ κ} {A : Type ℓ} {B : Type κ} where
  pub any-map : (p : B → Bool) (f : A → B) (xs : List A) → any p (map f xs) ≡ any (λ x. p (f x)) xs
  any-map p f [] = refl
  any-map p f (x ∷ xs) = rw (any-map p f xs)

module _ {ℓ κ} {A : Type ℓ} (P : A → Type κ) where
  pub All-of-mem : (xs : List A) → ((x : A) → Memᴰ x xs → P x) → All P xs
  All-of-mem [] k = tt
  All-of-mem (x ∷ xs) k = (k x (Memᴰ.head refl), All-of-mem xs (λ y m. k y (Memᴰ.tail m)))

module _ {ℓ} {A : Type ℓ} (p test : A → Bool) (f : A → A) where
  -- A change that a lookup does not see leaves what it finds, changed.
  pub find-update_where :
      (xs : List A) (a : A)
      → ((x : A) → p (f x) ≡ p x)
      → find p xs ≡ some a
      → find p (update_where test f xs) ≡ some (if test a then f a else a)
  find-update_where [] a k h = cc
  find-update_where (x ∷ xs) a k h = elim (Bool-cases (p x)) [
    | inl hit ↦
        let same : x ≡ a = ground (arith, hit) in
        rw (kept (test x), hit)
          (subst (λ y. some (if test x then f x else x) ≡ some (if test y then f y else y)) same
            refl)
    | inr miss ↦ rw (kept (test x), miss) (find-update_where xs a k (rw miss at h))
  ]
    where
      kept : (b : Bool) → p (if b then f x else x) ≡ p x
      kept true = k x
      kept false = refl
