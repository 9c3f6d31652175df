-- ===== src/Prelude/Membership.antt =====
-- The rows of a table that has been changed, by the rows that they were.
use Prim.Native.String.{String}
use mathlib.Core.Path.{◌≡◌, refl, sym, ap, ◌∙◌}
use mathlib.Core.Logic.{◌≢◌, ◌⊎◌, inl, inr}
use mathlib.Core.Bool.{Bool, true, false}
use mathlib.Core.List.{List, [], ◌∷◌, ◌++◌, map, Memᴰ}
use native.Mathlib.Omega.{arith}
use kase_ai.Prelude.Tests.{◌==◌, Bool-cases, if◌then◌else◌, string_eq}
use kase_ai.Prelude.Lists.{All, contains, filter, count_where, update_where}
use kase_ai.Prelude.Sums.{IsKeyed, mem-key}

module _ {ℓ κ} {A : Type ℓ} {B : Type κ} where
  pub mem-map :
      (f : A → B) (xs : List A) (y : B) → Memᴰ y (map f xs) → (x : A) × Memᴰ x xs × (y ≡ f x)
  mem-map f [] y m = elim m [ ]
  mem-map f (x ∷ xs) y (Memᴰ.head e) = (x, Memᴰ.head refl, e)
  mem-map f (x ∷ xs) y (Memᴰ.tail m) = let (z, k, e) = mem-map f xs y m in (z, Memᴰ.tail k, e)

  pub mem-of_map : (f : A → B) (xs : List A) (x : A) → Memᴰ x xs → Memᴰ (f x) (map f xs)
  mem-of_map f [] x m = elim m [ ]
  mem-of_map f (y ∷ xs) x (Memᴰ.head e) = Memᴰ.head (ap f e)
  mem-of_map f (y ∷ xs) x (Memᴰ.tail m) = Memᴰ.tail (mem-of_map f xs x m)

module _ {ℓ} {A : Type ℓ} where
  pub update_where-map :
      (p : A → Bool) (f : A → A) (xs : List A)
      → update_where p f xs ≡ map (λ x. if p x then f x else x) xs
  update_where-map p f [] = refl
  update_where-map p f (x ∷ xs) = ap (λ ys. (if p x then f x else x) ∷ ys) (update_where-map p f xs)

  -- A row of the changed table was changed, or stood there.
  pub mem-update_cases :
      (p : A → Bool) (f : A → A) (xs : List A) (y : A)
      → Memᴰ y (update_where p f xs)
      → (x : A) × Memᴰ x xs × (((p x ≡ true) × (y ≡ f x)) ⊎ ((p x ≡ false) × (y ≡ x)))
  mem-update_cases p f [] y m = elim m [ ]
  mem-update_cases p f (x ∷ xs) y (Memᴰ.head e) = elim (Bool-cases (p x)) [
    | inl hit ↦ (x, Memᴰ.head refl, inl (hit, rw hit at e))
    | inr miss ↦ (x, Memᴰ.head refl, inr (miss, rw miss at e))
  ]
  mem-update_cases p f (x ∷ xs) y (Memᴰ.tail m) =
      let (z, k, c) = mem-update_cases p f xs y m in (z, Memᴰ.tail k, c)

  pub mem-append_left : (xs ys : List A) (x : A) → Memᴰ x xs → Memᴰ x (xs ++ ys)
  mem-append_left [] ys x m = elim m [ ]
  mem-append_left (y ∷ xs) ys x (Memᴰ.head e) = Memᴰ.head e
  mem-append_left (y ∷ xs) ys x (Memᴰ.tail m) = Memᴰ.tail (mem-append_left xs ys x m)

  -- A row of a table with a new row at its end is an old one or the new one.
  pub mem-snoc : (xs : List A) (y x : A) → Memᴰ x (xs ++ y ∷ []) → Memᴰ x xs ⊎ (x ≡ y)
  mem-snoc [] y x (Memᴰ.head e) = inr e
  mem-snoc [] y x (Memᴰ.tail m) = elim m [ ]
  mem-snoc (z ∷ xs) y x (Memᴰ.head e) = inl (Memᴰ.head e)
  mem-snoc (z ∷ xs) y x (Memᴰ.tail m) = elim (mem-snoc xs y x m) [
    | inl k ↦ inl (Memᴰ.tail k)
    | inr e ↦ inr e
  ]

  pub filter-snoc :
      (p : A → Bool) (xs : List A) (y : A)
      → filter p (xs ++ y ∷ []) ≡ (if p y then filter p xs ++ y ∷ [] else filter p xs)
  filter-snoc p [] y = refl
  filter-snoc p (x ∷ xs) y = ground (arith, filter-snoc p xs y)

  pub mem-of_count :
      (p : A → Bool) (xs : List A) → count_where p xs ≢ 0 → (x : A) × Memᴰ x xs × (p x ≡ true)
  mem-of_count p [] h = elim (h refl) [ ]
  mem-of_count p (x ∷ xs) h = elim (Bool-cases (p x)) [
    | inl hit ↦ (x, Memᴰ.head refl, hit)
    | inr miss ↦ let (y, m, k) = mem-of_count p xs (rw miss at h) in (y, Memᴰ.tail m, k)
  ]

module _ {ℓ κ} {A : Type ℓ} where
  pub All-map_rows :
      (P : A → Type κ) (f : A → A) (xs : List A)
      → ((x : A) → Memᴰ x xs → P x → P (f x))
      → All P xs
      → All P (map f xs)
  All-map_rows P f [] k h = tt
  All-map_rows P f (x ∷ xs) k (p, h) =
      (k x (Memᴰ.head refl) p, All-map_rows P f xs (λ y m. k y (Memᴰ.tail m)) h)

module _ {A : Type 0} (key : A → String) where
  key_clash {ℓ} :
      {P : Type ℓ} (xs : List A) (z y : A)
      → contains (map key xs) (key z) ≡ false
      → contains (map key xs) (key y) ≡ true
      → key z ≡ key y
      → P
  key_clash xs z y once found e =
      let both : true ≡ false = sym found ∙ sym (ap (contains (map key xs)) e) ∙ once in
      ground (arith, both)

  -- Of two rows with one key there is one.
  pub keyed_unique :
      (xs : List A) (x y : A) → IsKeyed key xs → Memᴰ x xs → Memᴰ y xs → key x ≡ key y → x ≡ y
  keyed_unique [] x y u m k e = elim m [ ]
  keyed_unique (z ∷ xs) x y (once, u) (Memᴰ.head p) (Memᴰ.head q) e = p ∙ sym q
  keyed_unique (z ∷ xs) x y (once, u) (Memᴰ.head p) (Memᴰ.tail k) e =
      key_clash xs z y once (mem-key key xs y k) (sym (ap key p) ∙ e)
  keyed_unique (z ∷ xs) x y (once, u) (Memᴰ.tail m) (Memᴰ.head q) e =
      key_clash xs z x once (mem-key key xs x m) (sym (ap key q) ∙ sym e)
  keyed_unique (z ∷ xs) x y (once, u) (Memᴰ.tail m) (Memᴰ.tail k) e = keyed_unique xs x y u m k e

  pub keys-map :
      (f : A → A) (xs : List A) → ((x : A) → key (f x) ≡ key x) → map key (map f xs) ≡ map key xs
  keys-map f [] k = refl
  keys-map f (x ∷ xs) k = rw (k x, keys-map f xs k) refl

  pub IsKeyed-map :
      (f : A → A) (xs : List A)
      → ((x : A) → key (f x) ≡ key x)
      → IsKeyed key xs
      → IsKeyed key (map f xs)
  IsKeyed-map f [] k u = tt
  IsKeyed-map f (x ∷ xs) k (once, u) = (rw (k x, keys-map f xs k) once, IsKeyed-map f xs k u)

  pub mem-of_contains :
      (xs : List A) (k : String)
      → contains (map key xs) k ≡ true
      → (x : A) × Memᴰ x xs × (key x ≡ k)
  mem-of_contains [] k h = ground (arith, h)
  mem-of_contains (x ∷ xs) k h = elim (Bool-cases (key x == k)) [
    | inl hit ↦ (x, Memᴰ.head refl, (string_eq.eqb_iff (key x) k).0 hit)
    | inr miss ↦
        let (y, m, same) = mem-of_contains xs k (ground (arith, h, miss)) in (y, Memᴰ.tail m, same)
  ]
