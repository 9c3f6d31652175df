-- ===== src/Prelude/Sums.antt =====
-- Sums over the rows of a table, and how a change of one row changes them.
use Prim.Native.Nat.{ℕ, ◌+◌}
use Prim.Native.String.{String}
use mathlib.Core.Path.{◌≡◌, refl, ap, sym}
use mathlib.Core.Logic.{inl, inr}
use mathlib.Core.Bool.{Bool, true, false, ◌||◌}
use mathlib.Core.List.{List, [], ◌∷◌, ◌++◌, map, Memᴰ}
use native.Mathlib.Omega.{arith}
use kase_ai.Prelude.Tests.{◌==◌, string_eq, Bool-cases, if◌then◌else◌}
use kase_ai.Prelude.Lists.{contains, contains-cons_self, contains-cons, update_where}

module _ {ℓ} {A : Type ℓ} where
  abbrev pub sum_by : (A → ℕ) → List A → ℕ
  sum_by w [] = 0
  sum_by w (x ∷ xs) = w x + sum_by w xs

  pub sum_by-append : (w : A → ℕ) (xs ys : List A) → sum_by w (xs ++ ys) ≡ sum_by w xs + sum_by w ys
  sum_by-append w [] ys = omega arith
  sum_by-append w (x ∷ xs) ys = omega (arith, sum_by-append w xs ys)

-- No two rows of the list share a key.
module _ {A : Type 0} (key : A → String) where
  abbrev pub IsKeyed : List A → Type 0
  IsKeyed [] = Unit
  IsKeyed (x ∷ xs) = (contains (map key xs) (key x) ≡ false) × IsKeyed xs

  pub mem-key : (xs : List A) (x : A) → Memᴰ x xs → contains (map key xs) (key x) ≡ true
  mem-key [] x m = elim m [ ]
  mem-key (y ∷ xs) x (Memᴰ.head e) = rw e (contains-cons_self (key y) (map key xs))
  mem-key (y ∷ xs) x (Memᴰ.tail m) = contains-cons (key y) (key x) (map key xs) (mem-key xs x m)

  update_where-absent :
      (k : String) (f : A → A) (xs : List A)
      → contains (map key xs) k ≡ false
      → update_where (λ y. key y == k) f xs ≡ xs
  update_where-absent k f [] h = refl
  update_where-absent k f (x ∷ xs) h = elim (Bool-cases (key x == k)) [
    | inl hit ↦ ground (arith, hit)
    | inr miss ↦ rw (miss, update_where-absent k f xs (rw miss at h)) refl
  ]

  -- A change of the row of a key changes a sum by what it changes the row's share.
  pub sum_by-update :
      (w : A → ℕ) (f : A → A) (xs : List A) (x : A)
      → IsKeyed xs
      → Memᴰ x xs
      → sum_by w (update_where (λ y. key y == key x) f xs) + w x ≡ sum_by w xs + w (f x)
  sum_by-update w f [] x u m = elim m [ ]
  sum_by-update w f (y ∷ xs) x (once, u) (Memᴰ.head e) =
      let own : (key y == key x) ≡ true = (string_eq.eqb_iff (key y) (key x)).1 (ap key (sym e)) in
      let rest : update_where (λ z. key z == key x) f xs ≡ xs =
        update_where-absent (key x) f xs (rw e once) in
      rw (own, rest, e) (omega arith)
  sum_by-update w f (y ∷ xs) x (once, u) (Memᴰ.tail m) = elim (Bool-cases (key y == key x)) [
    | inl hit ↦
        let same = (string_eq.eqb_iff (key y) (key x)).0 hit in
        let bad = mem-key xs x m in
        let bad' : contains (map key xs) (key y) ≡ true = rw same bad in cc
    | inr miss ↦ let rest = sum_by-update w f xs x u m in rw miss (omega (arith, rest))
  ]

  pub IsKeyed-update_keys :
      (p : A → Bool) (f : A → A) (xs : List A)
      → ((x : A) → key (f x) ≡ key x)
      → map key (update_where p f xs) ≡ map key xs
  IsKeyed-update_keys p f [] k = refl
  IsKeyed-update_keys p f (x ∷ xs) k = elim (Bool-cases (p x)) [
    | inl hit ↦ rw (hit, k x, IsKeyed-update_keys p f xs k) refl
    | inr miss ↦ rw (miss, IsKeyed-update_keys p f xs k) refl
  ]

  pub IsKeyed-update :
      (p : A → Bool) (f : A → A) (xs : List A)
      → ((x : A) → key (f x) ≡ key x)
      → IsKeyed xs
      → IsKeyed (update_where p f xs)
  IsKeyed-update p f [] k u = tt
  IsKeyed-update p f (x ∷ xs) k (once, u) =
      (rw (key_if (p x), IsKeyed-update_keys p f xs k) once, IsKeyed-update p f xs k u)
    where
      key_if : (b : Bool) → key (if b then f x else x) ≡ key x
      key_if true = k x
      key_if false = refl

  pub contains-snoc :
      (xs : List A) (y : A) (k : String)
      → contains (map key (xs ++ y ∷ [])) k ≡ (contains (map key xs) k || key y == k)
  contains-snoc [] y k = ground arith
  contains-snoc (x ∷ xs) y k = ground (arith, contains-snoc xs y k)

  pub IsKeyed-snoc :
      (xs : List A) (y : A)
      → IsKeyed xs
      → contains (map key xs) (key y) ≡ false
      → IsKeyed (xs ++ y ∷ [])
  IsKeyed-snoc [] y u h = (refl, tt)
  IsKeyed-snoc (x ∷ xs) y (once, u) h =
      let apart : (key y == key x) ≡ false =
        ground (arith, string_eq.eqb_iff (key y) (key x), string_eq.eqb_iff (key x) (key y)) in
      (ground (arith, contains-snoc xs y (key x)), IsKeyed-snoc xs y u (ground arith))
