-- ===== src/Prelude/Changes.antt =====
-- Tables row by row: how the rows of a list are related to those of a changed one.
use mathlib.Core.Path.{◌≡◌, refl}
use mathlib.Core.Bool.{Bool, true}
use mathlib.Core.Logic.{inl, inr}
use mathlib.Core.List.{List, [], ◌∷◌, Memᴰ}
use kase_ai.Prelude.Lists.{All, update_where}
use kase_ai.Prelude.Tests.{Bool-cases}

-- A finite sequence of steps.
pub data Star {ℓ κ} {A : Type ℓ} (R : A → A → Type κ) : A → A → Type (ℓ ⊔ κ) where
  done : {x : A} → Star R x x
  more : {x y z : A} → R x y → Star R y z → Star R x z

module _ {ℓ κ} {A : Type ℓ} {R : A → A → Type κ} where
  pub Star-one : {x y : A} → R x y → Star R x y
  Star-one r = more r done

  pub Star-trans : {x y z : A} → Star R x y → Star R y z → Star R x z
  Star-trans done t = t
  Star-trans (more r s) t = more r (Star-trans s t)

  -- What each step keeps, a sequence keeps.
  pub Star-keeps {μ} :
      (P : A → Type μ) → ((x y : A) → R x y → P x → P y) → {x y : A} → Star R x y → P x → P y
  Star-keeps P keep done p = p
  Star-keeps P keep (more {x} {y} r s) p = Star-keeps P keep s (keep x y r p)

pub data Rows {ℓ κ} {A : Type ℓ} (R : A → A → Type κ) : List A → List A → Type (ℓ ⊔ κ) where
  no_rows : Rows R [] []
  row : {x y : A} {xs ys : List A} → R x y → Rows R xs ys → Rows R (x ∷ xs) (y ∷ ys)

module _ {ℓ κ} {A : Type ℓ} (R : A → A → Type κ) where
  pub Rows-refl : ((x : A) → R x x) → (xs : List A) → Rows R xs xs
  Rows-refl r [] = no_rows
  Rows-refl r (x ∷ xs) = row (r x) (Rows-refl r xs)

  pub Rows-trans :
      ((x y z : A) → R x y → R y z → R x z)
      → {xs ys zs : List A} → Rows R xs ys
      → Rows R ys zs
      → Rows R xs zs
  Rows-trans t no_rows s = s
  Rows-trans t (row {x} {y} a r) (row {y = z} b s) = row (t x y z a b) (Rows-trans t r s)

  -- A change of the rows that meet a condition.
  pub Rows-update_where :
      (p : A → Bool) (f : A → A) (xs : List A)
      → ((x : A) → R x x)
      → ((x : A) → Memᴰ x xs → p x ≡ true → R x (f x))
      → Rows R xs (update_where p f xs)
  Rows-update_where p f [] r k = no_rows
  Rows-update_where p f (x ∷ xs) r k = elim (Bool-cases (p x)) [
    | inl e ↦
        rw e (row (k x (Memᴰ.head refl) e) (Rows-update_where p f xs r (λ y m. k y (Memᴰ.tail m))))
    | inr e ↦ rw e (row (r x) (Rows-update_where p f xs r (λ y m. k y (Memᴰ.tail m))))
  ]

  pub Rows-All {μ} :
      (P : A → Type μ)
      → ((x y : A) → R x y → P x → P y)
      → {xs ys : List A} → Rows R xs ys
      → All P xs
      → All P ys
  Rows-All P keep no_rows h = h
  Rows-All P keep (row {x} {y} a r) (p, h) = (keep x y a p, Rows-All P keep r h)
