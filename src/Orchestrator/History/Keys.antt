-- ===== src/Orchestrator/History/Keys.antt =====
-- The ids of audits and of jobs are primary keys, and stay so.
use mathlib.Core.List.{Memᴰ}
use kase_ai.Prelude.{
  String, ◌≡◌, refl, sym, ap, ◌∙◌, inl, inr, Bool, true, some, List, [], ◌∷◌, map, arith, string_eq,
  contains, find, Bool-cases, done, more, Rows, no_rows, row,
}
use kase_ai.Orchestrator.JobGraph.Validation.{IsUnique}
use kase_ai.Orchestrator.Store.{StoredJob, Tables}
use kase_ai.Orchestrator.History.Moves.{JobPath, AuditStep, Evolves}

pub record HasKeys (db : Tables) : Type 0 where
  pub audits : IsUnique (map (λ a. a.id) db.audits)
  pub jobs : IsUnique (map (λ j. j.id) db.jobs)

module _ {A : Type 0} where
  pub find-eq-some :
      (p : A → Bool) (xs : List A) (x : A) → find p xs ≡ some x → Memᴰ x xs × (p x ≡ true)
  find-eq-some p [] x h = cc
  find-eq-some p (y ∷ ys) x h = elim (Bool-cases (p y)) [
    | inl hit ↦ let same : y ≡ x = ground (arith, hit) in (Memᴰ.head (sym same), rw (← same) hit)
    | inr miss ↦ let (m, q) = find-eq-some p ys x (rw miss at h) in (Memᴰ.tail m, q)
  ]

  module _ (key : A → String) where
    contains_key : (xs : List A) (x : A) → Memᴰ x xs → contains (map key xs) (key x) ≡ true
    contains_key [] x m = elim m [ ]
    contains_key (y ∷ ys) x (Memᴰ.head e) =
        rw ((string_eq.eqb_iff (key y) (key x)).1 (ap key (sym e))) refl
    contains_key (y ∷ ys) x (Memᴰ.tail m) = ground (arith, contains_key ys x m)

    -- Two rows of a table with one key are one row.
    pub same_row :
        (xs : List A) (x y : A)
        → IsUnique (map key xs)
        → Memᴰ x xs
        → Memᴰ y xs
        → key x ≡ key y
        → x ≡ y
    same_row [] x y u m m' e = elim m [ ]
    same_row (z ∷ zs) x y (once, u) (Memᴰ.head p) (Memᴰ.head q) e = p ∙ sym q
    same_row (z ∷ zs) x y (once, u) (Memᴰ.tail m) (Memᴰ.tail m') e = same_row zs x y u m m' e
    same_row (z ∷ zs) x y (once, u) (Memᴰ.head p) (Memᴰ.tail m') e =
        let bad = contains_key zs y m' in let same : key z ≡ key y = ap key (sym p) ∙ e in cc
    same_row (z ∷ zs) x y (once, u) (Memᴰ.tail m) (Memᴰ.head q) e =
        let bad = contains_key zs x m in let same : key z ≡ key x = ap key (sym q) ∙ sym e in cc

    Rows-keys {ℓ} :
        (R : A → A → Type ℓ)
        → ((x y : A) → R x y → key y ≡ key x)
        → {xs ys : List A} → Rows R xs ys
        → map key ys ≡ map key xs
    Rows-keys R k no_rows = refl
    Rows-keys R k (row {x} {y} a r) = rw (k x y a, Rows-keys R k r)

pub JobPath-id : {j j' : StoredJob} → JobPath j j' → j'.id ≡ j.id
JobPath-id done = refl
JobPath-id (more s p) = JobPath-id p ∙ s.frozen.id

pub Evolves-HasKeys : {db db' : Tables} → Evolves db db' → HasKeys db → HasKeys db'
Evolves-HasKeys e k = record {
  audits = rw (Rows-keys (λ a. a.id) AuditStep (λ a b s. s.id) e.audits) k.audits;
  jobs = rw (Rows-keys (λ j. j.id) JobPath (λ j j' p. JobPath-id p) e.jobs) k.jobs;
}
