-- ===== src/Listings/Examples.antt =====
-- The pages of a listing of three rows.
use kase_ai.Prelude.{
  String, ◌≡◌, refl, ap, false, none, some, List, [], ◌∷◌, ◌++◌, ◌==◌, string_eq, take,
  if◌then◌else◌,
}
use kase_ai.Listings.Pagination.{PageQuery, PageArgs, follow}
use kase_ai.Listings.Pagination.Coverage.{Listing, follow_covers}

abbrev ids : List String
ids = "a" ∷ "b" ∷ "c" ∷ []

abbrev past : String → List String → List String
past c [] = []
past c (x ∷ xs) = if x == c then xs else past c xs

abbrev query : PageArgs → List String
query q = elim q.after [ none ↦ take q.rows_taken ids | some c ↦ take q.rows_taken (past c ids) ]

past_cases :
    (seen rest : List String) (x : String)
    → ids ≡ seen ++ x ∷ rest
    → (past x ids ≡ rest) × ((x == "") ≡ false)
past_cases [] rest x e = (cc, cc)
past_cases (a ∷ []) rest x e = (cc, cc)
past_cases (a ∷ b ∷ []) rest x e = (cc, cc)
past_cases (a ∷ b ∷ c ∷ []) rest x e = cc
past_cases (a ∷ b ∷ c ∷ d ∷ seen) rest x e = cc

ids-Listing : Listing (λ x. x) query ids
ids-Listing = record {
  first = λ n. refl;
  next = λ n seen rest x e. ap (take n) (past_cases seen rest x e).0;
  named = λ seen rest x e. (past_cases seen rest x e).1;
}

abbrev two_rows : PageQuery
two_rows = record { limit = some 2; cursor = none }

cover_example : follow (λ x. x) query 4 two_rows ≡ ids
cover_example = follow_covers (λ x. x) query ids ids-Listing two_rows refl refl
