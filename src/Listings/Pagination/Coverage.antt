-- ===== src/Listings/Pagination/Coverage.antt =====
-- Whoever follows the cursors of a listing sees its rows.
use kase_ai.Prelude.{
  ℕ, zero, suc, ◌+◌, ◌<◌, String, ◌≡◌, refl, sym, ap, ◌∙◌, inl, inr, true, false, none, some, List,
  [], ◌∷◌, ◌++◌, arith, ◌==◌, string_eq, get_or, length, take, ltb, leb, ◌&&◌, length-append,
  Bool-cases,
}
use kase_ai.Listings.Pagination.{
  PageQuery, PageArgs, default_page_size, max_page_size, is_valid_query, pagination_args, last_id,
  to_page, follow,
}

limit_cases : (m : ℕ) → leb 1 m && leb m max_page_size ≡ true → (k : ℕ) × (m ≡ suc k)
limit_cases zero h = ground (arith, h)
limit_cases (suc k) h = (k, refl)

module _ {ℓ} {A : Type ℓ} where
  append_nil : (xs : List A) → xs ++ [] ≡ xs
  append_nil [] = refl
  append_nil (x ∷ xs) = ap (λ t. x ∷ t) (append_nil xs)

  append_assoc : (xs ys zs : List A) → (xs ++ ys) ++ zs ≡ xs ++ (ys ++ zs)
  append_assoc [] ys zs = refl
  append_assoc (x ∷ xs) ys zs = ap (λ t. x ∷ t) (append_assoc xs ys zs)

  -- A page with a row after it: its rows, the last one apart, and those that follow.
  record Cut (k : ℕ) (xs : List A) : Type ℓ where
    front : List A
    turn : A
    rest : List A
    whole : xs ≡ front ++ turn ∷ rest
    kept : take (suc k) (take (suc (suc k)) xs) ≡ front ++ turn ∷ []

  cut : (k : ℕ) (xs : List A) → ltb (suc k) (length (take (suc (suc k)) xs)) ≡ true → Cut k xs
  cut k [] h = ground (arith, h)
  cut zero (x ∷ xs) h = record { front = []; turn = x; rest = xs; whole = refl; kept = refl }
  cut (suc k) (x ∷ xs) h =
      let c = cut k xs (ground (arith, h)) in
      record {
        front = x ∷ c.front;
        turn = c.turn;
        rest = c.rest;
        whole = ap (λ t. x ∷ t) c.whole;
        kept = ap (λ t. x ∷ t) c.kept;
      }

  short : (k : ℕ) (xs : List A) → ltb k (length (take (suc k) xs)) ≡ false → take (suc k) xs ≡ xs
  short k [] h = refl
  short zero (x ∷ xs) h = ground (arith, h)
  short (suc k) (x ∷ xs) h = ap (λ t. x ∷ t) (short k xs (ground (arith, h)))

  last_id-snoc :
      (id_of : A → String) (xs : List A) (x : A) → last_id id_of (xs ++ x ∷ []) ≡ some (id_of x)
  last_id-snoc id_of [] x = refl
  last_id-snoc id_of (y ∷ []) x = refl
  last_id-snoc id_of (y ∷ z ∷ zs) x = last_id-snoc id_of (z ∷ zs) x

  -- What the query promises of a listing, while its rows stay as they are.
  pub record Listing (id_of : A → String) (find_many : PageArgs → List A) (rows : List A)
      : Type ℓ where
    pub first : (n : ℕ) → find_many (record { rows_taken = n; after = none }) ≡ take n rows
    pub next :
        (n : ℕ) (seen rest : List A) (x : A)
        → rows ≡ seen ++ x ∷ rest
        → find_many (record { rows_taken = n; after = some (id_of x) }) ≡ take n rest
    pub named : (seen rest : List A) (x : A) → rows ≡ seen ++ x ∷ rest → (id_of x == "") ≡ false

  module _ (id_of : A → String) (find_many : PageArgs → List A) (rows : List A)
      (listing : Listing id_of find_many rows) where
    found_after :
        (q : PageQuery) (seen rest : List A) (x : A)
        → rows ≡ seen ++ x ∷ rest
        → find_many (pagination_args (record q { cursor = some (id_of x) }))
          ≡ take (suc (get_or q.limit default_page_size)) rest
    unfolding pagination_args
    found_after q seen rest x e =
        let one : get_or q.limit default_page_size + 1 ≡ suc (get_or q.limit default_page_size) =
          omega arith in
        rw (listing.named seen rest x e, one)
          (listing.next (suc (get_or q.limit default_page_size)) seen rest x e)

    follow_rest :
        (n : ℕ) (q : PageQuery) (k : ℕ) (seen rest : List A)
        → get_or q.limit default_page_size ≡ suc k
        → rows ≡ seen ++ rest
        → find_many (pagination_args q) ≡ take (suc (suc k)) rest
        → length rest < n
        → follow id_of find_many n q ≡ rest
    unfolding follow to_page
    follow_rest zero q k seen rest e whole found enough = ground (arith, enough)
    follow_rest (suc n) q k seen rest e whole found enough =
        elim (Bool-cases (ltb (suc k) (length (take (suc (suc k)) rest)))) [
          | inr over ↦ rw (found, e, over, short (suc k) rest over) (append_nil rest)
          | inl more ↦
              let c = cut k rest more in
              let whole' : rows ≡ (seen ++ c.front) ++ c.turn ∷ c.rest =
                whole
                ∙ ap (λ t. seen ++ t) c.whole
                ∙ sym (append_assoc seen c.front (c.turn ∷ c.rest)) in
              let sizes = ap length c.whole ∙ length-append c.front (c.turn ∷ c.rest) in
              let later =
                follow_rest n (record q { cursor = some (id_of c.turn) }) k
                  ((seen ++ c.front) ++ c.turn ∷ []) c.rest e
                  (whole' ∙ sym (append_assoc (seen ++ c.front) (c.turn ∷ []) c.rest))
                  (found_after q (seen ++ c.front) c.rest c.turn whole'
                    ∙ ap (λ m. take (suc m) c.rest) e)
                  (omega (arith, sizes, enough)) in
              rw (found, e, more, c.kept, last_id-snoc id_of c.front c.turn, later)
                (append_assoc c.front (c.turn ∷ []) c.rest ∙ sym c.whole)
        ]

    -- While a listing stays as it is, a client whose query is valid and has no cursor, and that follows
    -- the cursors, gets every row once and in order, in at most one page more than there are rows.
    pub follow_covers :
        (q : PageQuery)
        → is_valid_query q ≡ true
        → q.cursor ≡ none
        → follow id_of find_many (suc (length rows)) q ≡ rows
    unfolding pagination_args
    follow_covers q valid start =
        let (k, e) = limit_cases (get_or q.limit default_page_size) valid in
        let one : suc k + 1 ≡ suc (suc k) = omega arith in
        follow_rest (suc (length rows)) q k [] rows e refl
          (rw (start, e, one) (listing.first (suc (suc k)))) (omega arith)
