-- ===== src/Listings/Pagination.antt =====
-- apps/api/src/common/pagination.ts: the query of a page and what is made of its rows. The query that
-- runs is Prisma's, a parameter.
pub mod Coverage
use kase_ai.Prelude.{
  ℕ, zero, suc, ◌+◌, String, Bool, true, false, ◌&&◌, Option, none, some, List, [], ◌∷◌, ◌++◌, ◌==◌,
  string_eq, get_or, length, take, ltb, leb, if◌then◌else◌,
}

abbrev pub default_page_size : ℕ
default_page_size = 50

abbrev pub max_page_size : ℕ
max_page_size = 200

-- `PaginationQueryDto`
pub record PageQuery : Type 0 where
  pub limit : Option ℕ
  pub cursor : Option String

abbrev pub is_valid_query : PageQuery → Bool
is_valid_query q =
    leb 1 (get_or q.limit default_page_size) && leb (get_or q.limit default_page_size) max_page_size

-- The arguments of the query: the rows to take, and the row after which they start, which is skipped.
pub record PageArgs : Type 0 where
  pub rows_taken : ℕ
  pub after : Option String

pub record Page {ℓ} (A : Type ℓ) : Type ℓ where
  pub page_data : List A
  pub next_cursor : Option String
  pub has_more : Bool

-- An empty cursor is none.
abbrev pub truthy_cursor : Option String → Option String
truthy_cursor none = none
truthy_cursor (some c) = if c == "" then none else some c

unfoldable pub pagination_args : PageQuery → PageArgs
pagination_args q = record {
  rows_taken = get_or q.limit default_page_size + 1;
  after = truthy_cursor q.cursor;
}

module _ {ℓ} {A : Type ℓ} (id_of : A → String) where
  abbrev pub last_id : List A → Option String
  last_id [] = none
  last_id (x ∷ []) = some (id_of x)
  last_id (x ∷ y ∷ ys) = last_id (y ∷ ys)

  unfoldable pub to_page : List A → PageQuery → Page A
  to_page rows q =
      let limit = get_or q.limit default_page_size in
      let has_more = ltb limit (length rows) in
      let page_data = if has_more then take limit rows else rows in
      record {
        page_data = page_data;
        has_more = has_more;
        next_cursor = if has_more then last_id page_data else none;
      }

  -- A client that follows the cursors, for so many pages at most.
  unfoldable pub follow : (PageArgs → List A) → ℕ → PageQuery → List A
  unfolding to_page pagination_args
  follow find_many zero q = []
  follow find_many (suc n) q =
      let page = to_page (find_many (pagination_args q)) q in
      page.page_data ++ elim page.next_cursor [
        | none ↦ []
        | some c ↦ follow find_many n (record q { cursor = some c })
      ]
