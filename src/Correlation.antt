-- ===== src/Correlation.antt =====
-- apps/api/src/correlation/route-resolution.ts: which routes of the source serve a request. `toUpperCase`
-- is a parameter; the reading of OpenAPI documents is left out.
pub mod Best
mod Examples
use Prim.Native.Char.{Char, code}
use Prim.Native.String.{◌++◌ as append}
use text.Mathlib.Text.{starts_with}
use kase_ai.Prelude.{
  ℕ, zero, suc, String, Bool, true, false, not, ◌&&◌, ◌||◌, Option, none, some, List, [], ◌∷◌, ◌++◌,
  map, max, min, ◌==◌, string_eq, nat_eq, Result, ok, err, ◌>>=◌, ◌>>◌, throw_if, filter,
  count_where, contains, leb, is_empty_text, if◌then◌else◌,
}
use kase_ai.Scope.HostPattern.{includes}

-- `MappingMethod`
pub data MappingMethod : Type 0 where
  runtime_dump openapi static_parse : MappingMethod

-- `RANK`
abbrev pub rank_of : MappingMethod → ℕ
rank_of runtime_dump = 0
rank_of openapi = 1
rank_of static_parse = 2

pub record SymbolLocation : Type 0 where
  pub file : String
  pub enclosing_symbol : String
  pub line : ℕ

pub record ResolvedRoute : Type 0 where
  pub id : String
  pub method : String
  pub path_template : String
  pub handler : SymbolLocation
  pub source : MappingMethod

pub data RouteError : Type 0 where
  unsupported_path unsupported_segment : RouteError

-- `METHODS`
abbrev pub methods : List String
methods = "GET" ∷ "HEAD" ∷ "POST" ∷ "PUT" ∷ "PATCH" ∷ "DELETE" ∷ "OPTIONS" ∷ "TRACE" ∷ []

abbrev pub cons_first : Char → List String → List String
cons_first c [] = String.◌∷◌ c "" ∷ []
cons_first c (s ∷ ss) = String.◌∷◌ c s ∷ ss

-- `split('/')`
abbrev pub split_slashes : String → List String
split_slashes String.[] = "" ∷ []
split_slashes (String.◌∷◌ c s) =
    let rest = split_slashes s in if code c == 47 then "" ∷ rest else cons_first c rest

-- `split('/').filter(Boolean)`
abbrev pub segments_of : String → List String
segments_of path = filter (λ s. not (is_empty_text s)) (split_slashes path)

abbrev pub join_slashes : List String → String
join_slashes [] = ""
join_slashes (s ∷ []) = s
join_slashes (s ∷ t ∷ ts) = append s (append "/" (join_slashes (t ∷ ts)))

abbrev pub is_letter : ℕ → Bool
is_letter c = leb 97 c && leb c 122 || leb 65 c && leb c 90 || c == 95

abbrev pub is_word : ℕ → Bool
is_word c = is_letter c || leb 48 c && leb c 57

abbrev pub all_words : String → Bool
all_words String.[] = true
all_words (String.◌∷◌ c s) = is_word (code c) && all_words s

-- `[A-Za-z_][\w]*`
abbrev pub is_name : String → Bool
is_name String.[] = false
is_name (String.◌∷◌ c s) = is_letter (code c) && all_words s

-- A text that is a name and a closing brace.
abbrev pub is_braced : Bool → String → Bool
is_braced named String.[] = false
is_braced named (String.◌∷◌ c s) =
    let later = is_braced true s in
    if code c == 125
    then named && is_empty_text s
    else (if named then is_word (code c) else is_letter (code c)) && later

abbrev pub is_parameter : String → Bool
is_parameter String.[] = false
is_parameter (String.◌∷◌ c s) =
    if code c == 58 then is_name s else code c == 123 && is_braced false s

-- One of the characters of `[{}:*()[\]]`.
abbrev pub is_pattern_char : ℕ → Bool
is_pattern_char c = contains (123 ∷ 125 ∷ 58 ∷ 42 ∷ 40 ∷ 41 ∷ 91 ∷ 93 ∷ []) c

abbrev pub has_pattern_char : String → Bool
has_pattern_char String.[] = false
has_pattern_char (String.◌∷◌ c s) = is_pattern_char (code c) || has_pattern_char s

abbrev pub normalize_segment : String → Result RouteError String
normalize_segment segment =
    if is_parameter segment
    then ok "{param}"
    else if has_pattern_char segment || segment == "." || segment == ".."
    then err unsupported_segment
    else ok segment

abbrev pub normalize_segments : List String → Result RouteError (List String)
normalize_segments [] = ok []
normalize_segments (s ∷ ss) = do t ← normalize_segment s; ts ← normalize_segments ss; ok (t ∷ ts)

abbrev pub is_plain_path : String → Bool
is_plain_path path =
    starts_with path "/"
    && not (includes path "?")
    && not (includes path "#")
    && not (includes path "\\")

-- `normalizeRoutePath`
unfoldable pub normalize_route_path : String → Result RouteError String
normalize_route_path path = do
  throw_if (not (is_plain_path path)) unsupported_path
  segments ← normalize_segments (segments_of path)
  ok (append "/" (join_slashes segments))

abbrev pub is_parameter_slot : String → Bool
is_parameter_slot part = part == "{param}"

-- The segments of a route serve those of a request, one by one.
abbrev pub serves : List String → List String → Bool
serves [] [] = true
serves [] (a ∷ actual) = false
serves (e ∷ expected) [] = false
serves (e ∷ expected) (a ∷ actual) = (is_parameter_slot e || e == a) && serves expected actual

abbrev pub specificity : List String → ℕ
specificity expected = count_where (λ p. not (is_parameter_slot p)) expected

abbrev pub candidate_of :
    List String → ResolvedRoute → Result RouteError String → List (ResolvedRoute × ℕ)
candidate_of actual route (err e) = []
candidate_of actual route (ok path) =
    let expected = segments_of path in
    if serves expected actual then (route, specificity expected) ∷ [] else []

-- The routes of the method whose templates serve the path, with their specificities.
abbrev pub candidates_of : List String → List ResolvedRoute → List (ResolvedRoute × ℕ)
candidates_of actual [] = []
candidates_of actual (route ∷ routes) =
    candidate_of actual route (normalize_route_path route.path_template)
    ++ candidates_of actual routes

abbrev pub highest_of : List (ResolvedRoute × ℕ) → ℕ
highest_of [] = 0
highest_of ((route, n) ∷ cs) = max n (highest_of cs)

-- `Math.min`, of a list that is not empty.
abbrev pub lowest_rank : List (ResolvedRoute × ℕ) → ℕ
lowest_rank [] = 3
lowest_rank ((route, n) ∷ cs) = min (rank_of route.source) (lowest_rank cs)

abbrev pub most_specific : List (ResolvedRoute × ℕ) → List (ResolvedRoute × ℕ)
most_specific cs = filter (λ (c : ResolvedRoute × ℕ). c.1 == highest_of cs) cs

abbrev pub best_ranked : List (ResolvedRoute × ℕ) → List (ResolvedRoute × ℕ)
best_ranked cs = filter (λ (c : ResolvedRoute × ℕ). rank_of c.0.source == lowest_rank cs) cs

abbrev pub route_of : ResolvedRoute × ℕ → ResolvedRoute
route_of c = c.0

-- `resolveRoutes`
unfoldable pub resolve_routes :
    (String → String) → String → String → List ResolvedRoute → List ResolvedRoute
resolve_routes to_upper method pathname routes =
    let named = filter (λ r. to_upper r.method == to_upper method) routes in
    if contains methods (to_upper method)
    then map route_of (best_ranked (most_specific (candidates_of (segments_of pathname) named)))
    else []
