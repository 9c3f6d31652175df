-- ===== src/Correlation/Examples.antt =====
-- The theorem on routes at a request that three routes serve.
use mathlib.Core.List.{Memᴰ}
use kase_ai.Prelude.{ℕ, ◌≤◌, String, ◌≡◌, ◌⊎◌, refl, List, [], ◌∷◌, ◌==◌, string_eq, filter, err}
use kase_ai.Correlation.{
  MappingMethod, ResolvedRoute, unsupported_segment, rank_of, segments_of, candidates_of,
  normalize_route_path, resolve_routes,
}
use kase_ai.Correlation.Best.{resolve_routes_best}

abbrev same_text : String → String
same_text s = s

abbrev order_route : ResolvedRoute
order_route = record {
  id = "openapi:GET:/orders/{param}";
  method = "GET";
  path_template = "/orders/{id}";
  handler = record { file = "orders.ts"; enclosing_symbol = "Orders.get"; line = 12 };
  source = MappingMethod.openapi;
}

abbrev static_route : ResolvedRoute
static_route = record order_route {
  id = "nest:1";
  path_template = "/orders/:id";
  source = MappingMethod.static_parse;
}

abbrev any_route : ResolvedRoute
any_route = record order_route {
  id = "nest:2";
  path_template = "/:kind/:id";
  source = MappingMethod.runtime_dump;
}

abbrev routes : List ResolvedRoute
routes = any_route ∷ static_route ∷ order_route ∷ []

routes_run : resolve_routes same_text "GET" "/orders//7" routes ≡ order_route ∷ []
unfolding resolve_routes normalize_route_path
routes_run = refl

rejected_run : normalize_route_path "/files/*" ≡ err unsupported_segment
unfolding normalize_route_path
rejected_run = refl

resolved_run : Memᴰ order_route (resolve_routes same_text "GET" "/orders//7" routes)
unfolding resolve_routes normalize_route_path
resolved_run = Memᴰ.head refl

serving_run :
    Memᴰ
      (any_route, 0)
      (candidates_of
        (segments_of "/orders//7")
        (filter (λ r. same_text r.method == same_text "GET") routes))
unfolding normalize_route_path
serving_run = Memᴰ.head refl

best_example :
    (n : ℕ) × Memᴰ
      (order_route, n)
      (candidates_of
        (segments_of "/orders//7")
        (filter (λ r. same_text r.method == same_text "GET") routes))
    × (0 ≤ n)
    × ((1 ≤ n) ⊎ (rank_of order_route.source ≤ rank_of any_route.source))
best_example =
    resolve_routes_best same_text "GET" "/orders//7" routes order_route any_route 0 resolved_run
      serving_run
