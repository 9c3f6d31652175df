-- ===== src/Orchestrator/JobGraph/Template.antt =====
-- apps/api/src/orchestrator/job-graph.ts: `graphTemplate`, the jobs of a new audit, and the rows that
-- `OrchestratorService.dispatch` makes of them. The kinds of the source's union are texts.
pub mod Validity
use kase_ai.Prelude.{
  ℕ, ◌*◌, String, Bool, true, false, not, ◌&&◌, Option, none, some, List, [], ◌∷◌, ◌++◌, map, Eq,
  ◌==◌, ◌≡◌, ◌↔◌, refl, if◌then◌else◌, contains, get_or, arith,
}
use kase_ai.Orchestrator.JobGraph.{JobGraphNode, queued}

pub data Mode : Type 0 where
  smoke security full : Mode

pub data Category : Type 0 where
  sast http blackbox whitebox : Category

abbrev pub category_beq : Category → Category → Bool
category_beq sast sast = true
category_beq http http = true
category_beq blackbox blackbox = true
category_beq whitebox whitebox = true
category_beq _ _ = false

pub category_beq_iff : (a b : Category) → (category_beq a b ≡ true) ↔ (a ≡ b)
category_beq_iff a b = ground arith

instance abbrev pub category_eq : Eq Category
category_eq = record { eqb = category_beq; eqb_iff = category_beq_iff }

pub record JobTemplate : Type 0 where
  pub kind : String
  pub category : Option String
  pub depends_on_kinds : List String
  pub timeout_ms : ℕ
  pub max_retries : ℕ
  pub required : Bool

-- `ADAPTER_TIMEOUTS_MS`
abbrev pub minutes : ℕ → ℕ
minutes n = n * 60_000

abbrev template : String → Option String → List String → ℕ → ℕ → JobTemplate
template kind category depends_on_kinds timeout_ms max_retries = record {
  kind = kind;
  category = category;
  depends_on_kinds = depends_on_kinds;
  timeout_ms = timeout_ms;
  max_retries = max_retries;
  required = true;
}

abbrev pub smoke_template : List JobTemplate
smoke_template = template "recon" (some "fixture_health") [] (minutes 10) 2 ∷ []

abbrev pub provenance_template : List JobTemplate
provenance_template = template "build_provenance" none [] (minutes 5) 2 ∷ []

abbrev pub semgrep_template : List JobTemplate
semgrep_template = template "semgrep" (some "sast") ("build_provenance" ∷ []) (minutes 10) 2 ∷ []

abbrev pub http_template : List JobTemplate
http_template =
    template "katana_discover" (some "http") ("build_provenance" ∷ []) (minutes 10) 2
    ∷ template "scope_filter" (some "http") ("katana_discover" ∷ []) (minutes 2) 0
    ∷ template "httpx_verify" (some "http") ("scope_filter" ∷ []) (minutes 5) 2
    ∷ template "inventory_merge" (some "http") ("httpx_verify" ∷ []) (minutes 2) 2
    ∷ template "inventory_drift" (some "http") ("inventory_merge" ∷ []) (minutes 2) 2
    ∷ []

abbrev pub code_map_template : List JobTemplate
code_map_template = template "code_map" none ("build_provenance" ∷ []) (minutes 10) 2 ∷ []

abbrev pub blackbox_template : List JobTemplate
blackbox_template =
    template "blackbox_agent" (some "blackbox") ("inventory_drift" ∷ []) (minutes 45) 1 ∷ []

abbrev pub whitebox_template : List JobTemplate
whitebox_template =
    template "whitebox_agent" (some "whitebox") ("semgrep" ∷ "code_map" ∷ []) (minutes 35) 1 ∷ []

abbrev pub normalize_template : List JobTemplate
normalize_template = template "normalize_severity" none ("semgrep" ∷ []) (minutes 2) 2 ∷ []

-- `if (selected.includes(…)) jobs.push(…)`
abbrev pub push_if : Bool → List JobTemplate → List JobTemplate
push_if true pushed = pushed
push_if false pushed = []

-- The jobs pushed, from what `selected` includes.
pub selected_jobs : Bool → Bool → Bool → Bool → List JobTemplate
selected_jobs has_sast has_http has_blackbox has_whitebox =
    provenance_template
    ++ push_if has_sast semgrep_template
    ++ push_if has_http http_template
    ++ push_if has_whitebox code_map_template
    ++ push_if has_blackbox blackbox_template
    ++ push_if has_whitebox whitebox_template
    ++ push_if has_sast normalize_template

abbrev pub is_full : Mode → Bool
is_full full = true
is_full _ = false

-- `selected`, with the categories that the agents rest on added.
pub select_categories : Mode → Option (List Category) → List Category
select_categories mode categories =
    let selected = get_or categories (if is_full mode then sast ∷ http ∷ [] else sast ∷ []) in
    let with_http =
      if contains selected blackbox && not (contains selected http)
      then selected ++ http ∷ []
      else selected in
    if contains with_http whitebox && not (contains with_http sast)
    then with_http ++ sast ∷ []
    else with_http

pub template_of : List Category → List JobTemplate
unfolding selected_jobs
template_of selected =
    selected_jobs (contains selected sast) (contains selected http) (contains selected blackbox)
      (contains selected whitebox)

unfoldable pub graph_template : Mode → Option (List Category) → List JobTemplate
unfolding template_of select_categories
graph_template smoke categories = smoke_template
graph_template mode categories = template_of (select_categories mode categories)

-- The row of a template: `jobIds.get(kind)` is the id that `newId` has drawn for the kind.
pub new_node : (String → String) → JobTemplate → JobGraphNode
new_node job_ids t = record {
  id = job_ids t.kind;
  kind = t.kind;
  depends_on = map job_ids t.depends_on_kinds;
  status = queued;
  required = some t.required;
}
