-- ===== src/Context/Selection.antt =====
-- context/compiler.rs, `compile`: what is selected within the token budget.
pub mod Totals
pub mod Known
pub mod Safe
pub mod Costs
pub mod Bounds
use Prim.Native.String.{compare}
use text.Mathlib.Text.{is_lt}
use weavatrix_memory.Base.{
  ℕ, ◌+◌, ◌-◌, ◌^◌, min, String, Bool, true, false, not, Option, none, some, List, [], ◌∷◌, ◌++◌,
  map, filter, ltb, if◌then◌else◌, length, Result, ok, err, reject, ok_or, or_panic, try_map, ◌>>=◌,
  ◌>>◌, invalid_value, missing_entity, budget_too_small,
}
use weavatrix_memory.Map.{Map, lookup, insert, contains_key, text_key}
use weavatrix_memory.Time.{before}
use weavatrix_memory.Domain.{EntityId, MemoryNode, MemoryFact, MemoryView}
use weavatrix_memory.Projection.State.{MemoryProjection}
use weavatrix_memory.Context.{ContextRequest, wrap, no_elements, node_tokens, fact_tokens}
use weavatrix_memory.Context.Compiler.{
  ContextReceipt, ContextBundle, TokenEstimator, IdSet, sorted_ids, Search, neighborhood,
}

-- `usize::saturating_add`
abbrev pub saturating_add : ℕ → ℕ → ℕ
saturating_add a b = min (a + b) (2 ^ 64 - 1)

-- A stable sort, by a test that the second comes strictly before the first.
abbrev pub insert_sorted {ℓ} : {A : Type ℓ} → (A → A → Bool) → A → List A → List A
insert_sorted precedes x [] = x ∷ []
insert_sorted precedes x (y ∷ ys) =
    let rest = insert_sorted precedes x ys in if precedes y x then y ∷ rest else x ∷ y ∷ ys

abbrev pub sort_by {ℓ} : {A : Type ℓ} → (A → A → Bool) → List A → List A
sort_by precedes [] = []
sort_by precedes (x ∷ xs) = insert_sorted precedes x (sort_by precedes xs)

abbrev pub id_precedes : String → String → Bool
id_precedes a b = is_lt (compare a b)

-- A candidate with the distance of its nearer end.
abbrev pub Candidate : Type 0
Candidate = ℕ × MemoryFact

-- The order of the sort key: nearer first, then more certain, later recorded, and by identifier.
unfoldable pub candidate_precedes : Candidate → Candidate → Bool
candidate_precedes (d, f) (e, g) =
    if ltb d e
    then true
    else if ltb e d
    then false
    else if ltb g.confidence.basis_points f.confidence.basis_points
    then true
    else if ltb f.confidence.basis_points g.confidence.basis_points
    then false
    else if before g.recorded_at f.recorded_at
    then true
    else if before f.recorded_at g.recorded_at
    then false
    else id_precedes f.id g.id

-- `distances[&fact.source].min(distances[&fact.target])`
unfoldable pub candidate : Map EntityId ℕ → MemoryFact → Result Candidate
candidate distances f = do
  source ← or_panic (lookup f.source distances)
  target ← or_panic (lookup f.target distances)
  ok (min source target, f)

-- What the selection mutates.
pub record Selection : Type 0 where
  pub selected_nodes : IdSet
  pub used : ℕ
  pub facts : List MemoryFact
  pub omitted : ℕ

unfoldable pub missing_nodes : IdSet → MemoryFact → List EntityId
missing_nodes selected f = filter (λ id. not (contains_key id selected)) (f.source ∷ f.target ∷ [])

unfoldable pub insert_all : List EntityId → IdSet → IdSet
insert_all [] selected = selected
insert_all (id ∷ ids) selected = insert_all ids (insert id tt selected)

module _ (estimator : TokenEstimator) (nodes : Map EntityId MemoryNode) where
  -- the tokens of the missing nodes, `sum::<usize>()`
  unfoldable pub node_cost : List EntityId → Result ℕ
  node_cost [] = ok 0
  node_cost (id ∷ ids) = do
    node ← or_panic (lookup id nodes)
    rest ← node_cost ids
    ok (wrap (node_tokens estimator.estimate_text node + rest))

  -- the body of `for fact in &candidates`
  unfoldable pub select_fact : (token_budget : ℕ) → Selection → MemoryFact → Result Selection
  select_fact token_budget s f = do
    let missing = missing_nodes s.selected_nodes f
    nodes_cost ← node_cost missing
    let cost = wrap (fact_tokens estimator.estimate_text f + nodes_cost)
    (if ltb token_budget (saturating_add s.used cost)
        then ok (record s { omitted = s.omitted + 1 })
        else ok (record s {
          used = wrap (s.used + cost);
          selected_nodes = insert_all missing s.selected_nodes;
          facts = s.facts ++ f ∷ [];
        }))

  unfoldable pub select_facts : (token_budget : ℕ) → List Candidate → Selection → Result Selection
  select_facts token_budget [] s = ok s
  select_facts token_budget ((d, f) ∷ candidates) s = do
    s' ← select_fact token_budget s f
    select_facts token_budget candidates s'

  -- `for seed in &seeds`, with the set and the tokens so far
  unfoldable pub seed_loop : IdSet → (selected : IdSet) (used : ℕ) → Result (IdSet × ℕ)
  seed_loop [] selected used = ok (selected, used)
  seed_loop ((seed, u) ∷ seeds) selected used = do
    node ← ok_or (missing_entity seed) (lookup seed nodes)
    seed_loop seeds (insert seed tt selected)
        (wrap (used + node_tokens estimator.estimate_text node))

  unfoldable pub select_seeds : ContextRequest → Result (IdSet × ℕ)
  select_seeds request = do
    (selected, used) ← seed_loop (sorted_ids request.seeds) [] 0
    reject (ltb request.token_budget used) (budget_too_small used request.token_budget)
    ok (selected, used)

  -- the selection of `compile`, and the nodes of the view
  unfoldable pub select : ContextRequest → Map EntityId ℕ → List MemoryFact → Result Selection
  select request distances candidate_facts = do
    (selected, used) ← select_seeds request
    candidates ← try_map (candidate distances) candidate_facts
    select_facts request.token_budget (sort_by candidate_precedes candidates)
        (record { selected_nodes = selected; used = used; facts = []; omitted = 0 })

  unfoldable pub view_of : Selection → Result MemoryView
  view_of s = do
    selected ← try_map (λ (id, u). or_panic (lookup id nodes)) s.selected_nodes
    ok (record { nodes = selected; facts = sort_by (λ f g. id_precedes f.id g.id) s.facts })

module _ {Graph : Type 0} where
  -- `project_graph` translates a view into another package's graph.
  unfoldable pub compile :
      TokenEstimator
      → (project_graph : MemoryView → Result Graph) → MemoryProjection
      → ContextRequest
      → (fuel : ℕ) → Result (ContextBundle Graph)
  compile estimator project_graph p request fuel = do
    reject (no_elements request.seeds)
        (invalid_value "context.seeds" "at least one seed is required")
    found ← neighborhood p request fuel
    s ← select estimator found.nodes request found.distances (map (λ (id, f). f) found.facts)
    view ← view_of estimator found.nodes s
    graph ← project_graph view
    ok (record {
      view = view;
      graph = graph;
      receipt = record {
        valid_at = request.valid_at;
        known_at = request.known_at;
        source_position = p.last_global_position;
        estimator = estimator.name;
        token_budget = request.token_budget;
        estimated_tokens = s.used;
        examined_facts = length found.facts;
        selected_facts = length view.facts;
        omitted_by_budget = s.omitted;
        excluded_by_scope = length found.excluded;
      };
    })
