-- ===== src/Context/Compiler.antt =====
-- context/compiler.rs: the search from the seeds and the selection within the token budget. The
-- token estimator and the translation into a graph are parameters.
use weavatrix_memory.Base.{
  ℕ, zero, suc, ◌+◌, String, Bool, not, ◌&&◌, ◌||◌, Option, none, some, List, [], ◌∷◌, ◌++◌, filter,
  leb, ◌==◌, if◌then◌else◌, Result, ok, err, panic, or_panic, ◌>>=◌, missing_entity,
}
use weavatrix_memory.Map.{Map, lookup, insert, contains_key, set_insert, text_key}
use weavatrix_memory.Time.{Timestamp}
use weavatrix_memory.Domain.{EntityId, FactId, MemoryNode, MemoryFact, MemoryView}
use weavatrix_memory.Projection.State.{MemoryProjection, ProjectionClock}
use weavatrix_memory.Projection.Query.{visible_node, fact, incident_fact_ids, fact_is_active}
use weavatrix_memory.Context.{ContextRequest, node_allowed, relation_allowed}

pub record ContextReceipt : Type 0 where
  pub valid_at : Timestamp
  pub known_at : Timestamp
  pub source_position : Option ℕ
  pub estimator : String
  pub token_budget : ℕ
  pub estimated_tokens : ℕ
  pub examined_facts : ℕ
  pub selected_facts : ℕ
  pub omitted_by_budget : ℕ
  pub excluded_by_scope : ℕ

pub record ContextBundle (Graph : Type 0) : Type 0 where
  pub view : MemoryView
  pub graph : Graph
  pub receipt : ContextReceipt

-- The trait `TokenEstimator`.
pub record TokenEstimator : Type 0 where
  pub name : String
  pub estimate_text : String → ℕ

-- A `BTreeSet` of identifiers, in their order.
abbrev pub IdSet : Type 0
IdSet = Map String (Unit {0})

-- `seeds.sort(); seeds.dedup();`
unfoldable pub sorted_ids : List EntityId → IdSet
sorted_ids [] = []
sorted_ids (id ∷ ids) = insert id tt (sorted_ids ids)

unfoldable pub scoped_node : MemoryProjection → ContextRequest → EntityId → Result MemoryNode
scoped_node p request id = do
  visible ← visible_node p id request.known_at
  elim visible [
    | none ↦ err (missing_entity id)
    | some node ↦ if node_allowed request node then ok node else err (missing_entity id)
  ]

-- What `neighborhood` mutates.
pub record Search : Type 0 where
  pub nodes : Map EntityId MemoryNode
  pub facts : Map FactId MemoryFact
  pub distances : Map EntityId ℕ
  pub queue : List EntityId
  pub excluded : List FactId

abbrev pub new_search : Search
new_search = record { nodes = []; facts = []; distances = []; queue = []; excluded = [] }

-- `for seed in seeds`
unfoldable pub start_search : MemoryProjection → ContextRequest → IdSet → Search → Result Search
start_search p request [] s = ok s
start_search p request ((seed, u) ∷ seeds) s = do
  node ← scoped_node p request seed
  start_search p request seeds (record s {
    nodes = insert seed node s.nodes;
    distances = insert seed 0 s.distances;
    queue = s.queue ++ seed ∷ [];
  })

abbrev pub other_end : MemoryFact → (current : EntityId) → EntityId
other_end f current = if f.source == current then f.target else f.source

-- the rest of the loop over the facts of a node, where the other end is visible
abbrev pub reach :
    ContextRequest → (depth : ℕ) → Search → MemoryFact → (other : EntityId) → MemoryNode → Search
reach request depth s f other node =
    if not (node_allowed request node)
    then record s { excluded = set_insert f.id s.excluded }
    else if contains_key other s.distances
    then record s { facts = insert f.id f s.facts }
    else if leb request.max_depth depth
    then s
    else record s {
      facts = insert f.id f s.facts;
      nodes = insert other node s.nodes;
      distances = insert other (depth + 1) s.distances;
      queue = s.queue ++ other ∷ [];
    }

-- the body of the loop over the facts of a node
unfoldable pub visit_fact :
    MemoryProjection
    → ContextRequest
    → (current : EntityId) (depth : ℕ) → FactId
    → Search
    → Result Search
visit_fact p request current depth fact_id s = do
  found ← fact p fact_id
  f ← or_panic found
  let clock : ProjectionClock = record { valid_at = request.valid_at; known_at = request.known_at }
  (if not (fact_is_active p f clock) || not (relation_allowed request f.relation)
      then ok s
      else visible_node p (other_end f current) request.known_at >>= λ visible. ok (elim visible [
        | none ↦ s
        | some node ↦ reach request depth s f (other_end f current) node
      ]))

-- `for fact_id in projection.incident_fact_ids(&current)`
unfoldable pub visit_facts :
    MemoryProjection
    → ContextRequest
    → (current : EntityId) (depth : ℕ) → List FactId
    → Search
    → Result Search
visit_facts p request current depth [] s = ok s
visit_facts p request current depth (fact_id ∷ fact_ids) s = do
  s' ← visit_fact p request current depth fact_id s
  visit_facts p request current depth fact_ids s'

-- the body of `while let Some(current) = queue.pop_front()`, after the node is popped
unfoldable pub visit_node :
    MemoryProjection → ContextRequest → (current : EntityId) → Search → Result Search
visit_node p request current s = do
  depth ← or_panic (lookup current s.distances)
  fact_ids ← incident_fact_ids p current
  visit_facts p request current depth fact_ids s

-- A node enters the queue once, so there are no more rounds than seeds and ends of facts.
unfoldable pub search_loop : MemoryProjection → ContextRequest → (fuel : ℕ) → Search → Result Search
search_loop p request zero s = panic
search_loop p request (suc fuel) s = elim s.queue [
  | [] ↦ ok s
  | current ∷ queue ↦ visit_node p request current (record s { queue = queue }) >>= λ s'.
      search_loop p request fuel s'
]

-- `facts.retain`
abbrev pub both_ends : Map EntityId ℕ → MemoryFact → Bool
both_ends distances f = contains_key f.source distances && contains_key f.target distances

unfoldable pub neighborhood : MemoryProjection → ContextRequest → (fuel : ℕ) → Result Search
neighborhood p request fuel = do
  s ← start_search p request (sorted_ids request.seeds) new_search
  s' ← search_loop p request fuel s
  ok (record s' { facts = filter (λ (id, f). both_ends s'.distances f) s'.facts })
