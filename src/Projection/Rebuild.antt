-- ===== src/Projection/Rebuild.antt =====
-- projection/memory/state.rs: the indexes of a projection that was read from a snapshot. A vector's
-- update at an index out of range panics; `usize` has 64 bits.
pub mod Accepted
mod Indexed
mod Changes
use weavatrix_memory.Base.{
  ℕ, zero, suc, ◌+◌, Bool, not, ◌||◌, Option, none, some, List, [], ◌∷◌, map, eqb, ◌==◌,
  if◌then◌else◌, length, get_elem?, get_last?, take, Result, ok, err, panic, or_panic, ok_or,
  reject, try_for_each, ◌>>=◌, ◌>>◌, invalid_value, missing_entity, missing_fact, conflicting_fact,
}
use weavatrix_memory.Map.{Map, text_key}
use weavatrix_memory.Time.{at_or_before}
use weavatrix_memory.Domain.{EntityId, FactId, MemoryFact, validate_node, validate_fact}
use weavatrix_memory.Index.{IdIndex, empty_index, get, insert_id}
use weavatrix_memory.Store.{checked_add}
use weavatrix_memory.Projection.State.{
  NodeRevision, NodeHistory, Supersession, Retraction, MemoryProjection,
}
use weavatrix_memory.Projection.Apply.{differs}
use weavatrix_memory.Projection.Update.{last_or_zero}

-- What is stored of a projection.
pub record ProjectionData : Type 0 where
  pub nodes : List NodeHistory
  pub facts : List MemoryFact
  pub supersessions : Map FactId Supersession
  pub retractions : Map FactId Retraction
  pub last_global_position : Option ℕ

abbrev pub data_of : MemoryProjection → ProjectionData
data_of p = record {
  nodes = p.nodes;
  facts = p.facts;
  supersessions = p.supersessions;
  retractions = p.retractions;
  last_global_position = p.last_global_position;
}

abbrev pub is_some : Option ℕ → Bool
is_some none = Bool.false
is_some (some n) = Bool.true

abbrev pub check_revision : (first : EntityId) → NodeRevision → Result (Unit {0})
check_revision first revision = do
  validate_node revision.node
  reject (not (revision.node.id == first))
      (invalid_value "projection.nodes" "revision identifiers must match")

-- The loop over the nodes.
unfoldable pub index_nodes : IdIndex → (index : ℕ) → List NodeHistory → Result IdIndex
index_nodes ix index [] = ok ix
index_nodes ix index (h ∷ hs) = do
  try_for_each (check_revision h.first.node.id) (h.first ∷ h.later)
  reject (is_some (insert_id ix h.first.node.id index).0)
      (invalid_value "projection.nodes" "node identifiers must be unique")
  index_nodes (insert_id ix h.first.node.id index).1 (suc index) hs

unfoldable pub entity_index : IdIndex → EntityId → Result ℕ
entity_index ix id = ok_or (missing_entity id) (get ix id)

-- The loop over the facts, which pushes their ends.
unfoldable pub index_facts :
    (nodes facts : IdIndex) → (index : ℕ) → List MemoryFact → Result (IdIndex × List (ℕ × ℕ))
index_facts nodes ix index [] = ok (ix, [])
index_facts nodes ix index (f ∷ fs) = do
  validate_fact f
  source ← entity_index nodes f.source
  target ← entity_index nodes f.target
  reject (is_some (insert_id ix f.id index).0) (conflicting_fact f.id)
  rest ← index_facts nodes (insert_id ix f.id index).1 (suc index) fs
  ok (rest.0, (source, target) ∷ rest.1)

-- `xs[index] = value`
abbrev pub set_at : List ℕ → (index value : ℕ) → Result (List ℕ)
set_at [] index value = panic
set_at (x ∷ xs) zero value = ok (value ∷ xs)
set_at (x ∷ xs) (suc index) value = set_at xs index value >>= λ ys. ok (x ∷ ys)

-- `xs[index] = xs[index].checked_add(by)`
abbrev pub add_at : List ℕ → (index by : ℕ) → Result (List ℕ)
add_at xs index by = do
  value ← or_panic (get_elem? xs index)
  sum ← checked_add value by
  set_at xs index sum

-- Of an end point of a fact: both ends, but a loop's only once.
abbrev pub at_target : {A : Type 0} → (source target : ℕ) → A → Result A → Result A
at_target source target unchanged changed = if eqb target source then ok unchanged else changed

unfoldable pub count_ends : (offsets : List ℕ) → List (ℕ × ℕ) → Result (List ℕ)
count_ends offsets [] = ok offsets
count_ends offsets ((source, target) ∷ ends) = do
  one ← add_at offsets (suc source) 1
  two ← at_target source target one (add_at one (suc target) 1)
  count_ends two ends

-- `for index in 1..offsets.len()`, by the offset before it
unfoldable pub sum_offsets : (before : ℕ) → List ℕ → Result (List ℕ)
sum_offsets before [] = ok []
sum_offsets before (x ∷ xs) = do
  sum ← checked_add x before
  rest ← sum_offsets sum xs
  ok (sum ∷ rest)

abbrev pub sum_all : List ℕ → Result (List ℕ)
sum_all [] = ok []
sum_all (x ∷ xs) = sum_offsets x xs >>= λ rest. ok (x ∷ rest)

-- `incidents[cursor[node]] = fact; cursor[node] += 1`
unfoldable pub put_incident :
    (cursor incidents : List ℕ) → (node fact : ℕ) → Result (List ℕ × List ℕ)
put_incident cursor incidents node fact = do
  place ← or_panic (get_elem? cursor node)
  incidents' ← set_at incidents place fact
  cursor' ← set_at cursor node (suc place)
  ok (cursor', incidents')

unfoldable pub put_incidents :
    (cursor incidents : List ℕ) → (fact : ℕ) → List (ℕ × ℕ) → Result (List ℕ)
put_incidents cursor incidents fact [] = ok incidents
put_incidents cursor incidents fact ((source, target) ∷ ends) = do
  one ← put_incident cursor incidents source fact
  two ← at_target source target one (put_incident one.0 one.1 target fact)
  put_incidents two.0 two.1 (suc fact) ends

abbrev pub zeros : ℕ → List ℕ
zeros zero = []
zeros (suc n) = 0 ∷ zeros n

unfoldable pub set_incidents : MemoryProjection → List (ℕ × ℕ) → Result MemoryProjection
set_incidents p ends = do
  counted ← count_ends (zeros (length p.nodes + 1)) ends
  offsets ← sum_all counted
  incidents ←
      put_incidents (take (length p.nodes) offsets) (zeros (last_or_zero (get_last? offsets))) 0
        ends
  ok (record p { incident_offsets = offsets; incident_facts = incidents; incident_delta = [] })

-- `self.fact_lookup.get(id).map(|index| &self.facts[*index]).ok_or(…)?`
abbrev pub known_fact : MemoryProjection → FactId → Result MemoryFact
known_fact p id = do
  index ← ok_or (missing_fact id) (get p.fact_lookup id)
  or_panic (get_elem? p.facts index)

abbrev pub supersedes_other : Option FactId → FactId → Bool
supersedes_other none id = Bool.true
supersedes_other (some prior) id = not (prior == id)

unfoldable pub check_supersession : MemoryProjection → FactId × Supersession → Result (Unit {0})
check_supersession p (prior, change) = do
  prior_fact ← known_fact p prior
  replacement ← known_fact p change.replacement
  reject
      (supersedes_other replacement.supersedes prior_fact.id
        || differs replacement.valid_from change.valid_from
        || differs replacement.recorded_at change.recorded_at)
      (invalid_value "projection.supersessions"
        "supersession index disagrees with replacement fact")

unfoldable pub check_retraction : MemoryProjection → FactId × Retraction → Result (Unit {0})
check_retraction p (id, change) = do
  fact ← known_fact p id
  reject (at_or_before change.valid_until fact.valid_from)
      (invalid_value "projection.retractions" "retraction must follow fact validity")

unfoldable pub validate_changes : MemoryProjection → Result (Unit {0})
validate_changes p = do
  try_for_each (check_supersession p) p.supersessions
  try_for_each (check_retraction p) p.retractions

unfoldable pub rebuild_indexes : MemoryProjection → Result MemoryProjection
rebuild_indexes p = do
  node_lookup ← index_nodes p.node_lookup 0 p.nodes
  indexed ← index_facts node_lookup p.fact_lookup 0 p.facts
  p' ← set_incidents (record p { node_lookup = node_lookup; fact_lookup = indexed.0 }) indexed.1
  validate_changes p'
  ok p'

-- `deserialize`, from the data on; each index draws a random seed.
unfoldable pub from_data : (node_seed fact_seed : ℕ) → ProjectionData → Result MemoryProjection
from_data node_seed fact_seed stored = rebuild_indexes (record {
  nodes = stored.nodes;
  facts = stored.facts;
  node_lookup = empty_index node_seed;
  fact_lookup = empty_index fact_seed;
  incident_offsets = [];
  incident_facts = [];
  incident_delta = [];
  supersessions = stored.supersessions;
  retractions = stored.retractions;
  last_global_position = stored.last_global_position;
})
