-- ===== src/Projection/Parts.antt =====
-- projection/memory/parts.rs: a projection from nodes and facts, without events. `prepare_facts`
-- gives the chunks of the facts to threads and joins their results in the order of the chunks, with
-- the first error; what it returns is what one worker returns.
use weavatrix_memory.Base.{
  ℕ, suc, Option, List, [], ◌∷◌, ◌++◌, map, length, Result, ok, reject, try_map, ◌>>=◌, ◌>>◌,
  invalid_value, conflicting_fact,
}
use weavatrix_memory.Time.{Timestamp, before}
use weavatrix_memory.Domain.{MemoryNode, MemoryFact, validate_node, validate_fact}
use weavatrix_memory.Index.{IdIndex, hash, insert_id, insert_hashed}
use weavatrix_memory.Store.{u64_from}
use weavatrix_memory.Projection.State.{new_history, MemoryProjection, with_seeds}
use weavatrix_memory.Projection.Update.{require_entity, supersede}
use weavatrix_memory.Projection.Rebuild.{is_some, set_incidents}

pub record PreparedFact : Type 0 where
  pub source : ℕ
  pub target : ℕ
  pub id_hash : ℕ

-- The loop over the nodes.
pub add_nodes :
    MemoryProjection
    → (position : ℕ) → (known_at : Timestamp) → List MemoryNode
    → Result MemoryProjection
add_nodes p position known_at [] = ok p
add_nodes p position known_at (node ∷ nodes) = do
  validate_node node
  reject (is_some (insert_id p.node_lookup node.id (length p.nodes)).0)
      (invalid_value "nodes" "node identifiers must be unique")
  at ← u64_from position
  add_nodes
      (record p {
        node_lookup = (insert_id p.node_lookup node.id (length p.nodes)).1;
        nodes =
            p.nodes
            ++ new_history (record { node = node; recorded_at = known_at; position = at }) ∷ [];
      })
      (suc position) known_at nodes

pub prepare_fact : MemoryProjection → (known_at : Timestamp) → MemoryFact → Result PreparedFact
prepare_fact p known_at f = do
  reject (before known_at f.recorded_at)
      (invalid_value "facts" "fact recorded_at must not exceed known_at")
  validate_fact f
  source ← require_entity p f.source
  target ← require_entity p f.target
  ok (record { source = source; target = target; id_hash = hash p.fact_lookup f.id })

pub prepare_facts :
    MemoryProjection → (known_at : Timestamp) → List MemoryFact → Result (List PreparedFact)
prepare_facts p known_at facts = try_map (prepare_fact p known_at) facts

-- The loop that enters the facts, of `facts.iter().zip(&prepared)`.
pub index_prepared : IdIndex → (index : ℕ) → List MemoryFact → List PreparedFact → Result IdIndex
index_prepared ix index [] prepared = ok ix
index_prepared ix index (f ∷ fs) [] = ok ix
index_prepared ix index (f ∷ fs) (r ∷ rs) = do
  reject (is_some (insert_hashed ix f.id index r.id_hash).0) (conflicting_fact f.id)
  index_prepared (insert_hashed ix f.id index r.id_hash).1 (suc index) fs rs

pub supersede_all : MemoryProjection → List MemoryFact → Result MemoryProjection
supersede_all p [] = ok p
supersede_all p (f ∷ fs) = do p' ← supersede p f.supersedes f; supersede_all p' fs

pub try_from_parts :
    (node_seed fact_seed : ℕ) (nodes : List MemoryNode) (facts : List MemoryFact)
    (known_at : Timestamp) (source_position : Option ℕ)
    → Result MemoryProjection
try_from_parts node_seed fact_seed nodes facts known_at source_position = do
  p ← add_nodes (with_seeds node_seed fact_seed) 0 known_at nodes
  prepared ← prepare_facts p known_at facts
  fact_lookup ← index_prepared p.fact_lookup 0 facts prepared
  changed ← supersede_all (record p { fact_lookup = fact_lookup }) facts
  whole ←
      set_incidents (record changed { facts = facts }) (map (λ r. (r.source, r.target)) prepared)
  ok (record whole { last_global_position = source_position })
