-- ===== src/Projection/State.antt =====
-- projection/memory/state.rs and the types of projection/memory/mod.rs.
use weavatrix_memory.Base.{ℕ, Option, none, List, [], ◌∷◌}
use weavatrix_memory.Map.{Map}
use weavatrix_memory.Time.{Timestamp}
use weavatrix_memory.Domain.{FactId, MemoryNode, MemoryFact}
use weavatrix_memory.Index.{IdIndex, empty_index}

pub record NodeRevision : Type 0 where
  pub node : MemoryNode
  pub recorded_at : Timestamp
  pub position : ℕ

pub record NodeHistory : Type 0 where
  pub first : NodeRevision
  pub later : List NodeRevision

abbrev pub new_history : NodeRevision → NodeHistory
new_history first = record { first = first; later = [] }

pub record Supersession : Type 0 where
  pub replacement : FactId
  pub valid_from : Timestamp
  pub recorded_at : Timestamp

pub record Retraction : Type 0 where
  pub valid_until : Timestamp
  pub recorded_at : Timestamp

pub record MemoryProjection : Type 0 where
  pub nodes : List NodeHistory
  pub facts : List MemoryFact
  pub node_lookup : IdIndex
  pub fact_lookup : IdIndex
  pub incident_offsets : List ℕ
  pub incident_facts : List ℕ
  pub incident_delta : Map ℕ (List ℕ)
  pub supersessions : Map FactId Supersession
  pub retractions : Map FactId Retraction
  pub last_global_position : Option ℕ

-- `with_capacity`; the capacities do not show, and each index draws a random seed.
abbrev pub with_seeds : (node_seed fact_seed : ℕ) → MemoryProjection
with_seeds node_seed fact_seed = record {
  nodes = [];
  facts = [];
  node_lookup = empty_index node_seed;
  fact_lookup = empty_index fact_seed;
  incident_offsets = 0 ∷ [];
  incident_facts = [];
  incident_delta = [];
  supersessions = [];
  retractions = [];
  last_global_position = none;
}

-- The two times of a question: when it was true, and what was known.
pub record ProjectionClock : Type 0 where
  pub valid_at : Timestamp
  pub known_at : Timestamp
