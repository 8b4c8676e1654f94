-- ===== src/Examples.antt =====
-- The theorems at concrete inputs. The parent has the data that the examples share.
mod Codecs
mod Contexts
mod Disks
mod Files
mod Stores
mod Replays
mod Projections
use weavatrix_memory.Base.{ℕ, String, Option, none, some, List, [], ◌∷◌}
use weavatrix_memory.Time.{ℤ}
use weavatrix_memory.Domain.{MemoryNode, MemoryFact, Evidence, MemoryEvent, certain, event_type_of}
use weavatrix_memory.Event.{NewEvent, EventMetadata, StoredEvent}

abbrev pub draft : String → ℕ → NewEvent ℕ
draft id payload = record {
  id = id;
  event_type = "number";
  occurred_at = ℤ.pos 5;
  recorded_at = ℤ.pos 7;
  agent_id = "agent";
  session_id = "session";
  correlation_id = none;
  causation_id = none;
  payload = payload;
}

abbrev pub meta : (id stream event_type : String) → (version position : ℕ) → ℤ → EventMetadata
meta id stream event_type version position recorded_at = record {
  id = id;
  stream_id = stream;
  stream_version = version;
  global_position = position;
  event_type = event_type;
  occurred_at = recorded_at;
  recorded_at = recorded_at;
  agent_id = "agent";
  session_id = "session";
  correlation_id = none;
  causation_id = none;
}

abbrev pub stored : (id stream : String) → (version position : ℕ) → StoredEvent ℕ
stored id stream version position = record {
  metadata = meta id stream "number" version position (ℤ.pos 7);
  payload = 10;
}

-- Two streams in one log.
abbrev pub log : List (StoredEvent ℕ)
log = stored "e0" "a" 0 0 ∷ stored "e1" "b" 0 1 ∷ stored "e2" "a" 1 2 ∷ []

abbrev pub memory_event : (id : String) → (position : ℕ) → ℤ → MemoryEvent → StoredEvent MemoryEvent
memory_event id position recorded_at payload = record {
  metadata = meta id "memory" (event_type_of payload) position position recorded_at;
  payload = payload;
}

abbrev pub node_of : String → MemoryNode
node_of id = record {
  id = id;
  kind = "service";
  label = id;
  repository = none;
  branch = none;
  attributes = [];
}

abbrev pub proof : Evidence
proof = record { kind = "log"; source = "ci"; locator = none; digest = none }

abbrev pub fact_of : (id source target : String) → ℤ → MemoryFact
fact_of id source target recorded_at = record {
  id = id;
  source = source;
  relation = "uses";
  target = target;
  valid_from = ℤ.pos 10;
  valid_until = none;
  observed_at = recorded_at;
  recorded_at = recorded_at;
  agent_id = "agent";
  session_id = "session";
  confidence = certain;
  evidence = proof ∷ [];
  supersedes = none;
}
