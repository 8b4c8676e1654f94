-- ===== src/Examples/Projections.antt =====
-- The memory projection at concrete inputs: two nodes, a fact between them and two retractions.
use weavatrix_memory.Base.{
  ℕ, ◌≡◌, refl, ◌≢◌, ◌⊎◌, ◌↔◌, true, false, not, ◌&&◌, none, some, List, [], ◌∷◌, filter, All,
  Result, ok, err, panic,
}
use weavatrix_memory.Time.{ℤ, before, at_or_before}
use weavatrix_memory.Map.{contains_key, lookup, insert, text_key, nat_key}
use weavatrix_memory.Text.{
  is_whitespace, trim_start, put_front, trim_end, trim, is_empty, is_padded, validate_text,
  validate_optional_text,
}
use weavatrix_memory.Domain.{
  MemoryFact, MemoryEvent, node_upserted, fact_recorded, fact_retracted, validate_node,
  validate_fact, validate_evidence,
}
use weavatrix_memory.Event.{StoredEvent}
use weavatrix_memory.Index.{
  char_bytes, as_bytes, from_le_bytes, chunks, mix_chunk, mix_chunks, fingerprint, hash, find_slot,
  get_hashed, get, insert_hashed, insert_id, contains_id,
}
use weavatrix_memory.Replay.{ProjectionSnapshot, start_cursor, replay_tracked, resume}
use weavatrix_memory.Replay.Invariant.{Outcome}
use weavatrix_memory.Projection.State.{
  NodeRevision, NodeHistory, MemoryProjection, ProjectionClock, with_seeds,
}
use weavatrix_memory.Projection.Query.{
  key_at_most, visible_revision, is_among, is_retracted, fact_is_active, view, fact,
}
use weavatrix_memory.Projection.Update.{
  insert_node, insert_fact, require_entity, apply_supersession, apply_retraction,
}
use weavatrix_memory.Projection.Apply.{apply, apply_payload, memory_projection}
use weavatrix_memory.Projection.WellFormed.{IsWellFormed, with_seeds-IsWellFormed}
use weavatrix_memory.Projection.WellFormed.Events.{apply-IsWellFormed}
use weavatrix_memory.Projection.WellFormed.Total.{apply-ne-panic}
use weavatrix_memory.Projection.Replayed.{replay_memory-IsWellFormed, resume_memory-IsWellFormed}
use weavatrix_memory.Projection.Incidents.Kept.{IsIndexed, with_seeds-IsIndexed}
use weavatrix_memory.Projection.Incidents.Events.{apply-IsIndexed}
use weavatrix_memory.Projection.Active.{IsActive, fact_is_active_iff, fact_is_active_between}
use weavatrix_memory.Projection.Visible.{IsOneOf, visible_revision-cases}
use weavatrix_memory.Projection.Views.{view-facts}
use weavatrix_memory.Projection.Past.{view-apply_past, apply-revives}
use weavatrix_memory.Projection.Rebuild.{
  ProjectionData, data_of, from_data, rebuild_indexes, index_nodes, index_facts, entity_index,
  set_incidents, count_ends, sum_offsets, put_incident, put_incidents, validate_changes,
  check_supersession, check_retraction,
}
use weavatrix_memory.Projection.Rebuild.Accepted.{from_data-IsWellFormed}
use weavatrix_memory.Examples.{memory_event, node_of, fact_of, proof}

abbrev pub the_fact : MemoryFact
the_fact = fact_of "uses" "api" "db" (ℤ.pos 22)

abbrev api_seen : StoredEvent MemoryEvent
api_seen = memory_event "e0" 0 (ℤ.pos 20) (node_upserted (node_of "api"))

abbrev db_seen : StoredEvent MemoryEvent
db_seen = memory_event "e1" 1 (ℤ.pos 21) (node_upserted (node_of "db"))

abbrev fact_seen : StoredEvent MemoryEvent
fact_seen = memory_event "e2" 2 (ℤ.pos 22) (fact_recorded the_fact)

abbrev retracted : StoredEvent MemoryEvent
retracted = memory_event "e3" 3 (ℤ.pos 30) (fact_retracted "uses" (ℤ.pos 40) (proof ∷ []))

abbrev retracted_again : StoredEvent MemoryEvent
retracted_again = memory_event "e4" 4 (ℤ.pos 50) (fact_retracted "uses" (ℤ.pos 60) (proof ∷ []))

abbrev events : List (StoredEvent MemoryEvent)
events = api_seen ∷ db_seen ∷ fact_seen ∷ retracted ∷ []

abbrev result_of : MemoryProjection → Result MemoryProjection → MemoryProjection
result_of p (ok p') = p'
result_of p (err e) = p
result_of p panic = p

abbrev with_api : MemoryProjection
with_api = result_of (with_seeds 1 2) (apply (with_seeds 1 2) api_seen)

abbrev with_db : MemoryProjection
with_db = result_of with_api (apply with_api db_seen)

abbrev pub with_fact : MemoryProjection
with_fact = result_of with_db (apply with_db fact_seen)

abbrev with_end : MemoryProjection
with_end = result_of with_fact (apply with_fact retracted)

api_applied : apply (with_seeds 1 2) api_seen ≡ ok with_api
unfolding apply apply_payload insert_node validate_node validate_text validate_optional_text
    is_padded is_empty trim trim_start trim_end put_front is_whitespace get hash fingerprint
    as_bytes char_bytes chunks from_le_bytes mix_chunk mix_chunks get_hashed find_slot lookup insert
    insert_id insert_hashed
api_applied = refl

db_applied : apply with_api db_seen ≡ ok with_db
unfolding apply apply_payload insert_node insert_fact require_entity apply_supersession
    apply_retraction fact contains_id contains_key validate_node validate_fact validate_evidence
    validate_text validate_optional_text is_padded is_empty trim trim_start trim_end put_front
    is_whitespace get hash fingerprint as_bytes char_bytes chunks from_le_bytes mix_chunk mix_chunks
    get_hashed find_slot lookup insert insert_id insert_hashed
db_applied = refl

fact_applied : apply with_db fact_seen ≡ ok with_fact
unfolding apply apply_payload insert_node insert_fact require_entity apply_supersession
    apply_retraction fact contains_id contains_key validate_node validate_fact validate_evidence
    validate_text validate_optional_text is_padded is_empty trim trim_start trim_end put_front
    is_whitespace get hash fingerprint as_bytes char_bytes chunks from_le_bytes mix_chunk mix_chunks
    get_hashed find_slot lookup insert insert_id insert_hashed
fact_applied = refl

end_applied : apply with_fact retracted ≡ ok with_end
unfolding apply apply_payload insert_node insert_fact require_entity apply_supersession
    apply_retraction fact contains_id contains_key validate_node validate_fact validate_evidence
    validate_text validate_optional_text is_padded is_empty trim trim_start trim_end put_front
    is_whitespace get hash fingerprint as_bytes char_bytes chunks from_le_bytes mix_chunk mix_chunks
    get_hashed find_slot lookup insert insert_id insert_hashed
end_applied = refl

abbrev with_later_end : MemoryProjection
with_later_end = result_of with_end (apply with_end retracted_again)

later_end_applied : apply with_end retracted_again ≡ ok with_later_end
unfolding apply apply_payload insert_node insert_fact require_entity apply_supersession
    apply_retraction fact contains_id contains_key validate_node validate_fact validate_evidence
    validate_text validate_optional_text is_padded is_empty trim trim_start trim_end put_front
    is_whitespace get hash fingerprint as_bytes char_bytes chunks from_le_bytes mix_chunk mix_chunks
    get_hashed find_slot lookup insert insert_id insert_hashed
later_end_applied = refl

with_api-IsWellFormed : IsWellFormed with_api
with_api-IsWellFormed =
    apply-IsWellFormed (with_seeds 1 2) with_api api_seen (with_seeds-IsWellFormed 1 2) api_applied

with_db-IsWellFormed : IsWellFormed with_db
with_db-IsWellFormed = apply-IsWellFormed with_api with_db db_seen with_api-IsWellFormed db_applied

pub with_fact-IsWellFormed : IsWellFormed with_fact
with_fact-IsWellFormed =
    apply-IsWellFormed with_db with_fact fact_seen with_db-IsWellFormed fact_applied

with_api-IsIndexed : IsIndexed with_api
with_api-IsIndexed =
    apply-IsIndexed (with_seeds 1 2) with_api api_seen (with_seeds-IsIndexed 1 2) api_applied

with_db-IsIndexed : IsIndexed with_db
with_db-IsIndexed = apply-IsIndexed with_api with_db db_seen with_api-IsIndexed db_applied

pub with_fact-IsIndexed : IsIndexed with_fact
with_fact-IsIndexed = apply-IsIndexed with_db with_fact fact_seen with_db-IsIndexed fact_applied

apply-IsIndexed_example : IsIndexed with_fact
apply-IsIndexed_example = apply-IsIndexed with_db with_fact fact_seen with_db-IsIndexed fact_applied

apply-IsWellFormed_example : IsWellFormed with_fact
apply-IsWellFormed_example =
    apply-IsWellFormed with_db with_fact fact_seen with_db-IsWellFormed fact_applied

apply-ne-panic_example : apply with_fact retracted ≢ panic
apply-ne-panic_example = apply-ne-panic with_fact retracted with_fact-IsWellFormed

replay_memory-IsWellFormed_example :
    Outcome IsWellFormed (replay_tracked (memory_projection 1 2) events)
replay_memory-IsWellFormed_example = replay_memory-IsWellFormed 1 2 events

abbrev start : ProjectionSnapshot MemoryProjection
start = record { cursor = start_cursor; projection = with_seeds 1 2 }

resume_memory-IsWellFormed_example :
    Outcome IsWellFormed (resume (memory_projection 1 2) start events)
resume_memory-IsWellFormed_example =
    resume_memory-IsWellFormed 1 2 start events (with_seeds-IsWellFormed 1 2)

-- The fact was ended at 40, as was recorded at 30.
abbrev ended : MemoryProjection
ended = record (with_seeds 1 2) {
  retractions = ("uses", record { valid_until = ℤ.pos 40; recorded_at = ℤ.pos 30 }) ∷ [];
}

abbrev clock : ℕ → ProjectionClock
clock valid_at = record { valid_at = ℤ.pos valid_at; known_at = ℤ.pos 35 }

active_at_10 : fact_is_active ended the_fact (clock 10) ≡ true
unfolding fact_is_active lookup
active_at_10 = refl

active_at_39 : fact_is_active ended the_fact (clock 39) ≡ true
unfolding fact_is_active lookup
active_at_39 = refl

fact_is_active_iff_example :
    (fact_is_active ended the_fact (clock 39) ≡ true) ↔ IsActive ended the_fact (clock 39)
fact_is_active_iff_example = fact_is_active_iff ended the_fact (clock 39)

fact_is_active_between_example : fact_is_active ended the_fact (clock 20) ≡ true
fact_is_active_between_example =
    fact_is_active_between ended the_fact (ℤ.pos 35) (ℤ.pos 10) (ℤ.pos 20) (ℤ.pos 39) refl refl
      active_at_10 active_at_39

abbrev revised : NodeHistory
revised = record {
  first = record { node = node_of "api"; recorded_at = ℤ.pos 20; position = 0 };
  later = record { node = node_of "api"; recorded_at = ℤ.pos 30; position = 4 } ∷ [];
}

visible_revision-cases_example :
    ((visible_revision revised (ℤ.pos 25) ≡ none)
      × All (λ x. before (ℤ.pos 25) x.recorded_at ≡ true) (revised.first ∷ revised.later))
    ⊎ ((r : NodeRevision) × (visible_revision revised (ℤ.pos 25) ≡ some r.node)
        × IsOneOf r (revised.first ∷ revised.later)
        × (at_or_before r.recorded_at (ℤ.pos 25) ≡ true)
        × All
            (λ x. (at_or_before x.recorded_at (ℤ.pos 25) && not (key_at_most x r)) ≡ false)
            (revised.first ∷ revised.later))
visible_revision-cases_example = visible_revision-cases revised (ℤ.pos 25)

view-facts_example :
    (view with_fact (clock 20)).facts
    ≡ filter
        (λ f.
          (is_among f.source (view with_fact (clock 20)).nodes
            && is_among f.target (view with_fact (clock 20)).nodes)
          && fact_is_active with_fact f (clock 20))
        with_fact.facts
view-facts_example = view-facts with_fact (clock 20) with_fact-IsWellFormed

abbrev before_the_end : ProjectionClock
before_the_end = record { valid_at = ℤ.pos 45; known_at = ℤ.pos 25 }

no_retraction : lookup "uses" with_fact.retractions ≡ none
unfolding apply apply_payload insert_node insert_fact require_entity apply_supersession
    apply_retraction fact contains_id contains_key validate_node validate_fact validate_evidence
    validate_text validate_optional_text is_padded is_empty trim trim_start trim_end put_front
    is_whitespace get hash fingerprint as_bytes char_bytes chunks from_le_bytes mix_chunk mix_chunks
    get_hashed find_slot lookup insert insert_id insert_hashed
no_retraction = refl

view-apply_past_example : view with_end before_the_end ≡ view with_fact before_the_end
view-apply_past_example =
    view-apply_past with_fact with_end retracted before_the_end with_fact-IsWellFormed refl
      no_retraction end_applied

otherwise_active : fact_is_active (record with_end { retractions = [] }) the_fact (clock 45) ≡ true
unfolding apply apply_payload insert_node insert_fact require_entity apply_supersession
    apply_retraction fact contains_id contains_key validate_node validate_fact validate_evidence
    validate_text validate_optional_text is_padded is_empty trim trim_start trim_end put_front
    is_whitespace get hash fingerprint as_bytes char_bytes chunks from_le_bytes mix_chunk mix_chunks
    get_hashed find_slot lookup insert insert_id insert_hashed fact_is_active
otherwise_active = refl

known_end : is_retracted (lookup "uses" with_end.retractions) (clock 45) ≡ true
unfolding apply apply_payload insert_node insert_fact require_entity apply_supersession
    apply_retraction fact contains_id contains_key validate_node validate_fact validate_evidence
    validate_text validate_optional_text is_padded is_empty trim trim_start trim_end put_front
    is_whitespace get hash fingerprint as_bytes char_bytes chunks from_le_bytes mix_chunk mix_chunks
    get_hashed find_slot lookup insert insert_id insert_hashed
known_end = refl

apply-revives_example :
    (fact_is_active with_end the_fact (clock 45) ≡ false)
    × (fact_is_active with_later_end the_fact (clock 45) ≡ true)
apply-revives_example =
    apply-revives with_end with_later_end retracted_again the_fact (clock 45) (ℤ.pos 60)
      (proof ∷ []) refl refl otherwise_active known_end later_end_applied

abbrev data_read : ProjectionData
data_read = record {
  nodes = revised ∷ [];
  facts = fact_of "self" "api" "api" (ℤ.pos 22) ∷ [];
  supersessions = [];
  retractions = ("self", record { valid_until = ℤ.pos 40; recorded_at = ℤ.pos 30 }) ∷ [];
  last_global_position = some 4;
}

abbrev rebuilt : MemoryProjection
rebuilt = result_of (with_seeds 1 2) (from_data 1 2 data_read)

data_read-rebuilt : from_data 1 2 data_read ≡ ok rebuilt
unfolding apply apply_payload insert_node insert_fact require_entity apply_supersession
    apply_retraction fact contains_id contains_key validate_node validate_fact validate_evidence
    validate_text validate_optional_text is_padded is_empty trim trim_start trim_end put_front
    is_whitespace get hash fingerprint as_bytes char_bytes chunks from_le_bytes mix_chunk mix_chunks
    get_hashed find_slot lookup insert insert_id insert_hashed from_data rebuild_indexes index_nodes
    index_facts entity_index set_incidents count_ends sum_offsets put_incident put_incidents
    validate_changes check_supersession check_retraction
data_read-rebuilt = refl

from_data-IsWellFormed_example : IsWellFormed rebuilt × (data_of rebuilt ≡ data_read)
from_data-IsWellFormed_example = from_data-IsWellFormed 1 2 data_read rebuilt data_read-rebuilt
