-- ===== src/Projection/Apply.antt =====
-- projection/memory/apply.rs: the projection of memory events as an implementation of `Projection`.
use weavatrix_memory.Base.{
  ℕ, ◌≡◌, refl, arith, Bool, not, ◌||◌, some, List, ◌==◌, if◌then◌else◌, Result, ok, err, reject,
  ◌>>=◌, ◌>>◌, invalid_value,
}
use weavatrix_memory.Map.{text_key}
use weavatrix_memory.Time.{Timestamp, before}
use weavatrix_memory.Domain.{
  MemoryFact, MemoryEvent, node_upserted, fact_recorded, fact_retracted, event_type_of,
}
use weavatrix_memory.Event.{EventMetadata, StoredEvent}
use weavatrix_memory.Replay.{Projection, IsLawful}
use weavatrix_memory.Projection.State.{MemoryProjection, with_seeds}
use weavatrix_memory.Projection.Update.{insert_node, insert_fact, apply_retraction}

-- `!=` on timestamps
abbrev pub differs : Timestamp → Timestamp → Bool
differs a b = before a b || before b a

-- The provenance of a fact is that of its envelope.
abbrev pub envelope_differs : MemoryFact → EventMetadata → Bool
envelope_differs f m =
    differs f.recorded_at m.recorded_at
    || not (f.agent_id == m.agent_id)
    || not (f.session_id == m.session_id)

abbrev pub fact_envelope_error : Result MemoryProjection
fact_envelope_error =
    err (invalid_value "fact.envelope" "fact provenance must match its event envelope")

-- The `match` on the payload.
unfoldable pub apply_payload :
    MemoryProjection → EventMetadata → MemoryEvent → Result MemoryProjection
apply_payload p m (node_upserted node) =
    insert_node p
      (record { node = node; recorded_at = m.recorded_at; position = m.global_position })
apply_payload p m (fact_recorded f) =
    if envelope_differs f m then fact_envelope_error else insert_fact p f
apply_payload p m (fact_retracted fact_id valid_until evidence) =
    apply_retraction p m.recorded_at fact_id valid_until evidence

unfoldable pub apply : MemoryProjection → StoredEvent MemoryEvent → Result MemoryProjection
apply p event = do
  reject (not (event.event_type == event_type_of event.payload))
      (invalid_value "event_type" "must match the memory event payload")
  p' ← apply_payload p event.metadata event.payload
  ok (record p' { last_global_position = some event.global_position })

-- The `match` of `apply_owned`.
unfoldable pub apply_owned_payload :
    MemoryProjection → EventMetadata → MemoryEvent → Result MemoryProjection
apply_owned_payload p m (node_upserted node) =
    insert_node p
      (record { node = node; recorded_at = m.recorded_at; position = m.global_position })
apply_owned_payload p m (fact_recorded f) = do
  reject (envelope_differs f m)
      (invalid_value "fact.envelope" "fact provenance must match its event envelope")
  insert_fact p f
apply_owned_payload p m (fact_retracted fact_id valid_until evidence) =
    apply_retraction p m.recorded_at fact_id valid_until evidence

-- `apply_owned` takes the event apart first.
unfoldable pub apply_owned : MemoryProjection → StoredEvent MemoryEvent → Result MemoryProjection
apply_owned p event = do
  let metadata = event.metadata
  let payload = event.payload
  reject (not (metadata.event_type == event_type_of payload))
      (invalid_value "event_type" "must match the memory event payload")
  p' ← apply_owned_payload p metadata payload
  ok (record p' { last_global_position = some metadata.global_position })

-- `prepare_replay` only reserves capacity.
unfoldable pub prepare_replay : MemoryProjection → List (StoredEvent MemoryEvent) → MemoryProjection
prepare_replay p events = p

abbrev pub memory_projection : (node_seed fact_seed : ℕ) → Projection MemoryEvent MemoryProjection
memory_projection node_seed fact_seed = record {
  default = with_seeds node_seed fact_seed;
  prepare_replay = prepare_replay;
  apply = apply;
  apply_owned = apply_owned;
}

apply_owned_payload-eq :
    (p : MemoryProjection) (m : EventMetadata) (payload : MemoryEvent)
    → apply_owned_payload p m payload ≡ apply_payload p m payload
unfolding apply_owned_payload apply_payload
apply_owned_payload-eq p m (node_upserted node) = refl
apply_owned_payload-eq p m (fact_recorded f) = ground arith
apply_owned_payload-eq p m (fact_retracted fact_id valid_until evidence) = refl

pub memory_projection-IsLawful :
    (node_seed fact_seed : ℕ) → IsLawful (memory_projection node_seed fact_seed)
unfolding prepare_replay apply apply_owned
memory_projection-IsLawful node_seed fact_seed = record {
  silent = λ p events. refl;
  owned = λ p event. rw (apply_owned_payload-eq p event.metadata event.payload) refl;
}
