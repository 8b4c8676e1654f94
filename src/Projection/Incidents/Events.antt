-- ===== src/Projection/Incidents/Events.antt =====
-- projection/memory: events keep the incident indexes.
use weavatrix_memory.Base.{
  ◌≡◌, sym, subst, inl, inr, not, Bool-cases, arith, ◌==◌, ok, reject, >>=-eq-ok, ok_injective,
}
use weavatrix_memory.Map.{text_key}
use weavatrix_memory.Domain.{
  MemoryFact, MemoryEvent, node_upserted, fact_recorded, fact_retracted, validate_node,
  event_type_of,
}
use weavatrix_memory.Event.{EventMetadata, StoredEvent}
use weavatrix_memory.Index.{get}
use weavatrix_memory.Projection.State.{MemoryProjection}
use weavatrix_memory.Projection.Update.{insert_node, insert_fact}
use weavatrix_memory.Projection.Apply.{apply, apply_payload, envelope_differs}
use weavatrix_memory.Projection.WellFormed.Facts.{insert_fact-ok, middle-fields}
use weavatrix_memory.Projection.WellFormed.Events.{apply_retraction-ok}
use weavatrix_memory.Projection.Incidents.Kept.{
  IsIndexed, place_node-IsIndexed, place_fact-IsIndexed,
}

insert_fact-IsIndexed :
    (p p' : MemoryProjection) (f : MemoryFact)
    → IsIndexed p
    → insert_fact p f ≡ ok p'
    → IsIndexed p'
insert_fact-IsIndexed p p' f k h =
    let a = insert_fact-ok p p' f h in
    let middle =
      subst IsIndexed (sym (middle-fields p a.middle f a.superseded))
        (record { spans = k.spans; ranges = k.ranges; stable = k.stable; delta = k.delta }) in
    subst IsIndexed (sym a.placed) (place_fact-IsIndexed a.middle f a.source a.target middle)

apply_payload-IsIndexed :
    (p p' : MemoryProjection) (m : EventMetadata) (payload : MemoryEvent)
    → IsIndexed p
    → apply_payload p m payload ≡ ok p'
    → IsIndexed p'
unfolding apply_payload insert_node
apply_payload-IsIndexed p p' m (node_upserted node) k h =
    let (_, _, placed) = >>=-eq-ok (validate_node node) _ h in
    place_node-IsIndexed p p' _ (get p.node_lookup node.id) k placed
apply_payload-IsIndexed p p' m (fact_recorded f) k h = elim (Bool-cases (envelope_differs f m)) [
  | inl t ↦ absurd (ground (arith, h, t))
  | inr t ↦ insert_fact-IsIndexed p p' f k (ground (arith, h, t))
]
apply_payload-IsIndexed p p' m (fact_retracted id until evidence) k h =
    let (_, _, _, same) = apply_retraction-ok p p' m.recorded_at id until evidence h in
    subst IsIndexed (sym same)
      (record { spans = k.spans; ranges = k.ranges; stable = k.stable; delta = k.delta })

-- If the incident indexes of a projection have a range for each node and only positions of facts,
-- they do after an event that is applied.
pub apply-IsIndexed :
    (p p' : MemoryProjection) (event : StoredEvent MemoryEvent)
    → IsIndexed p
    → apply p event ≡ ok p'
    → IsIndexed p'
unfolding apply
apply-IsIndexed p p' event k h =
    let (_, _, h1) =
      >>=-eq-ok (reject (not (event.event_type == event_type_of event.payload)) _) _ h in
    let (q, done, same) = >>=-eq-ok (apply_payload p event.metadata event.payload) _ h1 in
    let i = apply_payload-IsIndexed p q event.metadata event.payload k done in
    subst IsIndexed (ok_injective same)
      (record { spans = i.spans; ranges = i.ranges; stable = i.stable; delta = i.delta })
