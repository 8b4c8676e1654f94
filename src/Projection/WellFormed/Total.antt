-- ===== src/Projection/WellFormed/Total.antt =====
-- projection/memory/mod.rs: the places where the write side could panic.
use weavatrix_memory.Base.{
  ℕ, String, ◌≡◌, refl, ◌≢◌, not, Option, none, some, List, arith, ◌==◌, inl, inr, ok, panic,
  >>=-ne-panic, reject-ne-panic, ok_or-ne-panic, ok-ne-panic, >>-ne-panic, try_for_each-ne-panic,
  conflicting_fact, missing_fact, missing_entity, invalid_value,
}
use weavatrix_memory.Map.{text_key}
use weavatrix_memory.Time.{Timestamp, before, at_or_before}
use weavatrix_memory.Domain.{
  EntityId, FactId, Evidence, MemoryFact, MemoryNode, validate_node, validate_fact,
  validate_evidence, no_evidence, ends_too_early, MemoryEvent, node_upserted, fact_recorded,
  fact_retracted, event_type_of,
}
use weavatrix_memory.Text.{is_empty, validate_text, validate_optional_text}
use weavatrix_memory.Event.{EventMetadata, StoredEvent}
use weavatrix_memory.Index.{get, contains_id}
use weavatrix_memory.Projection.State.{NodeRevision, MemoryProjection}
use weavatrix_memory.Projection.Query.{fact}
use weavatrix_memory.Projection.Update.{
  place_node, insert_node, require_entity, apply_supersession, supersede, place_fact, insert_fact,
  apply_retraction,
}
use weavatrix_memory.Projection.Apply.{apply, apply_payload}
use weavatrix_memory.Projection.WellFormed.{IsWellFormed, push_later_succeeds}
use weavatrix_memory.Projection.WellFormed.Events.{fact-cases}

validate_text-ne-panic : (field value : String) → validate_text field value ≢ panic
unfolding validate_text
validate_text-ne-panic field value = ground arith

validate_optional_text-ne-panic :
    (field : String) (value : Option String) → validate_optional_text field value ≢ panic
unfolding validate_optional_text
validate_optional_text-ne-panic field none = ground arith
validate_optional_text-ne-panic field (some value) = validate_text-ne-panic field value

validate_node-ne-panic : (n : MemoryNode) → validate_node n ≢ panic
unfolding validate_node
validate_node-ne-panic n = >>-ne-panic _ _ (validate_text-ne-panic "node.kind" n.kind) (
    >>-ne-panic _ _
      (reject-ne-panic (is_empty n.label) (invalid_value "node.label" "must be non-empty"))
      (>>-ne-panic _ _ (validate_optional_text-ne-panic "node.repository" n.repository) (
        >>-ne-panic _ _ (validate_optional_text-ne-panic "node.branch" n.branch) (
          try_for_each-ne-panic _ (λ entry. validate_text-ne-panic "node.attribute.key" entry.0)
            n.attributes))))

validate_evidence-ne-panic : (e : Evidence) → validate_evidence e ≢ panic
unfolding validate_evidence
validate_evidence-ne-panic e = >>-ne-panic _ _ (validate_text-ne-panic "evidence.kind" e.kind) (
    >>-ne-panic _ _ (validate_text-ne-panic "evidence.source" e.source) (
      >>-ne-panic _ _ (validate_optional_text-ne-panic "evidence.locator" e.locator)
        (validate_optional_text-ne-panic "evidence.digest" e.digest)))

validate_fact-ne-panic : (f : MemoryFact) → validate_fact f ≢ panic
unfolding validate_fact
validate_fact-ne-panic f = >>-ne-panic _ _ (validate_text-ne-panic "fact.relation" f.relation) (
    >>-ne-panic _ _
      (reject-ne-panic (before f.recorded_at f.observed_at)
        (invalid_value "fact.observed_at" "must not be later than recorded_at"))
      (>>-ne-panic _ _
        (reject-ne-panic (ends_too_early f.valid_until f.valid_from)
          (invalid_value "fact.valid_until" "must be later than valid_from"))
        (>>-ne-panic _ _
          (reject-ne-panic (no_evidence f.evidence)
            (invalid_value "fact.evidence" "at least one evidence item is required"))
          (try_for_each-ne-panic _ validate_evidence-ne-panic f.evidence))))

place_node-ne-panic :
    (p : MemoryProjection) (r : NodeRevision) (o : Option ℕ)
    → IsWellFormed p
    → get p.node_lookup r.node.id ≡ o
    → place_node p r o ≢ panic
place_node-ne-panic p r none w h = ok-ne-panic _
place_node-ne-panic p r (some i) w h =
    let (hs, done) = push_later_succeeds r p.nodes i (w.node_index.points r.node.id i h) in
    ground (arith, done)

insert_node-ne-panic :
    (p : MemoryProjection) (r : NodeRevision) → IsWellFormed p → insert_node p r ≢ panic
unfolding insert_node
insert_node-ne-panic p r w =
    >>-ne-panic _ _ (validate_node-ne-panic r.node)
      (place_node-ne-panic p r (get p.node_lookup r.node.id) w refl)

supersede-ne-panic :
    (p : MemoryProjection) (o : Option FactId) (f : MemoryFact) → supersede p o f ≢ panic
unfolding apply_supersession
supersede-ne-panic p none f = ok-ne-panic p
supersede-ne-panic p (some prior) f = ground arith

insert_fact-ne-panic : (p : MemoryProjection) (f : MemoryFact) → insert_fact p f ≢ panic
unfolding insert_fact require_entity
insert_fact-ne-panic p f = >>-ne-panic _ _ (validate_fact-ne-panic f) (
    >>=-ne-panic (require_entity p f.source) _ (known p f.source) (λ s _.
      >>=-ne-panic (require_entity p f.target) _ (known p f.target) (λ t _.
        >>-ne-panic _ _ (reject-ne-panic (contains_id p.fact_lookup f.id) (conflicting_fact f.id)) (
          >>=-ne-panic (supersede p f.supersedes f) (λ q. ok (place_fact q f s t))
            (supersede-ne-panic p f.supersedes f) (λ q _. ok-ne-panic (place_fact q f s t))))))
  where
    known : (p : MemoryProjection) (id : EntityId) → require_entity p id ≢ panic
    known p id = ok_or-ne-panic (missing_entity id) (get p.node_lookup id)

apply_retraction-ne-panic :
    (p : MemoryProjection) (at : Timestamp) (id : FactId) (until : Timestamp)
    (evidence : List Evidence)
    → IsWellFormed p
    → apply_retraction p at id until evidence ≢ panic
unfolding apply_retraction
apply_retraction-ne-panic p at id until evidence w =
    >>=-ne-panic (fact p id) _ (fact-ne-panic p id w) (λ o _.
      >>=-ne-panic _ _ (ok_or-ne-panic (missing_fact id) o) (λ f _.
        >>-ne-panic _ _
          (reject-ne-panic (at_or_before until f.valid_from)
            (invalid_value "retraction.valid_until" "must be later than the fact valid_from"))
          (>>-ne-panic _ _
            (reject-ne-panic (no_evidence evidence)
              (invalid_value "retraction.evidence" "at least one evidence item is required"))
            (>>-ne-panic _ _ (try_for_each-ne-panic _ validate_evidence-ne-panic evidence)
              (ok-ne-panic _)))))
  where
    fact-ne-panic : (p : MemoryProjection) (id : FactId) → IsWellFormed p → fact p id ≢ panic
    fact-ne-panic p id w = elim (fact-cases p id w) [
      | inl h ↦ ground (arith, h)
      | inr (i, f, h, _, _) ↦ ground (arith, h)
    ]

apply_payload-ne-panic :
    (p : MemoryProjection) (m : EventMetadata) (payload : MemoryEvent)
    → IsWellFormed p
    → apply_payload p m payload ≢ panic
unfolding apply_payload
apply_payload-ne-panic p m (node_upserted node) w = insert_node-ne-panic p _ w
apply_payload-ne-panic p m (fact_recorded f) w = ground (arith, insert_fact-ne-panic p f)
apply_payload-ne-panic p m (fact_retracted id until evidence) w =
    apply_retraction-ne-panic p m.recorded_at id until evidence w

-- Applying an event to a well-formed projection never panics.
pub apply-ne-panic :
    (p : MemoryProjection) (event : StoredEvent MemoryEvent)
    → IsWellFormed p
    → apply p event ≢ panic
unfolding apply
apply-ne-panic p event w =
    >>-ne-panic _ _
      (reject-ne-panic (not (event.event_type == event_type_of event.payload))
        (invalid_value "event_type" "must match the memory event payload"))
      (>>=-ne-panic _ _ (apply_payload-ne-panic p event.metadata event.payload w)
        (λ q _. ok-ne-panic _))
