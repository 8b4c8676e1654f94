-- ===== src/Projection/Past.antt =====
-- projection/memory/mod.rs and apply.rs: later events and the views of the past.
mod Same
mod Steps
use weavatrix_memory.Base.{
  ℕ, zero, suc, ◌≡◌, refl, sym, ap, ◌∙◌, subst, inl, inr, Bool, true, false, not, ◌&&◌, Option,
  none, some, List, [], ◌∷◌, ◌++◌, append-nil, arith, Bool-cases, ==-cases, filter, filter-append,
  All, ok, >>=-eq-ok, ok_injective, reject, ◌==◌,
}
use weavatrix_memory.Map.{lookup, lookup-insert, lookup-insert_self, contains_key, text_key}
use weavatrix_memory.Time.{Timestamp, before, at_or_before}
use weavatrix_memory.Domain.{
  FactId, MemoryNode, Evidence, MemoryFact, MemoryEvent, node_upserted, fact_recorded,
  fact_retracted, event_type_of, validate_node,
}
use weavatrix_memory.Event.{EventMetadata, StoredEvent}
use weavatrix_memory.Index.{get}
use weavatrix_memory.Projection.State.{
  NodeRevision, NodeHistory, new_history, Retraction, MemoryProjection, ProjectionClock,
}
use weavatrix_memory.Projection.Query.{
  newest, known_revisions, visible_revision, visible_nodes, is_among, is_superseded, is_retracted,
  fact_is_active, view,
}
use weavatrix_memory.Projection.Update.{
  push_later, place_node, insert_node, supersede, place_fact, insert_fact, apply_retraction,
}
use weavatrix_memory.Projection.Apply.{apply, apply_payload, envelope_differs}
use weavatrix_memory.Projection.WellFormed.{IsWellFormed}
use weavatrix_memory.Projection.WellFormed.Facts.{
  supersession_of, supersede-ok, insert_fact-ok, place_fact_lem, placed, middle-fields,
}
use weavatrix_memory.Projection.WellFormed.Events.{apply_retraction-ok, apply-IsWellFormed}
use weavatrix_memory.Projection.Views.{view-facts}
use weavatrix_memory.Projection.Past.Same.{IsSameAt, view_same}
use weavatrix_memory.Projection.Past.Steps.{
  place_node-IsSameAt, insert_fact-IsSameAt, apply_retraction-IsSameAt,
}

-- The event does not retract a fact for a second time.
abbrev pub IsFirstRetraction : MemoryProjection → MemoryEvent → Type 0
IsFirstRetraction p (node_upserted node) = Unit {0}
IsFirstRetraction p (fact_recorded f) = Unit {0}
IsFirstRetraction p (fact_retracted id until evidence) = lookup id p.retractions ≡ none

apply_payload-IsSameAt :
    (known : Timestamp) (p p' : MemoryProjection) (m : EventMetadata) (payload : MemoryEvent)
    → before known m.recorded_at ≡ true
    → IsFirstRetraction p payload
    → apply_payload p m payload ≡ ok p'
    → IsSameAt known p p'
unfolding apply_payload insert_node
apply_payload-IsSameAt known p p' m (node_upserted node) t first h =
    let (_, _, placed_node) = >>=-eq-ok (validate_node node) _ h in
    place_node-IsSameAt known p p'
      (record { node = node; recorded_at = m.recorded_at; position = m.global_position })
      (get p.node_lookup node.id) t placed_node
apply_payload-IsSameAt known p p' m (fact_recorded f) t first h =
    elim (Bool-cases (envelope_differs f m)) [
      | inl d ↦ ground (arith, h, d)
      | inr d ↦
          insert_fact-IsSameAt known p p' f
            (recorded_after known f.recorded_at m.recorded_at t (ground (arith, d)))
            (ground (arith, h, d))
    ]
  where
    recorded_after :
        (known a b : Timestamp) → before known b ≡ true → before a b ≡ false → before known a ≡ true
    recorded_after known a b t d = ground arith
apply_payload-IsSameAt known p p' m (fact_retracted id until evidence) t first h =
    apply_retraction-IsSameAt known p p' m.recorded_at id until evidence t first h

-- An event that is applied to a well-formed projection, was recorded after `known_at` of a clock,
-- and does not retract a fact that has a retraction already, leaves the view at that clock as it
-- was.
pub view-apply_past :
    (p p' : MemoryProjection) (event : StoredEvent MemoryEvent) (clock : ProjectionClock)
    → IsWellFormed p
    → before clock.known_at event.metadata.recorded_at ≡ true
    → IsFirstRetraction p event.payload
    → apply p event ≡ ok p'
    → view p' clock ≡ view p clock
unfolding apply
view-apply_past p p' event clock w t first h =
    let (_, _, h1) =
      >>=-eq-ok (reject (not (event.event_type == event_type_of event.payload)) _) _ h in
    let (q, done, same) = >>=-eq-ok (apply_payload p event.metadata event.payload) _ h1 in
    let s = apply_payload-IsSameAt clock.known_at p q event.metadata event.payload t first done in
    view_same p p' clock w (apply-IsWellFormed p p' event w h) (
      subst (IsSameAt clock.known_at p) (ok_injective same) (record {
        nodes = s.nodes;
        new = s.new;
        facts = s.facts;
        unknown = s.unknown;
        superseded = s.superseded;
        retracted = s.retracted;
      }))

-- Let a fact be ended at a clock by the recorded retraction, which is known there, and by nothing
-- else. Once an event recorded after `known_at` retracts the fact again, the fact is active at
-- that clock, where it was not before.
pub apply-revives :
    (p p' : MemoryProjection) (event : StoredEvent MemoryEvent) (f : MemoryFact)
    (clock : ProjectionClock) (until : Timestamp) (evidence : List Evidence)
    → event.payload ≡ fact_retracted f.id until evidence
    → before clock.known_at event.metadata.recorded_at ≡ true
    → fact_is_active (record p { retractions = [] }) f clock ≡ true
    → is_retracted (lookup f.id p.retractions) clock ≡ true
    → apply p event ≡ ok p'
    → (fact_is_active p f clock ≡ false) × (fact_is_active p' f clock ≡ true)
unfolding apply apply_payload fact_is_active lookup
apply-revives p p' event f clock until evidence is t otherwise ended h =
    let (_, _, h1) =
      >>=-eq-ok (reject (not (event.event_type == event_type_of event.payload)) _) _ h in
    let (q, done, same) = >>=-eq-ok (apply_payload p event.metadata event.payload) _ h1 in
    let done' : apply_retraction p event.metadata.recorded_at f.id until evidence ≡ ok q =
      rw is at done in
    let (g, found, later, q_is) =
      apply_retraction-ok p q event.metadata.recorded_at f.id until evidence done' in
    let new : Retraction = record {
      valid_until = until;
      recorded_at = event.metadata.recorded_at;
    } in
    let changes : p'.supersessions ≡ p.supersessions =
      ap (λ (x : MemoryProjection). x.supersessions) (sym (ok_injective same))
      ∙ ap (λ (x : MemoryProjection). x.supersessions) q_is in
    let latest_one : lookup f.id p'.retractions ≡ some new =
      ap (λ (x : MemoryProjection). lookup f.id x.retractions) (sym (ok_injective same))
      ∙ ap (λ (x : MemoryProjection). lookup f.id x.retractions) q_is
      ∙ lookup-insert_self f.id new p.retractions in
    let unknown : is_retracted (lookup f.id p'.retractions) clock ≡ false =
      rw latest_one (ground (arith, t)) in
    (
      ground (arith, otherwise, ended),
      ground (arith, otherwise, unknown, ap (λ x. is_superseded (lookup f.id x) clock) changes),
    )
