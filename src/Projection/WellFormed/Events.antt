-- ===== src/Projection/WellFormed/Events.antt =====
-- projection/memory/apply.rs: the events and the invariant.
use weavatrix_memory.Base.{
  ℕ, zero, suc, ◌≡◌, refl, ap, subst, sym, ◌∙◌, true, not, none, some, List, [], ◌∷◌, arith, ◌==◌,
  reject, ==-cases, inl, inr, ◌⊎◌, Option-cases, Bool-cases, get_elem?, ok, >>=-eq-ok, reject-ok,
  ok_or-ok, ok_injective, ok_or, try_for_each, missing_fact, invalid_value,
}
use weavatrix_memory.Map.{insert, lookup-insert, text_key}
use weavatrix_memory.Time.{Timestamp, before, at_or_before}
use weavatrix_memory.Domain.{
  FactId, Evidence, MemoryFact, validate_evidence, no_evidence, MemoryEvent, node_upserted,
  fact_recorded, fact_retracted, event_type_of,
}
use weavatrix_memory.Event.{EventMetadata, StoredEvent}
use weavatrix_memory.Index.{get}
use weavatrix_memory.Projection.State.{Retraction, MemoryProjection}
use weavatrix_memory.Projection.Query.{fact}
use weavatrix_memory.Projection.Update.{apply_retraction}
use weavatrix_memory.Projection.Apply.{apply, apply_payload, envelope_differs}
use weavatrix_memory.Projection.WellFormed.{fact_ids, IsRetractionOf, IsWellFormed}
use weavatrix_memory.Projection.WellFormed.Nodes.{insert_node-IsWellFormed}
use weavatrix_memory.Projection.WellFormed.Facts.{insert_fact-IsWellFormed}

pub get_elem?-map-fact :
    (fs : List MemoryFact) (i : ℕ) (id : FactId)
    → get_elem? (fact_ids fs) i ≡ some id
    → (f : MemoryFact) × (get_elem? fs i ≡ some f) × (f.id ≡ id)
get_elem?-map-fact [] i id h = cc
get_elem?-map-fact (f ∷ fs) zero id h = (f, refl, ground (arith, h))
get_elem?-map-fact (f ∷ fs) (suc i) id h = get_elem?-map-fact fs i id h

-- A fact that is found stands in the list under its identifier; the search never panics.
pub fact-cases :
    (p : MemoryProjection) (id : FactId)
    → IsWellFormed p
    → (fact p id ≡ ok none)
      ⊎ ((i : ℕ) × (f : MemoryFact) × (fact p id ≡ ok (some f))
          × (get_elem? p.facts i ≡ some f)
          × (f.id ≡ id))
unfolding fact
fact-cases p id w = elim (Option-cases (get p.fact_lookup id)) [
  | inl h ↦ inl (ground (arith, h))
  | inr (i, h) ↦
      let (f, here, same) = get_elem?-map-fact p.facts i id (w.fact_index.points id i h) in
      inr (i, f, ground (arith, h, here), here, same)
]

pub apply_retraction-ok :
    (p p' : MemoryProjection) (at : Timestamp) (id : FactId) (until : Timestamp)
    (evidence : List Evidence)
    → apply_retraction p at id until evidence ≡ ok p'
    → (f : MemoryFact) × (fact p id ≡ ok (some f))
      × (before f.valid_from until ≡ true)
      × (p' ≡ record p {
        retractions = insert id (record { valid_until = until; recorded_at = at }) p.retractions;
      })
unfolding apply_retraction
apply_retraction-ok p p' at id until evidence h =
    let (o, found, h1) = >>=-eq-ok (fact p id) _ h in
    let (f, known, h2) = >>=-eq-ok (ok_or (missing_fact id) o) _ h1 in
    let (_, later, h3) =
      >>=-eq-ok
        (reject (at_or_before until f.valid_from)
          (invalid_value "retraction.valid_until" "must be later than the fact valid_from"))
        _ h2 in
    let (_, _, h4) =
      >>=-eq-ok
        (reject (no_evidence evidence)
          (invalid_value "retraction.evidence" "at least one evidence item is required"))
        _ h3 in
    let (_, _, h5) = >>=-eq-ok (try_for_each validate_evidence evidence) _ h4 in
    (
      f,
      found ∙ ap ok (ok_or-ok (missing_fact id) o known),
      ground (arith, reject-ok _ _ later),
      sym (ok_injective h5),
    )

apply_retraction-IsWellFormed :
    (p p' : MemoryProjection) (at : Timestamp) (id : FactId) (until : Timestamp)
    (evidence : List Evidence)
    → IsWellFormed p
    → apply_retraction p at id until evidence ≡ ok p'
    → IsWellFormed p'
apply_retraction-IsWellFormed p p' at id until evidence w h =
    let (f, found, later, same) = apply_retraction-ok p p' at id until evidence h in
    let new : Retraction = record { valid_until = until; recorded_at = at } in
    subst IsWellFormed (sym same) (record {
      node_index = w.node_index;
      fact_index = w.fact_index;
      histories = w.histories;
      ends = w.ends;
      superseded = w.superseded;
      retracted = λ j c l. elim (==-cases id j) [
        | inl (e, t) ↦
            retraction_of p id j f new c w found later e
              (ground (arith, l, t, lookup-insert id j new p.retractions))
        | inr (n, t) ↦ w.retracted j c (ground (arith, l, t, lookup-insert id j new p.retractions))
      ];
    })
  where
    retraction_of :
        (p : MemoryProjection) (id j : FactId) (f : MemoryFact) (new c : Retraction)
        → IsWellFormed p
        → fact p id ≡ ok (some f)
        → before f.valid_from new.valid_until ≡ true
        → id ≡ j
        → new ≡ c
        → IsRetractionOf p.facts j c
    retraction_of p id j f new c w found later e same = elim (fact-cases p id w) [
      | inl absent ↦ ground (arith, absent, found)
      | inr (i, g, found', here, is) ↦
          let eq : f ≡ g = ground (arith, found, found') in
          record {
            index = i;
            fact = g;
            here = here;
            same = is ∙ e;
            later =
                subst (λ t. before t.valid_from c.valid_until ≡ true) eq
                  (subst (λ t. before f.valid_from t.valid_until ≡ true) same later);
          }
    ]

apply_payload-IsWellFormed :
    (p p' : MemoryProjection) (m : EventMetadata) (payload : MemoryEvent)
    → IsWellFormed p
    → apply_payload p m payload ≡ ok p'
    → IsWellFormed p'
unfolding apply_payload
apply_payload-IsWellFormed p p' m (node_upserted node) w h =
    insert_node-IsWellFormed p p'
      (record { node = node; recorded_at = m.recorded_at; position = m.global_position }) w h
apply_payload-IsWellFormed p p' m (fact_recorded f) w h = elim (Bool-cases (envelope_differs f m)) [
  | inl t ↦ ground (arith, h, t)
  | inr t ↦ insert_fact-IsWellFormed p p' f w (ground (arith, h, t))
]
apply_payload-IsWellFormed p p' m (fact_retracted id until evidence) w h =
    apply_retraction-IsWellFormed p p' m.recorded_at id until evidence w h

-- An event that is applied to a well-formed projection leaves it well formed.
pub apply-IsWellFormed :
    (p p' : MemoryProjection) (event : StoredEvent MemoryEvent)
    → IsWellFormed p
    → apply p event ≡ ok p'
    → IsWellFormed p'
unfolding apply
apply-IsWellFormed p p' event w h =
    let (_, _, h1) =
      >>=-eq-ok (reject (not (event.event_type == event_type_of event.payload)) _) _ h in
    let (q, done, same) = >>=-eq-ok (apply_payload p event.metadata event.payload) _ h1 in
    let k = apply_payload-IsWellFormed p q event.metadata event.payload w done in
    subst IsWellFormed (ok_injective same) (record {
      node_index = k.node_index;
      fact_index = k.fact_index;
      histories = k.histories;
      ends = k.ends;
      superseded = k.superseded;
      retracted = k.retracted;
    })
