-- ===== src/Projection/Incidents.antt =====
-- projection/memory/mod.rs: the look-ups of a well-formed projection, its incident facts among them.
pub mod Kept
pub mod Events
use weavatrix_memory.Base.{
  ℕ, zero, suc, ◌+◌, ◌≡◌, ◌≢◌, refl, sym, ap, subst, inl, inr, arith, true, Option, none, some,
  List, [], ◌∷◌, ◌++◌, get_elem?, All, Result, ok, panic, or_panic, try_map, ◌>>=◌, >>=-eq-ok,
  ok_injective, Option-cases, ==_true,
}
use weavatrix_memory.Map.{lookup, contains, text_key, nat_key}
use weavatrix_memory.Time.{Timestamp}
use weavatrix_memory.Domain.{EntityId, FactId, MemoryFact}
use weavatrix_memory.Index.{get}
use weavatrix_memory.Projection.State.{MemoryProjection, NodeHistory}
use weavatrix_memory.Projection.Query.{fact, visible_node, incident_fact_ids, slice, delta_of}
use weavatrix_memory.Projection.WellFormed.{IsWellFormed, node_ids, fact_ids}
use weavatrix_memory.Projection.WellFormed.Events.{get_elem?-map-fact}

-- The incident indexes hold a range of positions for each node, and positions of facts.
abbrev pub HasIncidents : MemoryProjection → Type 0
HasIncidents p = (id : EntityId) → incident_fact_ids p id ≢ panic

contains-get_elem? :
    (fs : List MemoryFact) (i : ℕ) (f : MemoryFact)
    → get_elem? fs i ≡ some f
    → contains f.id (fact_ids fs) ≡ true
unfolding contains
contains-get_elem? [] i f h = cc
contains-get_elem? (g ∷ fs) zero f h =
    let same : g ≡ f = ground (arith, h) in ground (arith, ==_true (ap (λ t. t.id) same))
contains-get_elem? (g ∷ fs) (suc i) f h = ground (arith, contains-get_elem? fs i f h)

get_elem?-node_ids :
    (hs : List NodeHistory) (i : ℕ) {id : EntityId}
    → get_elem? (node_ids hs) i ≡ some id
    → (h : NodeHistory) × (get_elem? hs i ≡ some h)
get_elem?-node_ids [] i e = cc
get_elem?-node_ids (h ∷ hs) zero e = (h, refl)
get_elem?-node_ids (h ∷ hs) (suc i) e = get_elem?-node_ids hs i e

module _ (p : MemoryProjection) where
  abbrev pub IsRecorded : FactId → Type 0
  IsRecorded id = contains id (fact_ids p.facts) ≡ true

  try_map-IsRecorded :
      (is : List ℕ) (ids : List FactId)
      → try_map (λ i. or_panic (get_elem? p.facts i) >>= λ f. ok f.id) is ≡ ok ids
      → All IsRecorded ids
  try_map-IsRecorded [] ids h = subst (All IsRecorded) (ok_injective h) tt
  try_map-IsRecorded (i ∷ is) ids h =
      let (id, one, h₁) = >>=-eq-ok (or_panic (get_elem? p.facts i) >>= λ f. ok f.id) _ h in
      let (rest, others, h₂) =
        >>=-eq-ok (try_map (λ i. or_panic (get_elem? p.facts i) >>= λ f. ok f.id) is) _ h₁ in
      let (f, there, same) = >>=-eq-ok (or_panic (get_elem? p.facts i)) _ one in
      let at : get_elem? p.facts i ≡ some f = ground (arith, there) in
      subst (All IsRecorded) (ok_injective h₂) (
        subst IsRecorded (ok_injective same) (contains-get_elem? p.facts i f at),
        try_map-IsRecorded is rest others,
      )

  -- `incident_fact_ids`, behind the look-up of the node
  abbrev pub listing : Option ℕ → Result (List FactId)
  listing o = elim o [
    | none ↦ ok []
    | some index ↦ do
      start ← or_panic (get_elem? p.incident_offsets index)
      end ← or_panic (get_elem? p.incident_offsets (index + 1))
      stable ← slice p.incident_facts start end
      try_map (λ i. or_panic (get_elem? p.facts i) >>= λ f. ok f.id)
          (stable ++ delta_of (lookup index p.incident_delta))
  ]

  listed : (i : ℕ) (ids : List FactId) → listing (some i) ≡ ok ids → All IsRecorded ids
  listed i ids h =
      let (start, _, h₁) = >>=-eq-ok (or_panic (get_elem? p.incident_offsets i)) _ h in
      let (end, _, h₂) = >>=-eq-ok (or_panic (get_elem? p.incident_offsets (i + 1))) _ h₁ in
      let (stable, _, h₃) = >>=-eq-ok (slice p.incident_facts start end) _ h₂ in
      try_map-IsRecorded (stable ++ delta_of (lookup i p.incident_delta)) ids h₃

  pub incident_fact_ids-IsRecorded :
      (id : EntityId) (ids : List FactId) → incident_fact_ids p id ≡ ok ids → All IsRecorded ids
  unfolding incident_fact_ids
  incident_fact_ids-IsRecorded id ids h = elim (Option-cases (get p.node_lookup id)) [
    | inl q ↦
        let none_listed : ok [] ≡ ok ids = ground (arith, h, q) in
        subst (All IsRecorded) (ok_injective none_listed) tt
    | inr (i, q) ↦ listed i ids (subst (λ o. listing o ≡ ok ids) q h)
  ]

  module _ (w : IsWellFormed p) where
    pub fact-IsRecorded :
        (id : FactId) → IsRecorded id → (f : MemoryFact) × (fact p id ≡ ok (some f))
    unfolding fact
    fact-IsRecorded id k = elim (Option-cases (get p.fact_lookup id)) [
      | inl q ↦ absurd (ground (arith, k, w.fact_index.complete id q))
      | inr (i, q) ↦
          let (f, here, _) = get_elem?-map-fact p.facts i id (w.fact_index.points id i q) in
          (f, ground (arith, q, here))
    ]

    pub visible_node-ne-panic :
        (id : EntityId) (known_at : Timestamp) → visible_node p id known_at ≢ panic
    unfolding visible_node
    visible_node-ne-panic id known_at = elim (Option-cases (get p.node_lookup id)) [
      | inl q ↦ ground (arith, q)
      | inr (i, q) ↦
          let (h, here) = get_elem?-node_ids p.nodes i (w.node_index.points id i q) in
          ground (arith, q, here)
    ]

    -- It is enough that the incident indexes answer for the positions of nodes.
    pub incident_fact_ids-ne-panic :
        ((i : ℕ) (h : NodeHistory) → get_elem? p.nodes i ≡ some h → listing (some i) ≢ panic)
        → HasIncidents p
    unfolding incident_fact_ids
    incident_fact_ids-ne-panic k id = elim (Option-cases (get p.node_lookup id)) [
      | inl q ↦ ground (arith, q)
      | inr (i, q) ↦
          let (h, here) = get_elem?-node_ids p.nodes i (w.node_index.points id i q) in
          subst (λ o. listing o ≢ panic) (sym q) (k i h here)
    ]
