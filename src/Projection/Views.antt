-- ===== src/Projection/Views.antt =====
-- projection/memory/mod.rs, `view_ref`: the nodes and the facts of a view.
use weavatrix_memory.Base.{
  ℕ, ◌≤◌, suc, ◌≡◌, refl, ap, ◌∙◌, subst, inl, inr, true, ◌||◌, ◌&&◌, some, List, [], ◌∷◌, arith,
  Option-cases, Bool-cases, zero, filter, filter-cong, All-map, All, eqb, length, map, get_elem?,
  ◌==◌,
}
use weavatrix_memory.Map.{contains, text_key}
use weavatrix_memory.Time.{Timestamp}
use weavatrix_memory.Domain.{EntityId, MemoryNode}
use weavatrix_memory.Projection.State.{NodeRevision, NodeHistory, MemoryProjection, ProjectionClock}
use weavatrix_memory.Projection.Query.{
  visible_revision, visible_nodes, is_among, fact_is_active, view,
}
use weavatrix_memory.Projection.WellFormed.{node_ids, IsOneNode, HasEnds, IsWellFormed}
use weavatrix_memory.Projection.Visible.{visible_revision-cases}

abbrev pub id_of : MemoryNode → EntityId
id_of n = n.id

is_among-contains :
    (id : EntityId) (nodes : List MemoryNode) → is_among id nodes ≡ contains id (map id_of nodes)
unfolding contains
is_among-contains id [] = refl
is_among-contains id (n ∷ ns) = ap (λ t. (n.id == id) || t) (is_among-contains id ns)

one_node :
    (first r : NodeRevision) (later : List NodeRevision) (i : ℕ)
    → All (λ x. x.node.id ≡ first.node.id) later
    → get_elem? (first ∷ later) i ≡ some r
    → r.node.id ≡ first.node.id
one_node first r later zero k h = ground (arith, h)
one_node first r [] (suc i) k h = cc
one_node first r (x ∷ xs) (suc zero) k h = ground (arith, h, k.0)
one_node first r (x ∷ xs) (suc (suc i)) k h = one_node first r xs (suc i) k.1 h

-- A visible revision carries the identifier of its history.
pub visible_revision-id :
    (h : NodeHistory) (known_at : Timestamp) (n : MemoryNode)
    → IsOneNode h
    → visible_revision h known_at ≡ some n
    → n.id ≡ h.first.node.id
visible_revision-id h known_at n k e = elim (visible_revision-cases h known_at) [
  | inl (hidden, _) ↦ ground (arith, hidden, e)
  | inr (r, shown, (i, one), _, _) ↦
      let same : r.node ≡ n = ground (arith, shown, e) in
      subst (λ t. t.id ≡ h.first.node.id) same (one_node h.first r h.later i k one)
]

length-visible_nodes :
    (hs : List NodeHistory) (known_at : Timestamp) → length (visible_nodes hs known_at) ≤ length hs
length-visible_nodes [] known_at = omega arith
length-visible_nodes (h ∷ hs) known_at = ground (arith, length-visible_nodes hs known_at)

-- If no node is hidden, the visible nodes have the identifiers of all.
none_hidden :
    (hs : List NodeHistory) (known_at : Timestamp)
    → All IsOneNode hs
    → length (visible_nodes hs known_at) ≡ length hs
    → map id_of (visible_nodes hs known_at) ≡ node_ids hs
none_hidden [] known_at k h = refl
none_hidden (g ∷ hs) known_at k h = elim (Option-cases (visible_revision g known_at)) [
  | inl hidden ↦ ground (arith, h, hidden, length-visible_nodes hs known_at)
  | inr (n, shown) ↦
      ground
        (arith, h, shown, visible_revision-id g known_at n k.0 shown, none_hidden hs known_at k.1)
]

-- The facts of a view of a well-formed projection are its active facts with both ends among the
-- view's nodes, although the code looks for the ends only when some node is hidden.
pub view-facts :
    (p : MemoryProjection) (clock : ProjectionClock)
    → IsWellFormed p
    → (view p clock).facts
      ≡ filter
          (λ f.
            (is_among f.source (view p clock).nodes && is_among f.target (view p clock).nodes)
            && fact_is_active p f clock)
          p.facts
unfolding view
view-facts p clock w =
    elim (Bool-cases (eqb (length (visible_nodes p.nodes clock.known_at)) (length p.nodes))) [
      | inl same ↦
          let nodes = visible_nodes p.nodes clock.known_at in
          let ids = none_hidden p.nodes clock.known_at w.histories (ground (arith, same)) in
          let among : (id : EntityId)
              → contains id (node_ids p.nodes) ≡ true
              → is_among id nodes ≡ true =
            λ id h. is_among-contains id nodes ∙ ap (contains id) ids ∙ h in
          filter-cong _ _ p.facts (
            All-map (HasEnds p.nodes) _ p.facts
              (λ f h. ground (arith, same, among f.source h.0, among f.target h.1)) w.ends)
      | inr hidden ↦ rw hidden refl
    ]
