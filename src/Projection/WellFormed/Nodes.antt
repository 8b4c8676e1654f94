-- ===== src/Projection/WellFormed/Nodes.antt =====
-- projection/memory/mod.rs, `insert_node`: recording a revision and the invariant.
use weavatrix_memory.Base.{
  ℕ, ◌≡◌, refl, subst, Option, none, some, List, [], ◌∷◌, ◌++◌, map-append, length-map, All,
  All-append, All-map, ok, >>=-eq-ok, ok_injective,
}
use weavatrix_memory.Map.{contains-append, text_key}
use weavatrix_memory.Domain.{MemoryFact, validate_node}
use weavatrix_memory.Index.{get}
use weavatrix_memory.Index.Listing.{Lists-insert_id}
use weavatrix_memory.Projection.State.{NodeRevision, NodeHistory, new_history, MemoryProjection}
use weavatrix_memory.Projection.Update.{push_later, place_node, insert_node}
use weavatrix_memory.Projection.WellFormed.{
  node_ids, IsOneNode, HasEnds, IsWellFormed, node_ids-push_later, histories-push_later,
}

HasEnds-append :
    (hs : List NodeHistory) (h : NodeHistory) (fs : List MemoryFact)
    → All (HasEnds hs) fs
    → All (HasEnds (hs ++ h ∷ [])) fs
HasEnds-append hs h fs =
    All-map (HasEnds hs) (HasEnds (hs ++ h ∷ [])) fs
      (λ f e. (rw (map-append, contains-append, e.0), rw (map-append, contains-append, e.1)))

place_node-IsWellFormed :
    (p p' : MemoryProjection) (r : NodeRevision) (o : Option ℕ)
    → IsWellFormed p
    → get p.node_lookup r.node.id ≡ o
    → place_node p r o ≡ ok p'
    → IsWellFormed p'
place_node-IsWellFormed p p' r (some i) w at h =
    let (hs, done, same) =
      >>=-eq-ok (push_later p.nodes i r) (λ t. ok (record p { nodes = t })) h in
    let ids = node_ids-push_later r p.nodes i hs done in
    subst IsWellFormed (ok_injective same) (record {
      node_index = rw ids w.node_index;
      fact_index = w.fact_index;
      histories =
          histories-push_later r p.nodes i hs w.histories (w.node_index.points r.node.id i at) done;
      ends = All-map (HasEnds p.nodes) (HasEnds hs) p.facts (λ f e. rw ids e) w.ends;
      superseded = w.superseded;
      retracted = w.retracted;
    })
place_node-IsWellFormed p p' r none w at h = subst IsWellFormed (ok_injective h) (record {
  node_index =
      rw (map-append, ← length-map (λ (t : NodeHistory). t.first.node.id) p.nodes)
        (Lists-insert_id p.node_lookup (node_ids p.nodes) r.node.id w.node_index);
  fact_index = w.fact_index;
  histories = All-append IsOneNode p.nodes (new_history r ∷ []) w.histories (tt, tt);
  ends = HasEnds-append p.nodes (new_history r) p.facts w.ends;
  superseded = w.superseded;
  retracted = w.retracted;
})

pub insert_node-IsWellFormed :
    (p p' : MemoryProjection) (r : NodeRevision)
    → IsWellFormed p
    → insert_node p r ≡ ok p'
    → IsWellFormed p'
unfolding insert_node
insert_node-IsWellFormed p p' r w h =
    let (_, _, placed) =
      >>=-eq-ok (validate_node r.node) (λ _. place_node p r (get p.node_lookup r.node.id)) h in
    place_node-IsWellFormed p p' r (get p.node_lookup r.node.id) w refl placed
