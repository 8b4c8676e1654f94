-- ===== src/Projection/Rebuild/Accepted.antt =====
-- projection/memory/state.rs: what `rebuild_indexes` accepts.
use weavatrix_memory.Base.{
  ℕ, ◌+◌, ◌≡◌, refl, sym, ap, ◌∙◌, subst, List, [], All, length, get_last?, take, ok, try_for_each,
  >>=-eq-ok, ok_injective,
}
use weavatrix_memory.Map.{text_key}
use weavatrix_memory.Index.{empty_index}
use weavatrix_memory.Index.Listing.{Lists, Lists-empty}
use weavatrix_memory.Projection.State.{MemoryProjection}
use weavatrix_memory.Projection.Update.{last_or_zero}
use weavatrix_memory.Projection.Rebuild.{
  ProjectionData, data_of, index_nodes, index_facts, count_ends, sum_all, put_incidents, zeros,
  set_incidents, check_supersession, check_retraction, validate_changes, rebuild_indexes, from_data,
}
use weavatrix_memory.Projection.WellFormed.{
  node_ids, fact_ids, IsOneNode, IsReplacement, IsRetractionOf, IsWellFormed,
}
use weavatrix_memory.Projection.Rebuild.Indexed.{
  try_for_each-All, index_nodes-ok, index_facts-ok, HasEndsIn,
}
use weavatrix_memory.Projection.Rebuild.Changes.{
  lookup-All, check_supersession-ok, check_retraction-ok,
}

set_incidents-fields :
    (p p' : MemoryProjection) (ends : List (ℕ × ℕ))
    → set_incidents p ends ≡ ok p'
    → p' ≡ record p {
      incident_offsets = p'.incident_offsets;
      incident_facts = p'.incident_facts;
      incident_delta = p'.incident_delta;
    }
unfolding set_incidents
set_incidents-fields p p' ends h =
    let (counted, _, h1) = >>=-eq-ok (count_ends (zeros (length p.nodes + 1)) ends) _ h in
    let (offsets, _, h2) = >>=-eq-ok (sum_all counted) _ h1 in
    let (incidents, _, h3) =
      >>=-eq-ok
        (put_incidents (take (length p.nodes) offsets) (zeros (last_or_zero (get_last? offsets))) 0
          ends)
        (λ xs.
          ok (record p { incident_offsets = offsets; incident_facts = xs; incident_delta = [] }))
        h2 in
    subst
      (λ x. x ≡ record p {
        incident_offsets = x.incident_offsets;
        incident_facts = x.incident_facts;
        incident_delta = x.incident_delta;
      })
      (ok_injective h3) refl

validated-IsWellFormed :
    (q : MemoryProjection) (u : Unit {0})
    → Lists q.node_lookup (node_ids q.nodes)
    → All IsOneNode q.nodes
    → Lists q.fact_lookup (fact_ids q.facts)
    → All (HasEndsIn (node_ids q.nodes)) q.facts
    → validate_changes q ≡ ok u
    → IsWellFormed q
unfolding validate_changes
validated-IsWellFormed q u nodes histories facts ends valid =
    let (u1, replaced, h) =
      >>=-eq-ok (try_for_each (check_supersession q) q.supersessions) _ valid in
    record {
      node_index = nodes;
      fact_index = facts;
      histories = histories;
      ends = ends;
      superseded = λ id c l.
          lookup-All (λ e. IsReplacement q.facts e.0 e.1) q.supersessions id c
            (try_for_each-All (check_supersession q) _ (check_supersession-ok q facts)
              q.supersessions u1 replaced)
            l;
      retracted = λ id c l.
          lookup-All (λ e. IsRetractionOf q.facts e.0 e.1) q.retractions id c
            (try_for_each-All (check_retraction q) _ (check_retraction-ok q facts) q.retractions u
              h)
            l;
    }

-- A projection that is rebuilt from stored data is well formed and holds the stored data
-- unchanged.
pub from_data-IsWellFormed :
    (a b : ℕ) (stored : ProjectionData) (p : MemoryProjection)
    → from_data a b stored ≡ ok p
    → IsWellFormed p × (data_of p ≡ stored)
unfolding from_data rebuild_indexes validate_changes
from_data-IsWellFormed a b stored p h =
    let (nodes, nodes_done, h1) = >>=-eq-ok (index_nodes (empty_index a) 0 stored.nodes) _ h in
    let (indexed, facts_done, h2) =
      >>=-eq-ok (index_facts nodes (empty_index b) 0 stored.facts) _ h1 in
    let (q, ends_done, h3) = >>=-eq-ok (set_incidents _ indexed.1) _ h2 in
    let (u, valid, same) = >>=-eq-ok (validate_changes q) _ h3 in
    let (node_index, histories) =
      index_nodes-ok (empty_index a) nodes [] stored.nodes (Lists-empty a) nodes_done in
    let (fact_index, ends) =
      index_facts-ok nodes (node_ids stored.nodes) (empty_index b) indexed.0 [] stored.facts
        indexed.1 node_index (Lists-empty b) facts_done in
    let is = set_incidents-fields _ q indexed.1 ends_done in
    let w =
      validated-IsWellFormed q u
        (subst (λ x. Lists x.node_lookup (node_ids x.nodes)) (sym is) node_index)
        (subst (λ x. All IsOneNode x.nodes) (sym is) histories)
        (subst (λ x. Lists x.fact_lookup (fact_ids x.facts)) (sym is) fact_index)
        (subst (λ x. All (HasEndsIn (node_ids x.nodes)) x.facts) (sym is) ends) valid in
    (subst IsWellFormed (ok_injective same) w, ap data_of (sym (ok_injective same)) ∙ ap data_of is)
