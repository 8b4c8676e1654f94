-- ===== src/Context/Selection/Safe.antt =====
-- context/compiler.rs, `compile`: every index into the distances and the nodes is there.
use weavatrix_memory.Base.{
  ℕ, ◌+◌, ◌*◌, ◌<◌, ◌≡◌, ◌≢◌, ap, subst, arith, true, List, [], ◌∷◌, map, length, All, All-map,
  Result, ok, panic, reject-ne-panic, or_panic, try_map, >>=-eq-ok, >>=-ne-panic, >>-ne-panic,
  ok-ne-panic, ok_injective, invalid_value,
}
use weavatrix_memory.Map.{Map, lookup, contains_key, text_key}
use weavatrix_memory.Domain.{EntityId, FactId, MemoryNode, MemoryFact, MemoryView}
use weavatrix_memory.Projection.State.{MemoryProjection}
use weavatrix_memory.Projection.WellFormed.{IsWellFormed}
use weavatrix_memory.Projection.Incidents.Kept.{IsIndexed}
use weavatrix_memory.Context.{ContextRequest, no_elements}
use weavatrix_memory.Context.Compiler.{TokenEstimator, IdSet, both_ends, neighborhood}
use weavatrix_memory.Context.Total.{neighborhood-ne-panic, neighborhood-found}
use weavatrix_memory.Context.Selection.Totals.{All-sort_by}
use weavatrix_memory.Context.Selection.{
  Candidate, candidate, candidate_precedes, Selection, select_facts, select_seeds, select, view_of,
  sort_by, compile,
}
use weavatrix_memory.Context.Selection.Known.{
  contains_key-lookup, try_map-ne-panic, IsKnown, HasKnownEnds, IsKnownSet, IsSound,
  select_facts-IsSound, select_seeds-ne-panic, select_seeds-IsKnownSet,
}

module _ (estimator : TokenEstimator) (nodes : Map EntityId MemoryNode) where
  module _ (distances : Map EntityId ℕ)
      (noded : (id : EntityId)
        → contains_key id distances ≡ true
        → (IsKnown estimator nodes) id) where
    candidate-ne-panic :
        (f : MemoryFact) → both_ends distances f ≡ true → candidate distances f ≢ panic
    unfolding candidate
    candidate-ne-panic f h =
        let (a, source) = contains_key-lookup f.source distances (ground (arith, h)) in
        let (b, target) = contains_key-lookup f.target distances (ground (arith, h)) in
        rw (source, target) (ok-ne-panic _)

    try_map-HasKnownEnds :
        (fs : List MemoryFact) (cs : List Candidate)
        → All (λ f. both_ends distances f ≡ true) fs
        → try_map (candidate distances) fs ≡ ok cs
        → All (λ (d, f). (HasKnownEnds estimator nodes) f) cs
    unfolding candidate
    try_map-HasKnownEnds [] cs k h =
        subst (All (λ (d, f). (HasKnownEnds estimator nodes) f)) (ok_injective h) tt
    try_map-HasKnownEnds (f ∷ fs) cs k h =
        let (c, first, h₁) = >>=-eq-ok (candidate distances f) _ h in
        let (rest, others, h₂) = >>=-eq-ok (try_map (candidate distances) fs) _ h₁ in
        let (a, _, h₃) = >>=-eq-ok (or_panic (lookup f.source distances)) _ first in
        let (b, _, h₄) = >>=-eq-ok (or_panic (lookup f.target distances)) _ h₃ in
        let same : f ≡ c.1 = ap (λ (t : Candidate). t.1) (ok_injective h₄) in
        let known : (HasKnownEnds estimator nodes) f =
          (noded f.source (ground (arith, k.0)), noded f.target (ground (arith, k.0))) in
        subst (All (λ (d, f). (HasKnownEnds estimator nodes) f)) (ok_injective h₂)
          (subst (HasKnownEnds estimator nodes) same known, try_map-HasKnownEnds fs rest k.1 others)

    select-IsSound :
        (request : ContextRequest) (fs : List MemoryFact)
        → All (λ f. both_ends distances f ≡ true) fs
        → (IsSound estimator nodes) (select estimator nodes request distances fs)
    unfolding select
    select-IsSound request fs k =
        let ranked =
          try_map-ne-panic (candidate distances) fs (All-map _ _ fs candidate-ne-panic k) in
        let chosen : (selected : IdSet) (used : ℕ) (cs : List Candidate)
            → select_seeds estimator nodes request ≡ ok (selected, used)
            → try_map (candidate distances) fs ≡ ok cs
            → (IsSound estimator nodes) (
                select_facts estimator nodes request.token_budget (sort_by candidate_precedes cs)
                  (record { selected_nodes = selected; used = used; facts = []; omitted = 0 })) =
          λ selected used cs e e'.
            select_facts-IsSound estimator nodes request.token_budget
              (sort_by candidate_precedes cs) _
              (All-sort_by candidate_precedes (λ (d, f). (HasKnownEnds estimator nodes) f) cs
                (try_map-HasKnownEnds fs cs k e'))
              (select_seeds-IsKnownSet estimator nodes request selected used e) in
        (
          >>=-ne-panic (select_seeds estimator nodes request) _
              (select_seeds-ne-panic estimator nodes request)
              (λ (selected, used) e.
                >>=-ne-panic (try_map (candidate distances) fs) _ ranked
                  (λ cs e'. (chosen selected used cs e e').0)),
          λ s h.
              let ((selected, used), e, h₁) =
                >>=-eq-ok (select_seeds estimator nodes request) _ h in
              let (cs, e', h₂) = >>=-eq-ok (try_map (candidate distances) fs) _ h₁ in
              (chosen selected used cs e e').1 s h₂,
        )

  view_of-ne-panic :
      (s : Selection)
      → (IsKnownSet estimator nodes) s.selected_nodes
      → view_of estimator nodes s ≢ panic
  unfolding view_of
  view_of-ne-panic s k =
      >>=-ne-panic (try_map (λ (id, u). or_panic (lookup id nodes)) s.selected_nodes) _
        (try_map-ne-panic (λ (id, u). or_panic (lookup id nodes)) s.selected_nodes
          (All-map _ _ s.selected_nodes
            (λ (id, u) h.
              let (node, there) = contains_key-lookup id nodes h in rw there (ok-ne-panic node))
            k))
        (λ ns _. ok-ne-panic _)

-- In a well-formed projection whose incident indexes have a range for each node and only positions
-- of facts, with fuel for more rounds of the search than there are seeds and ends of facts, and
-- where the graph translation does not panic, `compile` does not panic: the search ends, and every
-- index into the distances and the nodes that it found is there.
pub compile-ne-panic :
    {Graph : Type 0} (estimator : TokenEstimator) (project_graph : MemoryView → Result Graph)
    (p : MemoryProjection) (request : ContextRequest) (fuel : ℕ)
    → ((view : MemoryView) → project_graph view ≢ panic)
    → IsWellFormed p
    → IsIndexed p
    → length request.seeds + 2 * length p.facts < fuel
    → compile estimator project_graph p request fuel ≢ panic
unfolding compile
compile-ne-panic estimator project_graph p request fuel projects w indexed enough =
    >>-ne-panic _ _
      (reject-ne-panic (no_elements request.seeds)
        (invalid_value "context.seeds" "at least one seed is required"))
      (>>=-ne-panic (neighborhood p request fuel) _
        (neighborhood-ne-panic p request fuel w indexed enough)
        (λ found e.
          let (noded, ends) = neighborhood-found p request fuel w indexed enough found e in
          let (returns, keeps) =
            select-IsSound estimator found.nodes found.distances noded request
              (map (λ (id, f). f) found.facts) (mapped found.distances found.facts ends) in
          >>=-ne-panic
            (select estimator found.nodes request found.distances (map (λ (id, f). f) found.facts))
            _ returns
            (λ s e'.
              >>=-ne-panic (view_of estimator found.nodes s) _
                (view_of-ne-panic estimator found.nodes s (keeps s e'))
                (λ view _.
                  >>=-ne-panic (project_graph view) _ (projects view) (λ graph _. ok-ne-panic _)))))
  where
    mapped :
        (distances : Map EntityId ℕ) (fs : Map FactId MemoryFact)
        → All (λ (id, f). both_ends distances f ≡ true) fs
        → All (λ f. both_ends distances f ≡ true) (map (λ (id, f). f) fs)
    mapped distances [] h = tt
    mapped distances ((id, f) ∷ fs) h = (h.0, mapped distances fs h.1)
