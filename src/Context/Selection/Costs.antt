-- ===== src/Context/Selection/Costs.antt =====
-- context/compiler.rs, `compile`: the tokens of what is selected, with no bound and as they are added.
use weavatrix_memory.Base.{
  ℕ, ◌+◌, ◌^◌, ◌≤◌, ◌<◌, ◌≡◌, sym, ap, subst, ◌∙◌, arith, Bool-cases, inl, inr, Option, none, some,
  List, [], ◌∷◌, length, ok, ok_or, or_panic, try_map, All, ◌>>=◌, >>=-eq-ok, ok_injective, ok_pair,
  missing_entity, ok_or-ok,
}
use weavatrix_memory.Map.{Map, lookup, insert, contains_key, text_key}
use weavatrix_memory.Domain.{EntityId, MemoryNode, MemoryFact}
use weavatrix_memory.Context.{ContextRequest, wrap, node_sum, fact_sum, node_tokens}
use weavatrix_memory.Context.Compiler.{TokenEstimator, IdSet, sorted_ids}
use weavatrix_memory.Context.Selection.Totals.{nodes_total}
use weavatrix_memory.Context.Selection.{
  Candidate, candidate, missing_nodes, insert_all, node_cost, seed_loop,
}

module _ (estimator : TokenEstimator) where
  module _ (nodes : Map EntityId MemoryNode) where
    abbrev pub weight_of : Option MemoryNode → ℕ
    weight_of none = 0
    weight_of (some n) = node_sum estimator.estimate_text n

    -- the tokens of the nodes with the identifiers of a set
    unfoldable pub set_total : IdSet → ℕ
    set_total [] = 0
    set_total ((id, u) ∷ ids) = weight_of (lookup id nodes) + set_total ids

    pub set_total-insert :
        (id : EntityId) (ids : IdSet)
        → set_total (insert id tt ids) ≤ weight_of (lookup id nodes) + set_total ids
    unfolding set_total insert
    set_total-insert id [] = omega arith
    set_total-insert id ((j, u) ∷ ids) = ground (arith, set_total-insert id ids)

    -- the tokens of the nodes of a list of identifiers
    unfoldable pub ids_total : List EntityId → ℕ
    ids_total [] = 0
    ids_total (id ∷ ids) = weight_of (lookup id nodes) + ids_total ids

    pub set_total-insert_all :
        (ids : List EntityId) (selected : IdSet)
        → set_total (insert_all ids selected) ≤ ids_total ids + set_total selected
    unfolding insert_all ids_total
    set_total-insert_all [] selected = omega arith
    set_total-insert_all (id ∷ ids) selected =
        omega
          (arith, set_total-insert id selected, set_total-insert_all ids (insert id tt selected))

    -- The tokens of a fact and of its two ends.
    unfoldable pub fact_cost : MemoryFact → ℕ
    fact_cost f =
        fact_sum estimator.estimate_text f
        + weight_of (lookup f.source nodes)
        + weight_of (lookup f.target nodes)

    pub missing_nodes-ids_total :
        (selected : IdSet) (f : MemoryFact)
        → fact_sum estimator.estimate_text f + ids_total (missing_nodes selected f) ≤ fact_cost f
    unfolding missing_nodes ids_total fact_cost
    missing_nodes-ids_total selected f = elim (Bool-cases (contains_key f.source selected)) [
      | inl p ↦ elim (Bool-cases (contains_key f.target selected)) [
        | inl q ↦ rw (p, q) (omega arith)
        | inr q ↦ rw (p, q) (omega arith)
      ]
      | inr p ↦ elim (Bool-cases (contains_key f.target selected)) [
        | inl q ↦ rw (p, q) (omega arith)
        | inr q ↦ rw (p, q) (omega arith)
      ]
    ]

    -- Below 2 ^ 64 nothing wraps.
    pub node_cost-exact :
        (ids : List EntityId) (cost : ℕ)
        → ids_total ids < 2 ^ 64
        → node_cost estimator nodes ids ≡ ok cost
        → cost ≡ ids_total ids
    unfolding node_cost ids_total node_tokens
    node_cost-exact [] cost small h = sym (ok_injective h)
    node_cost-exact (id ∷ ids) cost small h =
        let (node, found, h₁) = >>=-eq-ok (or_panic (lookup id nodes)) _ h in
        let (rest, others, h₂) = >>=-eq-ok (node_cost estimator nodes ids) _ h₁ in
        let there : lookup id nodes ≡ some node = ground (arith, found) in
        let weight : weight_of (lookup id nodes) ≡ node_sum estimator.estimate_text node =
          ap weight_of there in
        let exact = node_cost-exact ids rest (omega (arith, small)) others in
        omega (arith, ok_injective h₂, weight, exact, small)

    pub seed_loop-set_total :
        (seeds selected selected' : IdSet) (used used' : ℕ)
        → set_total selected ≤ used
        → used + set_total seeds < 2 ^ 64
        → seed_loop estimator nodes seeds selected used ≡ ok (selected', used')
        → set_total selected' ≤ used'
    unfolding seed_loop set_total node_tokens
    seed_loop-set_total [] selected selected' used used' k fits h =
        let (p, q) = ok_pair h in omega (arith, ap set_total p, q, k)
    seed_loop-set_total ((seed, u) ∷ seeds) selected selected' used used' k fits h =
        let (node, found, h₁) =
          >>=-eq-ok (ok_or (missing_entity seed) (lookup seed nodes))
            (λ node.
              seed_loop estimator nodes seeds (insert seed tt selected)
                (wrap (used + node_tokens estimator.estimate_text node)))
            h in
        let there = ok_or-ok (missing_entity seed) (lookup seed nodes) found in
        let weight : weight_of (lookup seed nodes) ≡ node_sum estimator.estimate_text node =
          ap weight_of there in
        let sum : wrap (used + node_tokens estimator.estimate_text node)
            ≡ used + weight_of (lookup seed nodes) =
          omega (arith, weight, fits) in
        seed_loop-set_total seeds (insert seed tt selected) selected'
          (wrap (used + node_tokens estimator.estimate_text node)) used'
          (omega (arith, sum, k, set_total-insert seed selected)) (omega (arith, sum, fits)) h₁

    pub length-try_map :
        (distances : Map EntityId ℕ) (fs : List MemoryFact) (cs : List Candidate)
        → try_map (candidate distances) fs ≡ ok cs
        → length cs ≡ length fs
    length-try_map distances [] cs h = ap length (sym (ok_injective h))
    length-try_map distances (f ∷ fs) cs h =
        let (c, first, h₁) =
          >>=-eq-ok (candidate distances f)
            (λ c. try_map (candidate distances) fs >>= λ cs. ok (c ∷ cs)) h in
        let (rest, others, h₂) =
          >>=-eq-ok (try_map (candidate distances) fs) (λ cs. ok (c ∷ cs)) h₁ in
        omega (arith, ap length (ok_injective h₂), length-try_map distances fs rest others)

    pub try_map-fact_cost :
        (distances : Map EntityId ℕ) (fs : List MemoryFact) (cs : List Candidate)
        → All (λ f. fact_cost f < 2 ^ 64) fs
        → try_map (candidate distances) fs ≡ ok cs
        → All (λ (d, f). fact_cost f < 2 ^ 64) cs
    unfolding candidate
    try_map-fact_cost distances [] cs fits h =
        subst (All (λ (d, f). fact_cost f < 2 ^ 64)) (ok_injective h) tt
    try_map-fact_cost distances (f ∷ fs) cs fits h =
        let (c, first, h₁) = >>=-eq-ok (candidate distances f) _ h in
        let (rest, others, h₂) = >>=-eq-ok (try_map (candidate distances) fs) _ h₁ in
        let (a, _, h₃) = >>=-eq-ok (or_panic (lookup f.source distances)) _ first in
        let (b, _, h₄) = >>=-eq-ok (or_panic (lookup f.target distances)) _ h₃ in
        let same : f ≡ c.1 = ap (λ (t : Candidate). t.1) (ok_injective h₄) in
        subst (All (λ (d, f). fact_cost f < 2 ^ 64)) (ok_injective h₂) (
          subst (λ g. fact_cost g < 2 ^ 64) same fits.0,
          try_map-fact_cost distances fs rest fits.1 others,
        )

    -- The tokens of the seeds, and those of each fact found and its ends, come below 2 ^ 64.
    pub record FitsWord (request : ContextRequest) (fs : List MemoryFact) : Type 0 where
      pub seeds : set_total (sorted_ids request.seeds) < 2 ^ 64
      pub facts : All (λ f. fact_cost f < 2 ^ 64) fs

    pub nodes_total-try_map :
        (ids : IdSet) (ns : List MemoryNode)
        → try_map (λ (id, u). or_panic (lookup id nodes)) ids ≡ ok ns
        → nodes_total estimator ns ≡ set_total ids
    unfolding nodes_total set_total
    nodes_total-try_map [] ns h = ap (nodes_total estimator) (sym (ok_injective h))
    nodes_total-try_map ((id, u) ∷ ids) ns h =
        let (node, found, h₁) =
          >>=-eq-ok (or_panic (lookup id nodes))
            (λ node.
              try_map (λ (id, u). or_panic (lookup id nodes)) ids >>= λ rest. ok (node ∷ rest))
            h in
        let (rest, others, h₂) =
          >>=-eq-ok (try_map (λ (id, u). or_panic (lookup id nodes)) ids) (λ rest. ok (node ∷ rest))
            h₁ in
        let there : lookup id nodes ≡ some node = ground (arith, found) in
        rw there (
          ap (nodes_total estimator) (sym (ok_injective h₂))
          ∙ ap (◌+◌ (node_sum estimator.estimate_text node)) (nodes_total-try_map ids rest others))
