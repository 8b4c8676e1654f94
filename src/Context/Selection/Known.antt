-- ===== src/Context/Selection/Known.antt =====
-- context/compiler.rs, `compile`: what is selected has nodes, and selecting does not panic.
use weavatrix_memory.Base.{
  ℕ, ◌+◌, ◌≡◌, ◌≢◌, subst, arith, inl, inr, true, some, List, [], ◌∷◌, ltb, Bool-cases,
  Option-cases, All, Result, ok, panic, reject, reject-ne-panic, ok_or, ok_or-ok, ok_or-ne-panic,
  try_map, >>=-eq-ok, >>=-ne-panic, >>-ne-panic, ok-ne-panic, ok_injective, ok_pair, missing_entity,
  budget_too_small,
}
use weavatrix_memory.Map.{Map, lookup, insert, contains_key, text_key}
use weavatrix_memory.Domain.{EntityId, MemoryNode, MemoryFact}
use weavatrix_memory.Context.{ContextRequest, wrap, fact_tokens}
use weavatrix_memory.Context.Compiler.{TokenEstimator, IdSet, sorted_ids}
use weavatrix_memory.Context.Selection.{
  saturating_add, Candidate, Selection, missing_nodes, insert_all, node_cost, select_fact,
  select_facts, seed_loop, select_seeds,
}

pub contains_key-lookup :
    {V : Type 0} (id : EntityId) (m : Map EntityId V)
    → contains_key id m ≡ true
    → (v : V) × (lookup id m ≡ some v)
unfolding contains_key
contains_key-lookup id m h = elim (Option-cases (lookup id m)) [
  | inl q ↦ absurd (ground (arith, h, q))
  | inr r ↦ r
]

lookup-contains_key :
    {V : Type 0} (id : EntityId) (m : Map EntityId V) (v : V)
    → lookup id m ≡ some v
    → contains_key id m ≡ true
unfolding contains_key
lookup-contains_key id m v h = ground (arith, h)

All-insert :
    (P : EntityId → Type 0) (id : EntityId) (ids : IdSet)
    → P id
    → All (λ (j, u). P j) ids
    → All (λ (j, u). P j) (insert id tt ids)
unfolding insert
All-insert P id [] h k = (h, tt)
All-insert P id ((j, u) ∷ ids) h k = elim (Bool-cases (text_key.eq j id)) [
  | inl q ↦ rw q (h, k.1)
  | inr q ↦ elim (Bool-cases (text_key.lt id j)) [
    | inl r ↦ rw (q, r) (h, k)
    | inr r ↦ rw (q, r) (k.0, All-insert P id ids h k.1)
  ]
]

pub try_map-ne-panic :
    {A B : Type 0} (f : A → Result B) (xs : List A)
    → All (λ x. f x ≢ panic) xs
    → try_map f xs ≢ panic
try_map-ne-panic f [] h = ok-ne-panic []
try_map-ne-panic f (x ∷ xs) h = >>=-ne-panic (f x) _ h.0 (λ y _.
    >>=-ne-panic (try_map f xs) _ (try_map-ne-panic f xs h.1) (λ ys _. ok-ne-panic (y ∷ ys)))

module _ (estimator : TokenEstimator) (nodes : Map EntityId MemoryNode) where
  abbrev pub IsKnown : EntityId → Type 0
  IsKnown id = contains_key id nodes ≡ true

  -- Both ends of a fact are nodes.
  abbrev pub HasKnownEnds : MemoryFact → Type 0
  HasKnownEnds f = IsKnown f.source × IsKnown f.target

  abbrev pub IsKnownSet : IdSet → Type 0
  IsKnownSet = All (λ (id, u). IsKnown id)

  missing_nodes-All :
      (selected : IdSet) (f : MemoryFact) → HasKnownEnds f → All IsKnown (missing_nodes selected f)
  unfolding missing_nodes
  missing_nodes-All selected f h = elim (Bool-cases (contains_key f.source selected)) [
    | inl p ↦ elim (Bool-cases (contains_key f.target selected)) [
      | inl q ↦ rw (p, q) tt
      | inr q ↦ rw (p, q) (h.1, tt)
    ]
    | inr p ↦ elim (Bool-cases (contains_key f.target selected)) [
      | inl q ↦ rw (p, q) (h.0, tt)
      | inr q ↦ rw (p, q) (h.0, (h.1, tt))
    ]
  ]

  insert_all-All :
      (ids : List EntityId) (selected : IdSet)
      → All IsKnown ids
      → IsKnownSet selected
      → IsKnownSet (insert_all ids selected)
  unfolding insert_all
  insert_all-All [] selected h k = k
  insert_all-All (id ∷ ids) selected h k =
      insert_all-All ids (insert id tt selected) h.1 (All-insert IsKnown id selected h.0 k)

  node_cost-ne-panic :
      (ids : List EntityId) → All IsKnown ids → node_cost estimator nodes ids ≢ panic
  unfolding node_cost
  node_cost-ne-panic [] h = ok-ne-panic 0
  node_cost-ne-panic (id ∷ ids) h =
      let (node, there) = contains_key-lookup id nodes h.0 in
      rw there (
        >>=-ne-panic (node_cost estimator nodes ids) _ (node_cost-ne-panic ids h.1)
          (λ rest _. ok-ne-panic _))

  -- A call that does not panic and selects only nodes that are there.
  abbrev pub IsSound : Result Selection → Type 0
  IsSound r = (r ≢ panic) × ((s : Selection) → r ≡ ok s → IsKnownSet s.selected_nodes)

  select_fact-IsSound :
      (token_budget : ℕ) (s : Selection) (f : MemoryFact)
      → HasKnownEnds f
      → IsKnownSet s.selected_nodes
      → IsSound (select_fact estimator nodes token_budget s f)
  unfolding select_fact
  select_fact-IsSound token_budget s f h k =
      let missing = missing_nodes s.selected_nodes f in
      let known = missing_nodes-All s.selected_nodes f h in
      (
        >>=-ne-panic (node_cost estimator nodes missing) _ (node_cost-ne-panic missing known)
            (λ cost _. ground arith),
        λ t e.
            let (cost, _, e₁) = >>=-eq-ok (node_cost estimator nodes missing) _ e in
            let total = wrap (fact_tokens estimator.estimate_text f + cost) in
            elim (Bool-cases (ltb token_budget (saturating_add s.used total))) [
              | inl q ↦
                  subst (λ (t : Selection). IsKnownSet t.selected_nodes) (ok_injective (rw q at e₁))
                    k
              | inr q ↦
                  subst (λ (t : Selection). IsKnownSet t.selected_nodes) (ok_injective (rw q at e₁))
                    (insert_all-All missing s.selected_nodes known k)
            ],
      )

  pub select_facts-IsSound :
      (token_budget : ℕ) (candidates : List Candidate) (s : Selection)
      → All (λ (d, f). HasKnownEnds f) candidates
      → IsKnownSet s.selected_nodes
      → IsSound (select_facts estimator nodes token_budget candidates s)
  unfolding select_facts
  select_facts-IsSound token_budget [] s h k = (
    ok-ne-panic s,
    λ t e. subst (λ (t : Selection). IsKnownSet t.selected_nodes) (ok_injective e) k,
  )
  select_facts-IsSound token_budget ((d, f) ∷ candidates) s h k =
      let (returns, keeps) = select_fact-IsSound token_budget s f h.0 k in
      let next = select_facts estimator nodes token_budget candidates in
      (
        >>=-ne-panic (select_fact estimator nodes token_budget s f) next returns
            (λ t e. (select_facts-IsSound token_budget candidates t h.1 (keeps t e)).0),
        λ t e.
            let (t₁, e₁, e₂) = >>=-eq-ok (select_fact estimator nodes token_budget s f) next e in
            (select_facts-IsSound token_budget candidates t₁ h.1 (keeps t₁ e₁)).1 t e₂,
      )

  seed_loop-ne-panic :
      (seeds selected : IdSet) (used : ℕ) → seed_loop estimator nodes seeds selected used ≢ panic
  unfolding seed_loop
  seed_loop-ne-panic [] selected used = ok-ne-panic _
  seed_loop-ne-panic ((seed, u) ∷ seeds) selected used =
      >>=-ne-panic (ok_or (missing_entity seed) (lookup seed nodes)) _
        (ok_or-ne-panic (missing_entity seed) (lookup seed nodes))
        (λ node _. seed_loop-ne-panic seeds (insert seed tt selected) _)

  seed_loop-IsKnownSet :
      (seeds selected selected' : IdSet) (used used' : ℕ)
      → IsKnownSet selected
      → seed_loop estimator nodes seeds selected used ≡ ok (selected', used')
      → IsKnownSet selected'
  unfolding seed_loop
  seed_loop-IsKnownSet [] selected selected' used used' k h = subst IsKnownSet (ok_pair h).0 k
  seed_loop-IsKnownSet ((seed, u) ∷ seeds) selected selected' used used' k h =
      let (node, found, h₁) = >>=-eq-ok (ok_or (missing_entity seed) (lookup seed nodes)) _ h in
      let there = ok_or-ok (missing_entity seed) (lookup seed nodes) found in
      seed_loop-IsKnownSet seeds (insert seed tt selected) selected' _ used'
        (All-insert IsKnown seed selected (lookup-contains_key seed nodes node there) k) h₁

  pub select_seeds-ne-panic :
      (request : ContextRequest) → select_seeds estimator nodes request ≢ panic
  unfolding select_seeds
  select_seeds-ne-panic request =
      >>=-ne-panic (seed_loop estimator nodes (sorted_ids request.seeds) [] 0) _
        (seed_loop-ne-panic (sorted_ids request.seeds) [] 0)
        (λ (selected, used) _.
          >>-ne-panic _ _
            (reject-ne-panic (ltb request.token_budget used)
              (budget_too_small used request.token_budget))
            (ok-ne-panic _))

  pub select_seeds-IsKnownSet :
      (request : ContextRequest) (selected : IdSet) (used : ℕ)
      → select_seeds estimator nodes request ≡ ok (selected, used)
      → IsKnownSet selected
  unfolding select_seeds
  select_seeds-IsKnownSet request selected used h =
      let ((selected', used'), looped, h₁) =
        >>=-eq-ok (seed_loop estimator nodes (sorted_ids request.seeds) [] 0) _ h in
      let (u, _, h₂) =
        >>=-eq-ok
          (reject (ltb request.token_budget used') (budget_too_small used' request.token_budget)) _
          h₁ in
      subst IsKnownSet (ok_pair h₂).0
        (seed_loop-IsKnownSet (sorted_ids request.seeds) [] selected' 0 used' tt looped)
