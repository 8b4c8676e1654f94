-- ===== src/Context/Total.antt =====
-- context/compiler.rs, `neighborhood`: no index is out of range and no `expect` fails.
use weavatrix_memory.Base.{
  Bool-cases, sym, >>=-eq-ok, filter, ℕ, zero, suc, ◌+◌, ◌*◌, ◌<◌, ◌≡◌, ◌≢◌, refl, ap, subst, ◌∙◌,
  inl, inr, arith, Bool, true, false, not, ◌||◌, Option, none, some, List, [], ◌∷◌, ◌++◌, leb,
  if◌then◌else◌, length, List-uncons, All, All-append, All-map, Result, ok, err, panic,
  missing_entity, ◌>>=◌, >>=-ne-panic, ok-ne-panic, ok_injective, Result-cases, Option-cases,
  ==-refl,
}
use weavatrix_memory.Map.{Map, set_insert, lookup, insert, contains_key, text_key, nat_key}
use weavatrix_memory.Domain.{EntityId, FactId, MemoryNode, MemoryFact}
use weavatrix_memory.Projection.State.{MemoryProjection}
use weavatrix_memory.Projection.Query.{visible_node, fact_is_active, incident_fact_ids}
use weavatrix_memory.Projection.WellFormed.{IsWellFormed}
use weavatrix_memory.Context.{ContextRequest, relation_allowed, node_allowed}
use weavatrix_memory.Context.Compiler.{
  both_ends, Search, new_search, sorted_ids, IdSet, scoped_node, start_search, other_end, reach,
  visit_fact, visit_facts, visit_node, search_loop, neighborhood,
}
use weavatrix_memory.Projection.Incidents.{
  HasIncidents, IsRecorded, incident_fact_ids-IsRecorded, fact-IsRecorded, visible_node-ne-panic,
}
use weavatrix_memory.Projection.Incidents.Kept.{IsIndexed, IsIndexed-HasIncidents}
use weavatrix_memory.Context.Fuel.{
  contains_key-insert, pending, visit_node-pending, start_search-small,
}

-- What has a distance has a node.
abbrev pub HasNodes : Search → Type 0
HasNodes s = (id : EntityId) → contains_key id s.distances ≡ true → contains_key id s.nodes ≡ true

-- What is in the queue has a distance, and what has a distance has a node.
abbrev IsMeasured : Search → Type 0
IsMeasured s = All (λ id. contains_key id s.distances ≡ true) s.queue × HasNodes s

module _ (p : MemoryProjection) (w : IsWellFormed p) (request : ContextRequest) where
  measured-insert :
      (k : EntityId) (v : ℕ) (m : Map EntityId ℕ) (ids : List EntityId)
      → All (λ id. contains_key id m ≡ true) ids
      → All (λ id. contains_key id (insert k v m) ≡ true) (ids ++ k ∷ [])
  measured-insert k v m ids h =
      All-append _ ids (k ∷ [])
        (All-map _ _ ids (λ id e. ground (arith, contains_key-insert k id v m, e)) h)
        (contains_key-insert k k v m ∙ ap (λ b. b || contains_key k m) (==-refl k), tt)

  HasNodes-insert :
      (k : EntityId) (v : ℕ) (node : MemoryNode) (s : Search)
      → HasNodes s
      → (id : EntityId) → contains_key id (insert k v s.distances) ≡ true
      → contains_key id (insert k node s.nodes) ≡ true
  HasNodes-insert k v node s h id e = ground (
    arith,
    e,
    contains_key-insert k id v s.distances,
    contains_key-insert k id node s.nodes,
    h id,
  )

  reached :
      (depth : ℕ) (s : Search) (f : MemoryFact) (other : EntityId) (node : MemoryNode)
      (allowed seen deep : Bool)
      → IsMeasured s
      → IsMeasured (
          if not allowed
          then record s { excluded = set_insert f.id s.excluded }
          else if seen
          then record s { facts = insert f.id f s.facts }
          else if deep
          then s
          else record s {
            facts = insert f.id f s.facts;
            nodes = insert other node s.nodes;
            distances = insert other (depth + 1) s.distances;
            queue = s.queue ++ other ∷ [];
          })
  reached depth s f other node false seen deep h = h
  reached depth s f other node true true deep h = h
  reached depth s f other node true false true h = h
  reached depth s f other node true false false h = (
    measured-insert other (depth + 1) s.distances s.queue h.0,
    HasNodes-insert other (depth + 1) node s h.1,
  )

  -- A call that does not panic and keeps the queue measured.
  abbrev IsSafe : Result Search → Type 0
  IsSafe r = (r ≢ panic) × ((s : Search) → r ≡ ok s → IsMeasured s)

  ok-IsSafe : (s : Search) → IsMeasured s → IsSafe (ok s)
  ok-IsSafe s h = (ok-ne-panic s, λ s' e. subst IsMeasured (ok_injective e) h)

  >>=-IsSafe :
      (call : Result Search) (next : Search → Result Search)
      → IsSafe call
      → ((s : Search) → IsMeasured s → IsSafe (next s))
      → IsSafe (call >>= next)
  >>=-IsSafe (ok s) next h k = k s (h.1 s refl)
  >>=-IsSafe (err e) next h k = (ground arith, λ s e. absurd (ground (arith, e)))
  >>=-IsSafe panic next h k = absurd (h.0 refl)

  -- A visit of a known fact, by its tests.
  visited :
      (depth : ℕ) (s : Search) (f : MemoryFact) (other : EntityId) (skipped : Bool)
      (visible : Result (Option MemoryNode))
      → visible ≢ panic
      → IsMeasured s
      → IsSafe (
          if skipped
          then ok s
          else (visible >>= λ seen. ok (elim seen as (λ _. Search) [
            | none ↦ s
            | some node ↦ reach request depth s f other node
          ])))
  visited depth s f other true visible v h = ok-IsSafe s h
  visited depth s f other false (ok none) v h = ok-IsSafe s h
  visited depth s f other false (ok (some node)) v h = ok-IsSafe _ (
      reached depth s f other node (node_allowed request node) (contains_key other s.distances)
        (leb request.max_depth depth) h)
  visited depth s f other false (err x) v h = (ground arith, λ s' e. absurd (ground (arith, e)))
  visited depth s f other false panic v h = absurd (v refl)

  visit_fact-IsSafe :
      (current : EntityId) (depth : ℕ) (id : FactId) (s : Search)
      → IsRecorded p id
      → IsMeasured s
      → IsSafe (visit_fact p request current depth id s)
  unfolding visit_fact
  visit_fact-IsSafe current depth id s k h =
      let (f, found) = fact-IsRecorded p w id k in
      rw found (
        visited depth s f (other_end f current)
          (not (
              fact_is_active p f
                (record { valid_at = request.valid_at; known_at = request.known_at }))
            || not (relation_allowed request f.relation))
          (visible_node p (other_end f current) request.known_at)
          (visible_node-ne-panic p w (other_end f current) request.known_at) h)

  visit_facts-IsSafe :
      (current : EntityId) (depth : ℕ) (ids : List FactId) (s : Search)
      → All (IsRecorded p) ids
      → IsMeasured s
      → IsSafe (visit_facts p request current depth ids s)
  unfolding visit_facts
  visit_facts-IsSafe current depth [] s k h = ok-IsSafe s h
  visit_facts-IsSafe current depth (id ∷ ids) s k h =
      >>=-IsSafe (visit_fact p request current depth id s)
        (λ s'. visit_facts p request current depth ids s')
        (visit_fact-IsSafe current depth id s k.0 h)
        (λ s' h'. visit_facts-IsSafe current depth ids s' k.1 h')

  module _ (incidents : HasIncidents p) where
    visit_node-IsSafe :
        (current : EntityId) (s : Search)
        → contains_key current s.distances ≡ true
        → IsMeasured s
        → IsSafe (visit_node p request current s)
    unfolding visit_node contains_key
    visit_node-IsSafe current s k h = elim (Option-cases (lookup current s.distances)) [
      | inl q ↦ absurd (ground (arith, k, q))
      | inr (depth, q) ↦ elim (Result-cases (incident_fact_ids p current)) [
        | inl (ids, listed) ↦
            let recorded = incident_fact_ids-IsRecorded p current ids listed in
            rw (q, listed) (visit_facts-IsSafe current depth ids s recorded h)
        | inr (inl (e, failed)) ↦ rw (q, failed) (ground arith, λ s' e. absurd (ground (arith, e)))
        | inr (inr panics) ↦ absurd (incidents current panics)
      ]
    ]

    search_loop-IsSafe :
        (fuel : ℕ) (s : Search)
        → pending p request s < fuel
        → IsMeasured s
        → IsSafe (search_loop p request fuel s)
    unfolding search_loop
    search_loop-IsSafe zero s small h = absurd (omega arith)
    search_loop-IsSafe (suc fuel) s small h = elim (List-uncons s.queue) [
      | inl q ↦
          let done : search_loop p request (suc fuel) s ≡ ok s = ground (arith, q) in
          subst IsSafe (sym done) (ok-IsSafe s h)
      | inr (current, queue, q) ↦
          let popped : Search = record s { queue = queue } in
          let less : pending p request popped < pending p request s = omega (arith, ap length q) in
          let measured : All (λ id. contains_key id s.distances ≡ true) (current ∷ queue) =
            subst (All (λ id. contains_key id s.distances ≡ true)) q h.0 in
          let (returns, keeps) = visit_node-IsSafe current popped measured.0 (measured.1, h.1) in
          let again : (s' : Search)
              → visit_node p request current popped ≡ ok s'
              → IsSafe (search_loop p request fuel s') =
            λ s' e.
              search_loop-IsSafe fuel s'
                (omega (arith, small, less, visit_node-pending p request current popped s' e))
                (keeps s' e) in
          rw q (
            >>=-ne-panic (visit_node p request current popped) (search_loop p request fuel) returns
                (λ s' e. (again s' e).0),
            λ t e.
                let (s', e₁, e₂) =
                  >>=-eq-ok (visit_node p request current popped) (search_loop p request fuel) e in
                (again s' e₁).1 t e₂,
          )
    ]

  scoped_node-ne-panic : (id : EntityId) → scoped_node p request id ≢ panic
  unfolding scoped_node
  scoped_node-ne-panic id =
      >>=-ne-panic (visible_node p id request.known_at) _
        (visible_node-ne-panic p w id request.known_at) scoped
    where
      scoped :
          (visible : Option MemoryNode)
          → visible_node p id request.known_at ≡ ok visible
          → elim visible as (λ _. Result MemoryNode) [
            | none ↦ err (missing_entity id)
            | some node ↦ if node_allowed request node then ok node else err (missing_entity id)
          ]
            ≢ panic
      scoped none e = ground arith
      scoped (some node) e = ground arith

  start_search-IsSafe :
      (seeds : IdSet) (s : Search) → IsMeasured s → IsSafe (start_search p request seeds s)
  unfolding start_search
  start_search-IsSafe [] s h = ok-IsSafe s h
  start_search-IsSafe ((seed, u) ∷ seeds) s h = elim (Result-cases (scoped_node p request seed)) [
    | inl (node, q) ↦ rw q (
        start_search-IsSafe seeds
          (record s {
            nodes = insert seed node s.nodes;
            distances = insert seed 0 s.distances;
            queue = s.queue ++ seed ∷ [];
          })
          (measured-insert seed 0 s.distances s.queue h.0, HasNodes-insert seed 0 node s h.1))
    | inr (inl (e, q)) ↦ rw q (ground arith, λ s' e. absurd (ground (arith, e)))
    | inr (inr q) ↦ absurd (scoped_node-ne-panic seed q)
  ]

filter-holds :
    {A : Type 0} (test : A → Bool) (xs : List A) → All (λ x. test x ≡ true) (filter test xs)
filter-holds test [] = tt
filter-holds test (x ∷ xs) = elim (Bool-cases (test x)) [
  | inl q ↦ rw q (q, filter-holds test xs)
  | inr q ↦ rw q (filter-holds test xs)
]

module _ (p : MemoryProjection) (request : ContextRequest) (fuel : ℕ) (w : IsWellFormed p)
    (indexed : IsIndexed p) (enough : length request.seeds + 2 * length p.facts < fuel) where
  new_search-IsMeasured : IsMeasured new_search
  unfolding contains_key lookup
  new_search-IsMeasured = (tt, λ id h. cc)

  searched :
      (s : Search)
      → start_search p request (sorted_ids request.seeds) new_search ≡ ok s
      → IsSafe p w request (search_loop p request fuel s)
  searched s q =
      search_loop-IsSafe p w request (IsIndexed-HasIncidents p w indexed) fuel s
        (omega (arith, start_search-small p request s q, enough))
        ((start_search-IsSafe p w request (sorted_ids request.seeds) new_search
            new_search-IsMeasured).1
          s q)

  -- In a well-formed projection whose incident indexes have a range for each node and only
  -- positions of facts, `neighborhood` with fuel for more rounds than there are seeds and ends of
  -- facts does not panic: it does not run out of fuel, every fact it looks up is there, and every
  -- node it visits has a distance.
  pub neighborhood-ne-panic : neighborhood p request fuel ≢ panic
  unfolding neighborhood
  neighborhood-ne-panic =
      >>=-ne-panic (start_search p request (sorted_ids request.seeds) new_search) _
        (start_search-IsSafe p w request (sorted_ids request.seeds) new_search
          new_search-IsMeasured).0
        (λ s q.
          >>=-ne-panic (search_loop p request fuel s) _ (searched s q).0 (λ s' _. ok-ne-panic _))

  -- What the search finds: a node for each distance, and facts with both ends at a distance.
  pub neighborhood-found :
      (found : Search)
      → neighborhood p request fuel ≡ ok found
      → HasNodes found × All (λ (id, f). both_ends found.distances f ≡ true) found.facts
  unfolding neighborhood
  neighborhood-found found h =
      let (s, q, h₁) =
        >>=-eq-ok (start_search p request (sorted_ids request.seeds) new_search) _ h in
      let (s', q', h₂) = >>=-eq-ok (search_loop p request fuel s) _ h₁ in
      subst (λ (t : Search). HasNodes t × All (λ (id, f). both_ends t.distances f ≡ true) t.facts)
        (ok_injective h₂)
        (((searched s q).1 s' q').1, filter-holds (λ (id, f). both_ends s'.distances f) s'.facts)
