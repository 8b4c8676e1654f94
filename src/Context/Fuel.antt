-- ===== src/Context/Fuel.antt =====
-- context/compiler.rs, `neighborhood`: each round of the search takes one from what is pending, since
-- a node enters the queue once.
use weavatrix_memory.Base.{
  ==-cases, ==_true, ℕ, zero, suc, ◌+◌, ◌*◌, ◌≤◌, ◌<◌, ◌≡◌, refl, sym, ap, ◌∙◌, inl, inr, arith,
  Bool, true, false, not, ◌||◌, Option, none, some, List, [], ◌∷◌, ◌++◌, filter, if◌then◌else◌,
  length, length-append, length-filter-le, get_elem?, Bool-cases, Result, ok, err, panic, or_panic,
  ◌>>=◌, >>=-eq-ok, ok_injective, Option-cases,
}
use weavatrix_memory.Map.{Map, lookup, insert, contains_key, contains, lookup-insert, text_key}
use weavatrix_memory.Domain.{EntityId, FactId, MemoryNode, MemoryFact}
use weavatrix_memory.Index.{get}
use weavatrix_memory.Projection.State.{MemoryProjection}
use weavatrix_memory.Projection.Query.{fact, visible_node, fact_is_active, incident_fact_ids}
use weavatrix_memory.Context.{ContextRequest, relation_allowed}
use weavatrix_memory.Context.Compiler.{
  Search, new_search, sorted_ids, IdSet, scoped_node, start_search, other_end, reach, visit_fact,
  visit_facts, visit_node,
}

unfoldable pub ends_of : List MemoryFact → List EntityId
ends_of [] = []
ends_of (f ∷ fs) = f.source ∷ f.target ∷ ends_of fs

-- the number of ends that have no distance yet
unfoldable pub unseen : List EntityId → Map EntityId ℕ → ℕ
unseen ids distances = length (filter (λ id. not (contains_key id distances)) ids)

pub contains_key-insert :
    {V : Type 0} (k j : EntityId) (v : V) (m : Map EntityId V)
    → contains_key j (insert k v m) ≡ (text_key.eq k j || contains_key j m)
unfolding contains_key
contains_key-insert k j v m = ground (arith, lookup-insert k j v m)

unseen-insert :
    (k : EntityId) (v : ℕ) (ids : List EntityId) (m : Map EntityId ℕ)
    → unseen ids (insert k v m) ≤ unseen ids m
unfolding unseen
unseen-insert k v [] m = omega arith
unseen-insert k v (id ∷ ids) m =
    ground (arith, contains_key-insert k id v m, unseen-insert k v ids m)

unseen-insert_new :
    (k : EntityId) (v : ℕ) (ids : List EntityId) (m : Map EntityId ℕ)
    → contains k ids ≡ true
    → contains_key k m ≡ false
    → unseen ids (insert k v m) < unseen ids m
unfolding unseen contains
unseen-insert_new k v [] m h new = absurd (ground (arith, h))
unseen-insert_new k v (id ∷ ids) m h new = elim (==-cases id k) [
  | inl (p, q) ↦
      let here : contains_key id m ≡ false = ap (λ i. contains_key i m) p ∙ new in
      let there : contains_key id (insert k v m) ≡ true =
        contains_key-insert k id v m ∙ ap (λ b. b || contains_key id m) (==_true (sym p)) in
      ground (arith, here, there, unseen-insert k v ids m)
  | inr (p, q) ↦ ground (
    arith,
    h,
    q,
    contains_key-insert k id v m,
    ==-cases k id,
    unseen-insert_new k v ids m (ground (arith, h, q)) new,
  )
]

get_elem?-ends_of :
    (fs : List MemoryFact) (i : ℕ) (f : MemoryFact)
    → get_elem? fs i ≡ some f
    → (contains f.source (ends_of fs) ≡ true) × (contains f.target (ends_of fs) ≡ true)
unfolding ends_of contains
get_elem?-ends_of [] i f h = absurd (ground (arith, h))
get_elem?-ends_of (g ∷ fs) zero f h =
    let p : g ≡ f = ground (arith, h) in
    (ground (arith, ==_true (ap (λ t. t.source) p)), ground (arith, ==_true (ap (λ t. t.target) p)))
get_elem?-ends_of (g ∷ fs) (suc i) f h = ground (arith, get_elem?-ends_of fs i f h)

module _ (p : MemoryProjection) (request : ContextRequest) where
  abbrev pub known_ends : List EntityId
  known_ends = ends_of p.facts

  fact-ends :
      (id : FactId) (f : MemoryFact)
      → fact p id ≡ ok (some f)
      → (contains f.source known_ends ≡ true) × (contains f.target known_ends ≡ true)
  unfolding fact
  fact-ends id f h = elim (Option-cases (get p.fact_lookup id)) [
    | inl q ↦ absurd (ground (arith, h, q))
    | inr (i, q) ↦ get_elem?-ends_of p.facts i f (ground (arith, h, q))
  ]

  -- Each round of the search takes one from this.
  abbrev pub pending : Search → ℕ
  pending s = unseen known_ends s.distances + length s.queue

  reach-pending :
      (depth : ℕ) (s : Search) (f : MemoryFact) (other : EntityId) (node : MemoryNode)
      → contains other known_ends ≡ true
      → pending (reach request depth s f other node) ≤ pending s
  reach-pending depth s f other node h = elim (Bool-cases (contains_key other s.distances)) [
    | inl q ↦ ground (arith, q)
    | inr q ↦ ground (
      arith,
      q,
      unseen-insert_new other (depth + 1) known_ends s.distances h q,
      length-append s.queue (other ∷ []),
    )
  ]

  other_end-known :
      (f : MemoryFact) (current : EntityId)
      → (contains f.source known_ends ≡ true) × (contains f.target known_ends ≡ true)
      → contains (other_end f current) known_ends ≡ true
  other_end-known f current h = ground (arith, h)

  -- The two tests of a visit, whatever they give.
  visited :
      (depth : ℕ) (s s' : Search) (f : MemoryFact) (other : EntityId) (skipped : Bool)
      (visible : Result (Option MemoryNode))
      → contains other known_ends ≡ true
      → (if skipped
          then ok s
          else (visible >>= λ seen. ok (elim seen as (λ _. Search) [
            | none ↦ s
            | some node ↦ reach request depth s f other node
          ])))
        ≡ ok s'
      → pending s' ≤ pending s
  visited depth s s' f other true visible k h = omega (arith, ap pending (ok_injective h))
  visited depth s s' f other false (ok none) k h = omega (arith, ap pending (ok_injective h))
  visited depth s s' f other false (ok (some node)) k h =
      omega (arith, ap pending (ok_injective h), reach-pending depth s f other node k)
  visited depth s s' f other false (err e) k h = absurd (ground (arith, h))
  visited depth s s' f other false panic k h = absurd (ground (arith, h))

  visit_fact-pending :
      (current : EntityId) (depth : ℕ) (id : FactId) (s s' : Search)
      → visit_fact p request current depth id s ≡ ok s'
      → pending s' ≤ pending s
  unfolding visit_fact
  visit_fact-pending current depth id s s' h =
      let (found, looked, h₁) = >>=-eq-ok (fact p id) _ h in
      let (f, there, h₂) = >>=-eq-ok (or_panic found) _ h₁ in
      let is : found ≡ some f = ground (arith, there) in
      let known = fact-ends id f (looked ∙ ap ok is) in
      visited depth s s' f (other_end f current)
        (not (
            fact_is_active p f
              (record { valid_at = request.valid_at; known_at = request.known_at }))
          || not (relation_allowed request f.relation))
        (visible_node p (other_end f current) request.known_at) (other_end-known f current known) h₂

  visit_facts-pending :
      (current : EntityId) (depth : ℕ) (ids : List FactId) (s s' : Search)
      → visit_facts p request current depth ids s ≡ ok s'
      → pending s' ≤ pending s
  unfolding visit_facts
  visit_facts-pending current depth [] s s' h = omega (arith, ap pending (ok_injective h))
  visit_facts-pending current depth (id ∷ ids) s s' h =
      let (s₁, first, h₁) =
        >>=-eq-ok (visit_fact p request current depth id s)
          (λ t. visit_facts p request current depth ids t) h in
      omega (
        arith,
        visit_fact-pending current depth id s s₁ first,
        visit_facts-pending current depth ids s₁ s' h₁,
      )

  pub visit_node-pending :
      (current : EntityId) (s s' : Search)
      → visit_node p request current s ≡ ok s'
      → pending s' ≤ pending s
  unfolding visit_node
  visit_node-pending current s s' h =
      let (depth, found, h₁) = >>=-eq-ok (or_panic (lookup current s.distances)) _ h in
      let (ids, listed, h₂) = >>=-eq-ok (incident_fact_ids p current) _ h₁ in
      visit_facts-pending current depth ids s s' h₂

  pub start_search-pending :
      (seeds : IdSet) (s s' : Search)
      → start_search p request seeds s ≡ ok s'
      → pending s' ≤ pending s + length seeds
  unfolding start_search
  start_search-pending [] s s' h = omega (arith, ap pending (ok_injective h))
  start_search-pending ((seed, u) ∷ seeds) s s' h =
      let (node, found, h₁) = >>=-eq-ok (scoped_node p request seed) _ h in
      let next : Search = record s {
        nodes = insert seed node s.nodes;
        distances = insert seed 0 s.distances;
        queue = s.queue ++ seed ∷ [];
      } in
      omega (
        arith,
        start_search-pending seeds next s' h₁,
        unseen-insert seed 0 known_ends s.distances,
        length-append s.queue (seed ∷ []),
      )

length-sorted_insert : (k : EntityId) (m : IdSet) → length (insert k tt m) ≤ suc (length m)
unfolding insert
length-sorted_insert k [] = omega arith
length-sorted_insert k ((j, u) ∷ m) = ground (arith, length-sorted_insert k m)

length-sorted_ids : (ids : List EntityId) → length (sorted_ids ids) ≤ length ids
unfolding sorted_ids
length-sorted_ids [] = omega arith
length-sorted_ids (id ∷ ids) =
    omega (arith, length-sorted_insert id (sorted_ids ids), length-sorted_ids ids)

length-ends_of : (fs : List MemoryFact) → length (ends_of fs) ≡ 2 * length fs
unfolding ends_of
length-ends_of [] = refl
length-ends_of (f ∷ fs) = omega (arith, length-ends_of fs)

-- What is pending when the seeds are in the queue.
pub start_search-small :
    (p : MemoryProjection) (request : ContextRequest) (s : Search)
    → start_search p request (sorted_ids request.seeds) new_search ≡ ok s
    → pending p request s ≤ length request.seeds + 2 * length p.facts
unfolding unseen
start_search-small p request s h =
    let bound = start_search-pending p request (sorted_ids request.seeds) new_search s h in
    let first = length-filter-le (λ id. not (contains_key {V = ℕ} id [])) (ends_of p.facts) in
    omega (arith, bound, first, length-ends_of p.facts, length-sorted_ids request.seeds)
