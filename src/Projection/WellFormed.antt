-- ===== src/Projection/WellFormed.antt =====
-- The invariant of a projection: its indexes list its nodes and facts, facts stand between nodes
-- that are there, and every change belongs to a fact that is there.
pub mod Nodes
pub mod Facts
pub mod Events
pub mod Total
use weavatrix_memory.Base.{
  ℕ, zero, suc, ◌+◌, ◌<◌, String, ◌≡◌, refl, ap, subst, sym, ◌∙◌, ◌≢◌, Bool, true, false, ◌||◌,
  ◌&&◌, Option, none, some, List, [], ◌∷◌, ◌++◌, map, map-append, arith, ◌==◌, ==-cases, ==-refl,
  if◌then◌else◌, inl, inr, Option-cases, length, length-map, get_elem?, get_elem?-last,
  get_elem?-append_left, All, All-append, All-map, Result, ok, err, panic, ◌>>=◌, >>=-eq-ok,
  ok_injective, or_panic,
}
use weavatrix_memory.Map.{
  contains, contains-append, lookup, insert, lookup-insert, eq_self, text_key,
}
use weavatrix_memory.Time.{before}
use weavatrix_memory.Domain.{EntityId, FactId, MemoryFact, MemoryNode}
use weavatrix_memory.Index.{get, insert_id}
use weavatrix_memory.Index.Listing.{Lists, Lists-empty, Lists-insert_id}
use weavatrix_memory.Projection.State.{
  NodeRevision, NodeHistory, new_history, Supersession, Retraction, MemoryProjection, with_seeds,
}
use weavatrix_memory.Projection.Update.{push_later}

abbrev pub node_ids : List NodeHistory → List EntityId
node_ids = map (λ h. h.first.node.id)

abbrev pub fact_ids : List MemoryFact → List FactId
fact_ids = map (λ f. f.id)

-- All revisions of a history describe one node.
abbrev pub IsOneNode : NodeHistory → Type 0
IsOneNode h = All (λ r. r.node.id ≡ h.first.node.id) h.later

abbrev pub HasEnds : List NodeHistory → MemoryFact → Type 0
HasEnds nodes f =
    (contains f.source (node_ids nodes) ≡ true) × (contains f.target (node_ids nodes) ≡ true)

-- A supersession is recorded by the fact that replaces.
pub record IsReplacement (facts : List MemoryFact) (prior : FactId) (c : Supersession)
    : Type 0 where
  pub index : ℕ
  pub fact : MemoryFact
  pub here : get_elem? facts index ≡ some fact
  pub id : fact.id ≡ c.replacement
  pub supersedes : fact.supersedes ≡ some prior
  pub valid_from : fact.valid_from ≡ c.valid_from
  pub recorded_at : fact.recorded_at ≡ c.recorded_at

-- A retraction ends a fact after its beginning.
pub record IsRetractionOf (facts : List MemoryFact) (id : FactId) (c : Retraction) : Type 0 where
  pub index : ℕ
  pub fact : MemoryFact
  pub here : get_elem? facts index ≡ some fact
  pub same : fact.id ≡ id
  pub later : before fact.valid_from c.valid_until ≡ true

pub record IsWellFormed (p : MemoryProjection) : Type 0 where
  pub node_index : Lists p.node_lookup (node_ids p.nodes)
  pub fact_index : Lists p.fact_lookup (fact_ids p.facts)
  pub histories : All IsOneNode p.nodes
  pub ends : All (HasEnds p.nodes) p.facts
  pub superseded :
      (id : FactId) (c : Supersession)
      → lookup id p.supersessions ≡ some c
      → IsReplacement p.facts id c
  pub retracted :
      (id : FactId) (c : Retraction)
      → lookup id p.retractions ≡ some c
      → IsRetractionOf p.facts id c

pub with_seeds-IsWellFormed : (a b : ℕ) → IsWellFormed (with_seeds a b)
unfolding lookup
with_seeds-IsWellFormed a b = record {
  node_index = Lists-empty a;
  fact_index = Lists-empty b;
  histories = tt;
  ends = tt;
  superseded = λ id c h. cc;
  retracted = λ id c h. cc;
}

-- `push_later` in a list of histories
module _ (r : NodeRevision) where
  pub node_ids-push_later :
      (hs : List NodeHistory) (i : ℕ) (hs' : List NodeHistory)
      → push_later hs i r ≡ ok hs'
      → node_ids hs' ≡ node_ids hs
  node_ids-push_later [] i hs' e = cc
  node_ids-push_later (h ∷ hs) zero hs' e = ap node_ids (sym (ok_injective e))
  node_ids-push_later (h ∷ hs) (suc i) hs' e =
      let (rest, done, same) = >>=-eq-ok (push_later hs i r) (λ t. ok (h ∷ t)) e in
      ap node_ids (sym (ok_injective same))
      ∙ ap (◌∷◌ h.first.node.id) (node_ids-push_later hs i rest done)

  pub histories-push_later :
      (hs : List NodeHistory) (i : ℕ) (hs' : List NodeHistory)
      → All IsOneNode hs
      → get_elem? (node_ids hs) i ≡ some r.node.id
      → push_later hs i r ≡ ok hs'
      → All IsOneNode hs'
  histories-push_later [] i hs' k at e = cc
  histories-push_later (h ∷ hs) zero hs' k at e = subst (All IsOneNode) (ok_injective e) (
    All-append (λ t. t.node.id ≡ h.first.node.id) h.later (r ∷ []) k.0 (ground (arith, at), tt),
    k.1,
  )
  histories-push_later (h ∷ hs) (suc i) hs' k at e =
      let (rest, done, same) = >>=-eq-ok (push_later hs i r) (λ t. ok (h ∷ t)) e in
      subst (All IsOneNode) (ok_injective same) (k.0, histories-push_later hs i rest k.1 at done)

  pub push_later_succeeds :
      (hs : List NodeHistory) (i : ℕ) {id : EntityId}
      → get_elem? (node_ids hs) i ≡ some id
      → (hs' : List NodeHistory) × (push_later hs i r ≡ ok hs')
  push_later_succeeds [] i e = cc
  push_later_succeeds (h ∷ hs) zero e = (_, refl)
  push_later_succeeds (h ∷ hs) (suc i) e =
      let (rest, done) = push_later_succeeds hs i e in (h ∷ rest, rw done)
