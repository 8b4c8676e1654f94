-- ===== src/Projection/Rebuild/Indexed.antt =====
-- projection/memory/state.rs: the two loops of `rebuild_indexes`.
use weavatrix_memory.Base.{
  ℕ, suc, ◌≡◌, sym, ap, ◌∙◌, subst, inl, inr, true, List, [], ◌∷◌, ◌++◌, append_assoc, append-nil,
  arith, ==-cases, All, length, length-snoc, Result, ok, ok_or-ok, reject, try_for_each, >>=-eq-ok,
  ok_injective, ok_pair, missing_entity,
}
use weavatrix_memory.Map.{contains, text_key}
use weavatrix_memory.Domain.{EntityId, FactId, MemoryFact, validate_fact, validate_node}
use weavatrix_memory.Index.{IdIndex, get, insert_id}
use weavatrix_memory.Index.Listing.{Lists, Lists-insert_id}
use weavatrix_memory.Projection.State.{NodeRevision, NodeHistory}
use weavatrix_memory.Projection.Rebuild.{
  is_some, check_revision, index_nodes, entity_index, index_facts,
}
use weavatrix_memory.Projection.WellFormed.{node_ids, fact_ids, IsOneNode}
use weavatrix_memory.Projection.WellFormed.Facts.{get-known}

pub try_for_each-All :
    {A : Type 0} (f : A → Result (Unit {0})) (P : A → Type 0)
    → ((a : A) (u : Unit {0}) → f a ≡ ok u → P a)
    → (xs : List A) (u : Unit {0}) → try_for_each f xs ≡ ok u
    → All P xs
try_for_each-All f P h [] u e = tt
try_for_each-All f P h (x ∷ xs) u e =
    let (v, one, rest) = >>=-eq-ok (f x) _ e in (h x v one, try_for_each-All f P h xs u rest)

check_revision-ok :
    (first : EntityId) (r : NodeRevision) (u : Unit {0})
    → check_revision first r ≡ ok u
    → r.node.id ≡ first
check_revision-ok first r u h =
    let (_, _, rest) = >>=-eq-ok (validate_node r.node) _ h in
    elim (==-cases r.node.id first) [ inl (e, t) ↦ e | inr (n, t) ↦ ground (arith, rest, t) ]

pub index_nodes-ok :
    (ix ix' : IdIndex) (ids : List EntityId) (hs : List NodeHistory)
    → Lists ix ids
    → index_nodes ix (length ids) hs ≡ ok ix'
    → Lists ix' (ids ++ node_ids hs) × All IsOneNode hs
unfolding index_nodes
index_nodes-ok ix ix' ids [] l h = (
  subst (λ t. Lists t (ids ++ [])) (ok_injective h) (subst (Lists ix) (sym (append-nil ids)) l),
  tt,
)
index_nodes-ok ix ix' ids (g ∷ hs) l h =
    let id = g.first.node.id in
    let (u, same, h1) = >>=-eq-ok (try_for_each (check_revision id) (g.first ∷ g.later)) _ h in
    let (_, fresh, h2) = >>=-eq-ok (reject (is_some (insert_id ix id (length ids)).0) _) _ h1 in
    let one =
      try_for_each-All (check_revision id) (λ r. r.node.id ≡ id) (check_revision-ok id)
        (g.first ∷ g.later) u same in
    let (rest, all) =
      index_nodes-ok (insert_id ix id (length ids)).1 ix' (ids ++ id ∷ []) hs
        (Lists-insert_id ix ids id l)
        (ap (λ n. index_nodes (insert_id ix id (length ids)).1 n hs) (length-snoc ids id) ∙ h2) in
    (subst (Lists ix') (append_assoc ids (id ∷ []) (node_ids hs)) rest, (one.1, all))

entity_index-contains :
    (nodes : IdIndex) (ids : List EntityId) (id : EntityId) (i : ℕ)
    → Lists nodes ids
    → entity_index nodes id ≡ ok i
    → contains id ids ≡ true
unfolding entity_index
entity_index-contains nodes ids id i l h =
    get-known ids id i (l.points id i (ok_or-ok (missing_entity id) (get nodes id) h))

-- The ends of a fact are among the identifiers.
abbrev pub HasEndsIn : List EntityId → MemoryFact → Type 0
HasEndsIn ids f = (contains f.source ids ≡ true) × (contains f.target ids ≡ true)

pub index_facts-ok :
    (nodes : IdIndex) (node_names : List EntityId) (ix ix' : IdIndex) (ids : List FactId)
    (fs : List MemoryFact) (ends : List (ℕ × ℕ))
    → Lists nodes node_names
    → Lists ix ids
    → index_facts nodes ix (length ids) fs ≡ ok (ix', ends)
    → Lists ix' (ids ++ fact_ids fs) × All (HasEndsIn node_names) fs
unfolding index_facts
index_facts-ok nodes names ix ix' ids [] ends n l h =
    (subst (λ t. Lists t (ids ++ [])) (ok_pair h).0 (subst (Lists ix) (sym (append-nil ids)) l), tt)
index_facts-ok nodes names ix ix' ids (f ∷ fs) ends n l h =
    let (_, _, h1) = >>=-eq-ok (validate_fact f) _ h in
    let (s, source, h2) = >>=-eq-ok (entity_index nodes f.source) _ h1 in
    let (t, target, h3) = >>=-eq-ok (entity_index nodes f.target) _ h2 in
    let (_, _, h4) = >>=-eq-ok (reject (is_some (insert_id ix f.id (length ids)).0) _) _ h3 in
    let next = (insert_id ix f.id (length ids)).1 in
    let (r, done, same) = >>=-eq-ok (index_facts nodes next (suc (length ids)) fs) _ h4 in
    let (rest, all) =
      index_facts-ok nodes names next r.0 (ids ++ f.id ∷ []) fs r.1 n
        (Lists-insert_id ix ids f.id l)
        (ap (λ k. index_facts nodes next k fs) (length-snoc ids f.id) ∙ done) in
    (
      subst (λ x. Lists x (ids ++ fact_ids (f ∷ fs))) (ok_pair same).0
          (subst (Lists r.0) (append_assoc ids (f.id ∷ []) (fact_ids fs)) rest),
      (
        (
          entity_index-contains nodes names f.source s n source,
          entity_index-contains nodes names f.target t n target,
        ),
        all,
      ),
    )
