-- ===== src/Projection/Past/Steps.antt =====
-- projection/memory/mod.rs: the write side, seen from an earlier time of knowledge.
use weavatrix_memory.Base.{
  ℕ, zero, suc, ◌≡◌, refl, sym, ap, ◌∙◌, subst, inl, inr, true, Option, none, some, List, [], ◌∷◌,
  ◌++◌, append-nil, arith, ==-cases, filter, filter-append, ok, >>=-eq-ok, ok_injective,
}
use weavatrix_memory.Map.{lookup, lookup-insert, contains_key, text_key}
use weavatrix_memory.Time.{Timestamp, before, at_or_before}
use weavatrix_memory.Domain.{FactId, Evidence, MemoryFact}
use weavatrix_memory.Projection.State.{
  NodeRevision, NodeHistory, new_history, Retraction, MemoryProjection,
}
use weavatrix_memory.Projection.Query.{
  newest, known_revisions, visible_revision, visible_nodes, is_superseded,
}
use weavatrix_memory.Projection.Update.{
  push_later, place_node, supersede, place_fact, insert_fact, apply_retraction,
}
use weavatrix_memory.Projection.WellFormed.Facts.{
  supersession_of, supersede-ok, insert_fact-ok, place_fact_lem, placed, middle-fields,
}
use weavatrix_memory.Projection.WellFormed.Events.{apply_retraction-ok}
use weavatrix_memory.Projection.Past.Same.{IsSameAt}

visible_after :
    (known : Timestamp) (h : NodeHistory) (r : NodeRevision)
    → before known r.recorded_at ≡ true
    → visible_revision (record h { later = h.later ++ r ∷ [] }) known ≡ visible_revision h known
unfolding visible_revision
visible_after known h r t =
    let gone : filter (λ x. at_or_before x.recorded_at known) (r ∷ []) ≡ [] = ground (arith, t) in
    ap newest (
      filter-append (λ x. at_or_before x.recorded_at known) (h.first ∷ h.later) (r ∷ [])
      ∙ ap (λ t. known_revisions h known ++ t) gone
      ∙ append-nil (known_revisions h known))

visible_new :
    (known : Timestamp) (r : NodeRevision)
    → before known r.recorded_at ≡ true
    → visible_revision (new_history r) known ≡ none
unfolding visible_revision
visible_new known r t = ground (arith, t)

visible_push_later :
    (known : Timestamp) (r : NodeRevision) (hs : List NodeHistory) (i : ℕ) (hs' : List NodeHistory)
    → before known r.recorded_at ≡ true
    → push_later hs i r ≡ ok hs'
    → visible_nodes hs' known ≡ visible_nodes hs known
visible_push_later known r [] i hs' t e = cc
visible_push_later known r (h ∷ hs) zero hs' t e =
    ap (λ x. visible_nodes x known) (sym (ok_injective e))
    ∙ ground (arith, visible_after known h r t)
visible_push_later known r (h ∷ hs) (suc i) hs' t e =
    let (rest, done, same) = >>=-eq-ok (push_later hs i r) (λ x. ok (h ∷ x)) e in
    ap (λ x. visible_nodes x known) (sym (ok_injective same))
    ∙ ground (arith, visible_push_later known r hs i rest t done)

visible_nodes-snoc :
    (known : Timestamp) (hs : List NodeHistory) (h : NodeHistory)
    → visible_revision h known ≡ none
    → visible_nodes (hs ++ h ∷ []) known ≡ visible_nodes hs known
visible_nodes-snoc known [] h e = ground (arith, e)
visible_nodes-snoc known (g ∷ hs) h e = ground (arith, visible_nodes-snoc known hs h e)

pub place_node-IsSameAt :
    (known : Timestamp) (p p' : MemoryProjection) (r : NodeRevision) (o : Option ℕ)
    → before known r.recorded_at ≡ true
    → place_node p r o ≡ ok p'
    → IsSameAt known p p'
place_node-IsSameAt known p p' r none t h = subst (IsSameAt known p) (ok_injective h) (record {
  nodes = visible_nodes-snoc known p.nodes (new_history r) (visible_new known r t);
  new = [];
  facts = sym (append-nil p.facts);
  unknown = tt;
  superseded = λ id v. refl;
  retracted = λ id v. refl;
})
place_node-IsSameAt known p p' r (some i) t h =
    let (hs, done, same) =
      >>=-eq-ok (push_later p.nodes i r) (λ x. ok (record p { nodes = x })) h in
    subst (IsSameAt known p) (ok_injective same) (record {
      nodes = visible_push_later known r p.nodes i hs t done;
      new = [];
      facts = sym (append-nil p.facts);
      unknown = tt;
      superseded = λ id v. refl;
      retracted = λ id v. refl;
    })

superseded_same :
    (known : Timestamp) (p m : MemoryProjection) (f : MemoryFact)
    → before known f.recorded_at ≡ true
    → supersede p f.supersedes f ≡ ok m
    → (id : FactId) (valid_at : Timestamp)
    → is_superseded (lookup id m.supersessions) (record { valid_at = valid_at; known_at = known })
      ≡ is_superseded (lookup id p.supersessions) (record { valid_at = valid_at; known_at = known })
unfolding contains_key
superseded_same known p m f t done id v = elim (supersede-ok p m f.supersedes f done) [
  | inl (absent, same) ↦ rw same
  | inr (prior, is, fresh, same) ↦ elim (==-cases prior id) [
    | inl (e, k) ↦
        ground
          (arith, same, e, k, t, fresh, lookup-insert prior id (supersession_of f) p.supersessions)
    | inr (n, k) ↦
        ground (arith, same, k, lookup-insert prior id (supersession_of f) p.supersessions)
  ]
]

pub insert_fact-IsSameAt :
    (known : Timestamp) (p p' : MemoryProjection) (f : MemoryFact)
    → before known f.recorded_at ≡ true
    → insert_fact p f ≡ ok p'
    → IsSameAt known p p'
insert_fact-IsSameAt known p p' f t h =
    let a = insert_fact-ok p p' f h in
    let m = a.middle in
    let delta = (place_fact m f a.source a.target).incident_delta in
    let q : MemoryProjection = placed (record p { supersessions = m.supersessions }) f delta in
    let same : q ≡ p' =
      ap (λ n. placed n f delta) (sym (middle-fields p m f a.superseded))
      ∙ sym (place_fact_lem m f a.source a.target)
      ∙ sym a.placed in
    subst (IsSameAt known p) same (record {
      nodes = refl;
      new = f ∷ [];
      facts = refl;
      unknown = (t, tt);
      superseded = superseded_same known p m f t a.superseded;
      retracted = λ id v. refl;
    })

pub apply_retraction-IsSameAt :
    (known : Timestamp) (p p' : MemoryProjection) (at : Timestamp) (id : FactId) (until : Timestamp)
    (evidence : List Evidence)
    → before known at ≡ true
    → lookup id p.retractions ≡ none
    → apply_retraction p at id until evidence ≡ ok p'
    → IsSameAt known p p'
apply_retraction-IsSameAt known p p' at id until evidence t fresh h =
    let (f, found, later, same) = apply_retraction-ok p p' at id until evidence h in
    let new : Retraction = record { valid_until = until; recorded_at = at } in
    subst (IsSameAt known p) (sym same) (record {
      nodes = refl;
      new = [];
      facts = sym (append-nil p.facts);
      unknown = tt;
      superseded = λ j v. refl;
      retracted = λ j v. elim (==-cases id j) [
        | inl (e, k) ↦ ground (arith, e, k, t, fresh, lookup-insert id j new p.retractions)
        | inr (n, k) ↦ ground (arith, k, lookup-insert id j new p.retractions)
      ];
    })
