-- ===== src/Projection/WellFormed/Facts.antt =====
-- projection/memory/mod.rs, `insert_fact`: recording a fact and the invariant.
use weavatrix_memory.Base.{
  ℕ, zero, suc, String, ◌≡◌, refl, ap, subst, sym, ◌∙◌, true, false, Option, none, some, List, [],
  ◌∷◌, ◌++◌, map-append, arith, reject, ==-cases, ==-refl, inl, inr, ◌⊎◌, Bool-cases, length,
  length-map, get_elem?, get_elem?-last, get_elem?-append_left, All-append, eqb, ok, >>=-eq-ok,
  ok_injective, conflicting_fact,
}
use weavatrix_memory.Map.{Map, contains, contains_key, lookup, insert, lookup-insert, text_key}
use weavatrix_memory.Domain.{EntityId, FactId, MemoryFact, validate_fact}
use weavatrix_memory.Index.{get, insert_id, contains_id}
use weavatrix_memory.Index.Listing.{Lists-insert_id}
use weavatrix_memory.Projection.State.{Supersession, Retraction, MemoryProjection}
use weavatrix_memory.Projection.Update.{
  require_entity, apply_supersession, supersede, place_fact, insert_fact,
}
use weavatrix_memory.Projection.WellFormed.{
  node_ids, fact_ids, HasEnds, IsReplacement, IsRetractionOf, IsWellFormed,
}

abbrev pub supersession_of : MemoryFact → Supersession
supersession_of f = record {
  replacement = f.id;
  valid_from = f.valid_from;
  recorded_at = f.recorded_at;
}

-- The record that a supersession leaves, before its fact is in the list.
abbrev pub superseding : MemoryProjection → FactId → MemoryFact → MemoryProjection
superseding p prior f = record p {
  supersessions = insert prior (supersession_of f) p.supersessions;
}

pub supersede-ok :
    (p p' : MemoryProjection) (o : Option FactId) (f : MemoryFact)
    → supersede p o f ≡ ok p'
    → ((o ≡ none) × (p' ≡ p))
      ⊎ ((prior : FactId) × (o ≡ some prior)
          × (contains_key prior p.supersessions ≡ false)
          × (p' ≡ superseding p prior f))
unfolding apply_supersession
supersede-ok p p' none f h = inl (refl, sym (ok_injective h))
supersede-ok p p' (some prior) f h = inr (prior, refl, ground (arith, h), ground (arith, h))

pub get-known :
    (ix : List String) (id : String) (i : ℕ) → get_elem? ix i ≡ some id → contains id ix ≡ true
unfolding contains
get-known [] id i h = cc
get-known (x ∷ xs) id zero h = ground (arith, h, ==-refl id)
get-known (x ∷ xs) id (suc i) h = ground (arith, get-known xs id i h)

-- What an accepted fact has passed.
pub record IsAccepted (p : MemoryProjection) (f : MemoryFact) (p' : MemoryProjection) : Type 0 where
  pub source : ℕ
  pub target : ℕ
  pub middle : MemoryProjection
  pub source_known : get p.node_lookup f.source ≡ some source
  pub target_known : get p.node_lookup f.target ≡ some target
  pub new : contains_id p.fact_lookup f.id ≡ false
  pub superseded : supersede p f.supersedes f ≡ ok middle
  pub placed : p' ≡ place_fact middle f source target

require_entity-ok :
    (p : MemoryProjection) (id : EntityId) (i : ℕ)
    → require_entity p id ≡ ok i
    → get p.node_lookup id ≡ some i
unfolding require_entity
require_entity-ok p id i h = ground (arith, h)

pub insert_fact-ok :
    (p p' : MemoryProjection) (f : MemoryFact) → insert_fact p f ≡ ok p' → IsAccepted p f p'
unfolding insert_fact
insert_fact-ok p p' f h =
    let (_, _, h1) = >>=-eq-ok (validate_fact f) _ h in
    let (s, source, h2) = >>=-eq-ok (require_entity p f.source) _ h1 in
    let (t, target, h3) = >>=-eq-ok (require_entity p f.target) _ h2 in
    let (_, fresh, h4) =
      >>=-eq-ok (reject (contains_id p.fact_lookup f.id) (conflicting_fact f.id)) _ h3 in
    let (m, superseded, h5) = >>=-eq-ok (supersede p f.supersedes f) _ h4 in
    record {
      source = s;
      target = t;
      middle = m;
      source_known = require_entity-ok p f.source s source;
      target_known = require_entity-ok p f.target t target;
      new = ground (arith, fresh);
      superseded = superseded;
      placed = sym (ok_injective h5);
    }

-- A supersession of the middle state is an old one, or that of the new fact.
middle-supersessions :
    (p m : MemoryProjection) (f : MemoryFact) (id : FactId) (c : Supersession)
    → supersede p f.supersedes f ≡ ok m
    → lookup id m.supersessions ≡ some c
    → (lookup id p.supersessions ≡ some c) ⊎ ((f.supersedes ≡ some id) × (c ≡ supersession_of f))
middle-supersessions p m f id c done h = elim (supersede-ok p m f.supersedes f done) [
  | inl (absent, same) ↦ inl (subst (λ t. lookup id t.supersessions ≡ some c) same h)
  | inr (prior, is, fresh, same) ↦ elim (==-cases prior id) [
    | inl (e, t) ↦ inr (
      is ∙ ap some e,
      ground (arith, h, same, t, lookup-insert prior id (supersession_of f) p.supersessions),
    )
    | inr (n, t) ↦
        inl (ground (arith, h, same, t, lookup-insert prior id (supersession_of f) p.supersessions))
  ]
]

IsReplacement-append :
    (fs gs : List MemoryFact) (id : FactId) (c : Supersession)
    → IsReplacement fs id c
    → IsReplacement (fs ++ gs) id c
IsReplacement-append fs gs id c r = record {
  index = r.index;
  fact = r.fact;
  here = get_elem?-append_left fs gs r.index r.here;
  id = r.id;
  supersedes = r.supersedes;
  valid_from = r.valid_from;
  recorded_at = r.recorded_at;
}

IsRetractionOf-append :
    (fs gs : List MemoryFact) (id : FactId) (c : Retraction)
    → IsRetractionOf fs id c
    → IsRetractionOf (fs ++ gs) id c
IsRetractionOf-append fs gs id c r = record {
  index = r.index;
  fact = r.fact;
  here = get_elem?-append_left fs gs r.index r.here;
  same = r.same;
  later = r.later;
}

-- What `place_fact` leaves, with the incident lists left open.
abbrev pub placed : MemoryProjection → MemoryFact → Map ℕ (List ℕ) → MemoryProjection
placed m f delta = record m {
  fact_lookup = (insert_id m.fact_lookup f.id (length m.facts)).1;
  facts = m.facts ++ f ∷ [];
  incident_delta = delta;
}

pub place_fact_lem :
    (m : MemoryProjection) (f : MemoryFact) (s t : ℕ)
    → place_fact m f s t ≡ placed m f (place_fact m f s t).incident_delta
place_fact_lem m f s t = elim (Bool-cases (eqb t s)) [
  | inl h ↦ ground (arith, h)
  | inr h ↦ ground (arith, h)
]

-- The fields that superseding leaves alone.
pub middle-fields :
    (p m : MemoryProjection) (f : MemoryFact)
    → supersede p f.supersedes f ≡ ok m
    → m ≡ record p { supersessions = m.supersessions }
middle-fields p m f done = elim (supersede-ok p m f.supersedes f done) [
  | inl (absent, same) ↦ rw same
  | inr (prior, is, fresh, same) ↦ rw same
]

with_fact-IsWellFormed :
    (p : MemoryProjection) (f : MemoryFact) (changes : Map FactId Supersession)
    (delta : Map ℕ (List ℕ))
    → IsWellFormed p
    → HasEnds p.nodes f
    → ((id : FactId) (c : Supersession)
        → lookup id changes ≡ some c
        → (lookup id p.supersessions ≡ some c)
          ⊎ ((f.supersedes ≡ some id) × (c ≡ supersession_of f)))
    → IsWellFormed (placed (record p { supersessions = changes }) f delta)
with_fact-IsWellFormed p f changes delta w ends only = record {
  node_index = w.node_index;
  fact_index =
      rw (map-append, ← length-map (λ (t : MemoryFact). t.id) p.facts)
        (Lists-insert_id p.fact_lookup (fact_ids p.facts) f.id w.fact_index);
  histories = w.histories;
  ends = All-append (HasEnds p.nodes) p.facts (f ∷ []) w.ends (ends, tt);
  superseded = λ id c h. elim (only id c h) [
    | inl old ↦ IsReplacement-append p.facts (f ∷ []) id c (w.superseded id c old)
    | inr (is, same) ↦ record {
      index = length p.facts;
      fact = f;
      here = get_elem?-last p.facts f;
      id = ap (λ (t : Supersession). t.replacement) (sym same);
      supersedes = is;
      valid_from = ap (λ (t : Supersession). t.valid_from) (sym same);
      recorded_at = ap (λ (t : Supersession). t.recorded_at) (sym same);
    }
  ];
  retracted = λ id c h. IsRetractionOf-append p.facts (f ∷ []) id c (w.retracted id c h);
}

known-contains :
    (p : MemoryProjection) (id : EntityId) (i : ℕ)
    → IsWellFormed p
    → get p.node_lookup id ≡ some i
    → contains id (node_ids p.nodes) ≡ true
known-contains p id i w h = get-known (node_ids p.nodes) id i (w.node_index.points id i h)

pub insert_fact-IsWellFormed :
    (p p' : MemoryProjection) (f : MemoryFact)
    → IsWellFormed p
    → insert_fact p f ≡ ok p'
    → IsWellFormed p'
insert_fact-IsWellFormed p p' f w h =
    let a = insert_fact-ok p p' f h in
    let m = a.middle in
    let delta = (place_fact m f a.source a.target).incident_delta in
    let inner =
      with_fact-IsWellFormed p f m.supersessions delta w
        (
          known-contains p f.source a.source w a.source_known,
          known-contains p f.target a.target w a.target_known,
        )
        (λ id c l. middle-supersessions p m f id c a.superseded l) in
    subst IsWellFormed
      (ap (λ n. placed n f delta) (sym (middle-fields p m f a.superseded))
        ∙ sym (place_fact_lem m f a.source a.target)
        ∙ sym a.placed)
      inner
