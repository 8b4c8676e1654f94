-- ===== src/Projection/Rebuild/Changes.antt =====
-- projection/memory/state.rs: the changes that `validate_changes` accepts.
use weavatrix_memory.Base.{
  ℕ, ◌≡◌, sym, ap, ◌∙◌, subst, inl, inr, false, ◌||◌, Option, none, some, [], ◌∷◌, arith, ==-cases,
  All, get_elem?, ok, ok_or, ok_or-ok, reject-ok, >>=-eq-ok, missing_fact,
}
use weavatrix_memory.Map.{Map, lookup, text_key}
use weavatrix_memory.Time.{Timestamp, at_or_before}
use weavatrix_memory.Domain.{FactId, MemoryFact}
use weavatrix_memory.Index.{get}
use weavatrix_memory.Index.Listing.{Lists}
use weavatrix_memory.Projection.State.{Supersession, Retraction, MemoryProjection}
use weavatrix_memory.Projection.Apply.{differs}
use weavatrix_memory.Projection.Rebuild.{
  known_fact, supersedes_other, check_supersession, check_retraction,
}
use weavatrix_memory.Projection.WellFormed.{fact_ids, IsReplacement, IsRetractionOf}
use weavatrix_memory.Projection.WellFormed.Events.{get_elem?-map-fact}

pub lookup-All :
    {V : Type 0} (P : FactId × V → Type 0) (m : Map FactId V) (id : FactId) (v : V)
    → All P m
    → lookup id m ≡ some v
    → P (id, v)
unfolding lookup
lookup-All P [] id v a h = cc
lookup-All P ((j, w) ∷ m) id v a h = elim (==-cases j id) [
  | inl (e, t) ↦
      let same : w ≡ v = ground (arith, h, t) in
      subst P (ap (λ x. (x, w)) e ∙ ap (λ x. (id, x)) same) a.0
  | inr (n, t) ↦ lookup-All P m id v a.1 (ground (arith, h, t))
]

known_fact-ok :
    (p : MemoryProjection) (id : FactId) (f : MemoryFact)
    → Lists p.fact_lookup (fact_ids p.facts)
    → known_fact p id ≡ ok f
    → (i : ℕ) × (get_elem? p.facts i ≡ some f) × (f.id ≡ id)
known_fact-ok p id f l h =
    let (i, index, h1) = >>=-eq-ok (ok_or (missing_fact id) (get p.fact_lookup id)) _ h in
    let (g, here, same) =
      get_elem?-map-fact p.facts i id
        (l.points id i (ok_or-ok (missing_fact id) (get p.fact_lookup id) index)) in
    let eq : g ≡ f = ground (arith, h1, here) in
    (i, here ∙ ap some eq, ap (λ (x : MemoryFact). x.id) (sym eq) ∙ same)

same_time : (a b : Timestamp) → differs a b ≡ false → a ≡ b
same_time a b h = ground arith

supersedes_other_lem :
    (o : Option FactId) (id : FactId) → supersedes_other o id ≡ false → o ≡ some id
supersedes_other_lem none id h = cc
supersedes_other_lem (some prior) id h = elim (==-cases prior id) [
  | inl (e, t) ↦ ap some e
  | inr (n, t) ↦ ground (arith, h, t)
]

pub check_supersession-ok :
    (p : MemoryProjection)
    → Lists p.fact_lookup (fact_ids p.facts)
    → (entry : FactId × Supersession) (u : Unit {0}) → check_supersession p entry ≡ ok u
    → IsReplacement p.facts entry.0 entry.1
unfolding check_supersession
check_supersession-ok p l (prior, c) u h =
    let (old, old_known, h1) = >>=-eq-ok (known_fact p prior) _ h in
    let (new, new_known, h2) = >>=-eq-ok (known_fact p c.replacement) _ h1 in
    let (i, here, id) = known_fact-ok p c.replacement new l new_known in
    let (_, _, prior_id) = known_fact-ok p prior old l old_known in
    let agrees =
      reject-ok
        (supersedes_other new.supersedes old.id
          || differs new.valid_from c.valid_from
          || differs new.recorded_at c.recorded_at)
        _ h2 in
    record {
      index = i;
      fact = new;
      here = here;
      id = id;
      supersedes =
          supersedes_other_lem new.supersedes old.id (ground (arith, agrees)) ∙ ap some prior_id;
      valid_from = same_time new.valid_from c.valid_from (ground (arith, agrees));
      recorded_at = same_time new.recorded_at c.recorded_at (ground (arith, agrees));
    }

pub check_retraction-ok :
    (p : MemoryProjection)
    → Lists p.fact_lookup (fact_ids p.facts)
    → (entry : FactId × Retraction) (u : Unit {0}) → check_retraction p entry ≡ ok u
    → IsRetractionOf p.facts entry.0 entry.1
unfolding check_retraction
check_retraction-ok p l (id, c) u h =
    let (f, known, h1) = >>=-eq-ok (known_fact p id) _ h in
    let (i, here, same) = known_fact-ok p id f l known in
    record {
      index = i;
      fact = f;
      here = here;
      same = same;
      later = ground (arith, reject-ok (at_or_before c.valid_until f.valid_from) _ h1);
    }
