-- ===== src/Projection/Past/Same.antt =====
-- projection/memory/mod.rs: projections that answer alike at a time of knowledge.
use weavatrix_memory.Base.{
  ◌≡◌, refl, sym, ap, ◌∙◌, Bool, true, ◌&&◌, List, [], ◌∷◌, ◌++◌, append-nil, arith, filter,
  filter-append, All,
}
use weavatrix_memory.Map.{lookup, text_key}
use weavatrix_memory.Time.{Timestamp, before}
use weavatrix_memory.Domain.{FactId, MemoryNode, MemoryFact}
use weavatrix_memory.Projection.State.{MemoryProjection, ProjectionClock}
use weavatrix_memory.Projection.Query.{
  visible_nodes, is_among, is_superseded, is_retracted, fact_is_active, view,
}
use weavatrix_memory.Projection.WellFormed.{IsWellFormed}
use weavatrix_memory.Projection.Views.{view-facts}

-- Two projections that show the same to every question at a time of knowledge.
pub record IsSameAt (known_at : Timestamp) (p p' : MemoryProjection) : Type 0 where
  pub nodes : visible_nodes p'.nodes known_at ≡ visible_nodes p.nodes known_at
  pub new : List MemoryFact
  pub facts : p'.facts ≡ p.facts ++ new
  pub unknown : All (λ f. before known_at f.recorded_at ≡ true) new
  pub superseded :
      (id : FactId) (valid_at : Timestamp)
      → is_superseded
          (lookup id p'.supersessions)
          (record { valid_at = valid_at; known_at = known_at })
        ≡ is_superseded
            (lookup id p.supersessions)
            (record { valid_at = valid_at; known_at = known_at })
  pub retracted :
      (id : FactId) (valid_at : Timestamp)
      → is_retracted
          (lookup id p'.retractions)
          (record { valid_at = valid_at; known_at = known_at })
        ≡ is_retracted
            (lookup id p.retractions)
            (record { valid_at = valid_at; known_at = known_at })

active_same :
    (p p' : MemoryProjection) (clock : ProjectionClock) (f : MemoryFact)
    → IsSameAt clock.known_at p p'
    → fact_is_active p' f clock ≡ fact_is_active p f clock
unfolding fact_is_active
active_same p p' clock f s =
    rw (s.superseded f.id clock.valid_at, s.retracted f.id clock.valid_at) refl

none_active :
    (p : MemoryProjection) (clock : ProjectionClock) (q : MemoryFact → Bool) (fs : List MemoryFact)
    → All (λ f. before clock.known_at f.recorded_at ≡ true) fs
    → filter (λ f. q f && fact_is_active p f clock) fs ≡ []
unfolding fact_is_active
none_active p clock q [] h = refl
none_active p clock q (f ∷ fs) h = ground (arith, h.0, none_active p clock q fs h.1)

-- The facts between two of the nodes that are active.
abbrev facts_between :
    MemoryProjection → ProjectionClock → List MemoryNode → List MemoryFact → List MemoryFact
facts_between p clock nodes facts =
    filter (λ f. (is_among f.source nodes && is_among f.target nodes) && fact_is_active p f clock)
      facts

same_active :
    (p p' : MemoryProjection) (clock : ProjectionClock) (nodes : List MemoryNode)
    (fs : List MemoryFact)
    → IsSameAt clock.known_at p p'
    → facts_between p' clock nodes fs ≡ facts_between p clock nodes fs
same_active p p' clock nodes [] s = refl
same_active p p' clock nodes (f ∷ fs) s =
    rw (active_same p p' clock f s, same_active p p' clock nodes fs s) refl

facts_between_same :
    (p p' : MemoryProjection) (clock : ProjectionClock) (nodes : List MemoryNode)
    → IsSameAt clock.known_at p p'
    → facts_between p' clock nodes p'.facts ≡ facts_between p clock nodes p.facts
facts_between_same p p' clock nodes s =
    ap (facts_between p' clock nodes) s.facts
    ∙ filter-append _ p.facts s.new
    ∙ ap (λ t. facts_between p' clock nodes p.facts ++ t)
        (none_active p' clock (λ f. is_among f.source nodes && is_among f.target nodes) s.new
          s.unknown)
    ∙ append-nil (facts_between p' clock nodes p.facts)
    ∙ same_active p p' clock nodes p.facts s

view_nodes :
    (p : MemoryProjection) (clock : ProjectionClock)
    → (view p clock).nodes ≡ visible_nodes p.nodes clock.known_at
unfolding view
view_nodes p clock = refl

pub view_same :
    (p p' : MemoryProjection) (clock : ProjectionClock)
    → IsWellFormed p
    → IsWellFormed p'
    → IsSameAt clock.known_at p p'
    → view p' clock ≡ view p clock
view_same p p' clock w w' s =
    let nodes : (view p' clock).nodes ≡ (view p clock).nodes =
      view_nodes p' clock ∙ s.nodes ∙ sym (view_nodes p clock) in
    let facts : (view p' clock).facts ≡ (view p clock).facts =
      view-facts p' clock w'
      ∙ ap (λ ns. facts_between p' clock ns p'.facts) nodes
      ∙ facts_between_same p p' clock (view p clock).nodes s
      ∙ sym (view-facts p clock w) in
    λ i. record { nodes = nodes i; facts = facts i }
