-- ===== src/Projection/Update.antt =====
-- The write side of projection/memory/mod.rs. Every check stands before the first assignment, so an
-- error leaves the projection as it was.
use weavatrix_memory.Base.{
  ℕ, zero, suc, Option, none, some, List, [], ◌∷◌, ◌++◌, eqb, if◌then◌else◌, length, get_last?,
  Result, ok, err, panic, ok_or, reject, try_for_each, ◌>>=◌, ◌>>◌, invalid_value, missing_entity,
  missing_fact, conflicting_fact,
}
use weavatrix_memory.Map.{lookup, insert, contains_key, text_key, nat_key}
use weavatrix_memory.Time.{Timestamp, at_or_before}
use weavatrix_memory.Domain.{
  EntityId, FactId, Evidence, MemoryFact, validate_node, validate_fact, validate_evidence,
  no_evidence,
}
use weavatrix_memory.Index.{get, insert_id, contains_id}
use weavatrix_memory.Projection.State.{NodeRevision, NodeHistory, new_history, MemoryProjection}
use weavatrix_memory.Projection.Query.{delta_of, fact}

-- `nodes[index].later.push(revision)`
abbrev pub push_later : List NodeHistory → (index : ℕ) → NodeRevision → Result (List NodeHistory)
push_later [] index revision = panic
push_later (h ∷ hs) zero revision = ok (record h { later = h.later ++ revision ∷ [] } ∷ hs)
push_later (h ∷ hs) (suc index) revision = push_later hs index revision >>= λ hs'. ok (h ∷ hs')

-- `*offsets.last().unwrap_or(&0)`
abbrev pub last_or_zero : Option ℕ → ℕ
last_or_zero none = 0
last_or_zero (some n) = n

abbrev pub place_node : MemoryProjection → NodeRevision → Option ℕ → Result MemoryProjection
place_node p revision (some index) = do
  nodes ← push_later p.nodes index revision
  ok (record p { nodes = nodes })
place_node p revision none = ok (record p {
  node_lookup = (insert_id p.node_lookup revision.node.id (length p.nodes)).1;
  nodes = p.nodes ++ new_history revision ∷ [];
  incident_offsets = p.incident_offsets ++ last_or_zero (get_last? p.incident_offsets) ∷ [];
})

unfoldable pub insert_node : MemoryProjection → NodeRevision → Result MemoryProjection
insert_node p revision = do
  validate_node revision.node
  place_node p revision (get p.node_lookup revision.node.id)

unfoldable pub require_entity : MemoryProjection → EntityId → Result ℕ
require_entity p id = ok_or (missing_entity id) (get p.node_lookup id)

unfoldable pub apply_supersession :
    MemoryProjection → (prior : FactId) → MemoryFact → Result MemoryProjection
apply_supersession p prior f = do
  (if contains_id p.fact_lookup prior then ok tt else err (missing_fact prior))
  reject (contains_key prior p.supersessions) (conflicting_fact prior)
  ok (record p {
    supersessions =
        insert prior
          (record { replacement = f.id; valid_from = f.valid_from; recorded_at = f.recorded_at })
          p.supersessions;
  })

abbrev pub supersede : MemoryProjection → Option FactId → MemoryFact → Result MemoryProjection
supersede p none f = ok p
supersede p (some prior) f = apply_supersession p prior f

-- `incident_delta.entry(node).or_default().push(index)`
abbrev pub push_incident : MemoryProjection → (node index : ℕ) → MemoryProjection
push_incident p node index = record p {
  incident_delta =
      insert node (delta_of (lookup node p.incident_delta) ++ index ∷ []) p.incident_delta;
}

-- The assignments at the end of `insert_fact`.
abbrev pub place_fact : MemoryProjection → MemoryFact → (source target : ℕ) → MemoryProjection
place_fact p f source target =
    let index = length p.facts in
    let at_source = push_incident p source index in
    let at_both = if eqb target source then at_source else push_incident at_source target index in
    record at_both {
      fact_lookup = (insert_id p.fact_lookup f.id index).1;
      facts = p.facts ++ f ∷ [];
    }

unfoldable pub insert_fact : MemoryProjection → MemoryFact → Result MemoryProjection
insert_fact p f = do
  validate_fact f
  source ← require_entity p f.source
  target ← require_entity p f.target
  reject (contains_id p.fact_lookup f.id) (conflicting_fact f.id)
  p' ← supersede p f.supersedes f
  ok (place_fact p' f source target)

unfoldable pub apply_retraction :
    MemoryProjection
    → (recorded_at : Timestamp) → FactId
    → (valid_until : Timestamp) → List Evidence
    → Result MemoryProjection
apply_retraction p recorded_at fact_id valid_until evidence = do
  known ← fact p fact_id
  f ← ok_or (missing_fact fact_id) known
  reject (at_or_before valid_until f.valid_from)
      (invalid_value "retraction.valid_until" "must be later than the fact valid_from")
  reject (no_evidence evidence)
      (invalid_value "retraction.evidence" "at least one evidence item is required")
  try_for_each validate_evidence evidence
  ok (record p {
    retractions =
        insert fact_id (record { valid_until = valid_until; recorded_at = recorded_at })
          p.retractions;
  })
