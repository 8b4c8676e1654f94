-- ===== src/Projection/Query.antt =====
-- The read side of projection/memory/mod.rs.
use weavatrix_memory.Base.{
  ℕ, ◌+◌, ◌-◌, Bool, true, false, not, ◌&&◌, ◌||◌, Option, none, some, List, [], ◌∷◌, ◌++◌, eqb,
  leb, ◌==◌, if◌then◌else◌, length, get_elem?, take, drop, filter, any, Result, ok, panic, or_panic,
  try_map, ◌>>=◌,
}
use weavatrix_memory.Map.{lookup, text_key, nat_key}
use weavatrix_memory.Time.{Timestamp, before, at_or_before}
use weavatrix_memory.Domain.{EntityId, FactId, MemoryNode, MemoryFact, MemoryView}
use weavatrix_memory.Index.{get}
use weavatrix_memory.Projection.State.{
  NodeRevision, NodeHistory, Supersession, Retraction, MemoryProjection, ProjectionClock,
}

-- `(recorded_at, position)` of the one at most that of the other
abbrev pub key_at_most : NodeRevision → NodeRevision → Bool
key_at_most a b =
    before a.recorded_at b.recorded_at
    || (not (before b.recorded_at a.recorded_at) && leb a.position b.position)

-- `max_by_key`, which returns the last of several greatest revisions
unfoldable pub latest : NodeRevision → List NodeRevision → NodeRevision
latest best [] = best
latest best (r ∷ rs) = latest (if key_at_most best r then r else best) rs

abbrev pub newest : List NodeRevision → Option MemoryNode
newest [] = none
newest (r ∷ rs) = some (latest r rs).node

abbrev pub known_revisions : NodeHistory → Timestamp → List NodeRevision
known_revisions history known_at =
    filter (λ r. at_or_before r.recorded_at known_at) (history.first ∷ history.later)

unfoldable pub visible_revision : NodeHistory → (known_at : Timestamp) → Option MemoryNode
visible_revision history known_at = newest (known_revisions history known_at)

unfoldable pub visible_node :
    MemoryProjection → EntityId → (known_at : Timestamp) → Result (Option MemoryNode)
visible_node p id known_at = elim (get p.node_lookup id) [
  | none ↦ ok none
  | some index ↦ or_panic (get_elem? p.nodes index) >>= λ h. ok (visible_revision h known_at)
]

unfoldable pub fact : MemoryProjection → FactId → Result (Option MemoryFact)
fact p id = elim (get p.fact_lookup id) [
  | none ↦ ok none
  | some index ↦ or_panic (get_elem? p.facts index) >>= λ f. ok (some f)
]

pub superseded_by : MemoryProjection → FactId → Option FactId
superseded_by p id = elim (lookup id p.supersessions) [ none ↦ none | some c ↦ some c.replacement ]

-- `xs[start..end]`
abbrev pub slice : List ℕ → (start end : ℕ) → Result (List ℕ)
slice xs start end =
    if leb start end && leb end (length xs) then ok (take (end - start) (drop start xs)) else panic

abbrev pub delta_of : Option (List ℕ) → List ℕ
delta_of none = []
delta_of (some indices) = indices

unfoldable pub incident_fact_ids : MemoryProjection → EntityId → Result (List FactId)
incident_fact_ids p id = elim (get p.node_lookup id) [
  | none ↦ ok []
  | some index ↦ do
    start ← or_panic (get_elem? p.incident_offsets index)
    end ← or_panic (get_elem? p.incident_offsets (index + 1))
    stable ← slice p.incident_facts start end
    try_map (λ i. or_panic (get_elem? p.facts i) >>= λ f. ok f.id)
        (stable ++ delta_of (lookup index p.incident_delta))
]

-- `valid_until.is_some_and(|until| clock.valid_at >= until)`
abbrev pub has_ended : Option Timestamp → (valid_at : Timestamp) → Bool
has_ended none valid_at = false
has_ended (some until) valid_at = at_or_before until valid_at

abbrev pub is_superseded : Option Supersession → ProjectionClock → Bool
is_superseded none clock = false
is_superseded (some change) clock =
    at_or_before change.recorded_at clock.known_at && at_or_before change.valid_from clock.valid_at

abbrev pub is_retracted : Option Retraction → ProjectionClock → Bool
is_retracted none clock = false
is_retracted (some change) clock =
    at_or_before change.recorded_at clock.known_at && at_or_before change.valid_until clock.valid_at

unfoldable pub fact_is_active : MemoryProjection → MemoryFact → ProjectionClock → Bool
fact_is_active p f clock =
    if before clock.known_at f.recorded_at || before clock.valid_at f.valid_from
    then false
    else if has_ended f.valid_until clock.valid_at
    then false
    else if is_superseded (lookup f.id p.supersessions) clock
    then false
    else not (is_retracted (lookup f.id p.retractions) clock)

abbrev pub visible_nodes : List NodeHistory → (known_at : Timestamp) → List MemoryNode
visible_nodes [] known_at = []
visible_nodes (h ∷ hs) known_at = elim (visible_revision h known_at) [
  | none ↦ visible_nodes hs known_at
  | some node ↦ node ∷ visible_nodes hs known_at
]

abbrev pub is_among : EntityId → List MemoryNode → Bool
is_among id nodes = any (λ node. node.id == id) nodes

-- `visible_ids.as_ref().is_none_or(…)`: the set is built only if some node is hidden
abbrev pub endpoints_visible : (some_hidden : Bool) → List MemoryNode → MemoryFact → Bool
endpoints_visible some_hidden nodes f =
    if some_hidden then is_among f.source nodes && is_among f.target nodes else true

-- `view_ref`, and `view`, which clones what it borrows
unfoldable pub view : MemoryProjection → ProjectionClock → MemoryView
view p clock =
    let nodes = visible_nodes p.nodes clock.known_at in
    let some_hidden = not (eqb (length nodes) (length p.nodes)) in
    record {
      nodes = nodes;
      facts =
          filter (λ f. endpoints_visible some_hidden nodes f && fact_is_active p f clock) p.facts;
    }
