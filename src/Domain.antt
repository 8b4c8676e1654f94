-- ===== src/Domain.antt =====
-- domain/*.rs: confidence, evidence, facts, nodes, memory events and views, with their validation.
use weavatrix_memory.Base.{
  ℕ, String, Bool, false, Option, none, some, List, [], ◌∷◌, ◌++◌, ltb, ◌==◌, if◌then◌else◌, Result,
  ok, err, reject, try_for_each, ◌>>◌, invalid_value,
}
use weavatrix_memory.Map.{Map, insert, text_key}
use weavatrix_memory.Time.{Timestamp, before, at_or_before}
use weavatrix_memory.Text.{is_empty, validate_text, validate_optional_text}

-- The identifiers are texts; `Text.new_id` makes them.
abbrev pub EventId : Type 0
EventId = String

abbrev pub StreamId : Type 0
StreamId = String

abbrev pub EntityId : Type 0
EntityId = String

abbrev pub FactId : Type 0
FactId = String

abbrev pub AgentId : Type 0
AgentId = String

abbrev pub SessionId : Type 0
SessionId = String

-- Basis points, a `u16`.
pub record Confidence : Type 0 where
  pub basis_points : ℕ

abbrev pub certain : Confidence
certain = record { basis_points = 10_000 }

unfoldable pub from_basis_points : ℕ → Result Confidence
from_basis_points value =
    if ltb 10_000 value
    then err (invalid_value "confidence" "must be between 0 and 10,000 basis points")
    else ok (record { basis_points = value })

pub record Evidence : Type 0 where
  pub kind : String
  pub source : String
  pub locator : Option String
  pub digest : Option String

unfoldable pub validate_evidence : Evidence → Result (Unit {0})
validate_evidence e = do
  validate_text "evidence.kind" e.kind
  validate_text "evidence.source" e.source
  validate_optional_text "evidence.locator" e.locator
  validate_optional_text "evidence.digest" e.digest

unfoldable pub new_evidence : (kind source : String) → Result Evidence
new_evidence kind source = do
  let evidence : Evidence = record { kind = kind; source = source; locator = none; digest = none }
  validate_evidence evidence
  ok evidence

pub with_locator : Evidence → String → Evidence
with_locator e locator = record e { locator = some locator }

pub with_digest : Evidence → String → Evidence
with_digest e digest = record e { digest = some digest }

pub record MemoryFact : Type 0 where
  pub id : FactId
  pub source : EntityId
  pub relation : String
  pub target : EntityId
  pub valid_from : Timestamp
  pub valid_until : Option Timestamp
  pub observed_at : Timestamp
  pub recorded_at : Timestamp
  pub agent_id : AgentId
  pub session_id : SessionId
  pub confidence : Confidence
  pub evidence : List Evidence
  pub supersedes : Option FactId

-- `valid_until.is_some_and(|until| until <= valid_from)`
abbrev pub ends_too_early : Option Timestamp → Timestamp → Bool
ends_too_early none valid_from = false
ends_too_early (some until) valid_from = at_or_before until valid_from

abbrev pub no_evidence : List Evidence → Bool
no_evidence [] = Bool.true
no_evidence (e ∷ es) = false

unfoldable pub validate_fact : MemoryFact → Result (Unit {0})
validate_fact f = do
  validate_text "fact.relation" f.relation
  reject (before f.recorded_at f.observed_at)
      (invalid_value "fact.observed_at" "must not be later than recorded_at")
  reject (ends_too_early f.valid_until f.valid_from)
      (invalid_value "fact.valid_until" "must be later than valid_from")
  reject (no_evidence f.evidence)
      (invalid_value "fact.evidence" "at least one evidence item is required")
  try_for_each validate_evidence f.evidence

unfoldable pub new_fact :
    (id : FactId) (source : EntityId) (relation : String) (target : EntityId)
    (valid_from recorded_at : Timestamp) (agent_id : AgentId) (session_id : SessionId)
    (evidence : Evidence)
    → Result MemoryFact
new_fact id source relation target valid_from recorded_at agent_id session_id evidence = do
  let fact : MemoryFact = record {
    id = id;
    source = source;
    relation = relation;
    target = target;
    valid_from = valid_from;
    valid_until = none;
    observed_at = recorded_at;
    recorded_at = recorded_at;
    agent_id = agent_id;
    session_id = session_id;
    confidence = certain;
    evidence = evidence ∷ [];
    supersedes = none;
  }
  validate_fact fact
  ok fact

unfoldable pub set_valid_until : MemoryFact → Timestamp → Result MemoryFact
set_valid_until f value = do
  let fact = record f { valid_until = some value }
  validate_fact fact
  ok fact

unfoldable pub set_supersedes : MemoryFact → FactId → Result MemoryFact
set_supersedes f fact =
    if fact == f.id
    then err (invalid_value "fact.supersedes" "a fact cannot supersede itself")
    else ok (record f { supersedes = some fact })

pub with_evidence : MemoryFact → Evidence → MemoryFact
with_evidence f e = record f { evidence = f.evidence ++ e ∷ [] }

pub with_observed_at : MemoryFact → Timestamp → MemoryFact
with_observed_at f value = record f { observed_at = value }

pub with_confidence : MemoryFact → Confidence → MemoryFact
with_confidence f value = record f { confidence = value }

pub record MemoryNode : Type 0 where
  pub id : EntityId
  pub kind : String
  pub label : String
  pub repository : Option String
  pub branch : Option String
  pub attributes : Map String String

unfoldable pub validate_node : MemoryNode → Result (Unit {0})
validate_node n = do
  validate_text "node.kind" n.kind
  reject (is_empty n.label) (invalid_value "node.label" "must be non-empty")
  validate_optional_text "node.repository" n.repository
  validate_optional_text "node.branch" n.branch
  try_for_each (λ entry. validate_text "node.attribute.key" entry.0) n.attributes

unfoldable pub new_node : (id : EntityId) (kind label : String) → Result MemoryNode
new_node id kind label = do
  let node : MemoryNode = record {
    id = id;
    kind = kind;
    label = label;
    repository = none;
    branch = none;
    attributes = [];
  }
  validate_node node
  ok node

pub in_repository : MemoryNode → String → MemoryNode
in_repository n repository = record n { repository = some repository }

pub on_branch : MemoryNode → String → MemoryNode
on_branch n branch = record n { branch = some branch }

pub with_attribute : MemoryNode → (key value : String) → MemoryNode
with_attribute n key value = record n { attributes = insert key value n.attributes }

pub data MemoryEvent : Type 0 where
  node_upserted : (node : MemoryNode) → MemoryEvent
  fact_recorded : (fact : MemoryFact) → MemoryEvent
  fact_retracted :
      (fact_id : FactId) (valid_until : Timestamp) (evidence : List Evidence) → MemoryEvent

abbrev pub event_type_of : MemoryEvent → String
event_type_of (node_upserted node) = "node_upserted"
event_type_of (fact_recorded fact) = "fact_recorded"
event_type_of (fact_retracted fact_id valid_until evidence) = "fact_retracted"

-- The borrowed `MemoryViewRef` and the owned `MemoryView` hold the same values.
pub record MemoryView : Type 0 where
  pub nodes : List MemoryNode
  pub facts : List MemoryFact
