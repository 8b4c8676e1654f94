-- ===== src/Context.antt =====
-- context: requests, their scope, and the estimate of tokens that a budget is held against.
pub mod Budget
pub mod Compiler
pub mod Selection
pub mod Fuel
pub mod Total
use weavatrix_memory.Base.{
  ℕ, zero, suc, ◌+◌, ◌*◌, ◌/◌, ◌%◌, ◌^◌, max, String, Bool, ◌||◌, ◌&&◌, Option, none, some, List,
  [], ◌∷◌, eqb, if◌then◌else◌, length, Result, ok, err, reject, ◌>>=◌, ◌>>◌, invalid_value,
}
use weavatrix_memory.Map.{contains, set_insert, text_key}
use weavatrix_memory.Time.{Timestamp}
use weavatrix_memory.Domain.{EntityId, Evidence, MemoryFact, MemoryNode}
use weavatrix_memory.Index.{as_bytes}

-- The sets are their elements; only membership and emptiness are asked.
pub record ContextRequest : Type 0 where
  pub seeds : List EntityId
  pub valid_at : Timestamp
  pub known_at : Timestamp
  pub token_budget : ℕ
  pub max_depth : ℕ
  pub relations : List String
  pub repositories : List String
  pub branches : List String

abbrev pub no_elements : List String → Bool
no_elements [] = Bool.true
no_elements (x ∷ xs) = Bool.false

abbrev pub request_with :
    List EntityId → (valid_at known_at : Timestamp) → (token_budget : ℕ) → ContextRequest
request_with seeds valid_at known_at token_budget = record {
  seeds = seeds;
  valid_at = valid_at;
  known_at = known_at;
  token_budget = token_budget;
  max_depth = 2;
  relations = [];
  repositories = [];
  branches = [];
}

pub new_request :
    List EntityId → (valid_at known_at : Timestamp) → (token_budget : ℕ) → Result ContextRequest
new_request seeds valid_at known_at token_budget = do
  reject (no_elements seeds) (invalid_value "context.seeds" "at least one seed is required")
  reject (eqb token_budget 0) (invalid_value "context.token_budget" "must be greater than zero")
  ok (request_with seeds valid_at known_at token_budget)

pub for_retrieval : (valid_at known_at : Timestamp) → (token_budget : ℕ) → Result ContextRequest
for_retrieval valid_at known_at token_budget = do
  reject (eqb token_budget 0) (invalid_value "context.token_budget" "must be greater than zero")
  ok (request_with [] valid_at known_at token_budget)

pub with_max_depth : ContextRequest → ℕ → ContextRequest
with_max_depth r max_depth = record r { max_depth = max_depth }

pub include_relation : ContextRequest → String → ContextRequest
include_relation r relation = record r { relations = set_insert relation r.relations }

pub request_in_repository : ContextRequest → String → ContextRequest
request_in_repository r repository = record r {
  repositories = set_insert repository r.repositories;
}

pub request_on_branch : ContextRequest → String → ContextRequest
request_on_branch r branch = record r { branches = set_insert branch r.branches }

-- `set.is_empty() || value.as_ref().is_some_and(|value| set.contains(value))`
abbrev pub is_within : List String → Option String → Bool
is_within set none = no_elements set
is_within set (some value) = no_elements set || contains value set

unfoldable pub node_allowed : ContextRequest → MemoryNode → Bool
node_allowed r n = is_within r.repositories n.repository && is_within r.branches n.branch

unfoldable pub relation_allowed : ContextRequest → String → Bool
relation_allowed r relation = is_within r.relations (some relation)

pub record BytesTokenEstimator : Type 0 where
  pub bytes_per_token : ℕ

unfoldable pub new_estimator : (bytes_per_token : ℕ) → Result BytesTokenEstimator
new_estimator bytes_per_token =
    if eqb bytes_per_token 0
    then err (invalid_value "bytes_per_token" "must be greater than zero")
    else ok (record { bytes_per_token = bytes_per_token })

abbrev pub default_estimator : BytesTokenEstimator
default_estimator = record { bytes_per_token = 4 }

abbrev pub div_ceil : ℕ → ℕ → ℕ
div_ceil a b = if eqb (a % b) 0 then a / b else a / b + 1

-- `value.len()` counts bytes.
pub estimate : BytesTokenEstimator → String → ℕ
estimate e value = max (div_ceil (length (as_bytes value)) e.bytes_per_token) 1

-- A sum of `usize` wraps, as in a release build. Sums modulo 2 ^ 64 are reduced once.
abbrev pub wrap : ℕ → ℕ
wrap n = n % 2 ^ 64

-- A token estimator is a parameter of what follows.
module _ (estimate_text : String → ℕ) where
  abbrev pub optional_tokens : Option String → ℕ
  optional_tokens none = 0
  optional_tokens (some value) = estimate_text value

  abbrev pub attribute_tokens : List (String × String) → ℕ
  attribute_tokens [] = 0
  attribute_tokens ((key, value) ∷ attributes) =
      estimate_text key + estimate_text value + attribute_tokens attributes

  -- the summands of `node_tokens` and of `fact_tokens`, with no bound
  unfoldable pub node_sum : MemoryNode → ℕ
  node_sum n =
      estimate_text n.id
      + estimate_text n.kind
      + estimate_text n.label
      + (optional_tokens n.repository + optional_tokens n.branch)
      + attribute_tokens n.attributes
      + 6

  unfoldable pub node_tokens : MemoryNode → ℕ
  node_tokens n = wrap (node_sum n)

  abbrev pub evidence_tokens : List Evidence → ℕ
  evidence_tokens [] = 0
  evidence_tokens (e ∷ es) =
      estimate_text e.kind
      + estimate_text e.source
      + (optional_tokens e.locator + optional_tokens e.digest)
      + evidence_tokens es

  unfoldable pub fact_sum : MemoryFact → ℕ
  fact_sum f =
      estimate_text f.id
      + estimate_text f.source
      + estimate_text f.relation
      + estimate_text f.target
      + evidence_tokens f.evidence
      + 16

  unfoldable pub fact_tokens : MemoryFact → ℕ
  fact_tokens f = wrap (fact_sum f)
