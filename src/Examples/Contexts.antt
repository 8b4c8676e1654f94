-- ===== src/Examples/Contexts.antt =====
-- The context compiler at concrete inputs: two nodes, a fact between them, one of them a seed.
use weavatrix_memory.Base.{
  ◌*◌, ◌<◌, ok-ne-panic, err, panic, map, ◌≢◌, panic, ℕ, ◌+◌, ◌≤◌, ◌≡◌, refl, arith, some, [], ◌∷◌,
  length, Result, ok,
}
use weavatrix_memory.Time.{ℤ}
use weavatrix_memory.Map.{contains_key, lookup, insert}
use weavatrix_memory.Text.{
  is_whitespace, trim_start, put_front, trim_end, trim, is_empty, is_padded, validate_text,
  validate_optional_text,
}
use weavatrix_memory.Domain.{MemoryView, validate_node, validate_fact, validate_evidence}
use weavatrix_memory.Index.{
  char_bytes, as_bytes, from_le_bytes, chunks, mix_chunk, mix_chunks, fingerprint, hash, find_slot,
  get_hashed, get, insert_hashed, insert_id, contains_id,
}
use weavatrix_memory.Projection.Query.{
  visible_revision, fact_is_active, fact, visible_node, latest, incident_fact_ids,
}
use weavatrix_memory.Projection.Update.{
  insert_node, insert_fact, require_entity, apply_supersession, apply_retraction,
}
use weavatrix_memory.Projection.Apply.{apply, apply_payload}
use weavatrix_memory.Context.{
  ContextRequest, node_allowed, relation_allowed, node_sum, fact_sum, node_tokens, fact_tokens,
}
use weavatrix_memory.Context.Compiler.{
  Search, new_search, ContextBundle, TokenEstimator, sorted_ids, scoped_node, start_search,
  visit_fact, visit_facts, visit_node, search_loop, neighborhood,
}
use weavatrix_memory.Context.Selection.{
  candidate_precedes, candidate, missing_nodes, insert_all, node_cost, select_fact, select_facts,
  seed_loop, select_seeds, select, view_of, compile,
}
use weavatrix_memory.Context.Selection.Totals.{nodes_total, facts_total}
use weavatrix_memory.Context.Selection.Costs.{set_total, fact_cost, FitsWord}
use weavatrix_memory.Context.Selection.Safe.{compile-ne-panic}
use weavatrix_memory.Context.Selection.Bounds.{compile-IsWithin}
use weavatrix_memory.Context.Total.{neighborhood-ne-panic}
use weavatrix_memory.Examples.{node_of}
use weavatrix_memory.Examples.Projections.{
  with_fact, with_fact-IsWellFormed, with_fact-IsIndexed, the_fact,
}

abbrev request : ContextRequest
request = record {
  seeds = "api" ∷ [];
  valid_at = ℤ.pos 15;
  known_at = ℤ.pos 25;
  token_budget = 100;
  max_depth = 2;
  relations = [];
  repositories = [];
  branches = [];
}

abbrev ones : TokenEstimator
ones = record { name = "ones"; estimate_text = λ text. 1 }

abbrev count_graph : MemoryView → Result ℕ
count_graph v = ok (length v.nodes + length v.facts)

abbrev bundle : ContextBundle ℕ
bundle = record {
  view = record { nodes = node_of "api" ∷ node_of "db" ∷ []; facts = the_fact ∷ [] };
  graph = 3;
  receipt = record {
    valid_at = ℤ.pos 15;
    known_at = ℤ.pos 25;
    source_position = some 2;
    estimator = "ones";
    token_budget = 100;
    estimated_tokens = 40;
    examined_facts = 1;
    selected_facts = 1;
    omitted_by_budget = 0;
    excluded_by_scope = 0;
  };
}

bundle_compiled : compile ones count_graph with_fact request 4 ≡ ok bundle
unfolding node_sum fact_sum compile select view_of select_seeds seed_loop select_facts select_fact
    node_cost insert_all missing_nodes candidate candidate_precedes neighborhood search_loop
    visit_node visit_facts visit_fact start_search scoped_node sorted_ids node_allowed
    relation_allowed node_tokens fact_tokens incident_fact_ids visible_node fact fact_is_active
    visible_revision apply apply_payload insert_node insert_fact require_entity apply_supersession
    apply_retraction contains_id contains_key validate_node validate_fact validate_evidence
    validate_text validate_optional_text is_padded is_empty trim trim_start trim_end put_front
    is_whitespace get hash fingerprint as_bytes char_bytes chunks from_le_bytes mix_chunk mix_chunks
    get_hashed find_slot lookup insert insert_id insert_hashed latest
bundle_compiled = refl

abbrev search_of : Result Search → Search
search_of (ok s) = s
search_of (err e) = new_search
search_of panic = new_search

abbrev found : Search
found = search_of (neighborhood with_fact request 4)

search_ends : neighborhood with_fact request 4 ≡ ok found
unfolding node_sum fact_sum compile select view_of select_seeds seed_loop select_facts select_fact
    node_cost insert_all missing_nodes candidate candidate_precedes neighborhood search_loop
    visit_node visit_facts visit_fact start_search scoped_node sorted_ids node_allowed
    relation_allowed node_tokens fact_tokens incident_fact_ids visible_node fact fact_is_active
    visible_revision apply apply_payload insert_node insert_fact require_entity apply_supersession
    apply_retraction contains_id contains_key validate_node validate_fact validate_evidence
    validate_text validate_optional_text is_padded is_empty trim trim_start trim_end put_front
    is_whitespace get hash fingerprint as_bytes char_bytes chunks from_le_bytes mix_chunk mix_chunks
    get_hashed find_slot lookup insert insert_id insert_hashed latest
search_ends = refl

found-FitsWord : FitsWord ones found.nodes request (map (λ (id, f). f) found.facts)
unfolding set_total fact_cost node_sum fact_sum compile select view_of select_seeds seed_loop
    select_facts select_fact node_cost insert_all missing_nodes candidate candidate_precedes
    neighborhood search_loop visit_node visit_facts visit_fact start_search scoped_node sorted_ids
    node_allowed relation_allowed node_tokens fact_tokens incident_fact_ids visible_node fact
    fact_is_active visible_revision apply apply_payload insert_node insert_fact require_entity
    apply_supersession apply_retraction contains_id contains_key validate_node validate_fact
    validate_evidence validate_text validate_optional_text is_padded is_empty trim trim_start
    trim_end put_front is_whitespace get hash fingerprint as_bytes char_bytes chunks from_le_bytes
    mix_chunk mix_chunks get_hashed find_slot lookup insert insert_id insert_hashed latest
found-FitsWord = record { seeds = omega arith; facts = omega arith }

compile-IsWithin_example :
    (nodes_total ones bundle.view.nodes + facts_total ones bundle.view.facts ≤ 40)
    × (40 ≤ 100)
    × (1 ≡ length bundle.view.facts)
    × (1 + 0 ≡ 1)
compile-IsWithin_example =
    compile-IsWithin ones count_graph with_fact request 4 found bundle (omega arith) search_ends
      found-FitsWord bundle_compiled

few_ends : length request.seeds + 2 * length with_fact.facts < 4
unfolding apply apply_payload insert_node insert_fact require_entity apply_supersession
    apply_retraction contains_id contains_key fact validate_node validate_fact validate_evidence
    validate_text validate_optional_text is_padded is_empty trim trim_start trim_end put_front
    is_whitespace get hash fingerprint as_bytes char_bytes chunks from_le_bytes mix_chunk mix_chunks
    get_hashed find_slot lookup insert insert_id insert_hashed
few_ends = omega arith

neighborhood-ne-panic_example : neighborhood with_fact request 4 ≢ panic
neighborhood-ne-panic_example =
    neighborhood-ne-panic with_fact request 4 with_fact-IsWellFormed with_fact-IsIndexed few_ends

compile-ne-panic_example : compile ones count_graph with_fact request 4 ≢ panic
compile-ne-panic_example =
    compile-ne-panic ones count_graph with_fact request 4 (λ v. ok-ne-panic _)
      with_fact-IsWellFormed with_fact-IsIndexed few_ends
