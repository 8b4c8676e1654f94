-- ===== src/Context/Selection/Bounds.antt =====
-- context/compiler.rs, `compile`: the token budget holds for what is selected.
use weavatrix_memory.Base.{
  ℕ, ◌+◌, ◌-◌, ◌^◌, ◌≤◌, ◌<◌, ◌≡◌, refl, sym, ap, subst, ◌∙◌, arith, Bool-cases, inl, inr, List, [],
  ◌∷◌, ◌++◌, map, ltb, length, length-append, length-map, Result, ok, reject, or_panic, try_map,
  All, >>=-eq-ok, ok_injective, ok_pair, budget_too_small, invalid_value,
}
use weavatrix_memory.Map.{Map, lookup, text_key}
use weavatrix_memory.Domain.{EntityId, MemoryNode, MemoryFact, MemoryView}
use weavatrix_memory.Context.{ContextRequest, wrap, fact_sum, fact_tokens, no_elements}
use weavatrix_memory.Context.Compiler.{
  TokenEstimator, sorted_ids, Search, neighborhood, ContextBundle,
}
use weavatrix_memory.Projection.State.{MemoryProjection}
use weavatrix_memory.Context.Selection.Totals.{
  nodes_total, facts_total, length-sort_by, facts_total-snoc, facts_total-sort_by, All-sort_by,
}
use weavatrix_memory.Context.Selection.Costs.{
  set_total, ids_total, fact_cost, FitsWord, set_total-insert_all, missing_nodes-ids_total,
  node_cost-exact, seed_loop-set_total, length-try_map, try_map-fact_cost, nodes_total-try_map,
}
use weavatrix_memory.Context.Selection.{
  Candidate, candidate, candidate_precedes, Selection, saturating_add, missing_nodes, insert_all,
  node_cost, select_fact, select_facts, seed_loop, select_seeds, select, view_of, sort_by,
  id_precedes, compile,
}

module _ (estimator : TokenEstimator) where
  module _ (nodes : Map EntityId MemoryNode) where
    -- What is selected fits into the tokens counted, and these into the budget.
    record IsWithin (token_budget : ℕ) (s : Selection) : Type 0 where
      pub counted :
          set_total estimator nodes s.selected_nodes + facts_total estimator s.facts ≤ s.used
      pub limited : s.used ≤ token_budget

    select_fact-IsWithin :
        (token_budget : ℕ) (s s' : Selection) (f : MemoryFact)
        → token_budget < 2 ^ 64 - 1
        → fact_cost estimator nodes f < 2 ^ 64
        → IsWithin token_budget s
        → select_fact estimator nodes token_budget s f ≡ ok s'
        → IsWithin token_budget s' × (length s'.facts + s'.omitted ≡ length s.facts + s.omitted + 1)
    unfolding select_fact fact_tokens
    select_fact-IsWithin token_budget s s' f small fits k h =
        let missing = missing_nodes s.selected_nodes f in
        let (cost, costs, h₁) = >>=-eq-ok (node_cost estimator nodes missing) _ h in
        let total = wrap (fact_tokens estimator.estimate_text f + cost) in
        let below = missing_nodes-ids_total estimator nodes s.selected_nodes f in
        let exact_cost =
          node_cost-exact estimator nodes missing cost (omega (arith, below, fits)) costs in
        let exact : total ≡ fact_sum estimator.estimate_text f + ids_total estimator nodes missing =
          omega (arith, exact_cost, below, fits) in
        elim (Bool-cases (ltb token_budget (saturating_add s.used total))) [
          | inl q ↦
              let left_out : Selection = record s { omitted = s.omitted + 1 } in
              let p : left_out ≡ s' = ok_injective (rw q at h₁) in
              subst
                (λ t.
                  IsWithin token_budget t
                  × (length t.facts + t.omitted ≡ length s.facts + s.omitted + 1))
                p (record { counted = k.counted; limited = k.limited }, omega arith)
          | inr q ↦
              let taken : Selection = record s {
                used = wrap (s.used + total);
                selected_nodes = insert_all missing s.selected_nodes;
                facts = s.facts ++ f ∷ [];
              } in
              let p : taken ≡ s' = ok_injective (rw q at h₁) in
              let within : s.used + total ≤ token_budget = ground (arith, q, small) in
              let sum : wrap (s.used + total) ≡ s.used + total = omega (arith, within, small) in
              subst
                (λ t.
                  IsWithin token_budget t
                  × (length t.facts + t.omitted ≡ length s.facts + s.omitted + 1))
                p
                (
                  record {
                    counted = omega (
                      arith,
                      k.counted,
                      sum,
                      exact,
                      set_total-insert_all estimator nodes missing s.selected_nodes,
                      facts_total-snoc estimator s.facts f,
                    );
                    limited = omega (arith, sum, within);
                  },
                  omega (arith, length-append s.facts (f ∷ [])),
                )
        ]

    select_facts-IsWithin :
        (token_budget : ℕ) (candidates : List Candidate) (s s' : Selection)
        → token_budget < 2 ^ 64 - 1
        → All (λ (d, f). fact_cost estimator nodes f < 2 ^ 64) candidates
        → IsWithin token_budget s
        → select_facts estimator nodes token_budget candidates s ≡ ok s'
        → IsWithin token_budget s'
          × (length s'.facts + s'.omitted ≡ length s.facts + s.omitted + length candidates)
    unfolding select_facts
    select_facts-IsWithin token_budget [] s s' small fits k h =
        subst
          (λ t.
            IsWithin token_budget t × (length t.facts + t.omitted ≡ length s.facts + s.omitted + 0))
          (ok_injective h) (k, omega arith)
    select_facts-IsWithin token_budget ((d, f) ∷ candidates) s s' small fits k h =
        let (s₁, first, h₁) =
          >>=-eq-ok (select_fact estimator nodes token_budget s f)
            (λ t. select_facts estimator nodes token_budget candidates t) h in
        let (k₁, n₁) = select_fact-IsWithin token_budget s s₁ f small fits.0 k first in
        let (k', n') = select_facts-IsWithin token_budget candidates s₁ s' small fits.1 k₁ h₁ in
        (k', omega (arith, n₁, n'))

    select-IsWithin :
        (request : ContextRequest) (distances : Map EntityId ℕ) (fs : List MemoryFact)
        (s : Selection)
        → request.token_budget < 2 ^ 64 - 1
        → FitsWord estimator nodes request fs
        → select estimator nodes request distances fs ≡ ok s
        → IsWithin request.token_budget s × (length s.facts + s.omitted ≡ length fs)
    unfolding select select_seeds set_total facts_total
    select-IsWithin request distances fs s small word h =
        let ((selected, used), seeds, h₁) = >>=-eq-ok (select_seeds estimator nodes request) _ h in
        let (cs, ranked, h₂) = >>=-eq-ok (try_map (candidate distances) fs) _ h₁ in
        let ((selected', used'), looped, h₃) =
          >>=-eq-ok (seed_loop estimator nodes (sorted_ids request.seeds) [] 0) _ seeds in
        let (u, fits, h₄) =
          >>=-eq-ok
            (reject (ltb request.token_budget used') (budget_too_small used' request.token_budget))
            (λ u. ok (selected', used')) h₃ in
        let (p, q) = ok_pair h₄ in
        let total =
          seed_loop-set_total estimator nodes (sorted_ids request.seeds) [] selected' 0 used'
            (omega arith) (omega (arith, word.seeds)) looped in
        let start : Selection = record {
          selected_nodes = selected;
          used = used;
          facts = [];
          omitted = 0;
        } in
        let limit : used' ≤ request.token_budget = ground (arith, fits) in
        let (k, n) =
          select_facts-IsWithin request.token_budget (sort_by candidate_precedes cs) start s small
            (All-sort_by candidate_precedes (λ (d, f). fact_cost estimator nodes f < 2 ^ 64) cs
              (try_map-fact_cost estimator nodes distances fs cs word.facts ranked))
            (record {
              counted = omega (arith, ap (set_total estimator nodes) p, q, total);
              limited = omega (arith, q, limit);
            })
            h₂ in
        (
          k,
          omega (
            arith,
            n,
            length-sort_by candidate_precedes cs,
            length-try_map estimator nodes distances fs cs ranked,
          ),
        )

    -- The view has the nodes and the facts of the selection.
    view_of-total :
        (s : Selection) (view : MemoryView)
        → view_of estimator nodes s ≡ ok view
        → (nodes_total estimator view.nodes ≡ set_total estimator nodes s.selected_nodes)
          × (facts_total estimator view.facts ≡ facts_total estimator s.facts)
          × (length view.facts ≡ length s.facts)
    unfolding view_of
    view_of-total s view h =
        let (ns, found, h₁) =
          >>=-eq-ok (try_map (λ (id, u). or_panic (lookup id nodes)) s.selected_nodes) _ h in
        let p = ok_injective h₁ in
        let order = λ (f : MemoryFact) (g : MemoryFact). id_precedes f.id g.id in
        (
          ap (λ v. nodes_total estimator v.nodes) (sym p)
              ∙ nodes_total-try_map estimator nodes s.selected_nodes ns found,
          ap (λ v. facts_total estimator v.facts) (sym p)
              ∙ facts_total-sort_by estimator order s.facts,
          ap (λ v. length v.facts) (sym p) ∙ length-sort_by order s.facts,
        )

  -- Let the token budget be below 2 ^ 64 - 1, and let the tokens of the seeds, and those of each
  -- fact that the search found with its two ends, come below 2 ^ 64, where sums of `usize` wrap.
  -- If `compile` returns a bundle, the tokens of the nodes and facts of its view, added with no
  -- bound, come to the receipt's estimate at most, the estimate is within the budget, the receipt
  -- counts the facts of the view, and the facts selected and those omitted by the budget are the
  -- facts examined.
  pub compile-IsWithin :
      {Graph : Type 0} (project_graph : MemoryView → Result Graph) (p : MemoryProjection)
      (request : ContextRequest) (fuel : ℕ) (found : Search) (bundle : ContextBundle Graph)
      → request.token_budget < 2 ^ 64 - 1
      → neighborhood p request fuel ≡ ok found
      → FitsWord estimator found.nodes request (map (λ (id, f). f) found.facts)
      → compile estimator project_graph p request fuel ≡ ok bundle
      → (nodes_total estimator bundle.view.nodes + facts_total estimator bundle.view.facts
          ≤ bundle.receipt.estimated_tokens)
        × (bundle.receipt.estimated_tokens ≤ request.token_budget)
        × (bundle.receipt.selected_facts ≡ length bundle.view.facts)
        × (bundle.receipt.selected_facts + bundle.receipt.omitted_by_budget
            ≡ bundle.receipt.examined_facts)
  unfolding compile
  compile-IsWithin {Graph} project_graph p request fuel found bundle small search fits h =
      let (u, seeded, h₁) =
        >>=-eq-ok
          (reject (no_elements request.seeds)
            (invalid_value "context.seeds" "at least one seed is required"))
          _ h in
      let (found', searched, h₂) = >>=-eq-ok (neighborhood p request fuel) _ h₁ in
      let same : found ≡ found' = ok_injective (sym search ∙ searched) in
      let fits' =
        subst (λ t. FitsWord estimator t.nodes request (map (λ (id, f). f) t.facts)) same fits in
      let candidate_facts : List MemoryFact = map (λ (id, f). f) found'.facts in
      let (s, selected, h₃) =
        >>=-eq-ok (select estimator found'.nodes request found'.distances candidate_facts) _ h₂ in
      let (view, viewed, h₄) = >>=-eq-ok (view_of estimator found'.nodes s) _ h₃ in
      let (graph, projected, h₅) = >>=-eq-ok (project_graph view) _ h₄ in
      let q = ok_injective h₅ in
      let (k, n) =
        select-IsWithin found'.nodes request found'.distances candidate_facts s small fits'
          selected in
      let (nodes_eq, facts_eq, count) = view_of-total found'.nodes s view viewed in
      let sizes : length candidate_facts ≡ length found'.facts =
        length-map (λ (id, f). f) found'.facts in
      subst
        (λ (b : ContextBundle Graph).
          (nodes_total estimator b.view.nodes + facts_total estimator b.view.facts
            ≤ b.receipt.estimated_tokens)
          × (b.receipt.estimated_tokens ≤ request.token_budget)
          × (b.receipt.selected_facts ≡ length b.view.facts)
          × (b.receipt.selected_facts + b.receipt.omitted_by_budget ≡ b.receipt.examined_facts))
        q
        (
          omega (arith, k.counted, nodes_eq, facts_eq),
          k.limited,
          refl,
          omega (arith, n, count, sizes),
        )
