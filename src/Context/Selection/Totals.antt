-- ===== src/Context/Selection/Totals.antt =====
-- context/compiler.rs, `compile`: the tokens of lists of nodes and facts, sorted or not.
use weavatrix_memory.Base.{
  ℕ, ◌+◌, ◌≡◌, refl, ap, ◌∙◌, arith, Bool, List, [], ◌∷◌, ◌++◌, length, All, Bool-cases, inl, inr,
}
use weavatrix_memory.Map.{text_key}
use weavatrix_memory.Domain.{MemoryNode, MemoryFact}
use weavatrix_memory.Context.{node_sum, fact_sum}
use weavatrix_memory.Context.Compiler.{TokenEstimator}
use weavatrix_memory.Context.Selection.{sort_by, insert_sorted}

module _ {A : Type 0} (precedes : A → A → Bool) where
  pub length-insert_sorted :
      (x : A) (xs : List A) → length (insert_sorted precedes x xs) ≡ 1 + length xs
  length-insert_sorted x [] = refl
  length-insert_sorted x (y ∷ xs) = ground (arith, length-insert_sorted x xs)

  pub length-sort_by : (xs : List A) → length (sort_by precedes xs) ≡ length xs
  length-sort_by [] = refl
  length-sort_by (x ∷ xs) =
      omega (arith, length-insert_sorted x (sort_by precedes xs), length-sort_by xs)

  All-insert_sorted {κ} :
      (P : A → Type κ) (x : A) (xs : List A) → P x → All P xs → All P (insert_sorted precedes x xs)
  All-insert_sorted P x [] h k = (h, tt)
  All-insert_sorted P x (y ∷ xs) h k = elim (Bool-cases (precedes y x)) [
    | inl q ↦ rw q (k.0, All-insert_sorted P x xs h k.1)
    | inr q ↦ rw q (h, k)
  ]

  pub All-sort_by {κ} : (P : A → Type κ) (xs : List A) → All P xs → All P (sort_by precedes xs)
  All-sort_by P [] h = tt
  All-sort_by P (x ∷ xs) h = All-insert_sorted P x (sort_by precedes xs) h.0 (All-sort_by P xs h.1)

module _ (estimator : TokenEstimator) where
  -- the tokens of a list of nodes and of a list of facts, with no bound
  unfoldable pub nodes_total : List MemoryNode → ℕ
  nodes_total [] = 0
  nodes_total (n ∷ ns) = node_sum estimator.estimate_text n + nodes_total ns

  unfoldable pub facts_total : List MemoryFact → ℕ
  facts_total [] = 0
  facts_total (f ∷ fs) = fact_sum estimator.estimate_text f + facts_total fs

  pub facts_total-snoc :
      (fs : List MemoryFact) (f : MemoryFact)
      → facts_total (fs ++ f ∷ []) ≡ facts_total fs + fact_sum estimator.estimate_text f
  unfolding facts_total
  facts_total-snoc [] f = omega arith
  facts_total-snoc (g ∷ fs) f = omega (arith, facts_total-snoc fs f)

  pub facts_total-insert_sorted :
      (precedes : MemoryFact → MemoryFact → Bool) (f : MemoryFact) (fs : List MemoryFact)
      → facts_total (insert_sorted precedes f fs)
        ≡ fact_sum estimator.estimate_text f + facts_total fs
  unfolding facts_total
  facts_total-insert_sorted precedes f [] = refl
  facts_total-insert_sorted precedes f (g ∷ fs) =
      ground (arith, facts_total-insert_sorted precedes f fs)

  pub facts_total-sort_by :
      (precedes : MemoryFact → MemoryFact → Bool) (fs : List MemoryFact)
      → facts_total (sort_by precedes fs) ≡ facts_total fs
  unfolding facts_total
  facts_total-sort_by precedes [] = refl
  facts_total-sort_by precedes (f ∷ fs) =
      facts_total-insert_sorted precedes f (sort_by precedes fs)
      ∙ ap (◌+◌ (fact_sum estimator.estimate_text f)) (facts_total-sort_by precedes fs)
