-- ===== src/Index/Listing.antt =====
-- projection/memory/index.rs: what it means that an index lists identifiers.
use weavatrix_memory.Base.{
  ℕ, String, ◌≡◌, refl, ap, subst, ◌∙◌, false, none, some, List, [], ◌∷◌, ◌++◌, arith, ==-cases,
  inl, inr, length, get_elem?, get_elem?-last, get_elem?-append_left,
}
use weavatrix_memory.Map.{contains, contains-append, text_key}
use weavatrix_memory.Index.{IdIndex, empty_index, get, insert_id}
use weavatrix_memory.Index.Refinement.{get-insert_id, get-empty}

pub record Lists (ix : IdIndex) (ids : List String) : Type 0 where
  pub points : (id : String) (i : ℕ) → get ix id ≡ some i → get_elem? ids i ≡ some id
  pub complete : (id : String) → get ix id ≡ none → contains id ids ≡ false

pub Lists-empty : (seed : ℕ) → Lists (empty_index seed) []
unfolding contains
Lists-empty seed = record {
  points = λ id i h. ground (arith, h, get-empty seed id);
  complete = λ id h. refl;
}

-- A new identifier at the end of the list.
pub Lists-insert_id :
    (ix : IdIndex) (ids : List String) (id : String)
    → Lists ix ids
    → Lists (insert_id ix id (length ids)).1 (ids ++ id ∷ [])
unfolding contains
Lists-insert_id ix ids id l = record {
  points = λ j i h. elim (==-cases id j) [
    | inl (p, t) ↦
        let e : some (length ids) ≡ some i =
          ground (arith, h, get-insert_id ix id j (length ids), t) in
        let n : length ids ≡ i = ground (arith, e) in
        subst (λ k. get_elem? (ids ++ id ∷ []) k ≡ some j) n (get_elem?-last ids id ∙ ap some p)
    | inr (p, f) ↦
        get_elem?-append_left ids (id ∷ []) i
          (l.points j i (ground (arith, h, get-insert_id ix id j (length ids), f)))
  ];
  complete = λ j h.
      let g = get-insert_id ix id j (length ids) in
      ground (arith, g, h, contains-append j ids (id ∷ []), l.complete j);
}
