-- ===== src/Map.antt =====
-- The standard library's ordered and hashed maps and sets, as far as the crate uses them. A map is
-- its entries in the order of the keys, which is the order in which a `BTreeMap` is iterated; the
-- crate never depends on the order of a `HashMap`.
use Prim.Native.String.{compare}
use text.Mathlib.Text.{is_lt}
use text.Mathlib.TextEquality.{eq_iff as text_eq_iff}
use weavatrix_memory.Base.{
  ℕ, String, ◌≡◌, refl, ap, ◌≢◌, ◌↔◌, ◌⊎◌, inl, inr, Bool, true, false, ◌||◌, Option, none, some,
  List, [], ◌∷◌, ◌++◌, arith, ltb, eqb, ◌==◌, if◌then◌else◌, Bool-cases,
}

-- A key type: a test of equality and one of order.
pub record Key (K : Type 0) : Type 0 where
  pub eq : K → K → Bool
  pub eq_iff : (a b : K) → (eq a b ≡ true) ↔ (a ≡ b)
  pub lt : K → K → Bool

pub eqb_iff : (a b : ℕ) → (eqb a b ≡ true) ↔ (a ≡ b)
eqb_iff a b = ground arith

instance abbrev pub nat_key : Key ℕ
nat_key = record { eq = eqb; eq_iff = eqb_iff; lt = ltb }

instance abbrev pub text_key : Key String
text_key = record { eq = ◌==◌; eq_iff = text_eq_iff; lt = λ a b. is_lt (compare a b) }

abbrev pub Map : Type 0 → Type 0 → Type 0
Map K V = List (K × V)

module _ {K : Type 0} ⦃key : Key K⦄ where
  pub eq_self : (a : K) → key.eq a a ≡ true
  eq_self a = (key.eq_iff a a).1 refl

  pub eq-cases : (a b : K) → ((a ≡ b) × (key.eq a b ≡ true)) ⊎ ((a ≢ b) × (key.eq a b ≡ false))
  eq-cases a b = elim (Bool-cases (key.eq a b)) [
    | inl h ↦ inl ((key.eq_iff a b).0 h, h)
    | inr h ↦ inr (λ p. ground (arith, (key.eq_iff a b).1 p), h)
  ]

module _ {K V : Type 0} ⦃key : Key K⦄ where
  -- `get`
  unfoldable pub lookup : K → Map K V → Option V
  lookup k [] = none
  lookup k ((j, v) ∷ m) = if key.eq j k then some v else lookup k m

  -- `insert`, at the key's place in the order
  unfoldable pub insert : K → V → Map K V → Map K V
  insert k v [] = (k, v) ∷ []
  insert k v ((j, w) ∷ m) =
      if key.eq j k
      then (k, v) ∷ m
      else if key.lt k j
      then (k, v) ∷ (j, w) ∷ m
      else (j, w) ∷ insert k v m

  -- `contains_key`
  unfoldable pub contains_key : K → Map K V → Bool
  contains_key k m = elim (lookup k m) [ none ↦ false | some _ ↦ true ]

  pub lookup-insert :
      (written read : K) (value : V) (entries : Map K V)
      → lookup read (insert written value entries)
        ≡ (if key.eq written read then some value else lookup read entries)
  unfolding lookup insert
  lookup-insert written read value [] = refl
  lookup-insert written read value ((other, old) ∷ entries) = ground (
    arith,
    key.eq_iff written read,
    key.eq_iff other written,
    key.eq_iff other read,
    lookup-insert written read value entries,
  )

  pub lookup-insert_self : (k : K) (v : V) (m : Map K V) → lookup k (insert k v m) ≡ some v
  lookup-insert_self k v m = ground (arith, lookup-insert k k v m, key.eq_iff k k)

  pub lookup-insert_ne :
      (k j : K) (v : V) (m : Map K V) → k ≢ j → lookup j (insert k v m) ≡ lookup j m
  lookup-insert_ne k j v m h = ground (arith, lookup-insert k j v m, key.eq_iff k j)

-- A `HashSet`: its elements in the order of insertion.
module _ {K : Type 0} ⦃key : Key K⦄ where
  unfoldable pub contains : K → List K → Bool
  contains k [] = false
  contains k (x ∷ xs) = key.eq x k || contains k xs

  pub contains-append :
      (k : K) (xs ys : List K) → contains k (xs ++ ys) ≡ (contains k xs || contains k ys)
  unfolding contains
  contains-append k [] ys = refl
  contains-append k (x ∷ xs) ys = ground (arith, contains-append k xs ys)

  -- `insert`, which reports that the element is new
  unfoldable pub set_insert : K → List K → List K
  set_insert k xs = if contains k xs then xs else k ∷ xs

  pub contains-set_insert :
      (k j : K) (xs : List K) → contains j (set_insert k xs) ≡ (key.eq k j || contains j xs)
  unfolding set_insert contains
  contains-set_insert k j xs = ground (arith, key.eq_iff k j, contains_of_eq k j xs)
    where
      contains_of_eq : (a b : K) (ys : List K) → a ≡ b → contains a ys ≡ contains b ys
      contains_of_eq a b ys p = ap (λ c. contains c ys) p
