-- ===== src/Index/Refinement.antt =====
-- projection/memory/index.rs: the hashed index seen as a map from identifiers to positions.
use text.Mathlib.TextEquality.{eq_iff}
use weavatrix_memory.Base.{
  ℕ, String, ◌≡◌, refl, ap, ◌≢◌, Option, none, some, List, [], ◌∷◌, ◌++◌, arith, ◌==◌,
  if◌then◌else◌, inl, inr,
}
use weavatrix_memory.Map.{lookup, lookup-insert_self, lookup-insert_ne, nat_key, eq-cases}
use weavatrix_memory.Index.{
  Slot, IdIndex, empty_index, hash, find_slot, replace_slot, bucket_of, get_hashed, get,
  insert_with, insert_hashed, insert_id,
}

find_slot-append :
    (id j : String) (i : ℕ) (bucket : List Slot)
    → find_slot id bucket ≡ none
    → find_slot j (bucket ++ (id, i) ∷ []) ≡ (if id == j then some i else find_slot j bucket)
unfolding find_slot
find_slot-append id j i [] h = refl
find_slot-append id j i ((c, k) ∷ bucket) h =
    ground (arith, find_slot-append id j i bucket, eq_iff c id, eq_iff c j, eq_iff id j)

find_slot-replace :
    (id j : String) (i k : ℕ) (bucket : List Slot)
    → find_slot id bucket ≡ some k
    → find_slot j (replace_slot id i bucket) ≡ (if id == j then some i else find_slot j bucket)
unfolding find_slot replace_slot
find_slot-replace id j i k [] h = cc
find_slot-replace id j i k ((c, m) ∷ bucket) h =
    ground (arith, find_slot-replace id j i k bucket, eq_iff c id, eq_iff c j, eq_iff id j)

-- What the two tables hold at a fingerprint, and what a look-up finds there.
abbrev found : String → Option Slot → List Slot → Option ℕ
found id none bucket = find_slot id bucket
found id (some (candidate, index)) bucket =
    if candidate == id then some index else find_slot id bucket

abbrev entry_at : ℕ → IdIndex → Option Slot
entry_at h ix = lookup h ix.entries

abbrev bucket_at : ℕ → IdIndex → List Slot
bucket_at h ix = bucket_of (lookup h ix.collisions)

get_hashed-found :
    (ix : IdIndex) (id : String) (h : ℕ)
    → get_hashed ix id h ≡ found id (entry_at h ix) (bucket_at h ix)
unfolding get_hashed
get_hashed-found ix id h = ground arith

module _ (ix : IdIndex) (id : String) (i h : ℕ) where
  abbrev written : Option ℕ → Option Slot → IdIndex
  written prior entry = (insert_with ix id i h (bucket_at h ix) prior entry).1

  -- At its own fingerprint an insertion changes what is found for its identifier alone.
  written_here :
      (j : String) (prior : Option ℕ) (entry : Option Slot)
      → find_slot id (bucket_at h ix) ≡ prior
      → entry_at h ix ≡ entry
      → found j (entry_at h (written prior entry)) (bucket_at h (written prior entry))
        ≡ (if id == j then some i else found j (entry_at h ix) (bucket_at h ix))
  written_here j none none f e =
      ground (arith, lookup-insert_self h (id, i) ix.entries, eq_iff id j)
  written_here j (some k) none f e =
      rw lookup-insert_self
        (ground (arith, find_slot-replace id j i k (bucket_at h ix), eq_iff id j))
  written_here j none (some (c, k)) f e =
      (ground (
        arith,
        lookup-insert_self h (c, i) ix.entries,
        lookup-insert_self h (bucket_at h ix ++ (id, i) ∷ []) ix.collisions,
        find_slot-append id j i (bucket_at h ix),
        eq_iff id j,
        eq_iff c id,
        eq_iff c j,
      ))
  written_here j (some m) (some (c, k)) f e =
      (ground (
        arith,
        lookup-insert_self h (c, i) ix.entries,
        lookup-insert_self h (replace_slot id i (bucket_at h ix)) ix.collisions,
        find_slot-replace id j i m (bucket_at h ix),
        eq_iff id j,
        eq_iff c id,
        eq_iff c j,
      ))

  -- At every other fingerprint it changes nothing.
  written_elsewhere :
      (g : ℕ) (prior : Option ℕ) (entry : Option Slot)
      → h ≢ g
      → (entry_at g (written prior entry) ≡ entry_at g ix)
        × (bucket_at g (written prior entry) ≡ bucket_at g ix)
  written_elsewhere g none none n = (lookup-insert_ne h g (id, i) ix.entries n, refl)
  written_elsewhere g (some k) none n = (
    refl,
    ap bucket_of (lookup-insert_ne h g (replace_slot id i (bucket_at h ix)) ix.collisions n),
  )
  written_elsewhere g none (some (c, k)) n = ground (
    arith,
    lookup-insert_ne h g (c, i) ix.entries n,
    lookup-insert_ne h g (bucket_at h ix ++ (id, i) ∷ []) ix.collisions n,
  )
  written_elsewhere g (some m) (some (c, k)) n = ground (
    arith,
    lookup-insert_ne h g (c, i) ix.entries n,
    lookup-insert_ne h g (replace_slot id i (bucket_at h ix)) ix.collisions n,
  )

  -- The prior position is returned.
  prior_here :
      (prior : Option ℕ) (entry : Option Slot)
      → find_slot id (bucket_at h ix) ≡ prior
      → entry_at h ix ≡ entry
      → (insert_with ix id i h (bucket_at h ix) prior entry).0
        ≡ found id (entry_at h ix) (bucket_at h ix)
  prior_here none none f e = ground arith
  prior_here (some k) none f e = ground arith
  prior_here none (some (c, k)) f e = ground arith
  prior_here (some m) (some (c, k)) f e = ground arith

-- With any two fingerprints that are equal where the identifiers are, looking up after an
-- insertion gives the inserted position for the same identifier, and what was there before for any
-- other, collisions included.
pub get_hashed-insert_hashed :
    (ix : IdIndex) (id j : String) (i h g : ℕ)
    → (id ≡ j → h ≡ g)
    → get_hashed (insert_hashed ix id i h).1 j g ≡ (if id == j then some i else get_hashed ix j g)
unfolding insert_hashed
get_hashed-insert_hashed ix id j i h g same =
    rw (get_hashed-found, get_hashed-found)
      (elim (eq-cases h g) [
        | inl (p, _) ↦ rw (← p) (written_here ix id i h j _ _ refl refl)
        | inr (n, _) ↦
            let e =
              written_elsewhere ix id i h g (find_slot id (bucket_at h ix)) (entry_at h ix) n in
            rw (e.0, e.1) (ground (arith, n, same, eq_iff id j))
      ])

seed-insert_hashed :
    (ix : IdIndex) (id : String) (i h : ℕ) → (insert_hashed ix id i h).1.seed ≡ ix.seed
unfolding insert_hashed
seed-insert_hashed ix id i h = ground arith

-- Looking up after an insertion, with the fingerprints that the code computes, gives the inserted
-- position for the same identifier, and what was there before for any other.
pub get-insert_id :
    (ix : IdIndex) (id j : String) (i : ℕ)
    → get (insert_id ix id i).1 j ≡ (if id == j then some i else get ix j)
unfolding get insert_id hash
get-insert_id ix id j i =
    rw (seed-insert_hashed ix id i _) (get_hashed-insert_hashed ix id j i _ _ (λ p. ap (hash ix) p))

-- An insertion returns what looking up the identifier gave before it.
pub prior-insert_id : (ix : IdIndex) (id : String) (i : ℕ) → (insert_id ix id i).0 ≡ get ix id
unfolding get insert_id insert_hashed
prior-insert_id ix id i = rw get_hashed-found (prior_here ix id i (hash ix id) _ _ refl refl)

pub get-empty : (seed : ℕ) (id : String) → get (empty_index seed) id ≡ none
unfolding get get_hashed lookup find_slot
get-empty seed id = refl
