-- ===== src/Store/Consistent.antt =====
-- What the fields of a store mean: the position lists and the identifier set are those of the log.
use weavatrix_memory.Base.{
  ℕ, zero, suc, ◌+◌, ◌≡◌, refl, ap, ◌∙◌, Option, some, List, [], ◌∷◌, arith, length, get_elem?,
  get_last?, ok, or_panic, try_map,
}
use native.Mathlib.Numerals.{add-one}
use weavatrix_memory.Map.{lookup, contains, text_key}
use weavatrix_memory.Domain.{EventId, StreamId}
use weavatrix_memory.Event.{StoredEvent}
use weavatrix_memory.Store.Log.{
  of_stream, ids, IsLog, last_of, version_of, last_version-IsLog, indices,
}
use weavatrix_memory.Store.{
  InMemoryStore, or_default, version_at, stream_version, u64_from, next_after,
}

module _ {E : Type 0} where
  pub record IsConsistent (st : InMemoryStore E) : Type 0 where
    pub positions : (s : StreamId) → or_default (lookup s st.streams) ≡ indices s 0 st.events
    pub identifiers : (id : EventId) → contains id st.event_ids ≡ contains id (ids st.events)
    pub log : IsLog st.events

  -- Reading the positions of a stream gives its events, and no index is out of range.
  pub read_indices :
      (s : StreamId) (get : ℕ → Option (StoredEvent E)) (n : ℕ) (es : List (StoredEvent E))
      → ((i : ℕ) → get (n + i) ≡ get_elem? es i)
      → try_map (λ i. or_panic (get i)) (indices s n es) ≡ ok (of_stream s es)
  unfolding indices
  read_indices s get n [] h = refl
  read_indices s get n (e ∷ es) h =
      let here : get n ≡ some e = ap get (omega arith) ∙ h 0 in
      let rest = read_indices s get (suc n) es (λ i. ap get (omega arith) ∙ h (suc i)) in
      ground (arith, here, rest)

  last-try_map :
      (all : List (StoredEvent E)) (xs : List ℕ) (ys : List (StoredEvent E))
      → try_map (λ i. or_panic (get_elem? all i)) xs ≡ ok ys
      → version_at all (get_last? xs) ≡ ok (version_of (get_last? ys))
  last-try_map all [] ys h = ground arith
  last-try_map all (x ∷ []) ys h = ground arith
  last-try_map all (x ∷ y ∷ xs) [] h = ground arith
  last-try_map all (x ∷ y ∷ xs) (a ∷ []) h = ground arith
  last-try_map all (x ∷ y ∷ xs) (a ∷ b ∷ ys) h = last-try_map all (y ∷ xs) (b ∷ ys) (ground arith)

  pub read_stream :
      (s : StreamId) (es : List (StoredEvent E))
      → try_map (λ i. or_panic (get_elem? es i)) (indices s 0 es) ≡ ok (of_stream s es)
  read_stream s es = read_indices s (get_elem? es) 0 es (λ i. ap (get_elem? es) (omega arith))

  stream_version-positions :
      (st : InMemoryStore E) (s : StreamId)
      → stream_version st s ≡ version_at st.events (get_last? (or_default (lookup s st.streams)))
  unfolding stream_version
  stream_version-positions st s = ground arith

  -- In a consistent store the version of a stream is that of its last event.
  pub stream_version-IsConsistent :
      (st : InMemoryStore E) (s : StreamId)
      → IsConsistent st
      → stream_version st s ≡ ok (last_of (length (of_stream s st.events)))
  stream_version-IsConsistent st s c = rw (
    stream_version-positions st s,
    c.positions s,
    last-try_map st.events (indices s 0 st.events) _ (read_stream s st.events),
    last_version-IsLog st.events s c.log,
  )

pub next_after-last_of : (n : ℕ) → next_after (last_of n) ≡ u64_from n
next_after-last_of zero = refl
next_after-last_of (suc n) = rw add-one
