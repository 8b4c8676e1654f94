-- ===== src/Store/Load.antt =====
-- store/in_memory/mod.rs: the queries of a consistent store as functions of its log.
use weavatrix_memory.Base.{
  ℕ, zero, suc, ◌-◌, ◌≡◌, refl, ap, true, Option, none, some, List, [], ◌∷◌, ◌++◌, arith, length,
  length-snoc, filter, take, drop, ltb, ok,
}
use weavatrix_memory.Domain.{StreamId}
use weavatrix_memory.Event.{StoredEvent}
use weavatrix_memory.Store.Log.{of_stream, IsLogFrom}
use weavatrix_memory.Store.Consistent.{IsConsistent, read_stream}
use weavatrix_memory.Store.{InMemoryStore, load_stream, load_all, is_after}

-- the number of events that a cursor leaves behind
abbrev pub from_cursor : Option ℕ → ℕ
from_cursor none = 0
from_cursor (some c) = suc c

module _ {E : Type 0} where
  -- In a consistent store `load_stream` does not panic, and returns the events of the stream with
  -- a version after the cursor, in the order of the log.
  pub load_stream-IsConsistent :
      (st : InMemoryStore E) (s : StreamId) (after : Option ℕ)
      → IsConsistent st
      → load_stream st s after
        ≡ ok (filter (λ e. is_after after e.stream_version) (of_stream s st.events))
  unfolding load_stream
  load_stream-IsConsistent st s after k = rw (k.positions s, read_stream s st.events)

  filter_positions :
      (c k : ℕ) (before es : List (StoredEvent E))
      → k ≡ suc c - length before
      → IsLogFrom before es
      → filter (λ e. ltb c e.global_position) es ≡ drop k es
  filter_positions c zero before [] h l = refl
  filter_positions c (suc k) before [] h l = refl
  filter_positions c zero before (e ∷ es) h l = ground (
    arith,
    filter_positions c zero (before ++ e ∷ []) es (omega (arith, length-snoc before e)) l.1,
  )
  filter_positions c (suc k) before (e ∷ es) h l =
      ground (
        arith,
        filter_positions c k (before ++ e ∷ []) es (omega (arith, length-snoc before e)) l.1,
      )

  filter_all : (es : List (StoredEvent E)) → filter (λ e. true) es ≡ es
  filter_all [] = refl
  filter_all (e ∷ es) = ap (◌∷◌ e) (filter_all es)

  -- In a consistent store `load_all` returns the first `limit` events of the log behind the
  -- cursor.
  pub load_all-IsConsistent :
      (st : InMemoryStore E) (after : Option ℕ) (limit : ℕ)
      → IsConsistent st
      → load_all st after limit ≡ take limit (drop (from_cursor after) st.events)
  unfolding load_all
  load_all-IsConsistent st none limit k = rw (filter_all st.events)
  load_all-IsConsistent st (some c) limit k =
      rw (filter_positions c (suc c) [] st.events (omega arith) k.log)
