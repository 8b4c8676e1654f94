-- ===== src/Replay/Cursor.antt =====
-- projection/replay.rs, `validate_next`: a cursor behind a prefix of a log.
use weavatrix_memory.Base.{
  ℕ, zero, suc, ◌^◌, ◌<◌, ◌≡◌, refl, Bool, false, ◌&&◌, not, List, [], ◌∷◌, ◌++◌, arith, length,
  length-snoc, length-filter-le, ==-cases, ◌==◌, eqb, inl, inr, ok,
}
use weavatrix_memory.Map.{
  lookup, lookup-insert_self, lookup-insert_ne, contains, set_insert, text_key,
}
use weavatrix_memory.Domain.{EventId, StreamId}
use weavatrix_memory.Event.{StoredEvent}
use weavatrix_memory.Store.Log.{of_stream, of_stream-snoc, last_of}
use weavatrix_memory.Store.Consistent.{next_after-last_of}
use weavatrix_memory.Replay.{ReplayCursor, start_cursor, validate_next, advance, is_none}

zero_start_lem : (z : Bool) (n : ℕ) → (z && is_none (last_of n) && not (eqb n 0)) ≡ false
zero_start_lem z zero = ground arith
zero_start_lem z (suc n) = ground arith

module _ {E : Type 0} where
  -- The cursor has seen exactly the events of `before`.
  pub record IsBehind (before : List (StoredEvent E)) (cursor : ReplayCursor) : Type 0 where
    pub position : cursor.global_position ≡ last_of (length before)
    pub versions :
        (s : StreamId) → lookup s cursor.stream_versions ≡ last_of (length (of_stream s before))

  pub start-IsBehind : IsBehind [] start_cursor
  unfolding lookup
  start-IsBehind = record { position = refl; versions = λ s. refl }

  -- the position and the version that come next
  abbrev pub Follows : List (StoredEvent E) → StoredEvent E → Type 0
  Follows before e =
      (e.global_position ≡ length before)
      × (e.stream_version ≡ length (of_stream e.stream_id before))

  pub advance-IsBehind :
      (before : List (StoredEvent E)) (cursor : ReplayCursor) (e : StoredEvent E)
      → IsBehind before cursor
      → IsBehind
          (before ++ e ∷ [])
          (advance cursor e.stream_id (length before) (length (of_stream e.stream_id before)))
  advance-IsBehind before cursor e b = record {
    position = rw length-snoc;
    versions = λ s. elim (==-cases e.stream_id s) [
      | inl (p, t) ↦ rw (of_stream-snoc s before e, t, length-snoc, ← p, lookup-insert_self)
      | inr (p, f) ↦
          rw
            (
              of_stream-snoc s before e,
              f,
              lookup-insert_ne e.stream_id s _ cursor.stream_versions p,
            )
            (b.versions s)
    ];
  }

  pub validate_next_succeeds :
      (before : List (StoredEvent E)) (cursor : ReplayCursor) (seen : List EventId)
      (e : StoredEvent E) (zero_start : Bool)
      → IsBehind before cursor
      → Follows before e
      → contains e.id seen ≡ false
      → length before < 2 ^ 64
      → validate_next cursor seen e zero_start
        ≡ ok (length before, length (of_stream e.stream_id before), set_insert e.id seen)
  unfolding validate_next
  validate_next_succeeds before cursor seen e zero_start b f n l =
      rw (b.position, b.versions e.stream_id)
        (ground (
          arith,
          next_after-last_of (length before),
          next_after-last_of (length (of_stream e.stream_id before)),
          length-filter-le (λ x. x.stream_id == e.stream_id) before,
          zero_start_lem zero_start (length before),
        ))

  pub validate_next-Follows :
      (before : List (StoredEvent E)) (cursor : ReplayCursor) (seen : List EventId)
      (e : StoredEvent E) (zero_start : Bool) (r : ℕ × ℕ × List EventId)
      → IsBehind before cursor
      → validate_next cursor seen e zero_start ≡ ok r
      → Follows before e
        × (contains e.id seen ≡ false)
        × (r ≡ (length before, length (of_stream e.stream_id before), set_insert e.id seen))
  unfolding validate_next
  validate_next-Follows before cursor seen e zero_start r b h =
      let h' = rw (b.position, b.versions e.stream_id) at h in
      ground (
        arith,
        h',
        next_after-last_of (length before),
        next_after-last_of (length (of_stream e.stream_id before)),
        length-filter-le (λ x. x.stream_id == e.stream_id) before,
        zero_start_lem zero_start (length before),
      )
