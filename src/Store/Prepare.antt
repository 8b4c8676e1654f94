-- ===== src/Store/Prepare.antt =====
-- store/in_memory/mod.rs, `prepare_append`: the batch that it makes, and its refusals.
use weavatrix_memory.Base.{
  ℕ, suc, ◌+◌, ◌^◌, ◌≤◌, ◌<◌, ◌≡◌, refl, sym, ◌⊎◌, true, false, ◌||◌, List, [], ◌∷◌, ◌++◌, map,
  map-append, arith, ◌==◌, ==-refl, length, length-snoc, length-filter-le, ok, err, inl, inr,
  Bool-cases, ◌>>=◌, capacity_overflow, duplicate_event,
}
use weavatrix_memory.Map.{contains, contains-append, contains-set_insert, set_insert, text_key}
use weavatrix_memory.Domain.{EventId, StreamId}
use weavatrix_memory.Event.{NewEvent, StoredEvent}
use weavatrix_memory.Store.Log.{of_stream, of_stream-snoc, ids, IsLogFrom, last_of}
use weavatrix_memory.Store.Consistent.{
  IsConsistent, stream_version-IsConsistent, next_after-last_of,
}
use weavatrix_memory.Store.Commit.{IsOf}
use weavatrix_memory.Store.{
  InMemoryStore, ExpectedVersion, version_matches, check_expected, unique_ids, unique_ids_loop,
  envelope, prepare_loop, prepare_append, u64_from,
}

batch_grows :
    (known batch seen : List EventId) (x : EventId)
    → ((id : EventId) → contains id seen ≡ (contains id known || contains id batch))
    → (id : EventId)
    → contains id (seen ++ x ∷ []) ≡ (contains id known || contains id (set_insert x batch))
unfolding contains
batch_grows known batch seen x h id = rw (contains-append, contains-set_insert, h) (ground arith)

module _ {E : Type 0} where
  -- No identifier of the batch is known, or occurs earlier in the batch.
  abbrev pub AreNew : List EventId → List (NewEvent E) → Type 0
  AreNew known [] = Unit {0}
  AreNew known (e ∷ es) = (contains e.id known ≡ false) × AreNew (known ++ e.id ∷ []) es

  -- The committed batch: consecutive versions from `v + o` and positions from `p + o`.
  abbrev pub envelopes : StreamId → (v p o : ℕ) → List (NewEvent E) → List (StoredEvent E)
  envelopes s v p o [] = []
  envelopes s v p o (e ∷ es) = envelope s (v + o) (p + o) e ∷ envelopes s v p (suc o) es

  pub envelopes-IsOf :
      (s : StreamId) (v p o : ℕ) (es : List (NewEvent E)) → IsOf s (envelopes s v p o es)
  envelopes-IsOf s v p o [] = refl
  envelopes-IsOf s v p o (e ∷ es) = rw (==-refl s) (envelopes-IsOf s v p (suc o) es)

  pub envelopes-IsLogFrom :
      (s : StreamId) (v p o : ℕ) (es : List (NewEvent E)) (before : List (StoredEvent E))
      → length before ≡ p + o
      → length (of_stream s before) ≡ v + o
      → AreNew (ids before) es
      → IsLogFrom before (envelopes s v p o es)
  envelopes-IsLogFrom s v p o [] before hp hv h = tt
  envelopes-IsLogFrom s v p o (e ∷ es) before hp hv h = (
    (sym hp, sym hv, h.0),
    envelopes-IsLogFrom s v p (suc o) es (before ++ envelope s (v + o) (p + o) e ∷ [])
        (omega (arith, length-snoc before (envelope s (v + o) (p + o) e)))
        (rw (of_stream-snoc s before (envelope s (v + o) (p + o) e), ==-refl s, length-snoc)
          (omega arith))
        (rw map-append h.1),
  )

  -- `unique_ids` accepts exactly the batches of new identifiers.
  pub unique_ids_loop-AreNew :
      (known batch seen : List EventId) (es : List (NewEvent E))
      → ((id : EventId) → contains id seen ≡ (contains id known || contains id batch))
      → unique_ids_loop known batch es ≡ ok tt
      → AreNew seen es
  unfolding unique_ids_loop
  unique_ids_loop-AreNew known batch seen [] h k = tt
  unique_ids_loop-AreNew known batch seen (e ∷ es) h k =
      let seen' = seen ++ e.id ∷ [] in
      let batch' = set_insert e.id batch in
      (
        ground (arith, h e.id),
        unique_ids_loop-AreNew known batch' seen' es (batch_grows known batch seen e.id h)
            (ground arith),
      )

  unique_ids_loop_of_AreNew :
      (known batch seen : List EventId) (es : List (NewEvent E))
      → ((id : EventId) → contains id seen ≡ (contains id known || contains id batch))
      → AreNew seen es
      → unique_ids_loop known batch es ≡ ok tt
  unfolding unique_ids_loop
  unique_ids_loop_of_AreNew known batch seen [] h k = refl
  unique_ids_loop_of_AreNew known batch seen (e ∷ es) h k =
      let seen' = seen ++ e.id ∷ [] in
      let batch' = set_insert e.id batch in
      ground (
        arith,
        h e.id,
        unique_ids_loop_of_AreNew known batch' seen' es (batch_grows known batch seen e.id h) k.1,
      )

  -- It accepts the batch, or names an identifier of the batch.
  pub unique_ids_loop_cases :
      (known batch : List EventId) (es : List (NewEvent E))
      → (unique_ids_loop known batch es ≡ ok tt)
        ⊎ ((id : EventId) × (unique_ids_loop known batch es ≡ err (duplicate_event id))
            × (contains id (map (λ e. e.id) es) ≡ true))
  unfolding unique_ids_loop contains
  unique_ids_loop_cases known batch [] = inl refl
  unique_ids_loop_cases known batch (e ∷ es) =
      elim (Bool-cases (contains e.id known || contains e.id batch)) [
        | inl t ↦ inr (e.id, rw t, ground (arith, ==-refl e.id))
        | inr f ↦ elim (unique_ids_loop_cases known (set_insert e.id batch) es) [
          | inl p ↦ inl (rw f p)
          | inr (id, p, q) ↦ inr (id, rw f p, ground (arith, q))
        ]
      ]

  pub prepare_loop_cases :
      (s : StreamId) (v p o : ℕ) (es : List (NewEvent E))
      → (prepare_loop s v p o es ≡ ok (envelopes s v p o es))
        ⊎ (prepare_loop s v p o es ≡ err capacity_overflow)
  unfolding prepare_loop
  prepare_loop_cases s v p o [] = inl refl
  prepare_loop_cases s v p o (e ∷ es) = ground (arith, prepare_loop_cases s v p (suc o) es)

  prepare_loop-eq-envelopes :
      (s : StreamId) (v p o : ℕ) (es : List (NewEvent E)) {c : List (StoredEvent E)}
      → prepare_loop s v p o es ≡ ok c
      → c ≡ envelopes s v p o es
  unfolding prepare_loop
  prepare_loop-eq-envelopes s v p o [] h = ground arith
  prepare_loop-eq-envelopes s v p o (e ∷ es) h =
      let rest = λ (c : List (StoredEvent E)). prepare_loop-eq-envelopes s v p (suc o) es {c = c} in
      grind (arith, rest)

  prepare_loop_succeeds :
      (s : StreamId) (v p o : ℕ) (es : List (NewEvent E))
      → v ≤ p
      → p + o + length es ≤ 2 ^ 64
      → prepare_loop s v p o es ≡ ok (envelopes s v p o es)
  unfolding prepare_loop
  prepare_loop_succeeds s v p o [] hv h = refl
  prepare_loop_succeeds s v p o (e ∷ es) hv h =
      let rest = prepare_loop_succeeds s v p (suc o) es hv (omega arith) in ground (arith, rest)

  -- the number of events that a stream has
  abbrev pub count : InMemoryStore E → StreamId → ℕ
  count st s = length (of_stream s st.events)

  pub count-le : (st : InMemoryStore E) (s : StreamId) → count st s ≤ length st.events
  count-le st s = length-filter-le (λ e. e.stream_id == s) st.events

  pub known_ids :
      (st : InMemoryStore E)
      → IsConsistent st
      → (id : EventId) → contains id (ids st.events) ≡ (contains id st.event_ids || contains id [])
  unfolding contains
  known_ids st k id = ground (arith, k.identifiers id)

  pub prepare_append-eq :
      (st : InMemoryStore E) (s : StreamId) (x : ExpectedVersion) (es : List (NewEvent E))
      → IsConsistent st
      → prepare_append st s x es ≡ (
          check_expected s x (last_of (count st s)) >>= λ _.
          unique_ids_loop st.event_ids [] es >>= λ _. u64_from (count st s) >>= λ v.
          u64_from (length st.events) >>= λ p. prepare_loop s v p 0 es)
  unfolding prepare_append unique_ids
  prepare_append-eq st s x es k =
      rw (stream_version-IsConsistent st s k, next_after-last_of (count st s))

  pub prepare_append-ok :
      (st : InMemoryStore E) (s : StreamId) (x : ExpectedVersion) (es : List (NewEvent E))
      (c : List (StoredEvent E))
      → IsConsistent st
      → prepare_append st s x es ≡ ok c
      → (version_matches x (last_of (count st s)) ≡ true)
        × AreNew (ids st.events) es
        × (c ≡ envelopes s (count st s) (length st.events) 0 es)
  unfolding check_expected
  prepare_append-ok st s x es c k h =
      let h' = rw (prepare_append-eq st s x es k) at h in
      ground (
        arith,
        h',
        unique_ids_loop-AreNew st.event_ids [] (ids st.events) es (known_ids st k),
        prepare_loop-eq-envelopes s (count st s) (length st.events) 0 es {c = c},
      )

  pub prepare_append_succeeds :
      (st : InMemoryStore E) (s : StreamId) (x : ExpectedVersion) (es : List (NewEvent E))
      → IsConsistent st
      → version_matches x (last_of (count st s)) ≡ true
      → AreNew (ids st.events) es
      → length st.events + length es < 2 ^ 64
      → prepare_append st s x es ≡ ok (envelopes s (count st s) (length st.events) 0 es)
  unfolding check_expected
  prepare_append_succeeds st s x es k hx hn hl = rw (prepare_append-eq st s x es k) (
      ground (
        arith,
        unique_ids_loop_of_AreNew st.event_ids [] (ids st.events) es (known_ids st k) hn,
        prepare_loop_succeeds s (count st s) (length st.events) 0 es (count-le st s) (omega arith),
        count-le st s,
      ))
