-- ===== src/Store/Append.antt =====
-- store/in_memory/mod.rs, `append`: its success and its failures in a consistent store.
use weavatrix_memory.Base.{
  ◌+◌, ◌^◌, ◌<◌, ◌≡◌, refl, ap, sym, ◌∙◌, ◌≢◌, true, false, List, [], ◌++◌, map, arith, length, ok,
  err, ◌>>=◌, panic, inl, inr, >>=-eq-ok, ok_pair, Result-cases, subst, version_conflict,
  duplicate_event,
}
use weavatrix_memory.Map.{contains, text_key}
use weavatrix_memory.Domain.{EventId, StreamId}
use weavatrix_memory.Event.{NewEvent, StoredEvent}
use weavatrix_memory.Store.Log.{ids, last_of}
use weavatrix_memory.Store.Consistent.{IsConsistent}
use weavatrix_memory.Store.Commit.{commit_prepared-IsConsistent}
use weavatrix_memory.Store.Prepare.{
  AreNew, envelopes, envelopes-IsOf, envelopes-IsLogFrom, count, prepare_append-eq,
  prepare_append-ok, prepare_append_succeeds, unique_ids_loop_cases, unique_ids_loop-AreNew,
  known_ids, prepare_loop_cases,
}
use weavatrix_memory.Store.{
  InMemoryStore, ExpectedVersion, version_matches, named_version, check_expected, prepare_append,
  commit_prepared, append,
}

module _ {E : Type 0} (st : InMemoryStore E) (s : StreamId) (x : ExpectedVersion)
    (es : List (NewEvent E)) where
  abbrev batch : List (StoredEvent E)
  batch = envelopes s (count st s) (length st.events) 0 es

  commit_batch :
      IsConsistent st
      → AreNew (ids st.events) es
      → (st' : InMemoryStore E) × (commit_prepared st batch ≡ ok st')
        × (st'.events ≡ st.events ++ batch)
        × IsConsistent st'
  commit_batch k n =
      commit_prepared-IsConsistent st s batch k
        (envelopes-IsOf s (count st s) (length st.events) 0 es)
        (envelopes-IsLogFrom s (count st s) (length st.events) 0 es st.events (omega arith)
          (omega arith) n)

  -- What is prepared can be committed.
  pub prepared_commits :
      (c : List (StoredEvent E))
      → IsConsistent st
      → prepare_append st s x es ≡ ok c
      → (st' : InMemoryStore E) × (commit_prepared st c ≡ ok st')
        × (append st s x es ≡ ok (c, st'))
        × (st'.events ≡ st.events ++ c)
        × IsConsistent st'
  unfolding append
  prepared_commits c k h =
      let (_, new, e) = prepare_append-ok st s x es c k h in
      let (st', done, log, k') = commit_batch k new in
      let done' : commit_prepared st c ≡ ok st' = rw e done in
      (st', done', rw (h, done') refl, rw e log, k')

  pub append_prepares :
      (c : List (StoredEvent E)) (st' : InMemoryStore E)
      → append st s x es ≡ ok (c, st')
      → prepare_append st s x es ≡ ok c
  unfolding append
  append_prepares c st' h =
      let (c', prepared, h') =
        >>=-eq-ok (prepare_append st s x es) (λ c. commit_prepared st c >>= λ st'. ok (c, st')) h in
      let (st₂, done, same) = >>=-eq-ok (commit_prepared st c') (λ st'. ok (c', st')) h' in
      prepared ∙ ap ok (ok_pair same).0

  -- If `append` succeeds in a consistent store, the new store is consistent, its log is the old
  -- log followed by the committed events, and these are the batch in the stream's envelopes with
  -- the next versions and positions.
  pub append-IsConsistent :
      (c : List (StoredEvent E)) (st' : InMemoryStore E)
      → IsConsistent st
      → append st s x es ≡ ok (c, st')
      → IsConsistent st'
        × (st'.events ≡ st.events ++ c)
        × (c ≡ envelopes s (count st s) (length st.events) 0 es)
  unfolding append
  append-IsConsistent c st' k h =
      let (c', prepared, h') = >>=-eq-ok (prepare_append st s x es) _ h in
      let (_, new, e) = prepare_append-ok st s x es c' k prepared in
      let (st₂, done, log, k₂) = commit_batch k new in
      let appended : append st s x es ≡ ok (batch, st₂) = rw (prepared ∙ ap ok e, done) in
      let (p, q) = ok_pair (sym appended ∙ h) in
      (
        subst IsConsistent q k₂,
        ap (λ t. t.events) (sym q) ∙ log ∙ ap (λ b. st.events ++ b) p,
        sym p,
      )

  -- In a consistent store, if the expected version matches, the identifiers are new to the store
  -- and to one another, and the log stays below 2 ^ 64 events, `append` returns the batch in its
  -- envelopes and a consistent store whose log has the batch at its end.
  pub append_succeeds :
      IsConsistent st
      → version_matches x (last_of (count st s)) ≡ true
      → AreNew (ids st.events) es
      → length st.events + length es < 2 ^ 64
      → (st' : InMemoryStore E) × (append st s x es
          ≡ ok (envelopes s (count st s) (length st.events) 0 es, st'))
        × (st'.events ≡ st.events ++ envelopes s (count st s) (length st.events) 0 es)
        × IsConsistent st'
  unfolding append
  append_succeeds k m n l =
      let (st', done, log, k') = commit_batch k n in
      (st', rw (prepare_append_succeeds st s x es k m n l, done), log, k')

  -- In a consistent store, where the expected version does not match the stream, `append` returns
  -- the version conflict with the expected and the actual version.
  pub append_conflict :
      IsConsistent st
      → version_matches x (last_of (count st s)) ≡ false
      → append st s x es ≡ err (version_conflict s (named_version x) (last_of (count st s)))
  unfolding append check_expected
  append_conflict k m = rw (prepare_append-eq st s x es k, m)

  -- In a consistent store, where the expected version matches and an identifier of the batch is in
  -- the store or comes twice, `append` returns a duplicate-event error that names an identifier of
  -- the batch.
  pub append_duplicate :
      IsConsistent st
      → version_matches x (last_of (count st s)) ≡ true
      → ¬ AreNew (ids st.events) es
      → (id : EventId) × (append st s x es ≡ err (duplicate_event id))
        × (contains id (map (λ e. e.id) es) ≡ true)
  unfolding append check_expected
  append_duplicate k m n = elim (unique_ids_loop_cases st.event_ids [] es) [
    | inl fresh ↦ absurd (n (unique_ids_loop-AreNew st.event_ids [] _ es (known_ids st k) fresh))
    | inr (id, p, q) ↦ (id, rw (prepare_append-eq st s x es k, m, p), q)
  ]

  pub prepare_append-ne-panic : IsConsistent st → prepare_append st s x es ≢ panic
  unfolding check_expected
  prepare_append-ne-panic k h =
      let h' = rw (prepare_append-eq st s x es k) at h in
      ground (
        arith,
        h',
        unique_ids_loop_cases st.event_ids [] es,
        prepare_loop_cases s (count st s) (length st.events) 0 es,
      )

  -- In a consistent store `append` never panics: no index is out of range and the assertion on the
  -- streams of the batch holds.
  pub append-ne-panic : IsConsistent st → append st s x es ≢ panic
  unfolding append
  append-ne-panic k h = elim (Result-cases (prepare_append st s x es)) [
    | inl (c, p) ↦
        let (_, new, e) = prepare_append-ok st s x es c k p in
        let (_, done, _, _) = commit_batch k new in ground (arith, h, p, e, done)
    | inr (inl (e, p)) ↦ ground (arith, h, p)
    | inr (inr p) ↦ prepare_append-ne-panic k p
  ]
