-- ===== src/Store/Owned.antt =====
-- store/in_memory/mod.rs: the operations that take their events by value, and how they agree with
-- those that borrow and clone.
use weavatrix_memory.Base.{
  ℕ, suc, ◌≡◌, refl, ap, ◌==◌, List, [], ◌∷◌, ◌++◌, length, all, if◌then◌else◌, Result, ok, err,
  panic, ◌>>=◌, ◌>>◌,
}
use weavatrix_memory.Map.{lookup, insert, set_insert, text_key}
use weavatrix_memory.Domain.{EventId, StreamId}
use weavatrix_memory.Event.{NewEvent, StoredEvent}
use weavatrix_memory.Store.{
  u64_from, checked_add, next_after, ExpectedVersion, AppendReceipt, from_events, check_expected,
  InMemoryStore, or_default, unique_ids, stream_version, envelope, prepare_loop, prepare_append,
  commit_loop, commit_prepared, append,
}

module _ {E : Type 0} where
  pub prepare_owned_loop :
      StreamId
      → (start_version start_position offset : ℕ) → List (NewEvent E)
      → Result (List (StoredEvent E))
  prepare_owned_loop stream start_version start_position offset [] = ok []
  prepare_owned_loop stream start_version start_position offset (e ∷ es) = do
    o ← u64_from offset
    version ← checked_add start_version o
    position ← checked_add start_position o
    rest ← prepare_owned_loop stream start_version start_position (suc offset) es
    ok (envelope stream version position e ∷ rest)

  pub prepare_append_owned :
      InMemoryStore E
      → StreamId
      → ExpectedVersion
      → List (NewEvent E)
      → Result (List (StoredEvent E))
  prepare_append_owned st stream expected events = do
    actual ← stream_version st stream
    check_expected stream expected actual
    unique_ids st.event_ids events
    start_version ← next_after actual
    start_position ← u64_from (length st.events)
    prepare_owned_loop stream start_version start_position 0 events

  pub commit_owned_loop :
      (events : List (StoredEvent E)) (positions : List ℕ) (event_ids : List EventId)
      (committed : List (StoredEvent E))
      → List (StoredEvent E) × List ℕ × List EventId
  commit_owned_loop events positions event_ids [] = (events, positions, event_ids)
  commit_owned_loop events positions event_ids (e ∷ committed) =
      commit_owned_loop (events ++ e ∷ []) (positions ++ length events ∷ [])
        (set_insert e.id event_ids) committed

  pub commit_prepared_owned : InMemoryStore E → List (StoredEvent E) → Result (InMemoryStore E)
  commit_prepared_owned st [] = ok st
  commit_prepared_owned st (first ∷ rest) =
      if all (λ e. e.stream_id == first.stream_id) (first ∷ rest)
      then (let positions = or_default (lookup first.stream_id st.streams) in
          let (events, positions', event_ids) =
            commit_owned_loop st.events positions st.event_ids (first ∷ rest) in
          ok (record {
            events = events;
            streams = insert first.stream_id positions' st.streams;
            event_ids = event_ids;
          }))
      else panic

  pub append_owned :
      InMemoryStore E
      → StreamId
      → ExpectedVersion
      → List (NewEvent E)
      → Result (List (StoredEvent E) × InMemoryStore E)
  append_owned st stream expected events = do
    committed ← prepare_append_owned st stream expected events
    st' ← commit_prepared st committed
    ok (committed, st')

  pub append_owned_receipt :
      InMemoryStore E
      → StreamId
      → ExpectedVersion
      → List (NewEvent E)
      → Result (AppendReceipt × InMemoryStore E)
  append_owned_receipt st stream expected events = do
    committed ← prepare_append_owned st stream expected events
    let receipt = from_events committed
    st' ← commit_prepared_owned st committed
    ok (receipt, st')

  prepare_owned_loop_lem :
      (stream : StreamId) (version position offset : ℕ) (es : List (NewEvent E))
      → prepare_owned_loop stream version position offset es
        ≡ prepare_loop stream version position offset es
  unfolding prepare_owned_loop prepare_loop
  prepare_owned_loop_lem stream version position offset [] = refl
  prepare_owned_loop_lem stream version position offset (e ∷ es) =
      rw (prepare_owned_loop_lem stream version position (suc offset) es) refl

  prepare_owned_lem :
      (st : InMemoryStore E) (stream : StreamId) (expected : ExpectedVersion)
      (es : List (NewEvent E))
      → prepare_append_owned st stream expected es ≡ prepare_append st stream expected es
  unfolding prepare_append_owned prepare_append
  prepare_owned_lem st stream expected es =
      ap
        (λ (f : ℕ → ℕ → Result (List (StoredEvent E))). stream_version st stream >>= λ actual.
          check_expected stream expected actual
          >> (unique_ids st.event_ids es
              >> (next_after actual >>= λ version.
                  u64_from (length st.events) >>= λ position. f version position)))
        (λ i version position. prepare_owned_loop_lem stream version position 0 es i)

  commit_owned_loop_lem :
      (events : List (StoredEvent E)) (positions : List ℕ) (ids : List EventId)
      (committed : List (StoredEvent E))
      → commit_owned_loop events positions ids committed
        ≡ commit_loop events positions ids committed
  unfolding commit_owned_loop commit_loop
  commit_owned_loop_lem events positions ids [] = refl
  commit_owned_loop_lem events positions ids (e ∷ es) =
      commit_owned_loop_lem (events ++ e ∷ []) (positions ++ length events ∷ [])
        (set_insert e.id ids) es

  commit_owned_lem :
      (st : InMemoryStore E) (committed : List (StoredEvent E))
      → commit_prepared_owned st committed ≡ commit_prepared st committed
  unfolding commit_prepared_owned commit_prepared
  commit_owned_lem st [] = refl
  commit_owned_lem st (first ∷ rest) =
      rw
        (commit_owned_loop_lem st.events (or_default (lookup first.stream_id st.streams))
          st.event_ids (first ∷ rest))
        refl

  abbrev with_events :
      List (StoredEvent E) → InMemoryStore E → Result (List (StoredEvent E) × InMemoryStore E)
  with_events committed st = ok (committed, st)

  abbrev with_receipt :
      List (StoredEvent E) → InMemoryStore E → Result (AppendReceipt × InMemoryStore E)
  with_receipt committed st = ok (from_events committed, st)

  -- `append_owned` gives what `append` gives, errors and panics included, and
  -- `append_owned_receipt` gives the receipt of those events and the same store.
  pub append_owned-eq-append :
      (st : InMemoryStore E) (stream : StreamId) (expected : ExpectedVersion)
      (es : List (NewEvent E))
      → (append_owned st stream expected es ≡ append st stream expected es)
        × (append_owned_receipt st stream expected es
            ≡ (append st stream expected es >>= λ r. ok (from_events r.0, r.1)))
  unfolding append_owned append_owned_receipt append
  append_owned-eq-append st stream expected es =
      rw (prepare_owned_lem st stream expected es)
        (refl, receipt (prepare_append st stream expected es))
    where
      receipt :
          (m : Result (List (StoredEvent E)))
          → (m >>= λ committed.
              commit_prepared_owned st committed >>= λ st'. with_receipt committed st')
            ≡ ((m >>= λ committed.
                  commit_prepared st committed >>= λ st'. with_events committed st')
                >>= λ r. ok (from_events r.0, r.1))
      receipt (ok committed) =
          rw (commit_owned_lem st committed) (again (commit_prepared st committed))
        where
          again :
              (m : Result (InMemoryStore E))
              → (m >>= λ st'. with_receipt committed st')
                ≡ ((m >>= λ st'. with_events committed st') >>= λ r. ok (from_events r.0, r.1))
          again (ok st') = refl
          again (err e) = refl
          again panic = refl
      receipt (err e) = refl
      receipt panic = refl
