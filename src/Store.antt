-- ===== src/Store.antt =====
-- store/mod.rs and store/in_memory: the event store kept in memory. A `u64` is a number below
-- 2 ^ 64 and `checked_add` fails at that bound; a `usize` is a 64-bit word too.
pub mod Log
pub mod History
pub mod Load
pub mod Restore
pub mod Append
pub mod Prepare
pub mod Commit
pub mod Consistent
pub mod Owned
use weavatrix_memory.Base.{
  ℕ, suc, ◌+◌, ◌^◌, String, Bool, true, false, ◌||◌, Option, none, some, List, [], ◌∷◌, ◌++◌, map,
  ltb, eqb, ◌==◌, if◌then◌else◌, length, get_elem?, take, get_last?, head?, filter, all, Result, ok,
  err, panic, or_panic, try_map, ◌>>=◌, ◌>>◌, capacity_overflow, version_conflict, duplicate_event,
  invalid_replay, ReplayReason,
}
use weavatrix_memory.Map.{Map, lookup, insert, contains, set_insert, text_key}
use weavatrix_memory.Domain.{EventId, StreamId}
use weavatrix_memory.Event.{NewEvent, StoredEvent}

abbrev pub u64_mod : ℕ
u64_mod = 2 ^ 64

-- `u64::try_from`, and `checked_add` with `ok_or(CapacityOverflow)`
abbrev pub u64_from : ℕ → Result ℕ
u64_from n = if ltb n u64_mod then ok n else err capacity_overflow

abbrev pub checked_add : ℕ → ℕ → Result ℕ
checked_add a b = u64_from (a + b)

-- `cursor.map_or(Ok(0), |c| c.checked_add(1).ok_or(CapacityOverflow))`
abbrev pub next_after : Option ℕ → Result ℕ
next_after none = ok 0
next_after (some c) = checked_add c 1

-- `after.is_none_or(|cursor| n > cursor)`
abbrev pub is_after : Option ℕ → ℕ → Bool
is_after none n = true
is_after (some cursor) n = ltb cursor n

pub data ExpectedVersion : Type 0 where
  any_version no_stream : ExpectedVersion
  exact : ℕ → ExpectedVersion

pub record AppendReceipt : Type 0 where
  pub event_count : ℕ
  pub first_stream_version : Option ℕ
  pub last_stream_version : Option ℕ
  pub first_global_position : Option ℕ
  pub last_global_position : Option ℕ

-- store/in_memory/validation.rs `expected`
abbrev pub version_matches : ExpectedVersion → Option ℕ → Bool
version_matches ExpectedVersion.any_version actual = true
version_matches ExpectedVersion.no_stream none = true
version_matches ExpectedVersion.no_stream (some v) = false
version_matches (ExpectedVersion.exact version) none = false
version_matches (ExpectedVersion.exact version) (some v) = eqb v version

abbrev pub named_version : ExpectedVersion → Option ℕ
named_version ExpectedVersion.any_version = none
named_version ExpectedVersion.no_stream = none
named_version (ExpectedVersion.exact version) = some version

unfoldable pub check_expected : StreamId → ExpectedVersion → Option ℕ → Result (Unit {0})
check_expected stream expected actual =
    if version_matches expected actual
    then ok tt
    else err (version_conflict stream (named_version expected) actual)

pub record InMemoryStore (E : Type 0) : Type 0 where
  pub events : List (StoredEvent E)
  pub streams : Map StreamId (List ℕ)
  pub event_ids : List EventId

-- `streams.entry(stream).or_default()`
abbrev pub or_default : Option (List ℕ) → List ℕ
or_default none = []
or_default (some positions) = positions

module _ {E : Type 0} where
  abbrev pub empty_store : InMemoryStore E
  empty_store = record { events = []; streams = []; event_ids = [] }

  abbrev pub from_events : List (StoredEvent E) → AppendReceipt
  from_events events = record {
    event_count = length events;
    first_stream_version = version (head? events);
    last_stream_version = version (get_last? events);
    first_global_position = position (head? events);
    last_global_position = position (get_last? events);
  }
    where
      version : Option (StoredEvent E) → Option ℕ
      version none = none
      version (some e) = some e.stream_version

      position : Option (StoredEvent E) → Option ℕ
      position none = none
      position (some e) = some e.global_position

  -- validation.rs `unique_ids`; `batch` holds the identifiers that the loop has passed
  unfoldable pub unique_ids_loop :
      (known batch : List EventId) → List (NewEvent E) → Result (Unit {0})
  unique_ids_loop known batch [] = ok tt
  unique_ids_loop known batch (e ∷ es) =
      if contains e.id known || contains e.id batch
      then err (duplicate_event e.id)
      else unique_ids_loop known (set_insert e.id batch) es

  unfoldable pub unique_ids : (known : List EventId) → List (NewEvent E) → Result (Unit {0})
  unique_ids known events = unique_ids_loop known [] events

  -- the version of an event that is there
  abbrev pub version_at : List (StoredEvent E) → Option ℕ → Result (Option ℕ)
  version_at events none = ok none
  version_at events (some index) = do
    e ← or_panic (get_elem? events index)
    ok (some e.stream_version)

  unfoldable pub stream_version : InMemoryStore E → StreamId → Result (Option ℕ)
  stream_version st stream = elim (lookup stream st.streams) [
    | none ↦ ok none
    | some positions ↦ version_at st.events (get_last? positions)
  ]

  abbrev pub envelope : StreamId → (version position : ℕ) → NewEvent E → StoredEvent E
  envelope stream version position e = record {
    metadata = record {
      id = e.id;
      stream_id = stream;
      stream_version = version;
      global_position = position;
      event_type = e.event_type;
      occurred_at = e.occurred_at;
      recorded_at = e.recorded_at;
      agent_id = e.agent_id;
      session_id = e.session_id;
      correlation_id = e.correlation_id;
      causation_id = e.causation_id;
    };
    payload = e.payload;
  }

  unfoldable pub prepare_loop :
      StreamId
      → (start_version start_position offset : ℕ) → List (NewEvent E)
      → Result (List (StoredEvent E))
  prepare_loop stream start_version start_position offset [] = ok []
  prepare_loop stream start_version start_position offset (e ∷ es) = do
    o ← u64_from offset
    version ← checked_add start_version o
    position ← checked_add start_position o
    rest ← prepare_loop stream start_version start_position (suc offset) es
    ok (envelope stream version position e ∷ rest)

  unfoldable pub prepare_append :
      InMemoryStore E
      → StreamId
      → ExpectedVersion
      → List (NewEvent E)
      → Result (List (StoredEvent E))
  prepare_append st stream expected events = do
    actual ← stream_version st stream
    check_expected stream expected actual
    unique_ids st.event_ids events
    start_version ← next_after actual
    start_position ← u64_from (length st.events)
    prepare_loop stream start_version start_position 0 events

  -- the loop of `commit_prepared`, over the three fields that it borrows
  unfoldable pub commit_loop :
      (events : List (StoredEvent E)) (positions : List ℕ) (event_ids : List EventId)
      (committed : List (StoredEvent E))
      → List (StoredEvent E) × List ℕ × List EventId
  commit_loop events positions event_ids [] = (events, positions, event_ids)
  commit_loop events positions event_ids (e ∷ committed) =
      commit_loop (events ++ e ∷ []) (positions ++ length events ∷ []) (set_insert e.id event_ids)
        committed

  -- The `debug_assert!` is modelled as in a debug build: it panics.
  unfoldable pub commit_prepared : InMemoryStore E → List (StoredEvent E) → Result (InMemoryStore E)
  commit_prepared st [] = ok st
  commit_prepared st (first ∷ rest) =
      if all (λ e. e.stream_id == first.stream_id) (first ∷ rest)
      then (let positions = or_default (lookup first.stream_id st.streams) in
          let (events, positions', event_ids) =
            commit_loop st.events positions st.event_ids (first ∷ rest) in
          ok (record {
            events = events;
            streams = insert first.stream_id positions' st.streams;
            event_ids = event_ids;
          }))
      else panic

  unfoldable pub append :
      InMemoryStore E
      → StreamId
      → ExpectedVersion
      → List (NewEvent E)
      → Result (List (StoredEvent E) × InMemoryStore E)
  append st stream expected events = do
    committed ← prepare_append st stream expected events
    st' ← commit_prepared st committed
    ok (committed, st')

  pub restore_step : InMemoryStore E → StoredEvent E → Result (InMemoryStore E)
  restore_step st event = do
    expected_position ← u64_from (length st.events)
    (if eqb event.global_position expected_position
        then ok tt
        else err
            (invalid_replay (ReplayReason.global_position event.global_position expected_position)))
    actual ← stream_version st event.stream_id
    expected_version ← next_after actual
    (if eqb event.stream_version expected_version
        then ok tt
        else err (
            invalid_replay
              (ReplayReason.stream_version event.stream_id event.stream_version expected_version)))
    (if contains event.id st.event_ids then err (duplicate_event event.id) else ok tt)
    ok (record {
      events = st.events ++ event ∷ [];
      streams =
          insert event.stream_id
            (or_default (lookup event.stream_id st.streams) ++ length st.events ∷ []) st.streams;
      event_ids = set_insert event.id st.event_ids;
    })

  pub restore_loop : InMemoryStore E → List (StoredEvent E) → Result (InMemoryStore E)
  restore_loop st [] = ok st
  restore_loop st (event ∷ events) = do st' ← restore_step st event; restore_loop st' events

  pub restore : List (StoredEvent E) → Result (InMemoryStore E)
  restore events = restore_loop empty_store events

  pub load_stream : InMemoryStore E → StreamId → Option ℕ → Result (List (StoredEvent E))
  load_stream st stream after = do
    events ←
        try_map (λ index. or_panic (get_elem? st.events index))
          (or_default (lookup stream st.streams))
    ok (filter (λ e. is_after after e.stream_version) events)

  pub load_all : InMemoryStore E → Option ℕ → (limit : ℕ) → List (StoredEvent E)
  load_all st after limit = take limit (filter (λ e. is_after after e.global_position) st.events)

  pub len : InMemoryStore E → ℕ
  len st = length st.events
