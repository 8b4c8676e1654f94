-- ===== src/Examples/Stores.antt =====
-- The stores and their restart at concrete inputs.
use weavatrix_memory.Base.{
  ℕ, ◌≡◌, refl, ◌≢◌, true, Option, none, some, List, [], ◌∷◌, ◌++◌, map, arith, length, filter,
  take, drop, ok, err, panic, ◌>>=◌, version_conflict, duplicate_event,
}
use weavatrix_memory.Map.{contains, set_insert, insert, text_key, lookup}
use weavatrix_memory.Domain.{StreamId, EventId}
use weavatrix_memory.Event.{NewEvent, StoredEvent}
use weavatrix_memory.Store.{
  InMemoryStore, any_version, no_stream, exact, empty_store, from_events, append, prepare_append,
  prepare_loop, commit_prepared, commit_loop, unique_ids, unique_ids_loop, check_expected, restore,
  load_stream, load_all, stream_version, is_after,
}
use weavatrix_memory.Store.Owned.{append_owned, append_owned_receipt, append_owned-eq-append}
use weavatrix_memory.Store.Log.{of_stream, ids, IsLog}
use weavatrix_memory.Store.Consistent.{IsConsistent}
use weavatrix_memory.Store.Prepare.{AreNew, envelopes, count}
use weavatrix_memory.Store.Append.{
  append-IsConsistent, append_succeeds, append_conflict, append_duplicate, append-ne-panic,
}
use weavatrix_memory.Store.Restore.{empty-IsConsistent, restore-IsLog, restore_succeeds}
use weavatrix_memory.Store.Load.{from_cursor, load_stream-IsConsistent, load_all-IsConsistent}
use weavatrix_memory.Store.History.{Call, run, run_empty-IsConsistent, restart}
use weavatrix_memory.Examples.{draft, log}

abbrev batch : List (NewEvent ℕ)
batch = draft "e0" 3 ∷ draft "e1" 4 ∷ []

abbrev repeated : List (NewEvent ℕ)
repeated = draft "e0" 3 ∷ draft "e0" 4 ∷ []

-- The second call fails: the stream is there.
abbrev history : List (Call ℕ)
history =
    record { stream = "a"; expected = any_version; batch = batch }
    ∷ record { stream = "a"; expected = no_stream; batch = draft "e2" 5 ∷ [] }
    ∷ record { stream = "b"; expected = no_stream; batch = draft "e3" 6 ∷ [] }
    ∷ []

abbrev new_store : InMemoryStore ℕ
new_store = empty_store

abbrev committed : List (StoredEvent ℕ)
committed = envelopes "a" (count new_store "a") (length new_store.events) 0 batch

batch-AreNew : AreNew (ids new_store.events) batch
unfolding contains
batch-AreNew = (refl, (refl, tt))

repeated-not_new : ¬ AreNew (ids new_store.events) repeated
unfolding contains
repeated-not_new h = ground (arith, h)

log-IsLog : IsLog log
unfolding contains
log-IsLog = ((refl, refl, refl), ((refl, refl, refl), ((refl, refl, refl), tt)))

append_succeeds_example :
    (st' : InMemoryStore ℕ) × (append new_store "a" any_version batch ≡ ok (committed, st'))
    × (st'.events ≡ new_store.events ++ committed)
    × IsConsistent st'
append_succeeds_example =
    append_succeeds new_store "a" any_version batch empty-IsConsistent refl batch-AreNew
      (omega arith)

abbrev after_batch : InMemoryStore ℕ
after_batch =
    (append_succeeds new_store "a" any_version batch empty-IsConsistent refl batch-AreNew
      (omega arith)).0

append-IsConsistent_example :
    IsConsistent after_batch
    × (after_batch.events ≡ new_store.events ++ committed)
    × (committed ≡ committed)
append-IsConsistent_example =
    append-IsConsistent new_store "a" any_version batch committed after_batch empty-IsConsistent
      (append_succeeds new_store "a" any_version batch empty-IsConsistent refl batch-AreNew
        (omega arith)).1

append_conflict_example :
    append new_store "a" (exact 3) batch ≡ err (version_conflict "a" (some 3) none)
append_conflict_example = append_conflict new_store "a" (exact 3) batch empty-IsConsistent refl

append_duplicate_example :
    (id : EventId) × (append new_store "a" any_version repeated ≡ err (duplicate_event id))
    × (contains id (map (λ (e : NewEvent ℕ). e.id) repeated) ≡ true)
append_duplicate_example =
    append_duplicate new_store "a" any_version repeated empty-IsConsistent refl repeated-not_new

append-ne-panic_example : append (run new_store history) "a" (exact 1) batch ≢ panic
append-ne-panic_example =
    append-ne-panic (run new_store history) "a" (exact 1) batch (run_empty-IsConsistent history)

restore-IsLog_example :
    IsLog log
    × IsConsistent (restore_succeeds log log-IsLog (omega arith)).0
    × ((restore_succeeds log log-IsLog (omega arith)).0.events ≡ log)
restore-IsLog_example =
    restore-IsLog log (restore_succeeds log log-IsLog (omega arith)).0
      (restore_succeeds log log-IsLog (omega arith)).1

restore_succeeds_example :
    (st : InMemoryStore ℕ) × (restore log ≡ ok st) × (st.events ≡ log) × IsConsistent st
restore_succeeds_example = restore_succeeds log log-IsLog (omega arith)

load_stream-IsConsistent_example :
    load_stream (run new_store history) "a" (some 0)
    ≡ ok (
        filter
          (λ e. is_after (some 0) e.stream_version)
          (of_stream "a" (run new_store history).events))
load_stream-IsConsistent_example =
    load_stream-IsConsistent (run new_store history) "a" (some 0) (run_empty-IsConsistent history)

load_all-IsConsistent_example :
    load_all (run new_store history) (some 0) 1
    ≡ take 1 (drop (from_cursor (some 0)) (run new_store history).events)
load_all-IsConsistent_example =
    load_all-IsConsistent (run new_store history) (some 0) 1 (run_empty-IsConsistent history)

history-length : length (run new_store history).events ≡ 3
unfolding run append prepare_append prepare_loop commit_prepared commit_loop stream_version
    unique_ids unique_ids_loop check_expected lookup insert contains set_insert
history-length = refl

restart_example :
    (st : InMemoryStore ℕ) × (restore (run new_store history).events ≡ ok st)
    × ((s : StreamId) → stream_version st s ≡ stream_version (run new_store history) s)
    × ((s : StreamId) (after : Option ℕ)
        → load_stream st s after ≡ load_stream (run new_store history) s after)
    × ((after : Option ℕ) (limit : ℕ)
        → load_all st after limit ≡ load_all (run new_store history) after limit)
restart_example = restart history (omega (arith, history-length))

append_owned-eq-append_example :
    (append_owned new_store "a" no_stream batch ≡ append new_store "a" no_stream batch)
    × (append_owned_receipt new_store "a" no_stream batch
        ≡ (append new_store "a" no_stream batch >>= λ r. ok (from_events r.0, r.1)))
append_owned-eq-append_example = append_owned-eq-append new_store "a" no_stream batch
