-- ===== src/Examples/Replays.antt =====
-- Replay, subscriptions, the identifier index and the token estimate at concrete inputs.
use weavatrix_memory.Base.{
  ℕ, ◌+◌, ◌≤◌, ◌≡◌, refl, ap, ◌↔◌, none, some, List, [], ◌∷◌, ◌++◌, arith, length, drop,
  if◌then◌else◌, ◌==◌, ok,
}
use weavatrix_memory.Map.{contains, set_insert, lookup, insert, text_key}
use weavatrix_memory.Event.{StoredEvent}
use weavatrix_memory.Store.Log.{IsLog}
use weavatrix_memory.Store.Load.{from_cursor}
use weavatrix_memory.Store.Restore.{restore_succeeds}
use weavatrix_memory.Index.{empty_index, get_hashed, insert_hashed}
use weavatrix_memory.Index.Refinement.{get_hashed-insert_hashed}
use weavatrix_memory.Subscription.{EventSource, in_memory, CatchUpSubscription, acknowledge}
use weavatrix_memory.Subscription.Delivery.{acknowledge_iff, consume, consume_all, cursor_of}
use weavatrix_memory.Replay.{
  Projection, IsLawful, ReplayCursor, replay_tracked, replay, replay_owned, resume, apply_sequence,
  apply_loop, validate_next,
}
use weavatrix_memory.Replay.Cursor.{IsBehind}
use weavatrix_memory.Replay.Sequence.{fold_apply}
use weavatrix_memory.Replay.Resume.{replay_tracked-IsLog, resume-append, replay_owned-eq-replay}
use weavatrix_memory.Examples.{stored, log}

-- A projection that adds up the payloads.
abbrev sum : Projection ℕ ℕ
sum = record {
  default = 0;
  prepare_replay = λ total events. total;
  apply = λ total event. ok (total + event.payload);
  apply_owned = λ total event. ok (total + event.payload);
}

sum-IsLawful : IsLawful sum
sum-IsLawful = record { silent = λ total events. refl; owned = λ total event. refl }

log-IsLog : IsLog log
unfolding contains
log-IsLog = ((refl, refl, refl), ((refl, refl, refl), ((refl, refl, refl), tt)))

abbrev first_two : List (StoredEvent ℕ)
first_two = stored "e0" "a" 0 0 ∷ stored "e1" "b" 0 1 ∷ []

abbrev last_one : List (StoredEvent ℕ)
last_one = stored "e2" "a" 1 2 ∷ []

abbrev cursor_after : ReplayCursor
cursor_after = record { global_position = some 1; stream_versions = ("a", 0) ∷ ("b", 0) ∷ [] }

first_two-replayed : replay_tracked sum first_two ≡ ok (20, cursor_after)
unfolding replay_tracked apply_sequence apply_loop validate_next contains set_insert lookup insert
first_two-replayed = refl

replay_tracked-IsLog_example :
    IsLog first_two × (fold_apply sum 0 first_two ≡ ok 20) × IsBehind first_two cursor_after
replay_tracked-IsLog_example =
    replay_tracked-IsLog sum sum-IsLawful first_two 20 cursor_after (omega arith) first_two-replayed

resume-append_example :
    resume sum (record { cursor = cursor_after; projection = 20 }) last_one
    ≡ replay_tracked sum (first_two ++ last_one)
resume-append_example =
    resume-append sum sum-IsLawful first_two last_one 20 cursor_after log-IsLog (omega arith)
      first_two-replayed

replay_owned-eq-replay_example : replay_owned sum log ≡ replay sum log
replay_owned-eq-replay_example = replay_owned-eq-replay sum sum-IsLawful log

abbrev delivered : CatchUpSubscription
delivered = record {
  checkpoint = record { global_position = some 1 };
  delivered_through = some 2;
  batch_size = 4;
}

abbrev acknowledged : CatchUpSubscription
acknowledged = record {
  checkpoint = record { global_position = some 2 };
  delivered_through = none;
  batch_size = 4;
}

acknowledge_iff_example : (acknowledge delivered 2 ≡ ok acknowledged) ↔ (
    (d : ℕ) × (some 2 ≡ some d)
    × (2 ≤ d)
    × (from_cursor (some 1) ≤ 3)
    × (acknowledged ≡ acknowledged))
acknowledge_iff_example = acknowledge_iff delivered acknowledged 2

abbrev source : EventSource ℕ
source =
    in_memory (restore_succeeds log log-IsLog (omega arith)).0
      (restore_succeeds log log-IsLog (omega arith)).3

abbrev fresh : CatchUpSubscription
fresh = record {
  checkpoint = record { global_position = none };
  delivered_through = none;
  batch_size = 2;
}

source-length : length source.log ≤ cursor_of fresh + 3
source-length = omega (arith, ap length (restore_succeeds log log-IsLog (omega arith)).2)

consume_all_example : consume source 3 fresh ≡ drop (cursor_of fresh) source.log
consume_all_example = consume_all source 3 fresh (omega arith) (omega arith) source-length

-- Two identifiers with one fingerprint.
get_hashed-insert_hashed_example :
    get_hashed (insert_hashed (insert_hashed (empty_index 0) "x" 1 7).1 "y" 2 7).1 "x" 7
    ≡ (if "y" == "x" then some 2 else get_hashed (insert_hashed (empty_index 0) "x" 1 7).1 "x" 7)
get_hashed-insert_hashed_example =
    get_hashed-insert_hashed (insert_hashed (empty_index 0) "x" 1 7).1 "y" "x" 2 7 7 (λ p. refl)
