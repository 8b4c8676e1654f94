-- ===== src/Replay.antt =====
-- projection/replay.rs: replaying a log into a projection, and resuming from a snapshot.
pub mod Cursor
pub mod Sequence
pub mod Resume
pub mod Invariant
use weavatrix_memory.Base.{
  ℕ, ◌≡◌, Bool, true, false, ◌&&◌, not, Option, none, some, List, [], ◌∷◌, eqb, if◌then◌else◌,
  Result, ok, err, ◌>>=◌, ◌>>◌, duplicate_event, invalid_replay, ReplayReason,
}
use weavatrix_memory.Map.{Map, lookup, insert, contains, set_insert, text_key}
use weavatrix_memory.Domain.{EventId, StreamId}
use weavatrix_memory.Event.{StoredEvent}
use weavatrix_memory.Store.{next_after}

-- The trait `Projection`, `Default` included.
pub record Projection (E P : Type 0) : Type 0 where
  pub default : P
  pub prepare_replay : P → List (StoredEvent E) → P
  pub apply : P → StoredEvent E → Result P
  pub apply_owned : P → StoredEvent E → Result P

-- What the trait's documentation asks of an implementation.
pub record IsLawful {E P : Type 0} (projection : Projection E P) : Type 0 where
  pub silent : (p : P) (events : List (StoredEvent E)) → projection.prepare_replay p events ≡ p
  pub owned :
      (p : P) (event : StoredEvent E) → projection.apply_owned p event ≡ projection.apply p event

pub record ReplayCursor : Type 0 where
  pub global_position : Option ℕ
  pub stream_versions : Map StreamId ℕ

abbrev pub start_cursor : ReplayCursor
start_cursor = record { global_position = none; stream_versions = [] }

pub record ProjectionSnapshot (P : Type 0) : Type 0 where
  pub cursor : ReplayCursor
  pub projection : P

abbrev pub is_none : Option ℕ → Bool
is_none none = true
is_none (some n) = false

abbrev pub advance : ReplayCursor → StreamId → (position version : ℕ) → ReplayCursor
advance cursor stream position version = record {
  global_position = some position;
  stream_versions = insert stream version cursor.stream_versions;
}

module _ {E : Type 0} where
  -- The result carries the set `event_ids`, which the code mutates.
  unfoldable pub validate_next :
      ReplayCursor
      → (event_ids : List EventId) → StoredEvent E
      → (require_zero_start : Bool) → Result (ℕ × ℕ × List EventId)
  validate_next cursor event_ids event require_zero_start = do
    (if contains event.id event_ids then err (duplicate_event event.id) else ok tt)
    expected_position ← next_after cursor.global_position
    (if require_zero_start && is_none cursor.global_position && not (eqb expected_position 0)
        then err (invalid_replay ReplayReason.not_at_zero)
        else ok tt)
    (if eqb event.global_position expected_position
        then ok tt
        else err
            (invalid_replay (ReplayReason.global_position event.global_position expected_position)))
    expected_version ← next_after (lookup event.stream_id cursor.stream_versions)
    (if eqb event.stream_version expected_version
        then ok tt
        else err (
            invalid_replay
              (ReplayReason.stream_version event.stream_id event.stream_version expected_version)))
    ok (expected_position, expected_version, set_insert event.id event_ids)

  module _ {P : Type 0} (projection : Projection E P) where
    open projection use {default, prepare_replay, apply, apply_owned}

    unfoldable pub apply_loop :
        P
        → ReplayCursor
        → (event_ids : List EventId) → (require_zero_start : Bool) → List (StoredEvent E)
        → Result (P × ReplayCursor)
    apply_loop p cursor event_ids require_zero_start [] = ok (p, cursor)
    apply_loop p cursor event_ids require_zero_start (event ∷ events) = do
      next ← validate_next cursor event_ids event require_zero_start
      p' ← apply p event
      apply_loop p' (advance cursor event.stream_id next.0 next.1) next.2 require_zero_start events

    unfoldable pub apply_sequence :
        P
        → ReplayCursor
        → List (StoredEvent E)
        → (require_zero_start : Bool) → Result (P × ReplayCursor)
    apply_sequence p cursor events require_zero_start =
        apply_loop (prepare_replay p events) cursor [] require_zero_start events

    pub apply_owned_loop :
        P
        → ReplayCursor
        → (event_ids : List EventId) → (require_zero_start : Bool) → List (StoredEvent E)
        → Result (P × ReplayCursor)
    apply_owned_loop p cursor event_ids require_zero_start [] = ok (p, cursor)
    apply_owned_loop p cursor event_ids require_zero_start (event ∷ events) = do
      next ← validate_next cursor event_ids event require_zero_start
      let stream = event.stream_id
      p' ← apply_owned p event
      apply_owned_loop p' (advance cursor stream next.0 next.1) next.2 require_zero_start events

    pub apply_owned_sequence :
        P
        → ReplayCursor
        → List (StoredEvent E)
        → (require_zero_start : Bool) → Result (P × ReplayCursor)
    apply_owned_sequence p cursor events require_zero_start =
        apply_owned_loop (prepare_replay p events) cursor [] require_zero_start events

    unfoldable pub replay_tracked : List (StoredEvent E) → Result (P × ReplayCursor)
    replay_tracked events = apply_sequence default start_cursor events true

    pub replay : List (StoredEvent E) → Result P
    replay events = do r ← replay_tracked events; ok r.0

    pub replay_owned : List (StoredEvent E) → Result P
    replay_owned events = do r ← apply_owned_sequence default start_cursor events true; ok r.0

    pub resume : ProjectionSnapshot P → (tail : List (StoredEvent E)) → Result (P × ReplayCursor)
    resume snapshot tail = apply_sequence snapshot.projection snapshot.cursor tail false
