-- ===== src/Replay/Resume.antt =====
-- projection/replay.rs: replay of logs, and resumption from a snapshot.
use weavatrix_memory.Base.{
  ◌+◌, ◌^◌, ◌≤◌, ◌≡◌, refl, sym, ap, ◌∙◌, Bool, true, false, List, [], ◌∷◌, ◌++◌, arith, map-append,
  length, length-append, inl, inr, ok, ◌>>=◌, >>=-eq-ok, ok_pair, Result-cases,
}
use weavatrix_memory.Map.{contains, contains-append, contains-set_insert, set_insert, text_key}
use weavatrix_memory.Domain.{EventId}
use weavatrix_memory.Event.{StoredEvent}
use weavatrix_memory.Store.Log.{IsLog, IsLogFrom, IsLogFrom-split, ids}
use weavatrix_memory.Replay.Cursor.{IsBehind, start-IsBehind}
use weavatrix_memory.Replay.Sequence.{
  AreFresh, AreNext, fold_apply, cursor_behind, apply_loop-eq, cursor_behind-IsBehind,
  cursor_behind-append, fold_apply-append, apply_loop_sound,
}
use weavatrix_memory.Replay.{
  Projection, IsLawful, ReplayCursor, start_cursor, advance, validate_next, apply_loop,
  apply_sequence, apply_owned_loop, apply_owned_sequence, replay_tracked, replay, replay_owned,
  resume,
}

-- `seen` after one more identifier, against a prefix that grows by it
grown :
    (x : EventId) (seen known : List EventId)
    → ((id : EventId) → contains id seen ≡ true → contains id known ≡ true)
    → (id : EventId) → contains id (set_insert x seen) ≡ true
    → contains id (known ++ x ∷ []) ≡ true
unfolding contains
grown x seen known h id c =
    ground (arith, contains-append id known (x ∷ []), contains-set_insert x id seen, h id)

shrunk :
    (x : EventId) (seen known : List EventId)
    → ((id : EventId) → contains id known ≡ true → contains id seen ≡ true)
    → (id : EventId) → contains id (known ++ x ∷ []) ≡ true
    → contains id (set_insert x seen) ≡ true
unfolding contains
shrunk x seen known h id c =
    ground (arith, contains-append id known (x ∷ []), contains-set_insert x id seen, h id)

nothing_seen :
    (id : EventId) (before : List EventId) → contains id [] ≡ true → contains id before ≡ true
unfolding contains
nothing_seen id before h = cc

module _ {E : Type 0} where
  AreNext-of_IsLogFrom :
      (before es : List (StoredEvent E)) (seen : List EventId)
      → ((id : EventId) → contains id seen ≡ true → contains id (ids before) ≡ true)
      → IsLogFrom before es
      → AreNext before es × AreFresh seen es
  AreNext-of_IsLogFrom before [] seen h l = (tt, tt)
  AreNext-of_IsLogFrom before (e ∷ es) seen h l =
      let (n, f) =
        AreNext-of_IsLogFrom (before ++ e ∷ []) es (set_insert e.id seen)
          (rw map-append (grown e.id seen (ids before) h)) l.1 in
      (((l.0.0, l.0.1), n), (ground (arith, h e.id, l), f))

  IsLogFrom-of_AreNext :
      (before es : List (StoredEvent E)) (seen : List EventId)
      → ((id : EventId) → contains id (ids before) ≡ true → contains id seen ≡ true)
      → AreNext before es
      → AreFresh seen es
      → IsLogFrom before es
  IsLogFrom-of_AreNext before [] seen h n f = tt
  IsLogFrom-of_AreNext before (e ∷ es) seen h n f = (
    (n.0.0, n.0.1, ground (arith, h e.id, f)),
    IsLogFrom-of_AreNext (before ++ e ∷ []) es (set_insert e.id seen)
        (rw map-append (shrunk e.id seen (ids before) h)) n.1 f.1,
  )

  module _ {P : Type 0} (projection : Projection E P) (lawful : IsLawful projection) where
    open projection use {default}

    tracked-eq :
        (es : List (StoredEvent E))
        → IsLog es
        → length es ≤ 2 ^ 64
        → replay_tracked projection es ≡ (
            fold_apply projection default es >>= λ p.
            ok (p, cursor_behind projection start_cursor [] es))
    unfolding replay_tracked apply_sequence
    tracked-eq es l b =
        let (n, f) = AreNext-of_IsLogFrom [] es [] (λ id h. h) l in
        rw (lawful.silent) (
          apply_loop-eq projection default start_cursor [] true [] es start-IsBehind n f
            (omega arith))

    -- Replaying a log of at most 2 ^ 64 events with a lawful projection is applying its events in
    -- order to the default, errors and panics of `apply` included.
    pub replay-IsLog :
        (es : List (StoredEvent E))
        → IsLog es
        → length es ≤ 2 ^ 64
        → replay projection es ≡ fold_apply projection default es
    unfolding replay
    replay-IsLog es l b =
        rw (tracked-eq es l b) (elim (Result-cases (fold_apply projection default es)) [
          | inl (p, q) ↦ rw q
          | inr (inl (e, q)) ↦ rw q
          | inr (inr q) ↦ rw q
        ])

    tracked_parts :
        (es : List (StoredEvent E)) (p : P) (c : ReplayCursor)
        → length es ≤ 2 ^ 64
        → replay_tracked projection es ≡ ok (p, c)
        → IsLog es
          × (fold_apply projection default es ≡ ok p)
          × (cursor_behind projection start_cursor [] es ≡ c)
    unfolding replay_tracked apply_sequence
    tracked_parts es p c b h =
        let h' = rw (lawful.silent default es) at h in
        let (n, f) =
          apply_loop_sound projection default start_cursor [] true [] es (p, c) start-IsBehind h' in
        let l = IsLogFrom-of_AreNext [] es [] (λ id k. k) n f in
        let (p', q, r) =
          >>=-eq-ok (fold_apply projection default es)
            (λ t. ok (t, cursor_behind projection start_cursor [] es))
            (sym (tracked-eq es l b) ∙ h) in
        let (same, stands) = ok_pair r in (l, q ∙ ap ok same, stands)

    -- If replaying at most 2 ^ 64 events with a lawful projection succeeds, the events are a log,
    -- the projection is the result of applying them in order, and the cursor stands behind the
    -- log.
    pub replay_tracked-IsLog :
        (es : List (StoredEvent E)) (p : P) (c : ReplayCursor)
        → length es ≤ 2 ^ 64
        → replay_tracked projection es ≡ ok (p, c)
        → IsLog es × (fold_apply projection default es ≡ ok p) × IsBehind es c
    replay_tracked-IsLog es p c b h =
        let (l, done, stands) = tracked_parts es p c b h in
        (
          l,
          done,
          rw stands at (cursor_behind-IsBehind projection start_cursor [] es start-IsBehind),
        )

    -- For a lawful projection and a log of at most 2 ^ 64 events: where replaying a prefix
    -- returned a projection and its cursor, resuming from that snapshot with the rest of the log
    -- returns what replaying the whole log returns.
    pub resume-append :
        (xs ys : List (StoredEvent E)) (p : P) (c : ReplayCursor)
        → IsLog (xs ++ ys)
        → length (xs ++ ys) ≤ 2 ^ 64
        → replay_tracked projection xs ≡ ok (p, c)
        → resume projection (record { cursor = c; projection = p }) ys
          ≡ replay_tracked projection (xs ++ ys)
    unfolding resume apply_sequence
    resume-append xs ys p c l b h =
        let fits : length xs + length ys ≤ 2 ^ 64 = omega (arith, b, length-append xs ys) in
        let (_, done, stands) = tracked_parts xs p c (omega arith) h in
        let (_, ly) = IsLogFrom-split [] xs ys l in
        let (n, f) = AreNext-of_IsLogFrom xs ys [] (λ id. nothing_seen id (ids xs)) ly in
        let behind = cursor_behind-IsBehind projection start_cursor [] xs start-IsBehind in
        rw
          (
            lawful.silent,
            tracked-eq (xs ++ ys) l b,
            fold_apply-append,
            done,
            cursor_behind-append,
            stands,
          )
          (apply_loop-eq projection p c [] false xs ys (rw stands at behind) n f fits)

    apply_owned_loop-eq :
        (p : P) (cursor : ReplayCursor) (seen : List EventId) (z : Bool) (es : List (StoredEvent E))
        → apply_owned_loop projection p cursor seen z es ≡ apply_loop projection p cursor seen z es
    unfolding apply_owned_loop apply_loop
    apply_owned_loop-eq p cursor seen z [] = refl
    apply_owned_loop-eq p cursor seen z (e ∷ es) =
        elim (Result-cases (validate_next cursor seen e z)) [
          | inl (next, q) ↦
              rw (q, lawful.owned)
                (elim (Result-cases (projection.apply p e)) [
                  | inl (p', a) ↦ rw (
                    a,
                    apply_owned_loop-eq p' (advance cursor e.stream_id next.0 next.1) next.2 z es,
                  )
                  | inr (inl (x, a)) ↦ rw a
                  | inr (inr a) ↦ rw a
                ])
          | inr (inl (x, q)) ↦ rw q
          | inr (inr q) ↦ rw q
        ]

    -- For a lawful projection, `replay_owned` returns what `replay` returns on every list of
    -- events.
    pub replay_owned-eq-replay :
        (es : List (StoredEvent E)) → replay_owned projection es ≡ replay projection es
    unfolding replay_owned replay replay_tracked apply_sequence apply_owned_sequence
    replay_owned-eq-replay es =
        rw (apply_owned_loop-eq (projection.prepare_replay default es) start_cursor [] true es)
