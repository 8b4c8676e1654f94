-- ===== src/Replay/Invariant.antt =====
-- projection/replay.rs: invariants of a projection under replay.
use weavatrix_memory.Base.{
  ℕ, ◌≡◌, sym, subst, ◌≢◌, Bool, true, false, Option, none, some, List, [], ◌∷◌, arith, Result, ok,
  err, panic, >>=-eq-ok, Result-cases, MemoryError, ◌⊎◌, inl, inr, ok_injective, >>=-ne-panic,
  ok-ne-panic,
}
use weavatrix_memory.Map.{lookup, text_key}
use weavatrix_memory.Domain.{EventId}
use weavatrix_memory.Event.{StoredEvent}
use weavatrix_memory.Store.{next_after}
use weavatrix_memory.Replay.{
  Projection, IsLawful, ReplayCursor, ProjectionSnapshot, start_cursor, advance, validate_next,
  apply_loop, apply_sequence, replay_tracked, resume,
}

-- The call returns a projection with the property, or an error; it does not panic.
abbrev pub Outcome : {P : Type 0} → (P → Type 0) → Result (P × ReplayCursor) → Type 0
Outcome {P = P} I result =
    ((r : P × ReplayCursor) × (result ≡ ok r) × I r.0) ⊎ ((e : MemoryError) × (result ≡ err e))

-- What a projection must show of an invariant.
pub record IsInvariant {E P : Type 0} (projection : Projection E P) (I : P → Type 0) : Type 0 where
  pub start : I projection.default
  pub keeps : (p p' : P) (e : StoredEvent E) → I p → projection.apply p e ≡ ok p' → I p'
  pub total : (p : P) (e : StoredEvent E) → I p → projection.apply p e ≢ panic

next_after-ne-panic : (o : Option ℕ) → next_after o ≢ panic
next_after-ne-panic none = ok-ne-panic 0
next_after-ne-panic (some n) = ground arith

module _ {E : Type 0} where
  validate_next-ne-panic :
      (cursor : ReplayCursor) (seen : List EventId) (e : StoredEvent E) (zero_start : Bool)
      → validate_next cursor seen e zero_start ≢ panic
  unfolding validate_next
  validate_next-ne-panic cursor seen e zero_start = ground (
    arith,
    next_after-ne-panic cursor.global_position,
    next_after-ne-panic (lookup e.stream_id cursor.stream_versions),
  )

  module _ {P : Type 0} (projection : Projection E P) (I : P → Type 0)
      (invariant : IsInvariant projection I) where
    open projection use {default, apply, prepare_replay}

    apply_loop-keeps :
        (p : P) (cursor : ReplayCursor) (seen : List EventId) (zero_start : Bool)
        (es : List (StoredEvent E)) (r : P × ReplayCursor)
        → I p
        → apply_loop projection p cursor seen zero_start es ≡ ok r
        → I r.0
    unfolding apply_loop
    apply_loop-keeps p cursor seen zero_start [] r i h =
        subst (λ (t : P × ReplayCursor). I t.0) (ok_injective h) i
    apply_loop-keeps p cursor seen zero_start (e ∷ es) r i h =
        let (next, valid, h₁) = >>=-eq-ok (validate_next cursor seen e zero_start) _ h in
        let (p', done, h₂) = >>=-eq-ok (apply p e) _ h₁ in
        apply_loop-keeps p' (advance cursor e.stream_id next.0 next.1) next.2 zero_start es r
          (invariant.keeps p p' e i done) h₂

    apply_loop-ne-panic :
        (p : P) (cursor : ReplayCursor) (seen : List EventId) (zero_start : Bool)
        (es : List (StoredEvent E))
        → I p
        → apply_loop projection p cursor seen zero_start es ≢ panic
    unfolding apply_loop
    apply_loop-ne-panic p cursor seen zero_start [] i = ok-ne-panic (p, cursor)
    apply_loop-ne-panic p cursor seen zero_start (e ∷ es) i =
        >>=-ne-panic (validate_next cursor seen e zero_start) _
          (validate_next-ne-panic cursor seen e zero_start)
          (λ next valid. >>=-ne-panic (apply p e) _ (invariant.total p e i) (λ p' done.
            apply_loop-ne-panic p' (advance cursor e.stream_id next.0 next.1) next.2 zero_start es
              (invariant.keeps p p' e i done)))

    apply_loop-Outcome :
        (p : P) (cursor : ReplayCursor) (zero_start : Bool) (es : List (StoredEvent E))
        → I p
        → Outcome I (apply_loop projection p cursor [] zero_start es)
    apply_loop-Outcome p cursor zero_start es i =
        elim (Result-cases (apply_loop projection p cursor [] zero_start es)) [
          | inl (r, h) ↦ inl (r, h, apply_loop-keeps p cursor [] zero_start es r i h)
          | inr (inl failed) ↦ inr failed
          | inr (inr h) ↦ elim (apply_loop-ne-panic p cursor [] zero_start es i h) [ ]
        ]

    -- Replaying any list of events ends with an error or with a state of which the invariant holds.
    pub replay_tracked-keeps :
        (es : List (StoredEvent E)) → IsLawful projection → Outcome I (replay_tracked projection es)
    unfolding replay_tracked apply_sequence
    replay_tracked-keeps es lawful =
        apply_loop-Outcome (prepare_replay default es) start_cursor true es
          (subst I (sym (lawful.silent default es)) invariant.start)

    -- So does resuming from a snapshot of which it holds.
    pub resume-keeps :
        (snapshot : ProjectionSnapshot P) (tail : List (StoredEvent E))
        → IsLawful projection
        → I snapshot.projection
        → Outcome I (resume projection snapshot tail)
    unfolding resume apply_sequence
    resume-keeps snapshot tail lawful start =
        apply_loop-Outcome (prepare_replay snapshot.projection tail) snapshot.cursor false tail
          (subst I (sym (lawful.silent snapshot.projection tail)) start)
