-- ===== src/Replay/Sequence.antt =====
-- projection/replay.rs, `apply_sequence`: its loop against the log that it continues.
use weavatrix_memory.Base.{
  ℕ, ◌+◌, ◌^◌, ◌≤◌, ◌≡◌, refl, sym, ap, ◌∙◌, Bool, false, List, [], ◌∷◌, ◌++◌, append_assoc,
  append-nil, arith, length, length-snoc, inl, inr, Result, ok, ◌>>=◌, >>=-eq-ok, Result-cases,
}
use weavatrix_memory.Map.{contains, set_insert, text_key}
use weavatrix_memory.Domain.{EventId}
use weavatrix_memory.Event.{StoredEvent}
use weavatrix_memory.Store.Log.{of_stream}
use weavatrix_memory.Replay.Cursor.{
  IsBehind, Follows, advance-IsBehind, validate_next_succeeds, validate_next-Follows,
}
use weavatrix_memory.Replay.{Projection, ReplayCursor, advance, validate_next, apply_loop}

module _ {E : Type 0} where
  -- The identifiers of the events are new, to `seen` and to one another.
  abbrev pub AreFresh : List EventId → List (StoredEvent E) → Type 0
  AreFresh seen [] = Unit {0}
  AreFresh seen (e ∷ es) = (contains e.id seen ≡ false) × AreFresh (set_insert e.id seen) es

  -- The events continue the log `before` by position and version.
  abbrev pub AreNext : List (StoredEvent E) → List (StoredEvent E) → Type 0
  AreNext before [] = Unit {0}
  AreNext before (e ∷ es) = Follows before e × AreNext (before ++ e ∷ []) es

  module _ {P : Type 0} (projection : Projection E P) where
    open projection use {apply}

    -- The projection after the events, with no validation.
    unfoldable pub fold_apply : P → List (StoredEvent E) → Result P
    fold_apply p [] = ok p
    fold_apply p (e ∷ es) = do p' ← apply p e; fold_apply p' es

    pub cursor_behind : ReplayCursor → (before es : List (StoredEvent E)) → ReplayCursor
    cursor_behind cursor before [] = cursor
    cursor_behind cursor before (e ∷ es) =
        cursor_behind
          (advance cursor e.stream_id (length before) (length (of_stream e.stream_id before)))
          (before ++ e ∷ []) es

    pub apply_loop-eq :
        (p : P) (cursor : ReplayCursor) (seen : List EventId) (zero_start : Bool)
        (before es : List (StoredEvent E))
        → IsBehind before cursor
        → AreNext before es
        → AreFresh seen es
        → length before + length es ≤ 2 ^ 64
        → apply_loop projection p cursor seen zero_start es
          ≡ (fold_apply p es >>= λ p'. ok (p', cursor_behind cursor before es))
    unfolding apply_loop fold_apply cursor_behind
    apply_loop-eq p cursor seen zero_start before [] b n f l = refl
    apply_loop-eq p cursor seen zero_start before (e ∷ es) b n f l =
        rw (validate_next_succeeds before cursor seen e zero_start b n.0 f.0 (omega arith))
          (elim (Result-cases (apply p e)) [
            | inl (p', q) ↦ rw (
              q,
              apply_loop-eq p'
                  (advance cursor e.stream_id (length before)
                    (length (of_stream e.stream_id before)))
                  (set_insert e.id seen) zero_start (before ++ e ∷ []) es
                  (advance-IsBehind before cursor e b) n.1 f.1
                  (omega (arith, length-snoc before e)),
            )
            | inr (inl (x, q)) ↦ rw q
            | inr (inr q) ↦ rw q
          ])

    pub cursor_behind-IsBehind :
        (cursor : ReplayCursor) (before es : List (StoredEvent E))
        → IsBehind before cursor
        → IsBehind (before ++ es) (cursor_behind cursor before es)
    unfolding cursor_behind
    cursor_behind-IsBehind cursor before [] b = rw append-nil b
    cursor_behind-IsBehind cursor before (e ∷ es) b = rw append_assoc at (
        cursor_behind-IsBehind
          (advance cursor e.stream_id (length before) (length (of_stream e.stream_id before)))
          (before ++ e ∷ []) es (advance-IsBehind before cursor e b))

    pub cursor_behind-append :
        (cursor : ReplayCursor) (before xs ys : List (StoredEvent E))
        → cursor_behind cursor before (xs ++ ys)
          ≡ cursor_behind (cursor_behind cursor before xs) (before ++ xs) ys
    unfolding cursor_behind
    cursor_behind-append cursor before [] ys = rw append-nil
    cursor_behind-append cursor before (x ∷ xs) ys =
        cursor_behind-append
          (advance cursor x.stream_id (length before) (length (of_stream x.stream_id before)))
          (before ++ x ∷ []) xs ys
        ∙ ap (λ b. cursor_behind (cursor_behind cursor before (x ∷ xs)) b ys)
            (append_assoc before (x ∷ []) xs)

    pub fold_apply-append :
        (p : P) (xs ys : List (StoredEvent E))
        → fold_apply p (xs ++ ys) ≡ (fold_apply p xs >>= λ p'. fold_apply p' ys)
    unfolding fold_apply
    fold_apply-append p [] ys = refl
    fold_apply-append p (x ∷ xs) ys = elim (Result-cases (apply p x)) [
      | inl (p', q) ↦ rw q (fold_apply-append p' xs ys)
      | inr (inl (e, q)) ↦ rw q
      | inr (inr q) ↦ rw q
    ]

    pub apply_loop_sound :
        (p : P) (cursor : ReplayCursor) (seen : List EventId) (zero_start : Bool)
        (before es : List (StoredEvent E)) (r : P × ReplayCursor)
        → IsBehind before cursor
        → apply_loop projection p cursor seen zero_start es ≡ ok r
        → AreNext before es × AreFresh seen es
    unfolding apply_loop
    apply_loop_sound p cursor seen zero_start before [] r b h = (tt, tt)
    apply_loop_sound p cursor seen zero_start before (e ∷ es) r b h =
        let (next, valid, h₁) = >>=-eq-ok (validate_next cursor seen e zero_start) _ h in
        let (p', done, h₂) = >>=-eq-ok (apply p e) _ h₁ in
        let (f, new, q) = validate_next-Follows before cursor seen e zero_start next b valid in
        let step = λ (t : ℕ × ℕ × List EventId).
          apply_loop projection p' (advance cursor e.stream_id t.0 t.1) t.2 zero_start es in
        let (n, fr) =
          apply_loop_sound p'
            (advance cursor e.stream_id (length before) (length (of_stream e.stream_id before)))
            (set_insert e.id seen) zero_start (before ++ e ∷ []) es r
            (advance-IsBehind before cursor e b) (sym (ap step q) ∙ h₂) in
        ((f, n), (new, fr))
