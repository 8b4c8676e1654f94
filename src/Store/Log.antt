-- ===== src/Store/Log.antt =====
-- The abstract view of an event store: the log, a list of events in the order of their commits. A
-- list is a log if each event carries the next global position, the next version of its stream, and
-- an identifier that no earlier event has.
use weavatrix_memory.Base.{
  ℕ, zero, suc, ◌+◌, ◌≡◌, refl, ap, false, Option, none, some, List, [], ◌∷◌, ◌++◌, map, arith,
  ◌==◌, if◌then◌else◌, length, length-snoc, get_last?, get_last?-snoc, filter, filter-append,
  append_assoc, append-nil, inl, inr, ==-cases,
}
use native.Mathlib.Nat.{add-zero}
use weavatrix_memory.Map.{contains, text_key}
use weavatrix_memory.Domain.{EventId, StreamId}
use weavatrix_memory.Event.{StoredEvent}

-- the version of the last of `n` events of a stream
abbrev pub last_of : ℕ → Option ℕ
last_of zero = none
last_of (suc n) = some n

module _ {E : Type 0} where
  abbrev pub of_stream : StreamId → List (StoredEvent E) → List (StoredEvent E)
  of_stream s es = filter (λ e. e.stream_id == s) es

  abbrev pub ids : List (StoredEvent E) → List EventId
  ids es = map (λ e. e.id) es

  -- `e` may follow the log `before`
  abbrev pub IsNext : List (StoredEvent E) → StoredEvent E → Type 0
  IsNext before e =
      (e.global_position ≡ length before)
      × (e.stream_version ≡ length (of_stream e.stream_id before))
      × (contains e.id (ids before) ≡ false)

  abbrev pub IsLogFrom : (before es : List (StoredEvent E)) → Type 0
  IsLogFrom before [] = Unit {0}
  IsLogFrom before (e ∷ es) = IsNext before e × IsLogFrom (before ++ e ∷ []) es

  abbrev pub IsLog : List (StoredEvent E) → Type 0
  IsLog es = IsLogFrom [] es

  pub IsLogFrom-append :
      (before xs ys : List (StoredEvent E))
      → IsLogFrom before xs
      → IsLogFrom (before ++ xs) ys
      → IsLogFrom before (xs ++ ys)
  IsLogFrom-append before [] ys h k = rw append-nil at k
  IsLogFrom-append before (x ∷ xs) ys h k =
      (h.0, IsLogFrom-append (before ++ x ∷ []) xs ys h.1 (rw append_assoc k))

  pub IsLogFrom-split :
      (before xs ys : List (StoredEvent E))
      → IsLogFrom before (xs ++ ys)
      → IsLogFrom before xs × IsLogFrom (before ++ xs) ys
  IsLogFrom-split before [] ys h = (tt, rw append-nil h)
  IsLogFrom-split before (x ∷ xs) ys h =
      let (l, r) = IsLogFrom-split (before ++ x ∷ []) xs ys h.1 in ((h.0, l), rw append_assoc at r)

  abbrev pub version_of : Option (StoredEvent E) → Option ℕ
  version_of none = none
  version_of (some e) = some e.stream_version

  abbrev IsCounted : List (StoredEvent E) → Type 0
  IsCounted es =
      (s : StreamId) → version_of (get_last? (of_stream s es)) ≡ last_of (length (of_stream s es))

  pub of_stream-snoc :
      (s : StreamId) (es : List (StoredEvent E)) (e : StoredEvent E)
      → of_stream s (es ++ e ∷ [])
        ≡ (if e.stream_id == s then of_stream s es ++ e ∷ [] else of_stream s es)
  of_stream-snoc s es e = rw filter-append (ground (arith, append-nil (of_stream s es)))

  IsCounted-snoc :
      (es : List (StoredEvent E)) (e : StoredEvent E)
      → IsCounted es
      → IsNext es e
      → IsCounted (es ++ e ∷ [])
  IsCounted-snoc es e h n s = elim (==-cases e.stream_id s) [
    | inl (p, t) ↦ rw (of_stream-snoc s es e, t, get_last?-snoc, length-snoc, n.1, p)
    | inr (p, t) ↦ rw (of_stream-snoc s es e, t) (h s)
  ]

  IsCounted-log :
      (before es : List (StoredEvent E))
      → IsCounted before
      → IsLogFrom before es
      → IsCounted (before ++ es)
  IsCounted-log before [] h l = rw append-nil h
  IsCounted-log before (e ∷ es) h l =
      rw append_assoc at (IsCounted-log (before ++ e ∷ []) es (IsCounted-snoc before e h l.0) l.1)

  -- In a log the last event of a stream has the version that its number of events gives.
  pub last_version-IsLog :
      (es : List (StoredEvent E)) (s : StreamId)
      → IsLog es
      → version_of (get_last? (of_stream s es)) ≡ last_of (length (of_stream s es))
  last_version-IsLog es s l = IsCounted-log [] es (λ t. refl) l s

  -- The positions, counted from `n`, of the events of a stream.
  unfoldable pub indices : StreamId → (n : ℕ) → List (StoredEvent E) → List ℕ
  indices s n [] = []
  indices s n (e ∷ es) =
      let rest = indices s (suc n) es in if e.stream_id == s then n ∷ rest else rest

  pub indices-append :
      (s : StreamId) (n : ℕ) (xs ys : List (StoredEvent E))
      → indices s n (xs ++ ys) ≡ indices s n xs ++ indices s (n + length xs) ys
  unfolding indices
  indices-append s n [] ys = rw add-zero
  indices-append s n (x ∷ xs) ys =
      let e : suc n + length xs ≡ n + suc (length xs) = omega arith in
      ground (arith, indices-append s (suc n) xs ys, ap (λ k. indices s k ys) e)
