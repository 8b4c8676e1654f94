-- ===== src/Subscription/Delivery.antt =====
-- store/subscription.rs: what a subscription delivers and acknowledges.
use weavatrix_memory.Base.{
  ℕ, zero, suc, ◌+◌, ◌-◌, ◌≤◌, ◌<◌, ◌≡◌, refl, ap, sym, ◌∙◌, ◌↔◌, none, some, List, [], ◌∷◌, ◌++◌,
  min, arith, get_last?, take, drop, length, length-snoc, length-take, length-drop, drop-drop,
  drop-eq-nil, take_rest, List-cases, Result, ok, err, panic, Option-cases, inl, inr,
}
use weavatrix_memory.Event.{StoredEvent}
use weavatrix_memory.Store.Log.{IsLogFrom}
use weavatrix_memory.Store.Load.{from_cursor}
use weavatrix_memory.Subscription.{EventSource, CatchUpSubscription, poll, acknowledge, position_of}

-- `acknowledge` accepts exactly the positions from the checkpoint to the last delivered event, and
-- then moves the checkpoint there and forgets the delivery.
pub acknowledge_iff :
    (sub sub' : CatchUpSubscription) (position : ℕ)
    → (acknowledge sub position ≡ ok sub') ↔ (
        (d : ℕ) × (sub.delivered_through ≡ some d)
        × (position ≤ d)
        × (from_cursor sub.checkpoint.global_position ≤ suc position)
        × (sub' ≡ record sub {
          checkpoint = record { global_position = some position };
          delivered_through = none;
        }))
unfolding acknowledge
acknowledge_iff sub sub' position = (
  λ h. elim (Option-cases sub.delivered_through) [
    | inl e ↦ ground (arith, h, e)
    | inr (d, e) ↦ (d, e, ground (arith, h, e), ground (arith, h, e), ground (arith, h, e))
  ],
  λ h. let (d, e, le, ge, q) = h in ground (arith, e, le, ge, q),
)

module _ {E : Type 0} where
  -- the last of the first `n` events of a log
  last_position :
      (n : ℕ) (before es : List (StoredEvent E))
      → IsLogFrom before es
      → 0 < length (take n es)
      → (d : ℕ) × (position_of (get_last? (take n es)) ≡ some d)
        × (suc d ≡ length before + length (take n es))
  last_position zero before es l h = absurd (omega arith)
  last_position (suc n) before [] l h = absurd (omega arith)
  last_position (suc zero) before (e ∷ es) l h = (e.global_position, refl, omega (arith, l.0.0))
  last_position (suc (suc n)) before (e ∷ []) l h = (e.global_position, refl, omega (arith, l.0.0))
  last_position (suc (suc n)) before (e ∷ f ∷ es) l h =
      let (d, p, q) = last_position (suc n) (before ++ e ∷ []) (f ∷ es) l.1 (omega arith) in
      (d, p, omega (arith, q, length-snoc before e))

  drop-IsLogFrom :
      (k : ℕ) (before es : List (StoredEvent E))
      → IsLogFrom before es
      → k ≤ length es
      → (front : List (StoredEvent E)) × IsLogFrom front (drop k es)
        × (length front ≡ length before + k)
  drop-IsLogFrom zero before es l h = (before, l, omega arith)
  drop-IsLogFrom (suc k) before [] l h = absurd (omega arith)
  drop-IsLogFrom (suc k) before (e ∷ es) l h =
      let (front, m, q) = drop-IsLogFrom k (before ++ e ∷ []) es l.1 (omega arith) in
      (front, m, omega (arith, q, length-snoc before e))

  -- `poll` returns the next events behind the checkpoint, at most `batch_size`, and remembers the
  -- position of the last; the checkpoint stays.
  pub poll_lem :
      (sub : CatchUpSubscription) (src : EventSource E)
      → let k = from_cursor sub.checkpoint.global_position in
        let (events, sub') = poll sub src in
        (events ≡ take sub.batch_size (drop k src.log))
        × (sub'.checkpoint ≡ sub.checkpoint)
        × (k ≤ length src.log
            → 0 < length events
            → (d : ℕ) × (sub'.delivered_through ≡ some d) × (suc d ≡ k + length events))
  unfolding poll
  poll_lem sub src =
      let c = sub.checkpoint.global_position in
      (
        src.load_all_lem c sub.batch_size,
        refl,
        λ h pos.
            let e = src.load_all_lem c sub.batch_size in
            let (front, m, q) = drop-IsLogFrom (from_cursor c) [] src.log src.log-IsLog h in
            let (d, p, r) =
              last_position sub.batch_size front (drop (from_cursor c) src.log) m (rw e at pos) in
            rw e (d, p, omega (arith, q, r)),
      )

-- A client that acknowledges all that it was given.
abbrev pub settled : CatchUpSubscription → Result CatchUpSubscription → CatchUpSubscription
settled sub (ok sub') = sub'
settled sub (err e) = sub
settled sub panic = sub

abbrev pub acknowledge_all : CatchUpSubscription → CatchUpSubscription
acknowledge_all sub = elim sub.delivered_through [
  | none ↦ sub
  | some d ↦ settled sub (acknowledge sub d)
]

abbrev pub cursor_of : CatchUpSubscription → ℕ
cursor_of sub = from_cursor sub.checkpoint.global_position

module _ {E : Type 0} (src : EventSource E) where
  -- `rounds` times `poll`, each followed by an acknowledgement of all that came
  pub consume : (rounds : ℕ) → CatchUpSubscription → List (StoredEvent E)
  consume zero sub = []
  consume (suc rounds) sub =
      let (events, sub') = poll sub src in events ++ consume rounds (acknowledge_all sub')

  -- after one round the checkpoint stands behind what came
  round-cursor :
      (sub : CatchUpSubscription)
      → cursor_of sub ≤ length src.log
      → (cursor_of (acknowledge_all (poll sub src).1) ≡ cursor_of sub + length (poll sub src).0)
        × ((acknowledge_all (poll sub src).1).batch_size ≡ sub.batch_size)
  unfolding poll acknowledge
  round-cursor sub h = elim (List-cases (poll sub src).0) [
    | inl none_left ↦ ground (arith, none_left)
    | inr came ↦ let (d, p, q) = (poll_lem sub src).2 h came in ground (arith, p, q)
  ]

  round-events :
      (sub : CatchUpSubscription) (rest : List (StoredEvent E))
      → rest ≡ drop (cursor_of sub + length (poll sub src).0) src.log
      → (poll sub src).0 ++ rest ≡ drop (cursor_of sub) src.log
  round-events sub rest h =
      rw (h, (poll_lem sub src).0, drop-drop)
        (take_rest sub.batch_size (drop (cursor_of sub) src.log))

  round-length :
      (sub : CatchUpSubscription)
      → length (poll sub src).0 ≡ min sub.batch_size (length src.log - cursor_of sub)
  round-length sub = rw ((poll_lem sub src).0, length-take, length-drop)

  -- With a positive batch size and a checkpoint inside the log, as many rounds of `poll` and
  -- `acknowledge` as there are events left deliver all events behind the checkpoint, each once and
  -- in the order of the log.
  pub consume_all :
      (rounds : ℕ) (sub : CatchUpSubscription)
      → 0 < sub.batch_size
      → cursor_of sub ≤ length src.log
      → length src.log ≤ cursor_of sub + rounds
      → consume rounds sub ≡ drop (cursor_of sub) src.log
  unfolding consume
  consume_all zero sub b h m = sym (drop-eq-nil (cursor_of sub) src.log (omega arith))
  consume_all (suc rounds) sub b h m =
      let next = acknowledge_all (poll sub src).1 in
      let (c, same) = round-cursor sub h in
      let came = round-length sub in
      round-events sub (consume rounds next) (
        consume_all rounds next (rw same b) (omega (arith, c, came)) (omega (arith, c, came))
        ∙ ap (λ k. drop k src.log) c)
