-- ===== src/Projection/Active.antt =====
-- projection/memory/mod.rs, `fact_is_active`: the two times of a question.
use weavatrix_memory.Base.{◌≡◌, refl, ◌↔◌, true, false, Option, none, some, arith}
use weavatrix_memory.Map.{lookup, text_key}
use weavatrix_memory.Time.{Timestamp, before, at_or_before_trans}
use weavatrix_memory.Domain.{MemoryFact}
use weavatrix_memory.Projection.State.{Supersession, Retraction, MemoryProjection, ProjectionClock}
use weavatrix_memory.Projection.Query.{has_ended, is_superseded, is_retracted, fact_is_active}

-- a ≤ b and a < b
abbrev IsAtMost : Timestamp → Timestamp → Type 0
IsAtMost a b = before b a ≡ false

abbrev IsBefore : Timestamp → Timestamp → Type 0
IsBefore a b = before a b ≡ true

-- What it means that a fact is active: it was known, it had begun, and nothing known had ended it.
pub record IsActive (p : MemoryProjection) (f : MemoryFact) (clock : ProjectionClock) : Type 0 where
  pub known : IsAtMost f.recorded_at clock.known_at
  pub begun : IsAtMost f.valid_from clock.valid_at
  pub ends_later : (until : Timestamp) → f.valid_until ≡ some until → IsBefore clock.valid_at until
  pub replaced_later :
      (c : Supersession)
      → lookup f.id p.supersessions ≡ some c
      → IsAtMost c.recorded_at clock.known_at
      → IsBefore clock.valid_at c.valid_from
  pub retracted_later :
      (c : Retraction)
      → lookup f.id p.retractions ≡ some c
      → IsAtMost c.recorded_at clock.known_at
      → IsBefore clock.valid_at c.valid_until

earlier_trans : (a b c : Timestamp) → IsAtMost a b → IsBefore b c → IsBefore a c
earlier_trans a b c h k = ground arith

has_ended_lem :
    (o : Option Timestamp) (t : Timestamp)
    → ((until : Timestamp) → o ≡ some until → IsBefore t until)
    → has_ended o t ≡ false
has_ended_lem none t h = refl
has_ended_lem (some until) t h = ground (arith, h until refl)

is_superseded_lem :
    (o : Option Supersession) (clock : ProjectionClock)
    → ((c : Supersession)
        → o ≡ some c
        → IsAtMost c.recorded_at clock.known_at
        → IsBefore clock.valid_at c.valid_from)
    → is_superseded o clock ≡ false
is_superseded_lem none clock h = refl
is_superseded_lem (some c) clock h = ground (arith, h c refl)

is_retracted_lem :
    (o : Option Retraction) (clock : ProjectionClock)
    → ((c : Retraction)
        → o ≡ some c
        → IsAtMost c.recorded_at clock.known_at
        → IsBefore clock.valid_at c.valid_until)
    → is_retracted o clock ≡ false
is_retracted_lem none clock h = refl
is_retracted_lem (some c) clock h = ground (arith, h c refl)

-- A fact is active exactly when it was recorded at `known_at` and had begun at `valid_at`, its own
-- end lies after `valid_at`, and so do the beginning of a replacement and the end set by a
-- retraction that were recorded at `known_at`.
pub fact_is_active_iff :
    (p : MemoryProjection) (f : MemoryFact) (clock : ProjectionClock)
    → (fact_is_active p f clock ≡ true) ↔ IsActive p f clock
unfolding fact_is_active
fact_is_active_iff p f clock = (
  λ h. record {
    known = ground (arith, h);
    begun = ground (arith, h);
    ends_later = λ until e. ground (arith, h, e);
    replaced_later = λ c e k. ground (arith, h, e, k);
    retracted_later = λ c e k. ground (arith, h, e, k);
  },
  λ a. ground (
    arith,
    a.known,
    a.begun,
    has_ended_lem f.valid_until clock.valid_at a.ends_later,
    is_superseded_lem (lookup f.id p.supersessions) clock a.replaced_later,
    is_retracted_lem (lookup f.id p.retractions) clock a.retracted_later,
  ),
)

-- For one `known_at`, a fact that is active at two times is active at every time between them.
pub fact_is_active_between :
    (p : MemoryProjection) (f : MemoryFact) (known_at first middle last : Timestamp)
    → before middle first ≡ false
    → before last middle ≡ false
    → fact_is_active p f (record { valid_at = first; known_at = known_at }) ≡ true
    → fact_is_active p f (record { valid_at = last; known_at = known_at }) ≡ true
    → fact_is_active p f (record { valid_at = middle; known_at = known_at }) ≡ true
fact_is_active_between p f known_at first middle last h k a b =
    let x = (fact_is_active_iff p f (record { valid_at = first; known_at = known_at })).0 a in
    let y = (fact_is_active_iff p f (record { valid_at = last; known_at = known_at })).0 b in
    (fact_is_active_iff p f (record { valid_at = middle; known_at = known_at })).1 (record {
      known = x.known;
      begun = at_or_before_trans f.valid_from first middle x.begun h;
      ends_later = λ until e. earlier_trans middle last until k (y.ends_later until e);
      replaced_later = λ c e r. earlier_trans middle last c.valid_from k (y.replaced_later c e r);
      retracted_later =
          λ c e r. earlier_trans middle last c.valid_until k (y.retracted_later c e r);
    })
