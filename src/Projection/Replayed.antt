-- ===== src/Projection/Replayed.antt =====
-- projection/replay.rs with the memory projection of projection/memory.
use weavatrix_memory.Base.{ℕ, List}
use weavatrix_memory.Domain.{MemoryEvent}
use weavatrix_memory.Event.{StoredEvent}
use weavatrix_memory.Replay.{ProjectionSnapshot, replay_tracked, resume}
use weavatrix_memory.Replay.Invariant.{Outcome, IsInvariant, replay_tracked-keeps, resume-keeps}
use weavatrix_memory.Projection.State.{MemoryProjection}
use weavatrix_memory.Projection.Apply.{memory_projection, memory_projection-IsLawful}
use weavatrix_memory.Projection.WellFormed.{IsWellFormed, with_seeds-IsWellFormed}
use weavatrix_memory.Projection.WellFormed.Events.{apply-IsWellFormed}
use weavatrix_memory.Projection.WellFormed.Total.{apply-ne-panic}

IsWellFormed-IsInvariant : (a b : ℕ) → IsInvariant (memory_projection a b) IsWellFormed
IsWellFormed-IsInvariant a b = record {
  start = with_seeds-IsWellFormed a b;
  keeps = λ p p' e w h. apply-IsWellFormed p p' e w h;
  total = λ p e w. apply-ne-panic p e w;
}

-- Replaying any list of events into a new memory projection does not panic: it returns a
-- well-formed projection or an error.
pub replay_memory-IsWellFormed :
    (a b : ℕ) (es : List (StoredEvent MemoryEvent))
    → Outcome IsWellFormed (replay_tracked (memory_projection a b) es)
replay_memory-IsWellFormed a b es =
    replay_tracked-keeps (memory_projection a b) IsWellFormed (IsWellFormed-IsInvariant a b) es
      (memory_projection-IsLawful a b)

-- Resuming from a snapshot of a well-formed memory projection, with any list of events, does not
-- panic: it returns a well-formed projection or an error.
pub resume_memory-IsWellFormed :
    (a b : ℕ) (snapshot : ProjectionSnapshot MemoryProjection)
    (tail : List (StoredEvent MemoryEvent))
    → IsWellFormed snapshot.projection
    → Outcome IsWellFormed (resume (memory_projection a b) snapshot tail)
resume_memory-IsWellFormed a b snapshot tail w =
    resume-keeps (memory_projection a b) IsWellFormed (IsWellFormed-IsInvariant a b) snapshot tail
      (memory_projection-IsLawful a b) w
