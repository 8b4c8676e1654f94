-- ===== src/Store/History.antt =====
-- store/in_memory/mod.rs: stores as the calls of a client build them, and their restart.
use weavatrix_memory.Base.{
  ℕ, ◌^◌, ◌≤◌, ◌≡◌, Option, List, [], ◌∷◌, length, Result, ok, err, panic, Result-cases, inl, inr,
}
use weavatrix_memory.Domain.{StreamId}
use weavatrix_memory.Event.{NewEvent, StoredEvent}
use weavatrix_memory.Store.Consistent.{IsConsistent, stream_version-IsConsistent}
use weavatrix_memory.Store.Append.{append-IsConsistent}
use weavatrix_memory.Store.Restore.{empty-IsConsistent, restore_succeeds}
use weavatrix_memory.Store.Load.{load_stream-IsConsistent, load_all-IsConsistent}
use weavatrix_memory.Store.{
  InMemoryStore, ExpectedVersion, empty_store, append, restore, stream_version, load_stream,
  load_all,
}

-- One `append` that a client makes.
pub record Call (E : Type 0) : Type 0 where
  pub stream : StreamId
  pub expected : ExpectedVersion
  pub batch : List (NewEvent E)

module _ {E : Type 0} where
  -- A call that fails leaves the store as it was.
  abbrev pub after_call :
      InMemoryStore E → Result (List (StoredEvent E) × InMemoryStore E) → InMemoryStore E
  after_call st (ok (c, st')) = st'
  after_call st (err e) = st
  after_call st panic = st

  unfoldable pub run : InMemoryStore E → List (Call E) → InMemoryStore E
  run st [] = st
  run st (c ∷ cs) = run (after_call st (append st c.stream c.expected c.batch)) cs

  after_call-IsConsistent :
      (st : InMemoryStore E) (c : Call E)
      → IsConsistent st
      → IsConsistent (after_call st (append st c.stream c.expected c.batch))
  after_call-IsConsistent st c k = elim (Result-cases (append st c.stream c.expected c.batch)) [
    | inl ((es, st'), p) ↦ rw p (append-IsConsistent st c.stream c.expected c.batch es st' k p).0
    | inr (inl (e, p)) ↦ rw p k
    | inr (inr p) ↦ rw p k
  ]

  run-IsConsistent :
      (st : InMemoryStore E) (cs : List (Call E)) → IsConsistent st → IsConsistent (run st cs)
  unfolding run
  run-IsConsistent st [] k = k
  run-IsConsistent st (c ∷ cs) k =
      run-IsConsistent (after_call st (append st c.stream c.expected c.batch)) cs
        (after_call-IsConsistent st c k)

  -- Any calls of `append` on an empty store, those that fail included, leave a consistent store.
  pub run_empty-IsConsistent : (cs : List (Call E)) → IsConsistent (run empty_store cs)
  run_empty-IsConsistent cs = run-IsConsistent empty_store cs empty-IsConsistent

  -- For the store that any calls of `append` build from an empty one, with at most 2 ^ 64 events,
  -- `restore` accepts its log, and the restored store answers `stream_version`, `load_stream` and
  -- `load_all` as the store does, for all arguments.
  pub restart :
      (cs : List (Call E))
      → length (run empty_store cs).events ≤ 2 ^ 64
      → (st : InMemoryStore E) × (restore (run empty_store cs).events ≡ ok st)
        × ((s : StreamId) → stream_version st s ≡ stream_version (run empty_store cs) s)
        × ((s : StreamId) (after : Option ℕ)
            → load_stream st s after ≡ load_stream (run empty_store cs) s after)
        × ((after : Option ℕ) (limit : ℕ)
            → load_all st after limit ≡ load_all (run empty_store cs) after limit)
  restart cs b =
      let old = run empty_store cs in
      let k = run_empty-IsConsistent cs in
      let (st, done, p, k') = restore_succeeds old.events k.log b in
      (
        st,
        done,
        λ s. rw (stream_version-IsConsistent st s k', stream_version-IsConsistent old s k, p),
        λ s after.
            rw (load_stream-IsConsistent st s after k', load_stream-IsConsistent old s after k, p),
        λ after limit.
            rw
              (load_all-IsConsistent st after limit k', load_all-IsConsistent old after limit k, p),
      )
