-- ===== src/Store/Restore.antt =====
-- store/in_memory/mod.rs, `restore`: a store from its log.
use weavatrix_memory.Base.{
  ◌+◌, ◌^◌, ◌≤◌, ◌<◌, ◌≡◌, refl, ap, sym, ◌∙◌, List, [], ◌∷◌, ◌++◌, append-nil, append_assoc, arith,
  length, length-snoc, ==-refl, ok, >>=-eq-ok, ok_injective, subst,
}
use weavatrix_memory.Map.{contains, text_key, lookup}
use weavatrix_memory.Event.{StoredEvent}
use weavatrix_memory.Store.Log.{IsNext, IsLogFrom, IsLog, indices}
use weavatrix_memory.Store.Consistent.{
  IsConsistent, stream_version-IsConsistent, next_after-last_of,
}
use weavatrix_memory.Store.Commit.{committed_store, committed-IsConsistent}
use weavatrix_memory.Store.Prepare.{count, count-le}
use weavatrix_memory.Store.{
  InMemoryStore, empty_store, commit_loop, restore_step, restore_loop, restore,
}

module _ {E : Type 0} where
  pub empty-IsConsistent : IsConsistent (empty_store {E = E})
  unfolding lookup indices contains
  empty-IsConsistent = record { positions = λ s. refl; identifiers = λ id. refl; log = tt }

  extended-IsConsistent :
      (st : InMemoryStore E) (e : StoredEvent E)
      → IsConsistent st
      → IsNext st.events e
      → IsConsistent (committed_store st e.stream_id (e ∷ []))
  extended-IsConsistent st e k n =
      committed-IsConsistent st e.stream_id (e ∷ []) k (rw (==-refl e.stream_id)) (n, tt)

  restore_step-IsNext :
      (st : InMemoryStore E) (e : StoredEvent E) {st' : InMemoryStore E}
      → IsConsistent st
      → restore_step st e ≡ ok st'
      → IsNext st.events e × (st' ≡ committed_store st e.stream_id (e ∷ []))
  unfolding restore_step commit_loop
  restore_step-IsNext st e k h = ground (
    arith,
    stream_version-IsConsistent st e.stream_id k,
    next_after-last_of (count st e.stream_id),
    k.identifiers e.id,
    count-le st e.stream_id,
  )

  restore_step_succeeds :
      (st : InMemoryStore E) (e : StoredEvent E)
      → IsConsistent st
      → IsNext st.events e
      → length st.events < 2 ^ 64
      → restore_step st e ≡ ok (committed_store st e.stream_id (e ∷ []))
  unfolding restore_step commit_loop
  restore_step_succeeds st e k n l = ground (
    arith,
    stream_version-IsConsistent st e.stream_id k,
    next_after-last_of (count st e.stream_id),
    k.identifiers e.id,
    count-le st e.stream_id,
  )

  restore_loop-IsLog :
      (st : InMemoryStore E) (es : List (StoredEvent E)) {st' : InMemoryStore E}
      → IsConsistent st
      → restore_loop st es ≡ ok st'
      → IsConsistent st' × (st'.events ≡ st.events ++ es)
  unfolding restore_loop commit_loop
  restore_loop-IsLog st [] k h =
      let p = ok_injective h in
      (subst IsConsistent p k, ap (λ t. t.events) (sym p) ∙ sym (append-nil st.events))
  restore_loop-IsLog st (e ∷ es) {st'} k h =
      let (st₁, first, rest) = >>=-eq-ok (restore_step st e) (λ t. restore_loop t es) h in
      let (n, p) = restore_step-IsNext st e k first in
      let (k', log) =
        restore_loop-IsLog (committed_store st e.stream_id (e ∷ [])) es {st' = st'}
          (extended-IsConsistent st e k n) (rw (← p) rest) in
      (k', log ∙ append_assoc st.events (e ∷ []) es)

  restore_loop_succeeds :
      (st : InMemoryStore E) (es : List (StoredEvent E))
      → IsConsistent st
      → IsLogFrom st.events es
      → length st.events + length es ≤ 2 ^ 64
      → (st' : InMemoryStore E) × (restore_loop st es ≡ ok st')
        × (st'.events ≡ st.events ++ es)
        × IsConsistent st'
  unfolding restore_loop commit_loop
  restore_loop_succeeds st [] k l b = (st, refl, sym (append-nil st.events), k)
  restore_loop_succeeds st (e ∷ es) k l b =
      let st₁ = committed_store st e.stream_id (e ∷ []) in
      let (st', done, log, k') =
        restore_loop_succeeds st₁ es (extended-IsConsistent st e k l.0) l.1
          (omega (arith, length-snoc st.events e)) in
      (
        st',
        rw (restore_step_succeeds st e k l.0 (omega arith)) done,
        log ∙ append_assoc st.events (e ∷ []) es,
        k',
      )

  -- If `restore` accepts a list of events, the list is a log, and the store is consistent and has
  -- it as its log.
  pub restore-IsLog :
      (es : List (StoredEvent E)) (st : InMemoryStore E)
      → restore es ≡ ok st
      → IsLog es × IsConsistent st × (st.events ≡ es)
  unfolding restore
  restore-IsLog es st h =
      let (k, p) = restore_loop-IsLog empty_store es {st' = st} empty-IsConsistent h in
      (rw (← p) k.log, k, p)

  -- `restore` accepts every log of at most 2 ^ 64 events, and returns a consistent store with that
  -- log.
  pub restore_succeeds :
      (es : List (StoredEvent E))
      → IsLog es
      → length es ≤ 2 ^ 64
      → (st : InMemoryStore E) × (restore es ≡ ok st) × (st.events ≡ es) × IsConsistent st
  unfolding restore
  restore_succeeds es l b = restore_loop_succeeds empty_store es empty-IsConsistent l (omega arith)
