-- ===== src/Store/Commit.antt =====
-- store/in_memory/mod.rs, `commit_prepared`: a batch of one stream at the end of the log.
use weavatrix_memory.Base.{
  ℕ, suc, ◌≡◌, refl, sym, subst, ◌∙◌, ◌≢◌, true, ◌||◌, List, [], ◌∷◌, ◌++◌, map-append, append-nil,
  append_assoc, arith, ◌==◌, ==→eq, ==-cases, length, length-snoc, all, ok, inl, inr,
}
use native.Mathlib.Nat.{zero-add}
use weavatrix_memory.Map.{
  lookup, insert, lookup-insert_self, lookup-insert_ne, contains, contains-append,
  contains-set_insert, set_insert, text_key,
}
use weavatrix_memory.Domain.{EventId, StreamId}
use weavatrix_memory.Event.{StoredEvent}
use weavatrix_memory.Store.Log.{ids, IsLogFrom, IsLogFrom-append, indices, indices-append}
use weavatrix_memory.Store.Consistent.{IsConsistent}
use weavatrix_memory.Store.{InMemoryStore, or_default, commit_loop, commit_prepared}

module _ {E : Type 0} where
  -- Every event of the batch belongs to the stream.
  abbrev pub IsOf : StreamId → List (StoredEvent E) → Type 0
  IsOf s es = all (λ e. e.stream_id == s) es ≡ true

  commit_loop-events :
      (es : List (StoredEvent E)) (ps : List ℕ) (known : List EventId) (c : List (StoredEvent E))
      → (commit_loop es ps known c).0 ≡ es ++ c
  unfolding commit_loop
  commit_loop-events es ps known [] = rw append-nil
  commit_loop-events es ps known (e ∷ c) =
      rw (commit_loop-events (es ++ e ∷ []) _ _ c) (append_assoc es (e ∷ []) c)

  commit_loop-positions :
      (s : StreamId) (es : List (StoredEvent E)) (ps : List ℕ) (known : List EventId)
      (c : List (StoredEvent E))
      → IsOf s c
      → (commit_loop es ps known c).1 ≡ ps ++ indices s (length es) c
  unfolding commit_loop indices
  commit_loop-positions s es ps known [] h = rw append-nil
  commit_loop-positions s es ps known (e ∷ c) h =
      let here : (e.stream_id == s) ≡ true = ground arith in
      rw
        (
          here,
          commit_loop-positions s (es ++ e ∷ []) (ps ++ length es ∷ []) (set_insert e.id known) c
              (ground arith),
          length-snoc,
        )
        (append_assoc ps (length es ∷ []) (indices s (suc (length es)) c))

  commit_loop-identifiers :
      (id : EventId) (es : List (StoredEvent E)) (ps : List ℕ) (known : List EventId)
      (c : List (StoredEvent E))
      → contains id (commit_loop es ps known c).2 ≡ (contains id known || contains id (ids c))
  unfolding commit_loop contains
  commit_loop-identifiers id es ps known [] = ground arith
  commit_loop-identifiers id es ps known (e ∷ c) = ground (
    arith,
    commit_loop-identifiers id (es ++ e ∷ []) (ps ++ length es ∷ []) (set_insert e.id known) c,
    contains-set_insert e.id id known,
  )

  indices_other :
      (s t : StreamId) (n : ℕ) (c : List (StoredEvent E)) → IsOf s c → s ≢ t → indices t n c ≡ []
  unfolding indices
  indices_other s t n [] h k = refl
  indices_other s t n (e ∷ c) h k = elim (==-cases e.stream_id t) [
    | inl (p, _) ↦ absurd (k (sym (==→eq e.stream_id s (ground arith)) ∙ p))
    | inr (_, f) ↦ rw f (indices_other s t (suc n) c (ground arith) k)
  ]

  abbrev pub committed_store : InMemoryStore E → StreamId → List (StoredEvent E) → InMemoryStore E
  committed_store st s c =
      let (es, ps, known) =
        commit_loop st.events (or_default (lookup s st.streams)) st.event_ids c in
      record { events = es; streams = insert s ps st.streams; event_ids = known }

  pub committed-IsConsistent :
      (st : InMemoryStore E) (s : StreamId) (c : List (StoredEvent E))
      → IsConsistent st
      → IsOf s c
      → IsLogFrom st.events c
      → IsConsistent (committed_store st s c)
  committed-IsConsistent st s c k h l = record {
    positions = λ t. elim (==-cases s t) [
      | inl (p, _) ↦ rw (
        ← p,
        lookup-insert_self,
        commit_loop-events,
        commit_loop-positions s st.events _ st.event_ids c h,
        k.positions s,
        indices-append,
        zero-add,
      )
      | inr (p, _) ↦
          rw
            (
              lookup-insert_ne s t _ st.streams p,
              commit_loop-events,
              indices-append,
              indices_other s t _ c h p,
              append-nil,
            )
            (k.positions t)
    ];
    identifiers = λ id.
        rw
          (commit_loop-identifiers, k.identifiers, commit_loop-events, map-append, contains-append);
    log = rw commit_loop-events (IsLogFrom-append [] st.events c k.log l);
  }

  -- The assertion of `commit_prepared` holds on such a batch, and the batch is appended.
  pub commit_prepared-IsConsistent :
      (st : InMemoryStore E) (s : StreamId) (c : List (StoredEvent E))
      → IsConsistent st
      → IsOf s c
      → IsLogFrom st.events c
      → (st' : InMemoryStore E) × (commit_prepared st c ≡ ok st')
        × (st'.events ≡ st.events ++ c)
        × IsConsistent st'
  unfolding commit_prepared
  commit_prepared-IsConsistent st s [] k h l = (st, refl, sym (append-nil st.events), k)
  commit_prepared-IsConsistent st s (e ∷ c) k h l =
      let p : e.stream_id ≡ s = ==→eq e.stream_id s (ground arith) in
      let h' : IsOf e.stream_id (e ∷ c) = subst (λ u. IsOf u (e ∷ c)) (sym p) h in
      (
        committed_store st e.stream_id (e ∷ c),
        rw h',
        commit_loop-events st.events _ _ (e ∷ c),
        committed-IsConsistent st e.stream_id (e ∷ c) k h' l,
      )
