-- ===== src/Projection/Visible.antt =====
-- projection/memory/mod.rs, `visible_revision`: which revision of a node is visible.
use weavatrix_memory.Base.{
  ℕ, ◌≡◌, refl, sym, ap, ◌⊎◌, inl, inr, true, false, not, ◌&&◌, none, some, List, [], ◌∷◌, arith,
  if◌then◌else◌, Bool-cases, zero, suc, subst, get_elem?, filter, All,
}
use weavatrix_memory.Time.{Timestamp, before, at_or_before}
use weavatrix_memory.Projection.State.{NodeRevision, NodeHistory}
use weavatrix_memory.Projection.Query.{
  key_at_most, latest, newest, known_revisions, visible_revision,
}

-- `r` is one of the revisions.
abbrev pub IsOneOf : NodeRevision → List NodeRevision → Type 0
IsOneOf r rs = (i : ℕ) × (get_elem? rs i ≡ some r)

-- `r` is one of the revisions, and none has a greater (recorded_at, position).
abbrev pub IsGreatest : NodeRevision → List NodeRevision → Type 0
IsGreatest r rs = IsOneOf r rs × All (λ x. key_at_most x r ≡ true) rs

key_at_most_refl : (a : NodeRevision) → key_at_most a a ≡ true
key_at_most_refl a = ground arith

key_at_most_trans :
    (a b c : NodeRevision)
    → key_at_most a b ≡ true
    → key_at_most b c ≡ true
    → key_at_most a c ≡ true
key_at_most_trans a b c h k = ground arith

key_at_most_total : (a b : NodeRevision) → key_at_most a b ≡ false → key_at_most b a ≡ true
key_at_most_total a b h = ground arith

latest_lem :
    (best : NodeRevision) (rs : List NodeRevision) → IsGreatest (latest best rs) (best ∷ rs)
unfolding latest
latest_lem best [] = ((0, refl), (key_at_most_refl best, tt))
latest_lem best (r ∷ rs) = elim (Bool-cases (key_at_most best r)) [
  | inl t ↦
      let ((i, one), (top, rest)) = latest_lem r rs in
      subst (λ b. IsGreatest (latest (if b then r else best) rs) (best ∷ r ∷ rs)) (sym t)
        ((suc i, one), (key_at_most_trans best r (latest r rs) t top, (top, rest)))
  | inr t ↦
      let (one, (top, rest)) = latest_lem best rs in
      subst (λ b. IsGreatest (latest (if b then r else best) rs) (best ∷ r ∷ rs)) (sym t)
        (
          past one,
          (top, (key_at_most_trans r best (latest best rs) (key_at_most_total best r t) top, rest)),
        )
]
  where
    past : {x : NodeRevision} → IsOneOf x (best ∷ rs) → IsOneOf x (best ∷ r ∷ rs)
    past (zero, h) = (0, h)
    past (suc i, h) = (suc (suc i), h)

head_or :
    (x : NodeRevision) (xs : List NodeRevision) (r : NodeRevision)
    → IsOneOf r (x ∷ xs)
    → (x ≡ r) ⊎ IsOneOf r xs
head_or x xs r (zero, h) = inl (ground (arith, h))
head_or x xs r (suc i, h) = inr (i, h)

later_one :
    (x : NodeRevision) (xs : List NodeRevision) (r : NodeRevision)
    → IsOneOf r xs
    → IsOneOf r (x ∷ xs)
later_one x xs r (i, h) = (suc i, h)

-- A revision is one of those recorded at `known_at` exactly when it is one of all of them and was
-- recorded then.
filter_one :
    (known_at : Timestamp) (rs : List NodeRevision) (r : NodeRevision)
    → IsOneOf r (filter (λ x. at_or_before x.recorded_at known_at) rs)
    → IsOneOf r rs × (at_or_before r.recorded_at known_at ≡ true)
filter_one known_at [] r (i, h) = cc
filter_one known_at (x ∷ xs) r (i, h) = elim (Bool-cases (at_or_before x.recorded_at known_at)) [
  | inl t ↦
      elim (head_or x (filter (λ y. at_or_before y.recorded_at known_at) xs) r (i, rw t at h)) [
        | inl e ↦ ((0, ap some e), subst (λ y. at_or_before y.recorded_at known_at ≡ true) e t)
        | inr one ↦ let (o, k) = filter_one known_at xs r one in (later_one x xs r o, k)
      ]
  | inr t ↦ let (o, k) = filter_one known_at xs r (i, rw t at h) in (later_one x xs r o, k)
]

All-of_filter :
    (known_at : Timestamp) (rs : List NodeRevision) (r : NodeRevision)
    → All (λ x. key_at_most x r ≡ true) (filter (λ x. at_or_before x.recorded_at known_at) rs)
    → All (λ x. (at_or_before x.recorded_at known_at && not (key_at_most x r)) ≡ false) rs
All-of_filter known_at [] r h = tt
All-of_filter known_at (x ∷ xs) r h = elim (Bool-cases (at_or_before x.recorded_at known_at)) [
  | inl t ↦ let h' = rw t at h in (ground (arith, t, h'.0), All-of_filter known_at xs r h'.1)
  | inr t ↦ let h' = rw t at h in (ground (arith, t), All-of_filter known_at xs r h')
]

-- Of a node's history, either nothing is visible and every revision was recorded after `known_at`,
-- or the node of a revision is visible that was recorded then, and no revision recorded then has a
-- greater pair of recording time and position.
pub visible_revision-cases :
    (history : NodeHistory) (known_at : Timestamp)
    → ((visible_revision history known_at ≡ none)
        × All (λ x. before known_at x.recorded_at ≡ true) (history.first ∷ history.later))
      ⊎ ((r : NodeRevision) × (visible_revision history known_at ≡ some r.node)
          × IsOneOf r (history.first ∷ history.later)
          × (at_or_before r.recorded_at known_at ≡ true)
          × All
              (λ x. (at_or_before x.recorded_at known_at && not (key_at_most x r)) ≡ false)
              (history.first ∷ history.later))
unfolding visible_revision
visible_revision-cases history known_at = go (known_revisions history known_at) refl
  where
    none_known :
        (rs : List NodeRevision)
        → filter (λ x. at_or_before x.recorded_at known_at) rs ≡ []
        → All (λ x. before known_at x.recorded_at ≡ true) rs
    none_known [] h = tt
    none_known (x ∷ xs) h = elim (Bool-cases (at_or_before x.recorded_at known_at)) [
      | inl t ↦ let h' = rw t at h in cc
      | inr t ↦ (ground (arith, t), none_known xs (rw t at h))
    ]

    go :
        (known : List NodeRevision)
        → known_revisions history known_at ≡ known
        → ((visible_revision history known_at ≡ none)
            × All (λ x. before known_at x.recorded_at ≡ true) (history.first ∷ history.later))
          ⊎ ((r : NodeRevision) × (visible_revision history known_at ≡ some r.node)
              × IsOneOf r (history.first ∷ history.later)
              × (at_or_before r.recorded_at known_at ≡ true)
              × All
                  (λ x. (at_or_before x.recorded_at known_at && not (key_at_most x r)) ≡ false)
                  (history.first ∷ history.later))
    go [] h = inl (ap newest h, none_known (history.first ∷ history.later) h)
    go (r ∷ rs) h =
        let (one, top) = latest_lem r rs in
        let known : IsOneOf (latest r rs) (known_revisions history known_at) =
          subst (IsOneOf (latest r rs)) (sym h) one in
        let (o, k) = filter_one known_at (history.first ∷ history.later) (latest r rs) known in
        inr (
          latest r rs,
          ap newest h,
          o,
          k,
          All-of_filter known_at (history.first ∷ history.later) (latest r rs)
              (subst (All (λ x. key_at_most x (latest r rs) ≡ true)) (sym h) top),
        )
