-- ===== src/Frame/Reading.antt =====
-- store/frame.rs, `read_or_partial`: short reads of the operating system make no difference.
use native.Mathlib.Nat.{zero-add}
use weavatrix_memory.Base.{
  List-uncons, String, ℕ, zero, suc, ◌+◌, ◌-◌, ◌≤◌, ◌<◌, ◌≡◌, refl, sym, ap, subst, ◌∙◌, inl, inr,
  arith, List, [], ◌∷◌, ◌++◌, append-nil, append_assoc, eqb, if◌then◌else◌, length, length-append,
  List-cases,
}
use weavatrix_memory.Disk.{Disk, unread, IoResult, IsDisk, IsReadable}
use weavatrix_memory.Frame.{ReadState, fill, read_or_partial}

-- Two ways to split a list, the first before the second.
pub append_split {ℓ} :
    {A : Type ℓ} (xs ys word rest : List A)
    → word ++ rest ≡ xs ++ ys
    → length xs ≤ length word
    → (more : List A) × (word ≡ xs ++ more) × (ys ≡ more ++ rest)
append_split [] ys word rest h i = (word, refl, sym h)
append_split (x ∷ xs) ys [] rest h i = absurd (omega arith)
append_split (x ∷ xs) ys (a ∷ word) rest h i =
    let (more, p, q) = append_split xs ys word rest (cc) (omega arith) in (more, cc, q)

-- The cases of a round.
module _ {F : Type 0} (disk : Disk F) where
  pub fill_done :
      (fuel want : ℕ) (output : List ℕ) (f : F)
      → want ≤ length output
      → fill disk fuel want output f ≡ (IoResult.done (ReadState.complete output), f)
  unfolding fill
  fill_done zero want output f h = refl
  fill_done (suc fuel) want output f h = ground arith

  pub fill_reads :
      (fuel want : ℕ) (output : List ℕ) (f : F) {b : ℕ} {bytes : List ℕ}
      → length output < want
      → (disk.read (want - length output) f).0 ≡ IoResult.done (b ∷ bytes)
      → fill disk (suc fuel) want output f
        ≡ fill disk fuel want (output ++ b ∷ bytes) (disk.read (want - length output) f).1
  unfolding fill
  fill_reads fuel want output f h q = ground (arith, q)

  pub fill_failed :
      (fuel want : ℕ) (output : List ℕ) (f : F) {message : String}
      → length output < want
      → (disk.read (want - length output) f).0 ≡ IoResult.failed message
      → fill disk (suc fuel) want output f
        ≡ (IoResult.failed message, (disk.read (want - length output) f).1)
  unfolding fill
  fill_failed fuel want output f h q = ground (arith, q)

  pub fill_stops :
      (fuel want : ℕ) (output : List ℕ) (f : F)
      → length output < want
      → (disk.read (want - length output) f).0 ≡ IoResult.done []
      → fill disk (suc fuel) want output f ≡ (
        IoResult.done (if eqb (length output) 0 then ReadState.eof else ReadState.partial),
        (disk.read (want - length output) f).1,
      )
  unfolding fill
  fill_stops fuel want output f h q = ground (arith, q)

module _ {F : Type 0} (disk : Disk F) (contents : F → List ℕ) (position : F → ℕ)
    (laws : IsDisk disk contents position) (readable : IsReadable disk contents position) where
  read_nonempty :
      (n : ℕ) (f : F) {b : ℕ} {bytes : List ℕ}
      → (disk.read n f).0 ≡ IoResult.done (b ∷ bytes)
      → (unread contents position f ≡ (b ∷ bytes) ++ unread contents position (disk.read n f).1)
        × (suc (length bytes) ≤ n)
        × (contents (disk.read n f).1 ≡ contents f)
  read_nonempty n f {b} {bytes} q =
      let (split, bound, more) = laws.read_law n f q in
      let keeps = laws.read_keeps n f in (split, bound, keeps)

  read_empty :
      (n : ℕ) (f : F)
      → (disk.read n f).0 ≡ IoResult.done []
      → 0 < n
      → unread contents position f ≡ []
  read_empty n f q h =
      let (split, bound, more) = laws.read_law n f q in
      elim more [
        | inl p ↦ absurd (omega (arith, p))
        | inr (inl p) ↦ absurd (omega (arith, p))
        | inr (inr p) ↦ p
      ]

  -- A read short of the end gives at least one byte.
  read_some :
      (n : ℕ) (f : F)
      → 0 < n
      → 0 < length (unread contents position f)
      → (b : ℕ) × (bytes : List ℕ) × ((disk.read n f).0 ≡ IoResult.done (b ∷ bytes))
  read_some n f h i =
      let (bytes, q) = readable.reads n f in
      elim (List-uncons bytes) [
        | inl p ↦ absurd (omega (arith, ap length (read_empty n f (q ∙ ap IoResult.done p) h)))
        | inr (b, rest, p) ↦ (b, rest, q ∙ ap IoResult.done p)
      ]

  read_none :
      (n : ℕ) (f : F) → unread contents position f ≡ [] → (disk.read n f).0 ≡ IoResult.done []
  read_none n f h =
      let (bytes, q) = readable.reads n f in
      elim (List-uncons bytes) [
        | inl p ↦ q ∙ ap IoResult.done p
        | inr (b, rest, p) ↦ absurd (
            omega (
              arith,
              ap length (sym h ∙ (read_nonempty n f (q ∙ ap IoResult.done p)).0),
              length-append (b ∷ rest) (unread contents position (disk.read n f).1),
            ))
      ]

  -- The bytes are there: the buffer is filled.
  pub fill_full :
      (fuel want : ℕ) (output : List ℕ) (f : F) (word rest : List ℕ)
      → unread contents position f ≡ word ++ rest
      → length output + length word ≡ want
      → want ≤ length output + fuel
      → (f' : F) × (fill disk fuel want output f
          ≡ (IoResult.done (ReadState.complete (output ++ word)), f'))
        × (contents f' ≡ contents f)
        × (unread contents position f' ≡ rest)
  fill_full fuel want output f [] rest h size enough =
      (f, rw (append-nil output) (fill_done disk fuel want output f (omega arith)), refl, h)
  fill_full zero want output f (b ∷ word) rest h size enough = absurd (omega arith)
  fill_full (suc fuel) want output f (b ∷ word) rest h size enough =
      let n = want - length output in
      let there = ap length h in
      let (a, bytes, q) = read_some n f (omega arith) (omega arith) in
      let (split, bound, keeps) = read_nonempty n f q in
      let (more, p, tail) =
        append_split (a ∷ bytes) (unread contents position (disk.read n f).1) (b ∷ word) rest
          (sym h ∙ split) (omega arith) in
      let (f', run, same, left) =
        fill_full fuel want (output ++ a ∷ bytes) (disk.read n f).1 more rest tail
          (omega
            (arith, length-append output (a ∷ bytes), ap length p, length-append (a ∷ bytes) more))
          (omega (arith, length-append output (a ∷ bytes))) in
      (
        f',
        fill_reads disk fuel want output f (omega arith) q
            ∙ run
            ∙ ap (λ w. (IoResult.done (ReadState.complete w), f'))
                (append_assoc output (a ∷ bytes) more ∙ ap (◌++◌ output) (sym p)),
        same ∙ keeps,
        left,
      )

  -- The file ends before: the buffer is not filled.
  pub fill_short :
      (fuel want : ℕ) (output : List ℕ) (f : F)
      → length output + length (unread contents position f) < want
      → want ≤ length output + fuel
      → (f' : F) × (fill disk fuel want output f ≡ (
        IoResult.done (
            if eqb (length output + length (unread contents position f)) 0
            then ReadState.eof
            else ReadState.partial),
        f',
      ))
        × (contents f' ≡ contents f)
  fill_short zero want output f size enough = absurd (omega arith)
  fill_short (suc fuel) want output f size enough =
      let n = want - length output in
      elim (List-cases (unread contents position f)) [
        | inl p ↦
            let total : length output + length (unread contents position f) ≡ length output =
              omega (arith, ap length p) in
            (
              (disk.read n f).1,
              rw total (fill_stops disk fuel want output f (omega arith) (read_none n f p)),
              laws.read_keeps n f,
            )
        | inr p ↦
            let (a, bytes, q) = read_some n f (omega arith) p in
            let (split, bound, keeps) = read_nonempty n f q in
            let f₁ = (disk.read n f).1 in
            let total : length (output ++ a ∷ bytes) + length (unread contents position f₁)
                ≡ length output + length (unread contents position f) =
              omega (
                arith,
                ap length split,
                length-append (a ∷ bytes) (unread contents position f₁),
                length-append output (a ∷ bytes),
              ) in
            let (f', run, same) =
              fill_short fuel want (output ++ a ∷ bytes) f₁ (omega (arith, total))
                (omega (arith, length-append output (a ∷ bytes))) in
            (
              f',
              fill_reads disk fuel want output f (omega arith) q
                  ∙ subst
                      (λ n. fill disk fuel want (output ++ a ∷ bytes) f₁ ≡ (
                        IoResult.done (if eqb n 0 then ReadState.eof else ReadState.partial),
                        f',
                      ))
                      total run,
              same ∙ keeps,
            )
      ]

  pub read_or_partial_full :
      (word rest : List ℕ) (f : F)
      → unread contents position f ≡ word ++ rest
      → (f' : F) × (read_or_partial disk (length word) f
          ≡ (IoResult.done (ReadState.complete word), f'))
        × (contents f' ≡ contents f)
        × (unread contents position f' ≡ rest)
  unfolding read_or_partial
  read_or_partial_full word rest f h =
      fill_full (length word) (length word) [] f word rest h (omega arith) (omega arith)

  pub read_or_partial_short :
      (want : ℕ) (f : F)
      → length (unread contents position f) < want
      → (f' : F) × (read_or_partial disk want f ≡ (
        IoResult.done (
            if eqb (length (unread contents position f)) 0
            then ReadState.eof
            else ReadState.partial),
        f',
      ))
        × (contents f' ≡ contents f)
  unfolding read_or_partial
  read_or_partial_short want f h =
      let (f', run, same) = fill_short want want [] f (omega arith) (omega arith) in
      (
        f',
        subst
            (λ n.
              fill disk want want [] f
              ≡ (IoResult.done (if eqb n 0 then ReadState.eof else ReadState.partial), f'))
            (zero-add (length (unread contents position f))) run,
        same,
      )
