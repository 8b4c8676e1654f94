-- ===== src/Frame/Taken.antt =====
-- store/frame.rs, `read_or_partial` on any file, where reads may fail: what a full buffer holds.
use weavatrix_memory.Base.{
  List-uncons, String, ℕ, zero, suc, ◌+◌, ◌-◌, ◌≤◌, ◌<◌, ◌≡◌, ◌≢◌, refl, sym, ap, ◌∙◌, ◌⊎◌, inl,
  inr, arith, List, [], ◌∷◌, ◌++◌, append-nil, append_assoc, length, length-append, eqb, Bool, true,
  false, if◌then◌else◌,
}
use weavatrix_memory.Disk.{Disk, unread, IoResult, IsDisk, IoResult-cases}
use weavatrix_memory.Frame.Reading.{fill_failed, fill_done, fill_reads, fill_stops}
use weavatrix_memory.Frame.{fill, read_or_partial, ReadState}

failed_not_complete :
    {F : Type 0} {message : String} {out : List ℕ} {f f' : F}
    → ◌≢◌ {A = IoResult ReadState × F}
        (IoResult.failed message, f)
        (IoResult.done (ReadState.complete out), f')
failed_not_complete h = ground arith

never_complete :
    {F : Type 0} (nothing : Bool) {out : List ℕ} {f f' : F}
    → ◌≢◌ {A = IoResult ReadState × F}
        (IoResult.done (if nothing then ReadState.eof else ReadState.partial), f)
        (IoResult.done (ReadState.complete out), f')
never_complete true h = ground arith
never_complete false h = ground arith

pub lt_cases : (a b : ℕ) → (a < b) ⊎ (b ≤ a)
lt_cases a b = ground arith

module _ {F : Type 0} (disk : Disk F) (contents : F → List ℕ) (position : F → ℕ)
    (laws : IsDisk disk contents position) where
  taken_none :
      (want : ℕ) (output : List ℕ) (f : F) {out : List ℕ} {f' : F}
      → ◌≡◌ {A = IoResult ReadState × F}
          (IoResult.done (ReadState.complete output), f)
          (IoResult.done (ReadState.complete out), f')
      → want ≤ length output
      → (taken : List ℕ) × (out ≡ output ++ taken)
        × (unread contents position f ≡ taken ++ unread contents position f')
        × (contents f' ≡ contents f)
        × (want ≤ length out)
  taken_none want output f {out} {f'} h enough =
      let p : output ≡ out = ground arith in
      let q : f ≡ f' = ground arith in
      ([], rw (append-nil output) (sym p), rw q refl, rw q refl, omega (arith, ap length p))

  -- A full buffer holds what was taken off the file.
  pub fill_taken :
      (fuel want : ℕ) (output : List ℕ) (f : F) {out : List ℕ} {f' : F}
      → fill disk fuel want output f ≡ (IoResult.done (ReadState.complete out), f')
      → want ≤ length output + fuel
      → (taken : List ℕ) × (out ≡ output ++ taken)
        × (unread contents position f ≡ taken ++ unread contents position f')
        × (contents f' ≡ contents f)
        × (want ≤ length out)
  unfolding fill
  fill_taken zero want output f h enough = taken_none want output f h (omega arith)
  fill_taken (suc fuel) want output f {out} {f'} h enough = elim (lt_cases (length output) want) [
    | inr long ↦
        taken_none want output f (sym (fill_done disk (suc fuel) want output f long) ∙ h) long
    | inl short ↦
        let n = want - length output in
        elim (IoResult-cases (disk.read n f).0) [
          | inr (message, q) ↦
              absurd (failed_not_complete (sym (fill_failed disk fuel want output f short q) ∙ h))
          | inl (bytes, q) ↦ elim (List-uncons bytes) [
            | inl p ↦ absurd (
                never_complete (eqb (length output) 0)
                  (sym (fill_stops disk fuel want output f short (q ∙ ap IoResult.done p)) ∙ h))
            | inr (b, more, p) ↦
                let read = q ∙ ap IoResult.done p in
                let (split, bound, keeps) = laws.read_law n f read in
                let (taken, o, u, same, filled) =
                  fill_taken fuel want (output ++ b ∷ more) (disk.read n f).1
                    (sym (fill_reads disk fuel want output f short read) ∙ h)
                    (omega (arith, length-append output (b ∷ more))) in
                (
                  b ∷ more ++ taken,
                  o ∙ append_assoc output (b ∷ more) taken,
                  split
                      ∙ ap (◌++◌ (b ∷ more)) u
                      ∙ sym (append_assoc (b ∷ more) taken (unread contents position f')),
                  same ∙ laws.read_keeps n f,
                  filled,
                )
          ]
        ]
  ]

  pub read_taken :
      (want : ℕ) (f : F) {out : List ℕ} {f' : F}
      → read_or_partial disk want f ≡ (IoResult.done (ReadState.complete out), f')
      → (unread contents position f ≡ out ++ unread contents position f')
        × (contents f' ≡ contents f)
        × (want ≤ length out)
  unfolding read_or_partial
  read_taken want f {f' = f'} h =
      let (taken, p, q, same, filled) = fill_taken want want [] f h (omega arith) in
      (q ∙ ap (λ l. l ++ unread contents position f') (sym p), same, filled)
