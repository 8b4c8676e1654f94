-- ===== src/Examples/Disks.antt =====
-- Two disks in memory: one that reads at most five bytes at a time and never fails, and one that
-- stops in the middle of a write.
use weavatrix_memory.Base.{
  ℕ, zero, suc, ◌+◌, ◌≤◌, ◌<◌, min, ◌≡◌, refl, sym, ap, ◌∙◌, ◌⊎◌, inl, inr, arith, true, List, [],
  ◌∷◌, ◌++◌, append-nil, length, take, drop, drop-drop, drop-eq-nil, take_rest, length-take, leb,
  if◌then◌else◌,
}
use weavatrix_memory.Disk.{Disk, IoResult, IsDisk, IsReadable, IsWorking}

pub record Ram : Type 0 where
  pub bytes : List ℕ
  pub cursor : ℕ

abbrev ahead : Ram → List ℕ
ahead f = drop f.cursor f.bytes

abbrev written : List ℕ → Ram → Ram
written w f = record {
  bytes = take f.cursor f.bytes ++ w ++ drop (f.cursor + length w) f.bytes;
  cursor = f.cursor + length w;
}

abbrev taken : ℕ → Ram → IoResult (List ℕ) × Ram
taken n f =
    (IoResult.done (take n (ahead f)), record f { cursor = f.cursor + length (take n (ahead f)) })

abbrev pub ram : Disk Ram
ram = record {
  metadata_len = λ f. IoResult.done (length f.bytes);
  try_lock = λ f. (IoResult.done true, f);
  seek_start = λ n f. (IoResult.done tt, record f { cursor = n });
  seek_end = λ f. (IoResult.done tt, record f { cursor = length f.bytes });
  read = λ n f. taken (min n 5) f;
  read_exact = λ n f.
      if leb n (length (ahead f))
      then taken n f
      else (IoResult.failed "failed to fill whole buffer", f);
  write_all = λ w f. (IoResult.done tt, written w f);
  set_len = λ n f. (IoResult.done tt, record f { bytes = take n f.bytes });
  sync_data = λ f. (IoResult.done tt, f);
  sync_all = λ f. (IoResult.done tt, f);
}

-- A disk that is full after 20 bytes of a write, and cannot truncate.
abbrev pub full_disk : Disk Ram
full_disk = record ram {
  write_all = λ w f. (IoResult.failed "no space left on device", written (take 20 w) f);
  set_len = λ n f. (IoResult.failed "device error", f);
}

taken_law :
    (n : ℕ) (f : Ram)
    → ahead f ≡ take n (ahead f) ++ drop (f.cursor + length (take n (ahead f))) f.bytes
taken_law n f =
    sym (take_rest n (ahead f))
    ∙ ap (λ l. take n (ahead f) ++ l) (sym (drop-drop f.cursor (length (take n (ahead f))) f.bytes))

take_all : (xs : List ℕ) → take (length xs) xs ≡ xs
take_all [] = refl
take_all (x ∷ xs) = ap (◌∷◌ x) (take_all xs)

written_law :
    (w : List ℕ) (f : Ram) → f.cursor ≡ length f.bytes → (written w f).bytes ≡ f.bytes ++ w
written_law w f h =
    rw (drop-eq-nil (f.cursor + length w) f.bytes (omega (arith, h)), h, take_all f.bytes)
      (append-nil (f.bytes ++ w))

some_read : (n : ℕ) (xs : List ℕ) → (0 < length (take (min n 5) xs)) ⊎ (n ≡ 0) ⊎ (xs ≡ [])
some_read zero xs = inr (inl refl)
some_read (suc n) [] = inr (inr refl)
some_read (suc n) (x ∷ xs) = inl (omega (arith, length-take (min (suc n) 5) (x ∷ xs)))

exact_cases :
    (n : ℕ) (f : Ram)
    → ((n ≤ length (ahead f)) × (ram.read_exact n f ≡ taken n f))
      ⊎ ((length (ahead f) < n)
          × (ram.read_exact n f ≡ (IoResult.failed "failed to fill whole buffer", f)))
exact_cases n f = ground arith

-- The reading half, which both disks share.
exact_law :
    (n : ℕ) (f : Ram) {w : List ℕ}
    → (ram.read_exact n f).0 ≡ IoResult.done w
    → (ahead f ≡ w ++ ahead (ram.read_exact n f).1) × (length w ≡ n)
exact_law n f {w} h = elim (exact_cases n f) [
  | inl (some, q) ↦
      let p : take n (ahead f) ≡ w = ground (arith, h, q) in
      (
        rw q (taken_law n f ∙ ap (λ l. l ++ ahead (taken n f).1) p),
        omega (arith, ap length (sym p), length-take n (ahead f), some),
      )
  | inr (short, q) ↦ absurd (ground (arith, h, q))
]

exact_keeps : (n : ℕ) (f : Ram) → (ram.read_exact n f).1.bytes ≡ f.bytes
exact_keeps n f = elim (exact_cases n f) [ inl (some, q) ↦ rw q refl | inr (short, q) ↦ rw q refl ]

read_law :
    (n : ℕ) (f : Ram) {w : List ℕ}
    → (ram.read n f).0 ≡ IoResult.done w
    → (ahead f ≡ w ++ ahead (ram.read n f).1)
      × (length w ≤ n)
      × ((0 < length w) ⊎ (n ≡ 0) ⊎ (ahead f ≡ []))
read_law n f {w} h =
    let p : take (min n 5) (ahead f) ≡ w = ground (arith, h) in
    (
      taken_law (min n 5) f ∙ ap (λ l. l ++ ahead (ram.read n f).1) p,
      omega (arith, ap length (sym p), length-take (min n 5) (ahead f)),
      rw (← p) (some_read n (ahead f)),
    )

pub ram-IsDisk : IsDisk ram (λ f. f.bytes) (λ f. f.cursor)
ram-IsDisk = record {
  len_law = λ f h. ground (arith, h);
  lock_keeps = λ f. refl;
  seek_keeps = λ n f. refl;
  seek_law = λ n f h. refl;
  end_keeps = λ f. refl;
  read_keeps = λ n f. refl;
  read_law = λ n f h. read_law n f h;
  exact_keeps = exact_keeps;
  exact_law = λ n f h. exact_law n f h;
  write_law = λ w f h p. written_law w f p;
  write_prefix = λ w f p. (length w, rw (take_all w) (written_law w f p));
  set_len_law = λ n f h p. refl;
  set_len_fails = λ n f h. absurd (ground (arith, h));
  sync_data_keeps = λ f. refl;
  sync_all_keeps = λ f. refl;
}

pub full_disk-IsDisk : IsDisk full_disk (λ f. f.bytes) (λ f. f.cursor)
full_disk-IsDisk = record {
  len_law = λ f h. ground (arith, h);
  lock_keeps = λ f. refl;
  seek_keeps = λ n f. refl;
  seek_law = λ n f h. refl;
  end_keeps = λ f. refl;
  read_keeps = λ n f. refl;
  read_law = λ n f h. read_law n f h;
  exact_keeps = exact_keeps;
  exact_law = λ n f h. exact_law n f h;
  write_law = λ w f h p. absurd (ground (arith, h));
  write_prefix = λ w f p. (20, written_law (take 20 w) f p);
  set_len_law = λ n f h p. absurd (ground (arith, h));
  set_len_fails = λ n f h. refl;
  sync_data_keeps = λ f. refl;
  sync_all_keeps = λ f. refl;
}

pub ram-IsReadable : IsReadable ram (λ f. f.bytes) (λ f. f.cursor)
ram-IsReadable = record {
  seeks = λ n f. refl;
  reads = λ n f. (take (min n 5) (ahead f), refl);
  reads_exact = λ n f h. elim (exact_cases n f) [
    | inl (some, q) ↦ (take n (ahead f), rw q refl)
    | inr (short, q) ↦ absurd (omega (arith, h, short))
  ];
}

pub ram-IsWorking : IsWorking ram (λ f. f.bytes) (λ f. f.cursor)
ram-IsWorking = record {
  readable = ram-IsReadable;
  locks = λ f. refl;
  measures = λ f. refl;
  writes = λ w f. refl;
  cuts = λ n f. refl;
  seeks_end = λ f. refl;
  syncs_data = λ f. refl;
  syncs_all = λ f. refl;
}
