-- ===== src/Nefs/Chunks.antt =====
-- The loop of `WriteCatalog` of private/minkernel/src/FS/NeFS+FileSystemParser.cpp that writes the
-- bytes, one sector at a time.
use nekrnl.Prelude.{
  ℕ, zero, suc, ◌+◌, ◌-◌, ◌*◌, ◌/◌, ◌%◌, ◌≤◌, ◌<◌, ◌≡◌, ◌⊎◌, inl, inr, refl, subst, ap, ◌∙◌, true,
  false, ltb, ◌==◌, if◌then◌else◌, some, arith, Bool-cases, ltb→lt, lt→ltb, ==_iff, dec_lt,
}
use nekrnl.Drive.{Drive, Device, success}
use nekrnl.Drive.Mount.{io_drv_output_ready}
use nekrnl.Nefs.{Disk, nefs_sector_sz}
use nekrnl.Nefs.Forks.{write_chunks, put_at, from_offset}

module _ {S : Type 0} (dev : Device) (fs : Disk S) where
  -- What is on the disk when the bytes from `offset` on are written, `left` of them.
  pub record Wrote (buf : ℕ → ℕ) (base left offset : ℕ) (d d' : Drive S) : Type 0 where
    pub stored :
        (i : ℕ)
        → i < left
        → fs.byte (d'.sectors (base + (offset + i) / 512)) ((offset + i) % 512) ≡ buf (offset + i)
    pub kept : (lba : ℕ) → lba < base + (offset + 511) / 512 → d'.sectors lba ≡ d.sectors lba

  abbrev chunk_of : ℕ → ℕ
  chunk_of left = if ltb nefs_sector_sz left then nefs_sector_sz else left

  abbrev write_chunk : (ℕ → ℕ) → ℕ → ℕ → ℕ → Drive S → Drive S
  write_chunk buf base left offset d = record d {
    error = success;
    sectors =
        put_at (base + offset / 512) (fs.put_bytes (chunk_of left) (from_offset buf offset))
          d.sectors;
  }

  nothing_left :
      (fuel : ℕ) (buf : ℕ → ℕ) (base offset : ℕ) (d : Drive S)
      → write_chunks dev fs fuel buf base 0 offset d ≡ some d
  unfolding write_chunks
  nothing_left zero buf base offset d = refl
  nothing_left (suc fuel) buf base offset d = refl

  chunk_bounds :
      (left : ℕ)
      → 0 < left
      → (0 < chunk_of left)
        × (chunk_of left < 513)
        × (chunk_of left ≤ left)
        × ((chunk_of left ≡ left) ⊎ (chunk_of left ≡ 512))
  chunk_bounds left h = elim (dec_lt 512 left) [
    | yes e ↦ rw (lt→ltb _ _ e) (omega arith, omega arith, omega arith, inr refl)
    | no e ↦ elim (Bool-cases (ltb nefs_sector_sz left)) [
      | inl t ↦ absurd (e (ltb→lt _ _ t))
      | inr t ↦ rw t (omega arith, omega arith, omega arith, inl refl)
    ]
  ]

  fuel_left : (left fuel : ℕ) → 0 < left → left ≤ 512 * suc fuel → left - chunk_of left ≤ 512 * fuel
  fuel_left left fuel h enough =
      let (positive, small, fits, all) = chunk_bounds left h in omega arith

  chunk_aligned :
      (left offset : ℕ)
      → 0 < left
      → offset % 512 ≡ 0
      → (left - chunk_of left ≡ 0) ⊎ ((offset + chunk_of left) % 512 ≡ 0)
  chunk_aligned left offset h aligned =
      let (positive, small, fits, all) = chunk_bounds left h in
      elim all [ inl e ↦ inl (omega arith) | inr e ↦ inr (omega arith) ]

  put_at-here : (lba at : ℕ) (put : S → S) (m : ℕ → S) → at ≡ lba → put_at lba put m at ≡ put (m at)
  put_at-here lba at put m e = rw ((==_iff at lba).1 e) refl

  put_at-elsewhere : (lba at : ℕ) (put : S → S) (m : ℕ → S) → at < lba → put_at lba put m at ≡ m at
  put_at-elsewhere lba at put m e = elim (Bool-cases (at == lba)) [
    | inl t ↦ let same = (==_iff at lba).0 t in absurd (omega arith)
    | inr t ↦ rw t refl
  ]

  -- The first chunk and what the rest of the loop writes are all of it.
  Wrote-step :
      (buf : ℕ → ℕ) (base left offset : ℕ) (d d' : Drive S)
      → 0 < left
      → offset % 512 ≡ 0
      → Wrote buf base
          (left - chunk_of left)
          (offset + chunk_of left)
          (write_chunk buf base left offset d)
          d'
      → Wrote buf base left offset d d'
  Wrote-step buf base left offset d d' some_left aligned rest =
      let (positive, small, fits, all) = chunk_bounds left some_left in
      let lba = base + offset / 512 in
      record {
        stored = λ i h. elim (dec_lt i (chunk_of left)) [
          | yes first ↦
              ap (λ at. fs.byte (d'.sectors at) ((offset + i) % 512)) {y = lba} (omega arith)
              ∙ ap (λ j. fs.byte (d'.sectors lba) j) {y = i} (omega arith)
              ∙ ap (λ s. fs.byte s i)
                  (rest.kept lba (omega arith)
                    ∙ put_at-here lba lba (fs.put_bytes (chunk_of left) (from_offset buf offset))
                        d.sectors refl)
              ∙ fs.byte-put_bytes (chunk_of left) i (from_offset buf offset) (d.sectors lba) first
                  small
          | no later ↦
              subst (λ j. fs.byte (d'.sectors (base + j / 512)) (j % 512) ≡ buf j) (omega arith)
                (rest.stored (i - chunk_of left) (omega arith))
        ];
        kept = λ at h.
            rest.kept at (omega arith)
            ∙ put_at-elsewhere lba at (fs.put_bytes (chunk_of left) (from_offset buf offset))
                d.sectors (omega arith);
      }

  -- The drive can be written from the sector `base` on.
  pub record TakesWrites (base : ℕ) (d : Drive S) : Type 0 where
    pub writes_ok : (lba : ℕ) → base ≤ lba → dev.writes lba ≡ true
    pub unlocked : d.read_only ≡ false
    pub not_first : 0 < base

  after_chunk :
      (fuel : ℕ) (buf : ℕ → ℕ) (base left offset : ℕ) (d : Drive S)
      → TakesWrites base d
      → 0 < left
      → write_chunks dev fs (suc fuel) buf base left offset d
        ≡ write_chunks dev fs fuel buf base
            (left - chunk_of left)
            (offset + chunk_of left)
            (write_chunk buf base left offset d)
  unfolding write_chunks
  after_chunk fuel buf base left offset d w some_left =
      let lba = base + offset / 512 in
      let first = w.not_first in
      rw
        (
          not_zero left some_left,
          io_drv_output_ready dev fs.root lba
              (put_at lba (fs.put_bytes (chunk_of left) (from_offset buf offset))) d
              (w.writes_ok lba (omega arith)) w.unlocked (not_zero lba (omega arith)),
        )
        refl
    where
      not_zero : (n : ℕ) → 0 < n → (n == 0) ≡ false
      not_zero n h = ground arith

  Wrote-all :
      (fuel : ℕ) (buf : ℕ → ℕ) (base left offset : ℕ) (d : Drive S)
      → TakesWrites base d
      → left ≤ 512 * fuel
      → (left ≡ 0) ⊎ (offset % 512 ≡ 0)
      → (d' : Drive S) × (write_chunks dev fs fuel buf base left offset d ≡ some d')
        × Wrote buf base left offset d d'
  Wrote-all fuel buf base zero offset d w enough aligned = (
    d,
    nothing_left fuel buf base offset d,
    record { stored = λ i h. absurd (omega arith); kept = λ lba h. refl },
  )
  Wrote-all zero buf base (suc left) offset d w enough aligned = absurd (omega arith)
  Wrote-all (suc fuel) buf base (suc left) offset d w enough aligned =
      let (positive, small, fits, all) = chunk_bounds (suc left) (omega arith) in
      let (d', ends, rest) =
        Wrote-all fuel buf base (suc left - chunk_of (suc left)) (offset + chunk_of (suc left))
          (write_chunk buf base (suc left) offset d)
          (record { writes_ok = w.writes_ok; unlocked = w.unlocked; not_first = w.not_first })
          (fuel_left (suc left) fuel (omega arith) enough)
          (chunk_aligned (suc left) offset (omega arith) (omega arith)) in
      (
        d',
        after_chunk fuel buf base (suc left) offset d w (omega arith) ∙ ends,
        Wrote-step buf base (suc left) offset d d' (omega arith) (omega arith) rest,
      )

  -- With fuel for every sector, the loop of `WriteCatalog` ends and has stored every byte in its
  -- place: on a drive that takes writes from `base` on, byte `i` of the buffer is byte `i % 512` of
  -- the sector `base + i / 512`.
  pub write_chunks-stored :
      (fuel : ℕ) (buf : ℕ → ℕ) (base size : ℕ) (d : Drive S)
      → TakesWrites base d
      → size ≤ 512 * fuel
      → (d' : Drive S) × (write_chunks dev fs fuel buf base size 0 d ≡ some d')
        × ((i : ℕ) → i < size → fs.byte (d'.sectors (base + i / 512)) (i % 512) ≡ buf i)
  write_chunks-stored fuel buf base size d w enough =
      let (d', ends, all) = Wrote-all fuel buf base size 0 d w enough (inr refl) in
      (
        d',
        ends,
        λ i h.
            subst (λ j. fs.byte (d'.sectors (base + j / 512)) (j % 512) ≡ buf j) (omega arith)
              (all.stored i h),
      )
