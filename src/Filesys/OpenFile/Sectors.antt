-- ===== src/Filesys/OpenFile/Sectors.antt =====
-- The loops over the sectors of a file.
use my_nachos.Base.{
  ℕ, zero, suc, ◌+◌, ◌-◌, ◌*◌, ◌/◌, ◌%◌, ◌<◌, ◌≤◌, ◌≡◌, ◌≢◌, refl, sym, ap, ◌∙◌, true, Option, none,
  some, if◌then◌else◌, ltb, leb, ◌==◌, arith, Bool-cases, inl, inr, ==_self, ==_of_ne, dec_lt,
}
use my_nachos.Filesys.Header.{FileHeader, sector_size, byte_to_sector}
use my_nachos.Filesys.Header.Dealloc.{Locates}
use my_nachos.Filesys.OpenFile.{
  Buffer, DiskData, bcopy, read_sector, write_sector, read_sectors, write_sectors,
}

-- Every byte of the file has its sector, and two bytes have the same one exactly when they lie in the same 128 bytes.
abbrev pub IsMapped : FileHeader → Type 0
IsMapped h = (p q : ℕ) → p < h.num_bytes → q < h.num_bytes → Locates h p q

abbrev pub or_zero : Option ℕ → ℕ
or_zero none = 0
or_zero (some s) = s

-- The sector of a byte.
abbrev pub sector_of : FileHeader → ℕ → ℕ
sector_of h p = or_zero (byte_to_sector h p)

-- The byte of a file at a position.
abbrev pub content : FileHeader → DiskData → ℕ → ℕ
content h disk p = disk (sector_of h p) (p % sector_size)

pub bcopy-inside :
    (from : Buffer) (a : ℕ) (into : Buffer) (b n k : ℕ)
    → b ≤ k
    → k < b + n
    → bcopy from a into b n k ≡ from (a + (k - b))
bcopy-inside from a into b n k h l = elim (Bool-cases (leb b k)) [
  | inl e ↦ elim (Bool-cases (ltb k (b + n))) [
    | inl i ↦ rw (e, i) refl
    | inr i ↦ absurd (ground (arith, i, l))
  ]
  | inr e ↦ absurd (ground (arith, e, h))
]

pub bcopy-below :
    (from : Buffer) (a : ℕ) (into : Buffer) (b n k : ℕ) → k < b → bcopy from a into b n k ≡ into k
bcopy-below from a into b n k h = elim (Bool-cases (leb b k)) [
  | inl e ↦ absurd (ground (arith, e, h))
  | inr e ↦ rw e refl
]

pub bcopy-above :
    (from : Buffer) (a : ℕ) (into : Buffer) (b n k : ℕ)
    → b + n ≤ k
    → bcopy from a into b n k ≡ into k
bcopy-above from a into b n k h = elim (Bool-cases (leb b k)) [
  | inl e ↦ elim (Bool-cases (ltb k (b + n))) [
    | inl i ↦ absurd (ground (arith, i, h))
    | inr i ↦ rw (e, i) refl
  ]
  | inr e ↦ rw e refl
]

module _ (h : FileHeader) (mapped : IsMapped h) where
  pub sector_of_lem : (p : ℕ) → p < h.num_bytes → byte_to_sector h p ≡ some (sector_of h p)
  sector_of_lem p lt =
      let (s, t, is, it, same) = mapped p p lt lt in is ∙ ap some (sym (ap or_zero is))

  pub sector_of-same :
      (p q : ℕ)
      → p < h.num_bytes
      → q < h.num_bytes
      → p / 128 ≡ q / 128
      → sector_of h p ≡ sector_of h q
  sector_of-same p q hp hq e =
      let (s, t, is, it, same) = mapped p q hp hq in ap or_zero is ∙ same.1 e ∙ sym (ap or_zero it)

  pub sector_of-apart :
      (p q : ℕ)
      → p < h.num_bytes
      → q < h.num_bytes
      → sector_of h p ≡ sector_of h q
      → p / 128 ≡ q / 128
  sector_of-apart p q hp hq e =
      let (s, t, is, it, same) = mapped p q hp hq in
      same.0 (sym (ap or_zero is) ∙ e ∙ ap or_zero it)

  -- The part of the buffer that the loop of ReadAt fills holds the bytes of the file, the rest is as before.
  pub record Filled (disk : DiskData) (n i at : ℕ) (buf buf' : Buffer) : Type 0 where
    pub inside :
        (k : ℕ)
        → k < n * 128
        → i * 128 + k < h.num_bytes
        → buf' (at + k) ≡ content h disk (i * 128 + k)
    pub below : (k : ℕ) → k < at → buf' k ≡ buf k

  pub read_sectors-Filled :
      (disk : DiskData) (n i at : ℕ) (buf : Buffer)
      → ((k : ℕ) → k < n → (i + k) * 128 < h.num_bytes)
      → (buf' : Buffer) × (read_sectors h disk n i at buf ≡ some buf') × Filled disk n i at buf buf'
  unfolding read_sectors
  read_sectors-Filled disk zero i at buf ok =
      (buf, refl, record { inside = λ k lt in_file. absurd (omega arith); below = λ k lt. refl })
  read_sectors-Filled disk (suc n) i at buf ok =
      let s = sector_of h (i * 128) in
      let here : i * 128 < h.num_bytes = omega (arith, ok 0 (omega arith)) in
      let (buf', run, r) =
        read_sectors-Filled disk n (suc i) (at + 128) (read_sector disk s buf at)
          (λ k lt. omega (arith, ok (suc k) (omega arith))) in
      rw (sector_of_lem (i * 128) here) (
        buf',
        run,
        record {
          inside = λ k lt in_file. elim (dec_lt k 128) [
            | yes l ↦
                let q : (i * 128 + k) / 128 ≡ (i * 128) / 128 = ground arith in
                let m : (i * 128 + k) % 128 ≡ k = ground arith in
                r.below (at + k) (omega arith)
                ∙ bcopy-inside (disk s) 0 buf at 128 (at + k) (omega arith) (omega arith)
                ∙ ap (disk s) (omega arith)
                ∙ sym (
                    ap (λ t. disk t ((i * 128 + k) % 128))
                      (sector_of-same (i * 128 + k) (i * 128) in_file here q)
                    ∙ ap (disk s) m)
            | no l ↦
                let e : suc i * 128 + (k - 128) ≡ i * 128 + k = omega arith in
                ap buf' (omega arith)
                ∙ r.inside (k - 128) (omega arith) (omega arith)
                ∙ ap (content h disk) e
          ];
          below = λ k lt. r.below k (omega arith) ∙ bcopy-below (disk s) 0 buf at 128 k lt;
        },
      )

  -- The loop of WriteAt puts the buffer in the sectors of `n` times 128 bytes of the file, and no other sector changes.
  pub record Stored (buf : Buffer) (n i at : ℕ) (disk disk' : DiskData) : Type 0 where
    pub inside :
        (p : ℕ)
        → p < h.num_bytes
        → i * 128 ≤ p
        → p < (i + n) * 128
        → content h disk' p ≡ buf (at + (p - i * 128))
    pub elsewhere :
        (t : ℕ)
        → ((p : ℕ) → p < h.num_bytes → i * 128 ≤ p → p < (i + n) * 128 → t ≢ sector_of h p)
        → (k : ℕ) → disk' t k ≡ disk t k

  pub write_sectors-Stored :
      (buf : Buffer) (n i at : ℕ) (disk : DiskData)
      → ((k : ℕ) → k < n → (i + k) * 128 < h.num_bytes)
      → (disk' : DiskData) × (write_sectors h buf n i at disk ≡ some disk')
        × Stored buf n i at disk disk'
  unfolding write_sectors
  write_sectors-Stored buf zero i at disk ok = (
    disk,
    refl,
    record { inside = λ p lt lo hi. absurd (omega arith); elsewhere = λ t apart k. refl },
  )
  write_sectors-Stored buf (suc n) i at disk ok =
      let s = sector_of h (i * 128) in
      let here : i * 128 < h.num_bytes = omega (arith, ok 0 (omega arith)) in
      let disk₁ = write_sector disk s buf at in
      let (disk', run, r) =
        write_sectors-Stored buf n (suc i) (at + 128) disk₁
          (λ k lt. omega (arith, ok (suc k) (omega arith))) in
      rw (sector_of_lem (i * 128) here) (
        disk',
        run,
        record {
          inside = λ p lt lo hi. elim (dec_lt p (suc i * 128)) [
            | yes l ↦
                let q : p / 128 ≡ (i * 128) / 128 = ground arith in
                let m : p % 128 ≡ p - i * 128 = ground arith in
                let same : sector_of h p ≡ s = sector_of-same p (i * 128) lt here q in
                let kept =
                  r.elsewhere (sector_of h p)
                    (λ p' lt' lo' hi' e.
                      let together = sector_of-apart p p' lt lt' e in ground arith)
                    (p % 128) in
                let hit : (sector_of h p == s) ≡ true = rw same (==_self s) in
                let written : disk₁ (sector_of h p) (p % 128) ≡ buf (at + p % 128) =
                  ap
                    (λ b.
                      (if b then bcopy buf at (disk s) 0 128 else disk (sector_of h p)) (p % 128))
                    hit
                  ∙ bcopy-inside buf at (disk s) 0 128 (p % 128) (omega arith) (omega arith)
                  ∙ ap buf (omega arith) in
                kept ∙ written ∙ ap (λ x. buf (at + x)) m
            | no l ↦ r.inside p lt (omega arith) (omega arith) ∙ ap buf (omega arith)
          ];
          elsewhere = λ t apart k.
              r.elsewhere t (λ p lt lo hi. apart p lt (omega arith) (omega arith)) k
              ∙ ap (λ b. (if b then bcopy buf at (disk s) 0 128 else disk t) k)
                  (==_of_ne t s (apart (i * 128) here (omega arith) (omega arith)));
        },
      )
