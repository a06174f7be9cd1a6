-- ===== src/Filesys/OpenFile/Writing.antt =====
-- `OpenFile::WriteAt` puts the bytes in the file and changes no other.
use my_nachos.Machine.Word.{sign_bit}
use my_nachos.Base.{
  ℕ, ◌+◌, ◌-◌, ◌*◌, ◌/◌, ◌%◌, ◌<◌, ◌≤◌, ◌≡◌, ◌≢◌, refl, ap, ◌∙◌, Bool, true, false, not, ◌&&◌, ◌||◌,
  Option, some, if◌then◌else◌, ltb, leb, ◌==◌, arith, Bool-cases, inl, inr, dec_lt, ◌⊎◌,
}
use my_nachos.Base.Checked.{◌>>=◌, assert, ◌>>◌}
use my_nachos.Filesys.Header.{FileHeader, file_length}
use my_nachos.Filesys.OpenFile.{
  Buffer, DiskData, bcopy, clipped, read_at, write_sectors, read_edges, write_clipped, write_at,
  write_in_range,
}
use my_nachos.Filesys.OpenFile.Sectors.{
  IsMapped, sector_of, sector_of-apart, content, bcopy-inside, bcopy-below, bcopy-above, Stored,
  write_sectors-Stored,
}
use my_nachos.Filesys.OpenFile.Reading.{
  clipped-bounds, read_at-Reads, end_fits-below, end_fits-mapped,
}

clipped-covers :
    (h : FileHeader) (n position p : ℕ)
    → p < h.num_bytes
    → position ≤ p
    → p < position + n
    → p - position < clipped h n position
unfolding file_length
clipped-covers h n position p lt lo hi = ground arith

module _ (h : FileHeader) (mapped : IsMapped h) (fresh : Buffer) (disk : DiskData) where
  -- The buffer, whose start stands for the sector `i`, has the bytes of the file's sector `t`.
  abbrev Has : ℕ → ℕ → Buffer → Type 0
  Has i t buf =
      (p : ℕ)
      → p < h.num_bytes
      → t * 128 ≤ p
      → p < (t + 1) * 128
      → buf (p - i * 128) ≡ content h disk p

  first_read :
      (i : ℕ) (aligned : Bool)
      → (r : ℕ × Buffer) × ((if aligned
            then some (0, fresh)
            else read_at h fresh disk 128 (i * 128) fresh 0)
          ≡ some r)
        × (aligned ≡ false → Has i i r.1)
  first_read i true = ((0, fresh), refl, λ no. absurd (cc))
  first_read i false =
      let (buf, run, r) =
        read_at-Reads h mapped fresh disk 128 (i * 128) fresh 0
          (end_fits-mapped h (i * 128) mapped) in
      (
        (clipped h 128 (i * 128), buf),
        run,
        λ same p lt lo hi.
            ap buf (omega arith)
            ∙ r.inside (p - i * 128) (clipped-covers h 128 (i * 128) p lt lo (omega arith))
            ∙ ap (content h disk) (omega arith),
      )

  last_read :
      (i l : ℕ) (needed : Bool) (r : ℕ × Buffer)
      → i ≤ l
      → (r' : ℕ × Buffer) × ((if needed
            then read_at h fresh disk 128 (l * 128) r.1 ((l - i) * 128)
            else some r)
          ≡ some r')
        × (needed ≡ true → Has i l r'.1)
        × ((k : ℕ) → k < (l - i) * 128 → r'.1 k ≡ r.1 k)
        × (needed ≡ false → r'.1 ≡ r.1)
  last_read i l false r le = (r, refl, (λ no. absurd (cc)), (λ k lt. refl), λ same. refl)
  last_read i l true r le =
      let (buf, run, q) =
        read_at-Reads h mapped fresh disk 128 (l * 128) r.1 ((l - i) * 128)
          (end_fits-mapped h (l * 128) mapped) in
      (
        (clipped h 128 (l * 128), buf),
        run,
        (λ same p lt lo hi.
            ap buf (omega arith)
            ∙ q.inside (p - l * 128) (clipped-covers h 128 (l * 128) p lt lo (omega arith))
            ∙ ap (content h disk) (omega arith)),
        q.below,
        λ no. absurd (cc),
      )

  -- The bytes around the ones to write, in the sectors of the request, are in the buffer before the copy.
  record Prepared (n position i l : ℕ) (buf : Buffer) : Type 0 where
    left :
        (p : ℕ)
        → p < h.num_bytes
        → i * 128 ≤ p
        → p < position
        → buf (p - i * 128) ≡ content h disk p
    right :
        (p : ℕ)
        → p < h.num_bytes
        → position + n ≤ p
        → p < (l + 1) * 128
        → buf (p - i * 128) ≡ content h disk p

  reads-Prepared :
      (n position : ℕ) (i l : ℕ)
      → i ≡ position / 128
      → l ≡ (position + n - 1) / 128
      → 0 < n
      → (r : ℕ × Buffer) × (((if position == i * 128
              then some (0, fresh)
              else read_at h fresh disk 128 (i * 128) fresh 0)
            >>= λ r₁.
                if not (position + n == (l + 1) * 128) && (not (i == l) || (position == i * 128))
                then read_at h fresh disk 128 (l * 128) r₁.1 ((l - i) * 128)
                else some r₁)
          ≡ some r)
        × Prepared n position i l r.1
  reads-Prepared n position i l ei el pos =
      let aligned = position == i * 128 in
      let needed = not (position + n == (l + 1) * 128) && (not (i == l) || aligned) in
      let le : i ≤ l = ground arith in
      let (r₁, run₁, has₁) = first_read i aligned in
      let (r₂, run₂, has₂, below, same) = last_read i l needed r₁ le in
      (
        r₂,
        rw run₁ run₂,
        record {
          left = λ p lt lo hi.
              let off : aligned ≡ false = ground arith in
              elim (dec_lt i l) [
                | yes less ↦ below (p - i * 128) (omega arith) ∙ has₁ off p lt lo (ground arith)
                | no no_less ↦
                    let skipped : needed ≡ false = ground arith in
                    ap (λ b. b (p - i * 128)) (same skipped) ∙ has₁ off p lt lo (ground arith)
              ];
          right = λ p lt lo hi. elim (Bool-cases needed) [
            | inl e ↦ has₂ e p lt (ground arith) hi
            | inr e ↦
                let one : i ≡ l = ground arith in
                let off : aligned ≡ false = ground arith in
                ap (λ b. b (p - i * 128)) (same e) ∙ has₁ off p lt (omega arith) (omega arith)
          ];
        },
      )

-- The bytes of the file from a position are the buffer's, and every other byte of the file and every sector of others is as before.
pub record Writes (h : FileHeader) (from : Buffer) (n position : ℕ) (disk disk' : DiskData)
    : Type 0 where
  pub bytes :
      (p : ℕ)
      → p < h.num_bytes
      → content h disk' p
        ≡ (if leb position p && ltb p (position + n) then from (p - position) else content h disk p)
  pub others :
      (t : ℕ) → ((p : ℕ) → p < h.num_bytes → t ≢ sector_of h p) → (k : ℕ) → disk' t k ≡ disk t k

module _ (h : FileHeader) (mapped : IsMapped h) (fresh from : Buffer) (disk : DiskData) where
  module _ (n position : ℕ) (buf₀ : Buffer) (disk' : DiskData)
      (around : Prepared h mapped fresh disk n position
        (position / 128)
        ((position + n - 1) / 128)
        buf₀)
      (stored : Stored h mapped
        (bcopy from 0 buf₀ (position - position / 128 * 128) n)
        (1 + (position + n - 1) / 128 - position / 128)
        (position / 128)
        0
        disk
        disk')
      (pos : 0 < n) where
    first_byte : ℕ
    first_byte = position / 128 * 128

    end_byte : ℕ
    end_byte = ((position + n - 1) / 128 + 1) * 128

    outside :
        (p : ℕ)
        → p < h.num_bytes
        → (p < first_byte) ⊎ (end_byte ≤ p)
        → content h disk' p ≡ content h disk p
    unfolding first_byte end_byte
    outside p lt (inl out) =
        stored.elsewhere (sector_of h p)
          (λ q ltq lo hi e. let same = sector_of-apart h mapped p q lt ltq e in ground arith)
          (p % 128)
    outside p lt (inr out) =
        stored.elsewhere (sector_of h p)
          (λ q ltq lo hi e. let same = sector_of-apart h mapped p q lt ltq e in ground arith)
          (p % 128)

    within :
        (p : ℕ)
        → p < h.num_bytes
        → first_byte ≤ p
        → p < end_byte
        → content h disk' p ≡ bcopy from 0 buf₀ (position - first_byte) n (p - first_byte)
    unfolding first_byte end_byte
    within p lt lo hi =
        stored.inside p lt lo (ground arith)
        ∙ ap (bcopy from 0 buf₀ (position - position / 128 * 128) n) (omega arith)

    asked :
        (p : ℕ)
        → p < h.num_bytes
        → position ≤ p
        → p < position + n
        → content h disk' p ≡ from (p - position)
    unfolding first_byte end_byte
    asked p lt lo hi =
        within p lt (ground arith) (ground arith)
        ∙ bcopy-inside from 0 buf₀ (position - first_byte) n (p - first_byte) (ground arith)
            (ground arith)
        ∙ ap from (ground arith)

    before : (p : ℕ) → p < h.num_bytes → p < position → content h disk' p ≡ content h disk p
    unfolding first_byte end_byte
    before p lt hi = elim (dec_lt p first_byte) [
      | yes out ↦ outside p lt (inl out)
      | no inside ↦
          within p lt (omega arith) (ground arith)
          ∙ bcopy-below from 0 buf₀ (position - first_byte) n (p - first_byte) (ground arith)
          ∙ around.left p lt (omega arith) hi
    ]

    after : (p : ℕ) → p < h.num_bytes → position + n ≤ p → content h disk' p ≡ content h disk p
    unfolding first_byte end_byte
    after p lt lo = elim (dec_lt p end_byte) [
      | yes inside ↦
          within p lt (ground arith) inside
          ∙ bcopy-above from 0 buf₀ (position - first_byte) n (p - first_byte) (ground arith)
          ∙ around.right p lt lo inside
      | no out ↦ outside p lt (inr (omega arith))
    ]

    stored-Writes : Writes h from n position disk disk'
    stored-Writes = record {
      bytes = λ p lt. elim (Bool-cases (leb position p && ltb p (position + n))) [
        | inl e ↦ rw e (asked p lt (ground arith) (ground arith))
        | inr e ↦ rw e (elim (dec_lt p position) [
          | yes less ↦ before p lt less
          | no no_less ↦ after p lt (ground arith)
        ])
      ];
      others = λ t apart k. stored.elsewhere t (λ p lt lo hi. apart p lt) k;
    }

  write_clipped-Writes :
      (n position : ℕ)
      → 0 < n
      → position + n ≤ h.num_bytes
      → (disk' : DiskData) × (write_clipped h fresh from n position disk ≡ some disk')
        × Writes h from n position disk disk'
  unfolding write_clipped read_edges
  write_clipped-Writes n position pos fits =
      let i = position / 128 in
      let l = (position + n - 1) / 128 in
      let m = position - i * 128 in
      let (r, prepared, around) = reads-Prepared h mapped fresh disk n position i l refl refl pos in
      let (disk', run, s) =
        write_sectors-Stored h mapped (bcopy from 0 r.1 m n) (1 + l - i) i 0 disk
          (λ k lt. ground arith) in
      (
        disk',
        ap (λ o. o >>= λ r'. write_sectors h (bcopy from 0 r'.1 m n) (1 + l - i) i 0 disk) prepared
            ∙ run,
        stored-Writes n position r.1 disk' around s pos,
      )

  write_in_range-Writes :
      (num_bytes position : ℕ)
      → (disk' : DiskData) × (write_in_range h fresh from num_bytes position disk
          ≡ some (clipped h num_bytes position, disk'))
        × Writes h from (clipped h num_bytes position) position disk disk'
  unfolding write_in_range
  write_in_range-Writes num_bytes position =
      elim (Bool-cases ((num_bytes == 0) || leb (file_length h) position)) [
        | inl e ↦ rw e (
          disk,
          refl,
          record {
            bytes = λ p lt. elim (Bool-cases (leb position p && ltb p (position + 0))) [
              | inl i ↦ absurd (ground (arith, i))
              | inr i ↦ rw i refl
            ];
            others = λ t apart k. refl;
          },
        )
        | inr e ↦
            let (pos, (fits, le)) = clipped-bounds h num_bytes position e in
            let size = clipped h num_bytes position in
            let (disk', run, w) = write_clipped-Writes size position pos fits in
            let rest : Option DiskData → Option (ℕ × DiskData) = λ o. o >>= λ d. some (size, d) in
            (
              disk',
              ap
                    (λ b.
                      if b
                      then some (0, disk)
                      else rest (write_clipped h fresh from size position disk))
                    e
                  ∙ ap rest run,
              w,
            )
      ]

  -- WriteAt on a file whose bytes have their sectors, for a position and a count whose sum is below 2 ^ 31, returns the number of bytes asked for, or the number up to the end of the
  -- file when that is less (0 from a position at or beyond the end). Afterwards the file holds that many bytes of the buffer from the
  -- position on, every other byte of the file is as before, and so is every sector that holds no byte of the file.
  pub write_at-Writes :
      (num_bytes position : ℕ)
      → position + num_bytes < sign_bit
      → (disk' : DiskData) × (write_at h fresh from num_bytes position disk
          ≡ some (clipped h num_bytes position, disk'))
        × Writes h from (clipped h num_bytes position) position disk disk'
  unfolding write_at assert
  write_at-Writes num_bytes position lt =
      let (disk', run, w) = write_in_range-Writes num_bytes position in
      (
        disk',
        ap (λ b. assert b >> write_in_range h fresh from num_bytes position disk)
              (end_fits-below h num_bytes position lt)
            ∙ run,
        w,
      )
