-- ===== src/Filesys/OpenFile/Reading.antt =====
-- `OpenFile::ReadAt` gets the bytes of the file.
use my_nachos.Machine.Word.{sign_bit}
use my_nachos.Base.{
  ℕ, ◌+◌, ◌-◌, ◌*◌, ◌/◌, ◌<◌, ◌≤◌, ◌≡◌, refl, ap, ◌∙◌, true, false, ◌||◌, Option, some,
  if◌then◌else◌, leb, ◌==◌, arith, Bool-cases, inl, inr, lt→ltb, Bool, none, ltb,
}
use my_nachos.Base.Checked.{◌>>=◌, assert, ◌>>◌}
use my_nachos.Filesys.Header.{
  FileHeader, file_length, byte_to_sector, get_sector, sector_size, num_direct,
}
use my_nachos.Filesys.OpenFile.{
  Buffer, DiskData, clipped, read_clipped, read_at, end_fits, read_in_range,
}
use my_nachos.Filesys.OpenFile.Sectors.{
  IsMapped, content, bcopy-inside, bcopy-below, bcopy-above, read_sectors-Filled,
}

-- A request that is not refused gets at least one byte, and none beyond the end of the file.
pub clipped-bounds :
    (h : FileHeader) (n position : ℕ)
    → ((n == 0) || leb (file_length h) position) ≡ false
    → (0 < clipped h n position)
      × ((position + clipped h n position ≤ h.num_bytes) × (clipped h n position ≤ n))
unfolding file_length
clipped-bounds h n position go_on = ground arith

pub clipped-refused :
    (h : FileHeader) (n position : ℕ)
    → ((n == 0) || leb (file_length h) position) ≡ true
    → clipped h n position ≡ 0
clipped-refused h n position stop = rw stop refl

-- The bytes of the file from a position stand in the buffer, and the rest of the buffer is as before.
pub record Reads (h : FileHeader) (disk : DiskData) (n position : ℕ) (into : Buffer) (at : ℕ)
    (into' : Buffer) : Type 0 where
  pub inside : (j : ℕ) → j < n → into' (at + j) ≡ content h disk (position + j)
  pub below : (k : ℕ) → k < at → into' k ≡ into k
  pub above : (k : ℕ) → at + n ≤ k → into' k ≡ into k

-- A request whose end is an int is in range.
pub end_fits-below :
    (h : FileHeader) (n position : ℕ) → position + n < sign_bit → end_fits h n position ≡ true
end_fits-below h n position lt = after ((n == 0) || leb (file_length h) position)
  where
    after : (b : Bool) → (b || ltb (position + n) sign_bit) ≡ true
    after true = refl
    after false = lt→ltb (position + n) sign_bit lt

near_position :
    (h : FileHeader) (position : ℕ)
    → IsMapped h
    → position < h.num_bytes
    → position + 128 < sign_bit
unfolding byte_to_sector get_sector assert
near_position h position mapped inside =
    let (s, t, got, got_t, rest) = mapped position position inside inside in
    elim (Bool-cases (ltb (position / sector_size) num_direct)) [
      | inl small ↦ ground (arith, small)
      | inr large ↦ let bad : none ≡ some s = rw large at got in absurd (cc)
    ]

-- So is one for a sector, from a position inside the file: a file has no more bytes than its header has entries for.
pub end_fits-mapped : (h : FileHeader) (position : ℕ) → IsMapped h → end_fits h 128 position ≡ true
unfolding file_length
end_fits-mapped h position mapped = elim (Bool-cases (leb h.num_bytes position)) [
  | inl e ↦ rw e refl
  | inr e ↦ end_fits-below h 128 position (near_position h position mapped (ground (arith, e)))
]

module _ (h : FileHeader) (mapped : IsMapped h) (fresh : Buffer) (disk : DiskData) where
  read_clipped-Reads :
      (n position : ℕ) (into : Buffer) (at : ℕ)
      → 0 < n
      → position + n ≤ h.num_bytes
      → (into' : Buffer) × (read_clipped h fresh disk n position into at ≡ some into')
        × Reads h disk n position into at into'
  unfolding read_clipped
  read_clipped-Reads n position into at pos fits =
      let i = position / 128 in
      let l = (position + n - 1) / 128 in
      let (buf, run, r) =
        read_sectors-Filled h mapped disk (1 + l - i) i 0 fresh (λ k lt. ground arith) in
      rw run (
        _,
        refl,
        record {
          inside = λ j lt.
              bcopy-inside buf (position - i * 128) into at n (at + j) (omega arith) (omega arith)
              ∙ ap buf (omega arith)
              ∙ r.inside (position - i * 128 + j) (ground arith) (omega arith)
              ∙ ap (content h disk) (omega arith);
          below = λ k lt. bcopy-below buf (position - i * 128) into at n k lt;
          above = λ k le. bcopy-above buf (position - i * 128) into at n k le;
        },
      )

  read_in_range-Reads :
      (num_bytes position : ℕ) (into : Buffer) (at : ℕ)
      → (into' : Buffer) × (read_in_range h fresh disk num_bytes position into at
          ≡ some (clipped h num_bytes position, into'))
        × Reads h disk (clipped h num_bytes position) position into at into'
  unfolding read_in_range
  read_in_range-Reads num_bytes position into at =
      elim (Bool-cases ((num_bytes == 0) || leb (file_length h) position)) [
        | inl e ↦ rw e (
          into,
          refl,
          record {
            inside = λ j lt. absurd (omega arith);
            below = λ k lt. refl;
            above = λ k le. refl;
          },
        )
        | inr e ↦
            let (pos, (fits, le)) = clipped-bounds h num_bytes position e in
            let (into', run, r) =
              read_clipped-Reads (clipped h num_bytes position) position into at pos fits in
            let size = clipped h num_bytes position in
            let rest : Option Buffer → Option (ℕ × Buffer) = λ o. o >>= λ b. some (size, b) in
            (
              into',
              ap
                    (λ b.
                      if b
                      then some (0, into)
                      else rest (read_clipped h fresh disk size position into at))
                    e
                  ∙ ap rest run,
              r,
            )
      ]

  -- ReadAt in range on a file whose bytes have their sectors returns: the number of bytes asked for, or the number up to the end of the file when
  -- that is less (0 from a position at or beyond the end), and it puts that many bytes of the file from the position on in the buffer,
  -- whose rest stays as it was.
  pub read_at-Reads :
      (num_bytes position : ℕ) (into : Buffer) (at : ℕ)
      → end_fits h num_bytes position ≡ true
      → (into' : Buffer) × (read_at h fresh disk num_bytes position into at
          ≡ some (clipped h num_bytes position, into'))
        × Reads h disk (clipped h num_bytes position) position into at into'
  unfolding read_at assert
  read_at-Reads num_bytes position into at ok =
      let (into', run, r) = read_in_range-Reads num_bytes position into at in
      (
        into',
        ap (λ b. assert b >> read_in_range h fresh disk num_bytes position into at) ok ∙ run,
        r,
      )
