-- ===== src/Filesys/OpenFile/Round.antt =====
-- `Write`, `Seek` and `Read` of an open file one after the other, and files that share no sector.
use my_nachos.Machine.Word.{sign_bit}
use my_nachos.Base.{
  ℕ, ◌+◌, ◌-◌, ◌<◌, ◌≤◌, ◌≡◌, refl, ap, ◌∙◌, true, ◌&&◌, some, if◌then◌else◌, ltb, leb, ◌==◌, ◌||◌,
  arith, Bool-cases, inl, inr,
}
use my_nachos.Base.Checked.{◌>>=◌}
use my_nachos.Bitmap.{Bitmap}
use my_nachos.Filesys.Header.{FileHeader, num_direct, file_length}
use my_nachos.Filesys.Header.Alloc.{needed, Allocated}
use my_nachos.Filesys.Header.Dealloc.{byte_to_sector_Allocated}
use my_nachos.Filesys.Volume.{OpenFile}
use my_nachos.Filesys.OpenFile.{Buffer, DiskData, clipped, seek, read, write}
use my_nachos.Filesys.OpenFile.Sectors.{IsMapped, content}
use my_nachos.Filesys.OpenFile.Reading.{
  clipped-bounds, clipped-refused, read_at-Reads, end_fits-below,
}
use my_nachos.Filesys.OpenFile.Writing.{write_at-Writes}

-- The header that Allocate leaves has a sector for every byte.
pub Allocated-IsMapped :
    (h : FileHeader) (m : Bitmap) (size : ℕ) (h' : FileHeader) (m' : Bitmap)
    → needed size ≤ num_direct
    → Allocated h m size h' m'
    → IsMapped h'
Allocated-IsMapped h m size h' m' fits a p q hp hq =
    byte_to_sector_Allocated h m size h' m' fits a p q (omega (arith, a.bytes))
      (omega (arith, a.bytes))

-- A byte inside what a request gets lies inside the file.
clipped-inside :
    (h : FileHeader) (n position j : ℕ) → j < clipped h n position → position + j < h.num_bytes
clipped-inside h n position j lt = elim (Bool-cases ((n == 0) || leb (file_length h) position)) [
  | inl e ↦ let none_at_all = clipped-refused h n position e in absurd (omega (arith, none_at_all))
  | inr e ↦ let (pos, (fits, le)) = clipped-bounds h n position e in omega (arith, fits)
]

-- Write to an open file whose bytes have their sectors, with the end of what is asked for below 2 ^ 31, then Seek to where it was written and Read as many bytes: both return the
-- same number, that of the bytes asked for or up to the end of the file, both leave the position that many bytes on, and the
-- bytes read are the ones written.
pub read-write :
    (f : OpenFile) (fresh from into : Buffer) (disk : DiskData) (n : ℕ)
    → IsMapped f.hdr
    → f.seek_position + n < sign_bit
    → (disk' : DiskData) × ((f' : OpenFile) × ((into' : Buffer) × ((write fresh disk n from f
              ≡ some (clipped f.hdr n f.seek_position, (disk', f')))
            × ((read fresh disk' n into (seek f.seek_position f')
                  ≡ some (clipped f.hdr n f.seek_position, (into', f')))
                × ((f'.seek_position ≡ f.seek_position + clipped f.hdr n f.seek_position)
                    × ((j : ℕ) → j < clipped f.hdr n f.seek_position → into' j ≡ from j))))))
unfolding write read seek
read-write f fresh from into disk n mapped lt =
    let h = f.hdr in
    let position = f.seek_position in
    let size = clipped h n position in
    let f' : OpenFile = record f { seek_position = position + size } in
    let (disk', wrote, w) = write_at-Writes h mapped fresh from disk n position lt in
    let (into', got, r) =
      read_at-Reads h mapped fresh disk' n position into 0 (end_fits-below h n position lt) in
    (
      disk',
      (
        f',
        (
          into',
          (
            ap (λ o. o >>= λ r. some (r.0, (r.1, record f { seek_position = position + r.0 })))
                wrote,
            (
              ap (λ o. o >>= λ r. some (r.0, (r.1, record f { seek_position = position + r.0 })))
                  got,
              (
                refl,
                λ j lt.
                    ap into' (omega arith)
                    ∙ r.inside j lt
                    ∙ w.bytes (position + j) (clipped-inside h n position j lt)
                    ∙ ap
                        (λ b.
                          if b
                          then from (position + j - position)
                          else content h disk (position + j))
                        (hit h n position j lt)
                    ∙ ap from (omega arith),
              ),
            ),
          ),
        ),
      ),
    )
  where
    hit :
        (h : FileHeader) (n position j : ℕ)
        → j < clipped h n position
        → (leb position (position + j) && ltb (position + j) (position + clipped h n position))
          ≡ true
    hit h n position j lt = both (clipped h n position) lt
      where
        both :
            (s : ℕ)
            → j < s
            → (leb position (position + j) && ltb (position + j) (position + s)) ≡ true
        both s l = ground arith
