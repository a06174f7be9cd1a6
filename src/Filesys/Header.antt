-- ===== src/Filesys/Header.antt =====
-- code/filesys/filehdr.h and filehdr.cc: a file's size and the disk sectors of its data.
-- Sizes and sector numbers are natural numbers. `none` is a failed ASSERT or an access outside the
-- array `dataSectors`.
pub mod Alloc
pub mod Dealloc
use my_nachos.Base.{
  ℕ, zero, suc, ◌+◌, ◌-◌, ◌*◌, ◌/◌, ◌<◌, Bool, true, false, Option, none, some, List, if◌then◌else◌,
  ltb, length, get_or, set, take, ◌≡◌,
}
use my_nachos.Base.Checked.{◌>>=◌, ◌>>◌, assert}
use my_nachos.Bitmap.{Bitmap, div_round_up, num_clear, find_and_set, test, clear}

-- machine/disk.h
abbrev pub sector_size : ℕ
sector_size = 128

-- (SectorSize - 2 * sizeof(int)) / sizeof(int)
abbrev pub num_direct : ℕ
num_direct = (sector_size - 2 * 4) / 4

abbrev pub max_file_size : ℕ
max_file_size = num_direct * sector_size

pub record FileHeader : Type 0 where
  pub num_bytes : ℕ
  pub num_sectors : ℕ
  pub data_sectors : List ℕ

-- The array has NumDirect places.
abbrev pub IsSized : FileHeader → Type 0
IsSized h = length h.data_sectors ≡ num_direct

-- `dataSectors[i] = s;`
unfoldable pub put_sector : FileHeader → ℕ → ℕ → Option FileHeader
put_sector h i s = do
  assert (ltb i (length h.data_sectors))
  some (record h { data_sectors = set h.data_sectors i s })

-- The value of `dataSectors[i]`.
unfoldable pub get_sector : FileHeader → ℕ → Option ℕ
get_sector h i = do assert (ltb i num_direct); some (get_or h.data_sectors i 0)

-- One round of the loop of `Allocate`, with `ASSERT(dataSectors[i] >= 0)`.
unfoldable pub take_sector : ℕ → FileHeader → Bitmap → Option (FileHeader × Bitmap)
take_sector i h free_map = do
  (found, free_map') ← find_and_set free_map
  s ← found
  h' ← put_sector h i s
  some (h', free_map')

unfoldable pub allocate_from : ℕ → ℕ → FileHeader → Bitmap → Option (FileHeader × Bitmap)
allocate_from zero i h free_map = some (h, free_map)
allocate_from (suc n) i h free_map =
    take_sector i h free_map >>= λ (h', m'). allocate_from n (i + 1) h' m'

-- FALSE, TRUE with the header and the map as they are left.
unfoldable pub allocate : FileHeader → Bitmap → ℕ → Option (Bool × FileHeader × Bitmap)
allocate h free_map file_size =
    let n = div_round_up file_size sector_size in
    let h' = record h { num_bytes = file_size; num_sectors = n } in
    do
      free ← num_clear free_map
      if ltb free n
          then some (false, h', free_map)
          else (allocate_from n 0 h' free_map >>= λ (h'', m). some (true, h'', m))

-- One round of `Deallocate`.
unfoldable pub free_sector : ℕ → FileHeader → Bitmap → Option Bitmap
free_sector i h free_map = do
  s ← get_sector h i
  marked ← test free_map s
  assert marked
  clear free_map s

unfoldable pub deallocate_from : ℕ → ℕ → FileHeader → Bitmap → Option Bitmap
deallocate_from zero i h free_map = some free_map
deallocate_from (suc n) i h free_map = free_sector i h free_map >>= deallocate_from n (i + 1) h

unfoldable pub deallocate : FileHeader → Bitmap → Option Bitmap
deallocate h free_map = deallocate_from h.num_sectors 0 h free_map

unfoldable pub byte_to_sector : FileHeader → ℕ → Option ℕ
byte_to_sector h offset = get_sector h (offset / sector_size)

unfoldable pub file_length : FileHeader → ℕ
file_length h = h.num_bytes

-- The sectors that hold the file's data.
abbrev pub blocks : FileHeader → List ℕ
blocks h = take h.num_sectors h.data_sectors
