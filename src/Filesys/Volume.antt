-- ===== src/Filesys/Volume.antt =====
-- code/filesys/filesys.cc: FileSystem, over what the disk holds. The free map and the directory are
-- kept as the values that `FetchFrom` reads and `WriteBack` writes; `headers s` is the file header
-- in sector `s`. Operations read what they need, work on copies, and write back on success only.
-- `none` is a failed ASSERT or a write outside an array.
pub mod Sound
pub mod Create
pub mod Remove
pub mod Format
use mathlib.Core.Option
use my_nachos.Base.{
  ℕ, zero, suc, Bool, true, false, Option, none, some, List, if◌then◌else◌, not, ◌==◌,
}
use my_nachos.Base.Checked.{◌>>=◌, ◌>>◌, assert}
use my_nachos.Bitmap.{Bitmap, find_and_set, clear, mark}
use my_nachos.Bitmap
use my_nachos.Filesys.Header.{FileHeader, allocate, deallocate, file_length}
use my_nachos.Filesys.Directory.{DirectoryEntry, Directory, find, add, remove, new_directory}

abbrev pub num_sectors : ℕ
num_sectors = 1024

abbrev pub free_map_sector : ℕ
free_map_sector = 0

abbrev pub directory_sector : ℕ
directory_sector = 1

abbrev pub num_dir_entries : ℕ
num_dir_entries = 10

-- NumSectors / BitsInByte, and ten entries of 20 bytes each
abbrev pub free_map_file_size : ℕ
free_map_file_size = 128

abbrev pub directory_file_size : ℕ
directory_file_size = 200

pub record Disk : Type 0 where
  pub free_map : Bitmap
  pub directory : Directory
  pub headers : ℕ → FileHeader

-- `hdr->WriteBack(sector)`
abbrev pub write_header : (ℕ → FileHeader) → ℕ → FileHeader → ℕ → FileHeader
write_header hs s h i = if i == s then h else hs i

-- The part of `Create` after a sector for the header is found; `mem` is the memory of the new
-- FileHeader, `m` the free map with that sector marked.
unfoldable pub create_at : Disk → FileHeader → List ℕ → ℕ → ℕ → Bitmap → Option (Bool × Disk)
create_at k mem name size sector m =
    let (entered, d) = add k.directory name sector in
    if not entered
    then some (false, k)
    else (allocate mem m size >>= λ (success, h, m'). some (
        if success
        then (
          true,
          record { free_map = m'; directory = d; headers = write_header k.headers sector h },
        )
        else (false, k)))

unfoldable pub create : Disk → FileHeader → List ℕ → ℕ → Option (Bool × Disk)
create k mem name size = elim (find k.directory name) [
  | some _ ↦ some (false, k)
  | none ↦ find_and_set k.free_map >>= λ (found, m). elim found [
    | none ↦ some (false, k)
    | some sector ↦ create_at k mem name size sector m
  ]
]

pub record OpenFile : Type 0 where
  pub hdr : FileHeader
  pub seek_position : ℕ

-- NULL is `none`.
unfoldable pub open_file : Disk → List ℕ → Option OpenFile
open_file k name =
    Option.map (λ s. record { hdr = k.headers s; seek_position = 0 }) (find k.directory name)

unfoldable pub remove_file : Disk → List ℕ → Option (Bool × Disk)
remove_file k name = elim (find k.directory name) [
  | none ↦ some (false, k)
  | some sector ↦ do
    m ← deallocate (k.headers sector) k.free_map
    m' ← clear m sector
    some (true, record k { free_map = m'; directory = (remove k.directory name).1 })
]

-- The constructor with `format`: `map_mem`, `dir_mem`, `old` are the memory of the new objects and
-- `hs` what the sectors held.
unfoldable pub format :
    FileHeader → FileHeader → List DirectoryEntry → (ℕ → FileHeader) → Option Disk
format map_mem dir_mem old hs = do
  m0 ← Bitmap.create num_sectors
  m1 ← mark m0 free_map_sector
  m2 ← mark m1 directory_sector
  (ok1, map_hdr, m3) ← allocate map_mem m2 free_map_file_size
  assert ok1
  (ok2, dir_hdr, m4) ← allocate dir_mem m3 directory_file_size
  assert ok2
  some (record {
    free_map = m4;
    directory = new_directory old;
    headers = write_header (write_header hs free_map_sector map_hdr) directory_sector dir_hdr;
  })
