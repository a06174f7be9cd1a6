-- ===== src/Filesys/OpenFile.antt =====
-- code/filesys/openfile.cc: the bytes of an open file.
-- The disk is what each sector holds at each offset below SectorSize: `SynchDisk::ReadSector` and `WriteSector` return after
-- the sector has been moved. A buffer is what it holds at each index. Positions and counts are not negative.
pub mod Sectors
pub mod Reading
pub mod Writing
pub mod Round
use my_nachos.Machine.Word.{sign_bit}
use my_nachos.Base.{
  ℕ, zero, suc, ◌+◌, ◌-◌, ◌*◌, ◌/◌, ◌%◌, Bool, true, false, not, ◌&&◌, ◌||◌, Option, none, some,
  if◌then◌else◌, ltb, leb, ◌==◌,
}
use my_nachos.Base.Checked.{◌>>=◌, ◌>>◌, assert}
use my_nachos.Filesys.Header.{FileHeader, sector_size, byte_to_sector, file_length}
use my_nachos.Filesys.Volume.{OpenFile}

abbrev pub Buffer : Type 0
Buffer = ℕ → ℕ

abbrev pub DiskData : Type 0
DiskData = ℕ → ℕ → ℕ

-- `bcopy(&from[a], &into[b], n)`
abbrev pub bcopy : Buffer → ℕ → Buffer → ℕ → ℕ → Buffer
bcopy from a into b n = λ k. if leb b k && ltb k (b + n) then from (a + (k - b)) else into k

-- `ReadSector(s, &buf[at])`
abbrev pub read_sector : DiskData → ℕ → Buffer → ℕ → Buffer
read_sector disk s buf at = bcopy (disk s) 0 buf at sector_size

-- `WriteSector(s, &buf[at])`
abbrev pub write_sector : DiskData → ℕ → Buffer → ℕ → DiskData
write_sector disk s buf at = λ t. if t == s then bcopy buf at (disk s) 0 sector_size else disk t

-- The loops over the sectors `i` to `i + n - 1` of the file, the first of them at `at` of the buffer.
unfoldable pub read_sectors : FileHeader → DiskData → ℕ → ℕ → ℕ → Buffer → Option Buffer
read_sectors h disk zero i at buf = some buf
read_sectors h disk (suc n) i at buf = byte_to_sector h (i * sector_size) >>= λ s.
    read_sectors h disk n (suc i) (at + sector_size) (read_sector disk s buf at)

unfoldable pub write_sectors : FileHeader → Buffer → ℕ → ℕ → ℕ → DiskData → Option DiskData
write_sectors h buf zero i at disk = some disk
write_sectors h buf (suc n) i at disk = byte_to_sector h (i * sector_size) >>= λ s.
    write_sectors h buf n (suc i) (at + sector_size) (write_sector disk s buf at)

-- The bytes that a request for `n` from `position` gets, when `position + n` is an int.
abbrev pub clipped : FileHeader → ℕ → ℕ → ℕ
clipped h n position =
    if (n == 0) || leb (file_length h) position
    then 0
    else (if ltb (file_length h) (position + n) then file_length h - position else n)

-- `position + numBytes`, which is computed for a request that is not refused, is an int. C++ leaves its overflow undefined.
abbrev pub end_fits : FileHeader → ℕ → ℕ → Bool
end_fits h n position = (n == 0) || leb (file_length h) position || ltb (position + n) sign_bit

-- What a request for `n` bytes, of which there is at least one, does: `fresh` is what `new char[]` holds.
unfoldable pub read_clipped : FileHeader → Buffer → DiskData → ℕ → ℕ → Buffer → ℕ → Option Buffer
read_clipped h fresh disk n position into at =
    let first_sector = position / sector_size in
    let last_sector = (position + n - 1) / sector_size in
    read_sectors h disk (1 + last_sector - first_sector) first_sector 0 fresh >>= λ buf.
    some (bcopy buf (position - first_sector * sector_size) into at n)

-- ReadAt into `&into[at]` for a request in range, with the number of bytes it returns.
unfoldable pub read_in_range :
    FileHeader → Buffer → DiskData → ℕ → ℕ → Buffer → ℕ → Option (ℕ × Buffer)
read_in_range h fresh disk num_bytes position into at =
    if (num_bytes == 0) || leb (file_length h) position
    then some (0, into)
    else (read_clipped h fresh disk (clipped h num_bytes position) position into at >>= λ into'.
        some (clipped h num_bytes position, into'))

-- ReadAt; a request out of range has no result.
unfoldable pub read_at : FileHeader → Buffer → DiskData → ℕ → ℕ → Buffer → ℕ → Option (ℕ × Buffer)
read_at h fresh disk num_bytes position into at =
    assert (end_fits h num_bytes position) >> read_in_range h fresh disk num_bytes position into at

-- Reads in the first and the last sector, if they are to be partially modified.
unfoldable pub read_edges : FileHeader → Buffer → ℕ → ℕ → DiskData → Option (ℕ × Buffer)
read_edges h fresh n position disk =
    let first_sector = position / sector_size in
    let last_sector = (position + n - 1) / sector_size in
    let first_aligned = position == first_sector * sector_size in
    let last_aligned = position + n == (last_sector + 1) * sector_size in
    (if first_aligned
      then some (0, fresh)
      else read_at h fresh disk sector_size (first_sector * sector_size) fresh 0)
    >>= λ r.
        if not last_aligned && (not (first_sector == last_sector) || first_aligned)
        then read_at h fresh disk sector_size (last_sector * sector_size) r.1
            ((last_sector - first_sector) * sector_size)
        else some r

unfoldable pub write_clipped : FileHeader → Buffer → Buffer → ℕ → ℕ → DiskData → Option DiskData
write_clipped h fresh from n position disk =
    let first_sector = position / sector_size in
    let last_sector = (position + n - 1) / sector_size in
    read_edges h fresh n position disk >>= λ r.
    write_sectors h (bcopy from 0 r.1 (position - first_sector * sector_size) n)
      (1 + last_sector - first_sector) first_sector 0 disk

unfoldable pub write_in_range :
    FileHeader → Buffer → Buffer → ℕ → ℕ → DiskData → Option (ℕ × DiskData)
write_in_range h fresh from num_bytes position disk =
    if (num_bytes == 0) || leb (file_length h) position
    then some (0, disk)
    else (write_clipped h fresh from (clipped h num_bytes position) position disk >>= λ disk'.
        some (clipped h num_bytes position, disk'))

-- WriteAt; a request out of range has no result.
unfoldable pub write_at : FileHeader → Buffer → Buffer → ℕ → ℕ → DiskData → Option (ℕ × DiskData)
write_at h fresh from num_bytes position disk =
    assert (end_fits h num_bytes position) >> write_in_range h fresh from num_bytes position disk

unfoldable pub seek : ℕ → OpenFile → OpenFile
seek position f = record f { seek_position = position }

unfoldable pub read : Buffer → DiskData → ℕ → Buffer → OpenFile → Option (ℕ × (Buffer × OpenFile))
read fresh disk num_bytes into f =
    read_at f.hdr fresh disk num_bytes f.seek_position into 0 >>= λ r.
    some (r.0, (r.1, record f { seek_position = f.seek_position + r.0 }))

unfoldable pub write :
    Buffer → DiskData → ℕ → Buffer → OpenFile → Option (ℕ × (DiskData × OpenFile))
write fresh disk num_bytes from f =
    write_at f.hdr fresh from num_bytes f.seek_position disk >>= λ r.
    some (r.0, (r.1, record f { seek_position = f.seek_position + r.0 }))
