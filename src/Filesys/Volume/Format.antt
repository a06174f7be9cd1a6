-- ===== src/Filesys/Volume/Format.antt =====
-- code/filesys/filesys.cc: formatting the disk.
use my_nachos.Base.{
  ℕ, ◌+◌, ◌<◌, true, false, none, some, List, [], ◌∷◌, if◌then◌else◌, ◌==◌, ◌≡◌, refl, arith, ap,
  ◌∙◌, length,
}
use my_nachos.Base.Checked.{assert}
use my_nachos.Bitmap
use my_nachos.Bitmap.{Bitmap, IsValid, peek, marked, mark}
use my_nachos.Bitmap.Bit.{peek-marked, marked-IsValid, num_bits-marked, mark-eq}
use my_nachos.Bitmap.Search.{create-clear, off_count, off_count-marked, off_count-clear}
use my_nachos.Filesys.Header.{FileHeader, IsSized, allocate}
use my_nachos.Filesys.Header.Alloc.{in_use, Allocated, free_sectors, allocate-Allocated}
use my_nachos.Filesys.Directory.{DirectoryEntry, new_directory, new_table}
use my_nachos.Filesys.Directory.Lookup.{new_table-IsEmpty, find-lookup, free_slots}
use my_nachos.Filesys.Volume.{Disk, num_sectors, num_dir_entries, format, write_header, open_file}
use my_nachos.Filesys.Volume.Sound.{IsSound, Files, owners}

-- A new table has no files.
new_table-owners :
    (hs : ℕ → FileHeader) (old : List DirectoryEntry) (j : ℕ) → owners hs (new_table old) j ≡ 0
unfolding new_table
new_table-owners hs [] j = refl
new_table-owners hs (e ∷ old) j = omega (arith, new_table-owners hs old j)

new_table-Files : (hs : ℕ → FileHeader) (old : List DirectoryEntry) → Files hs (new_table old)
unfolding new_table
new_table-Files hs [] = tt
new_table-Files hs (e ∷ old) = (λ on. cc, new_table-Files hs old)

-- The map with the two headers' sectors marked, and the two files allocated in it.
record Formatted (map_mem dir_mem : FileHeader) : Type 0 where
  b : Bitmap
  map_hdr : FileHeader
  m3 : Bitmap
  dir_hdr : FileHeader
  m4 : Bitmap
  fresh : Bitmap.create num_sectors ≡ some b
  first_mark : mark b 0 ≡ some (marked b 0)
  second_mark : mark (marked b 0) 1 ≡ some (marked (marked b 0) 1)
  marks :
      (j : ℕ)
      → in_use (marked (marked b 0) 1) j ≡ (if 0 == j then 1 else 0) + (if 1 == j then 1 else 0)
  size : (marked (marked b 0) 1).num_bits ≡ num_sectors
  run_map : allocate map_mem (marked (marked b 0) 1) 128 ≡ some (true, map_hdr, m3)
  map_file : Allocated map_mem (marked (marked b 0) 1) 128 map_hdr m3
  run_dir : allocate dir_mem m3 200 ≡ some (true, dir_hdr, m4)
  dir_file : Allocated dir_mem m3 200 dir_hdr m4
  free : free_sectors m4 ≡ 1019

formatted :
    (map_mem dir_mem : FileHeader) → IsSized map_mem → IsSized dir_mem → Formatted map_mem dir_mem
formatted map_mem dir_mem sized_map sized_dir =
    let (b, e0, v0, size0, off0) = create-clear num_sectors (omega arith) in
    let h0 : 0 < b.num_bits = omega (arith, size0) in
    let v1 = marked-IsValid b 0 v0 h0 in
    let h1 : 1 < (marked b 0).num_bits = omega (arith, num_bits-marked b 0, size0) in
    let v2 = marked-IsValid (marked b 0) 1 v1 h1 in
    let size2 : (marked (marked b 0) 1).num_bits ≡ num_sectors =
      num_bits-marked (marked b 0) 1 ∙ num_bits-marked b 0 ∙ size0 in
    let off1 : peek (marked b 0) 1 ≡ false = ground (arith, peek-marked b 0 v0 h0 1, off0 1) in
    let room : free_sectors (marked (marked b 0) 1) ≡ 1022 = omega (
      arith,
      size0,
      off_count-clear (peek b) b.num_bits off0,
      off_count-marked b 0 v0 h0 (off0 0),
      ap (off_count (peek (marked b 0))) (num_bits-marked b 0),
      off_count-marked (marked b 0) 1 v1 h1 off1,
      ap (off_count (peek (marked (marked b 0) 1))) (num_bits-marked (marked b 0) 1),
    ) in
    let (map_hdr, m3, run3, a3) =
      allocate-Allocated map_mem (marked (marked b 0) 1) 128 v2 sized_map (omega arith)
        (omega arith) in
    let (dir_hdr, m4, run4, a4) =
      allocate-Allocated dir_mem m3 200 a3.takes.valid sized_dir (omega arith)
        (omega (arith, a3.takes.left, a3.length_blocks, room)) in
    record {
      b = b;
      map_hdr = map_hdr;
      m3 = m3;
      dir_hdr = dir_hdr;
      m4 = m4;
      fresh = e0;
      first_mark = mark-eq b 0 v0 h0;
      second_mark = mark-eq (marked b 0) 1 v1 h1;
      marks =
          λ j. ground (arith, off0 j, peek-marked b 0 v0 h0 j, peek-marked (marked b 0) 1 v1 h1 j);
      size = size2;
      run_map = run3;
      map_file = a3;
      run_dir = run4;
      dir_file = a4;
      free = omega (arith, a3.takes.left, a3.length_blocks, a4.takes.left, a4.length_blocks, room);
    }

-- Formatting passes every ASSERT. It leaves a sound disk with an empty directory of ten places, on
-- which no name opens, and 1019 of the 1024 sectors free: all but the two headers, the sector of the
-- free map and the two of the directory.
pub format-IsSound :
    (map_mem dir_mem : FileHeader) (old : List DirectoryEntry) (hs : ℕ → FileHeader)
    → IsSized map_mem
    → IsSized dir_mem
    → length old ≡ num_dir_entries
    → (k : Disk) × (format map_mem dir_mem old hs ≡ some k)
      × IsSound k
      × (free_slots k.directory.table ≡ num_dir_entries)
      × (free_sectors k.free_map ≡ 1019)
      × ((q : List ℕ) → open_file k q ≡ none)
unfolding format assert open_file new_directory
format-IsSound map_mem dir_mem old hs sized_map sized_dir places =
    let f = formatted map_mem dir_mem sized_map sized_dir in
    let empty = new_table-IsEmpty old in
    (
      record {
        free_map = f.m4;
        directory = record { table = new_table old };
        headers = write_header (write_header hs 0 f.map_hdr) 1 f.dir_hdr;
      },
      rw (f.fresh, f.first_mark, f.second_mark, f.run_map, f.run_dir),
      record {
        map_valid = f.dir_file.takes.valid;
        map_size = f.dir_file.takes.same_size ∙ f.map_file.takes.same_size ∙ f.size;
        places = empty.places ∙ places;
        unique = empty.unique;
        files = new_table-Files _ old;
        accounted = λ j. omega (
          arith,
          f.marks j,
          f.map_file.takes.counts j,
          f.dir_file.takes.counts j,
          new_table-owners (write_header (write_header hs 0 f.map_hdr) 1 f.dir_hdr) old j,
        );
      },
      empty.room ∙ places,
      f.free,
      λ q. rw (find-lookup (record { table = new_table old }) q, empty.nothing q),
    )
