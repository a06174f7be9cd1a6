-- ===== src/Tests/Files.antt =====
-- code/filesys: a formatted disk, and a file created and removed on it.
use my_nachos.Base.{
  ℕ, ◌+◌, ◌<◌, ◌≤◌, ◌≡◌, refl, true, none, some, List, [], ◌∷◌, replicate, arith, Option-cases, inl,
  inr, length,
}
use my_nachos.Bitmap.{Bitmap, IsValid, zeroed, peek}
use my_nachos.Bitmap.Bit.{zeroed-IsValid}
use my_nachos.Filesys.Header.{FileHeader, allocate, deallocate, blocks}
use my_nachos.Filesys.Header.Alloc.{
  needed, free_sectors, Allocated, allocate-Allocated, allocate-past_end, Takes,
}
use my_nachos.Filesys.Header.Dealloc.{
  deallocate-allocate, Locates, OwnSector, byte_to_sector-allocate,
}
use my_nachos.Filesys.Directory.{Directory, DirectoryEntry, no_entry, add, find}
use my_nachos.Filesys.Directory.Lookup.{AddResult, find-add, free_slots}
use my_nachos.Filesys.Volume.{Disk, create, format, open_file, remove_file, num_dir_entries}
use my_nachos.Filesys.Volume.Sound.{IsSound}
use my_nachos.Filesys.Volume.Format.{format-IsSound}
use my_nachos.Filesys.Volume.Create.{
  CreateResult, create-CreateResult, Creates, open_file-create, create-succeeds,
}
use my_nachos.Filesys.Volume.Remove.{
  RemoveFileResult, remove_file-RemoveFileResult, remove_file-create,
}

abbrev blank : FileHeader
blank = record { num_bytes = 0; num_sectors = 0; data_sectors = replicate 30 0 }

abbrev old_table : List DirectoryEntry
old_table = replicate 10 no_entry

abbrev anywhere : ℕ → FileHeader
anywhere s = blank

format-IsSound_example :
    (k : Disk) × (format blank blank old_table anywhere ≡ some k)
    × IsSound k
    × (free_slots k.directory.table ≡ num_dir_entries)
    × (free_sectors k.free_map ≡ 1019)
    × ((q : List ℕ) → open_file k q ≡ none)
format-IsSound_example = format-IsSound blank blank old_table anywhere refl refl refl

abbrev disk : Disk
disk = (format-IsSound blank blank old_table anywhere refl refl refl).0

disk-IsSound : IsSound disk
disk-IsSound =
    let (k, run, sound, slots, free, none_open) =
      format-IsSound blank blank old_table anywhere refl refl refl in
    sound

abbrev report : List ℕ
report = 114 ∷ 101 ∷ 112 ∷ []

create-CreateResult_example : CreateResult disk report 200 (create disk blank report 200)
create-CreateResult_example = create-CreateResult disk disk-IsSound blank refl report 200

remove_file-RemoveFileResult_example : RemoveFileResult disk report (remove_file disk report)
remove_file-RemoveFileResult_example = remove_file-RemoveFileResult disk report disk-IsSound

abbrev clear_map : Bitmap
clear_map = zeroed 64

clear_map-IsValid : IsValid clear_map
clear_map-IsValid = zeroed-IsValid 64 (omega arith)

enough_room : needed 300 ≤ free_sectors clear_map
unfolding peek
enough_room = omega arith

deallocate-allocate_example :
    (h' : FileHeader) × (m' : Bitmap) × (m'' : Bitmap) × (allocate blank clear_map 300
      ≡ some (true, h', m'))
    × (deallocate h' m' ≡ some m'')
    × ((j : ℕ) → peek m'' j ≡ peek clear_map j)
deallocate-allocate_example =
    deallocate-allocate blank clear_map 300 clear_map-IsValid refl (omega arith) enough_room

allocate-Allocated_example :
    (h' : FileHeader) × (m' : Bitmap) × (allocate blank clear_map 300 ≡ some (true, h', m'))
    × Allocated blank clear_map 300 h' m'
allocate-Allocated_example =
    allocate-Allocated blank clear_map 300 clear_map-IsValid refl (omega arith) enough_room

byte_to_sector-allocate_example :
    (h' : FileHeader) × (m' : Bitmap) × (allocate blank clear_map 300 ≡ some (true, h', m'))
    × OwnSector h' 130
    × Locates h' 130 290
byte_to_sector-allocate_example =
    byte_to_sector-allocate blank clear_map 300 130 290 clear_map-IsValid refl (omega arith)
      enough_room (omega arith) (omega arith)

enough_for_more : needed 4000 ≤ free_sectors clear_map
unfolding peek
enough_for_more = omega arith

allocate-past_end_example :
    (allocate blank clear_map 4000 ≡ none)
    × ((h' : FileHeader) × (m' : Bitmap) × (allocate
            (record blank { data_sectors = replicate 40 0 })
            clear_map
            4000
          ≡ some (true, h', m'))
        × (length (blocks h') ≡ needed 4000)
        × Takes clear_map (blocks h') m')
allocate-past_end_example =
    allocate-past_end blank clear_map 4000 (replicate 40 0) clear_map-IsValid refl (omega arith)
      enough_for_more (omega arith)

abbrev empty_directory : Directory
empty_directory = record { table = old_table }

find-add_example : AddResult empty_directory report 9 (add empty_directory report 9)
find-add_example = find-add empty_directory report 9

disk-room : needed 200 + 1 ≤ free_sectors disk.free_map
disk-room =
    let (k, run, sound, slots, free, none_open) =
      format-IsSound blank blank old_table anywhere refl refl refl in
    omega (arith, free)

disk-slot : 0 < free_slots disk.directory.table
disk-slot =
    let (k, run, sound, slots, free, none_open) =
      format-IsSound blank blank old_table anywhere refl refl refl in
    omega (arith, slots)

not_opened : (k : Disk) (q : List ℕ) → open_file k q ≡ none → find k.directory q ≡ none
unfolding open_file
not_opened k q e = elim (Option-cases (find k.directory q)) [
  | inl absent ↦ absent
  | inr (s, there) ↦ cc
]

disk-absent : find disk.directory report ≡ none
disk-absent =
    let (k, run, sound, slots, free, none_open) =
      format-IsSound blank blank old_table anywhere refl refl refl in
    not_opened disk report (none_open report)

create-succeeds_example : (k' : Disk) × (create disk blank report 200 ≡ some (true, k'))
create-succeeds_example =
    create-succeeds disk blank report 200 disk-IsSound refl disk-absent disk-slot (omega arith)
      disk-room

abbrev written : (k' : Disk) × (create disk blank report 200 ≡ some (true, k'))
written =
    create-succeeds disk blank report 200 disk-IsSound refl disk-absent disk-slot (omega arith)
      disk-room

open_file-create_example : Creates disk report 200 written.0
open_file-create_example =
    open_file-create disk blank report 200 written.0 disk-IsSound refl written.1

remove_file-create_example :
    (k'' : Disk) × (remove_file written.0 report ≡ some (true, k''))
    × IsSound k''
    × ((j : ℕ) → peek k''.free_map j ≡ peek disk.free_map j)
    × ((q : List ℕ) → open_file k'' q ≡ open_file disk q)
remove_file-create_example =
    remove_file-create disk blank report 200 written.0 disk-IsSound refl written.1
