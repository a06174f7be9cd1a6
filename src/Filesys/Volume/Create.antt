-- ===== src/Filesys/Volume/Create.antt =====
-- code/filesys/filesys.cc: `Create` on every branch.
use my_nachos.Base.{
  ℕ, ◌+◌, ◌≤◌, ◌<◌, Bool, true, false, Option, none, some, List, if◌then◌else◌, not, ◌==◌, ◌≡◌, ◌≢◌,
  subst, refl, arith, ap, sym, ◌∙◌, inl, inr, ==_of_ne, dec_le, Option-cases, dec_lt,
}
use my_nachos.Base.Checked.{◌>>=◌}
use my_nachos.Bitmap.{Bitmap, IsValid, peek, marked}
use my_nachos.Bitmap.Bit.{peek-marked, marked-IsValid, num_bits-marked}
use my_nachos.Bitmap.Search.{
  find_and_set-Finds, Found, full, first, off_count, off_count-marked, off_count-full,
}
use my_nachos.Filesys.Header.{FileHeader, IsSized, num_direct, blocks, allocate}
use my_nachos.Filesys.Header.Alloc.{
  count, in_use, Below, Allocated, needed, free_sectors, allocate-Allocated, allocate-no_space,
  allocate-overflow,
}
use my_nachos.Filesys.Header.Dealloc.{allocated_fits}
use my_nachos.Filesys.Name.{strncmp_refl}
use my_nachos.Filesys.Directory.{Directory, find, add}
use my_nachos.Filesys.Directory.Lookup.{
  Adds, Adds-length, Adds-Unique, AddResult, present, no_room, entered, find-add, same, free_slots,
  find-lookup,
}
use my_nachos.Filesys.Volume.{
  Disk, OpenFile, num_sectors, write_header, create, create_at, open_file,
}
use my_nachos.Filesys.Volume.Sound.{
  IsSound, lookup-owned, IsHeader, owners, system_owns, file_owns, owners-write, Files-write,
  write_header_self, Adds-owners, Adds-Files,
}

-- What `Create` may do. `exists`, `disk_full`, `directory_full` and `no_space` return FALSE and leave
-- the disk as it was; `overflow` writes past `dataSectors`; `created` returns TRUE.
pub data CreateResult (k : Disk) (name : List ℕ) (size : ℕ) : Option (Bool × Disk) → Type 0 where
  exists : find k.directory name ≢ none → CreateResult k name size (some (false, k))
  disk_full :
      find k.directory name ≡ none
      → free_sectors k.free_map ≡ 0
      → CreateResult k name size (some (false, k))
  directory_full :
      find k.directory name ≡ none
      → 0 < free_sectors k.free_map
      → free_slots k.directory.table ≡ 0
      → CreateResult k name size (some (false, k))
  no_space :
      find k.directory name ≡ none
      → free_sectors k.free_map < needed size + 1
      → CreateResult k name size (some (false, k))
  overflow :
      find k.directory name ≡ none
      → num_direct < needed size
      → needed size + 1 ≤ free_sectors k.free_map
      → CreateResult k name size none
  created :
      (k' : Disk)
      → find k.directory name ≡ none
      → IsSound k'
      → (s : ℕ)
      → ((q : List ℕ) → find k'.directory q ≡ (if same name q then some s else find k.directory q))
      → (k'.headers s).num_bytes ≡ size
      → ((q : List ℕ) (t : ℕ) → find k.directory q ≡ some t → k'.headers t ≡ k.headers t)
      → ((j : ℕ) → in_use k'.free_map j ≡ in_use k.free_map j + file_owns k'.headers s j)
      → CreateResult k name size (some (true, k'))

-- A sector that the free map does not mark belongs to nobody.
module _ (k : Disk) (sound : IsSound k) (s : ℕ) (free : peek k.free_map s ≡ false) where
  not_owned : (system_owns k.headers s ≡ 0) × (owners k.headers k.directory.table s ≡ 0)
  not_owned =
      let unmarked : in_use k.free_map s ≡ 0 = rw free in
      (omega (arith, sound.accounted s, unmarked), omega (arith, sound.accounted s, unmarked))

  -- No file that is found has its header in `s`.
  others : (q : List ℕ) (t : ℕ) → find k.directory q ≡ some t → t ≢ s
  others q t e same_sector =
      let owned =
        lookup-owned k.headers k.directory.table q t (sym (find-lookup k.directory q) ∙ e) in
      omega (arith, owned, not_owned.1, ap (owners k.headers k.directory.table) same_sector)

-- The disk after a `Create` that found sector `s`, entered the name and allocated the data.
module _ (k : Disk) (sound : IsSound k) (name : List ℕ) (size s : ℕ) (mem : FileHeader)
    (inside : s < k.free_map.num_bits) (free : peek k.free_map s ≡ false) (d : Directory)
    (h : FileHeader) (m : Bitmap) (absent : find k.directory name ≡ none)
    (adds : Adds name s k.directory.table d.table) (fits : needed size ≤ num_direct)
    (a : Allocated mem (marked k.free_map s) size h m) where
  abbrev after : Disk
  after = record { free_map = m; directory = d; headers = write_header k.headers s h }

  system_same : (j : ℕ) → system_owns (write_header k.headers s h) j ≡ system_owns k.headers j
  system_same j =
      let apart0 : (0 == s) ≡ false = ground (arith, (not_owned k sound s free).0) in
      let apart1 : (1 == s) ≡ false = ground (arith, (not_owned k sound s free).0) in
      rw (apart0, apart1)

  -- The free map gains what the new file owns.
  gained : (j : ℕ) → in_use m j ≡ in_use k.free_map j + file_owns after.headers s j
  gained j =
      let map_step : in_use (marked k.free_map s) j
          ≡ in_use k.free_map j + (if s == j then 1 else 0) =
        ground (arith, peek-marked k.free_map s sound.map_valid inside j, free) in
      let file : file_owns after.headers s j ≡ (if s == j then 1 else 0) + count j (blocks h) =
        rw (write_header_self k.headers s h) in
      omega (arith, map_step, file, a.takes.counts j)

  accounted : (j : ℕ) → in_use m j ≡ system_owns after.headers j + owners after.headers d.table j
  accounted j = omega (
    arith,
    gained j,
    Adds-owners after.headers adds j,
    owners-write k.headers s h k.directory.table j (not_owned k sound s free).1,
    system_same j,
    sound.accounted j,
  )

  marked_size : (marked k.free_map s).num_bits ≡ num_sectors
  marked_size = num_bits-marked k.free_map s ∙ sound.map_size

  header : IsHeader (write_header k.headers s h s)
  header = rw (write_header_self k.headers s h) (record {
    sized = a.sized;
    fits = allocated_fits mem (marked k.free_map s) size h m fits a;
    inside = subst (λ n. Below n (blocks h)) marked_size a.takes.inside;
  })

  after-IsSound : IsSound after
  after-IsSound = record {
    map_valid = a.takes.valid;
    map_size = a.takes.same_size ∙ marked_size;
    places = Adds-length adds ∙ sound.places;
    unique = Adds-Unique adds (sym (find-lookup k.directory name) ∙ absent) sound.unique;
    files =
        Adds-Files after.headers adds (subst (λ n. s < n) sound.map_size inside) header
          (Files-write k.headers s h k.directory.table (not_owned k sound s free).1 sound.files);
    accounted = accounted;
  }

module _ (k : Disk) (sound : IsSound k) (mem : FileHeader) (sized : IsSized mem) (name : List ℕ)
    (size : ℕ) where
  -- From the sector on that the search found.
  create_at-CreateResult :
      (s : ℕ)
      → find k.directory name ≡ none
      → s < k.free_map.num_bits
      → peek k.free_map s ≡ false
      → CreateResult k name size (create_at k mem name size s (marked k.free_map s))
  unfolding create_at
  create_at-CreateResult s absent inside free =
      go (add k.directory name s) (find-add k.directory name s)
    where
      v1 : IsValid (marked k.free_map s)
      v1 = marked-IsValid k.free_map s sound.map_valid inside

      fewer : free_sectors (marked k.free_map s) + 1 ≡ free_sectors k.free_map
      fewer = omega (
        arith,
        off_count-marked k.free_map s sound.map_valid inside free,
        ap (off_count (peek (marked k.free_map s))) (num_bits-marked k.free_map s),
      )

      finish : Directory → Option (Bool × FileHeader × Bitmap) → Option (Bool × Disk)
      finish d out = out >>= λ (success, h, m'). some (
          if success
          then (true, record { free_map = m'; directory = d; headers = write_header k.headers s h })
          else (false, k))

      allocated :
          (d : Directory)
          → ((q : List ℕ) → find d q ≡ (if same name q then some s else find k.directory q))
          → Adds name s k.directory.table d.table
          → CreateResult k name size (finish d (allocate mem (marked k.free_map s) size))
      allocated d finds adds = elim (dec_lt (free_sectors (marked k.free_map s)) (needed size)) [
        | yes short ↦
            rw (allocate-no_space mem (marked k.free_map s) size v1 short)
              (no_space absent (omega (arith, fewer)))
        | no room ↦ elim (dec_le (needed size) num_direct) [
          | no big ↦
              rw
                (allocate-overflow mem (marked k.free_map s) size v1 sized (omega arith)
                  (omega arith))
                (overflow absent (omega arith) (omega (arith, fewer)))
          | yes fits ↦
              let (h, m, run, a) =
                allocate-Allocated mem (marked k.free_map s) size v1 sized fits (omega arith) in
              rw run (
                created _ absent
                  (after-IsSound k sound name size s mem inside free d h m absent adds fits a) s
                  finds (rw (write_header_self k.headers s h) a.bytes)
                  (λ q t e. rw (==_of_ne t s (others k sound s free q t e)))
                  (gained k sound name size s mem inside free d h m absent adds fits a))
        ]
      ]

      go :
          (out : Bool × Directory)
          → AddResult k.directory name s out
          → CreateResult k name size (
              if not out.0
              then some (false, k)
              else finish out.1 (allocate mem (marked k.free_map s) size))
      go out (present there) = absurd (there absent)
      go out (no_room _ none_free) = directory_full absent (omega (arith, fewer)) none_free
      go out (entered d _ finds adds) = allocated d finds adds

  -- On a sound disk, with a header in memory whose array has NumDirect places, `Create` either fails and leaves
  -- the disk as it was (the name is there, no free sector, no free entry, or too few sectors for the header and
  -- the data), or writes past the header's array (only for a file of more than NumDirect sectors), or leaves a
  -- sound disk on which the name is found, in a sector whose header has the size asked for, all other names are
  -- found as before with the same headers, and the free map has gained exactly the sectors of the file.
  pub create-CreateResult : CreateResult k name size (create k mem name size)
  unfolding create
  create-CreateResult =
      let (r, m, run, found) = find_and_set-Finds k.free_map sound.map_valid in
      elim (Option-cases (find k.directory name)) [
        | inr (s, e) ↦ rw (e, create) (exists (λ none_there. cc))
        | inl absent ↦ rw (absent, create, run) (search_result absent found)
      ]
    where
      search_result :
          {r : Option ℕ} {m : Bitmap}
          → find k.directory name ≡ none
          → Found k.free_map r m
          → CreateResult k name size
              (elim r [ none ↦ some (false, k) | some sector ↦ create_at k mem name size sector m ])
      search_result absent (full all) =
          disk_full absent (off_count-full (peek k.free_map) k.free_map.num_bits all)
      search_result absent (first s inside free below) = create_at-CreateResult s absent inside free

-- What holds of a `Create` that returned TRUE and left the disk `k'`.
pub record Creates (k : Disk) (name : List ℕ) (size : ℕ) (k' : Disk) : Type 0 where
  pub still_sound : IsSound k'
  pub opens :
      (f : OpenFile) × (open_file k' name ≡ some f)
      × (f.hdr.num_bytes ≡ size)
      × (f.seek_position ≡ 0)
  pub sector : ℕ
  pub found_there : find k'.directory name ≡ some sector
  pub gains : (j : ℕ) → in_use k'.free_map j ≡ in_use k.free_map j + file_owns k'.headers sector j
  pub was_absent : find k.directory name ≡ none
  pub others_open : (q : List ℕ) → same name q ≡ false → open_file k' q ≡ open_file k q

Creates-of :
    (k : Disk) (name : List ℕ) (size : ℕ) (k' : Disk) {out : Option (Bool × Disk)}
    → CreateResult k name size out
    → out ≡ some (true, k')
    → Creates k name size k'
unfolding open_file
Creates-of k name size k' (exists _) e = cc
Creates-of k name size k' (disk_full _ _) e = cc
Creates-of k name size k' (directory_full _ _ _) e = cc
Creates-of k name size k' (no_space _ _) e = cc
Creates-of k name size k' (overflow _ _ _) e = cc
Creates-of k name size k' (created k1 absent sound' s finds bytes kept gains) e =
    let eq : k1 ≡ k' = cc in subst (Creates k name size) eq made
  where
    kept_open : (q : List ℕ) → same name q ≡ false → open_file k1 q ≡ open_file k q
    kept_open q other = elim (Option-cases (find k.directory q)) [
      | inl none_there ↦ rw (finds q, other, none_there)
      | inr (t, found) ↦ rw (finds q, other, found, kept q t found)
    ]

    made : Creates k name size k1
    made = record {
      still_sound = sound';
      opens = (
        record { hdr = k1.headers s; seek_position = 0 },
        rw (finds name, strncmp_refl name 9),
        bytes,
        refl,
      );
      sector = s;
      found_there = rw (finds name, strncmp_refl name 9);
      gains = gains;
      was_absent = absent;
      others_open = kept_open;
    }

-- A `Create` that returns TRUE leaves a sound disk: `Open` of the name then gives a handle at
-- position 0 whose header has the size asked for, `Open` of every name that does not compare equal
-- gives what it gave before, and the free map gained exactly the header's sector and the sectors of
-- the data. The name was not there before.
pub open_file-create :
    (k : Disk) (mem : FileHeader) (name : List ℕ) (size : ℕ) (k' : Disk)
    → IsSound k
    → IsSized mem
    → create k mem name size ≡ some (true, k')
    → Creates k name size k'
open_file-create k mem name size k' sound sized run =
    Creates-of k name size k' (create-CreateResult k sound mem sized name size) run

-- A new name, a free directory entry, a size within NumDirect sectors and one more free sector than
-- the data needs: on a sound disk `Create` returns TRUE.
pub create-succeeds :
    (k : Disk) (mem : FileHeader) (name : List ℕ) (size : ℕ)
    → IsSound k
    → IsSized mem
    → find k.directory name ≡ none
    → 0 < free_slots k.directory.table
    → needed size ≤ num_direct
    → needed size + 1 ≤ free_sectors k.free_map
    → (k' : Disk) × (create k mem name size ≡ some (true, k'))
create-succeeds k mem name size sound sized absent slot fits room =
    go (create-CreateResult k sound mem sized name size)
  where
    go :
        {out : Option (Bool × Disk)}
        → CreateResult k name size out
        → (k' : Disk) × ◌≡◌ {A = Option (Bool × Disk)} out (some (true, k'))
    go (exists there) = absurd (there absent)
    go (disk_full _ none_free) = absurd (omega arith)
    go (directory_full _ _ none_free) = absurd (omega arith)
    go (no_space _ short) = absurd (omega arith)
    go (overflow _ big _) = absurd (omega arith)
    go (created k' _ _ _ _ _ _ _) = (k', refl)
