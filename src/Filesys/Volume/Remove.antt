-- ===== src/Filesys/Volume/Remove.antt =====
-- code/filesys/filesys.cc: `Remove`, alone and after `Create`.
use mathlib.Core.Option
use my_nachos.Base.{
  ℕ, ◌+◌, ◌≤◌, ◌<◌, Bool, true, false, Option, none, some, List, if◌then◌else◌, ◌==◌, ◌≡◌, subst,
  refl, arith, ap, sym, ◌∙◌, Bool-cases, inl, inr,
}
use my_nachos.Bitmap.{Bitmap, peek, cleared}
use my_nachos.Bitmap.Bit.{peek-cleared, cleared-IsValid, num_bits-cleared, clear-eq}
use my_nachos.Filesys.Header.{FileHeader, IsSized, blocks, deallocate}
use my_nachos.Filesys.Header.Alloc.{in_use, Below}
use my_nachos.Filesys.Header.Dealloc.{peek_of_in_use, Frees, deallocate-Frees}
use my_nachos.Filesys.Directory.{DirectoryEntry, Directory, find, remove}
use my_nachos.Filesys.Directory.Lookup.{
  Removes, Removes-length, Removes-Unique, RemoveResult, not_there, taken_out, find-remove, same,
  find-lookup, lookup-cong,
}
use my_nachos.Filesys.Volume.{create, Disk, OpenFile, num_sectors, remove_file, open_file}
use my_nachos.Filesys.Volume.Create.{Creates, open_file-create}
use my_nachos.Filesys.Volume.Sound.{
  IsSound, IsHeader, owners, system_owns, file_owns, Removes-owners, Removes-Files,
}

-- The disk after the file in the entry `x` is removed.
module _ (k : Disk) (sound : IsSound k) (name : List ℕ) (d : Directory) (x : DirectoryEntry)
    (r : Removes name x k.directory.table d.table) where
  owned :
      (j : ℕ)
      → in_use k.free_map j
        ≡ system_owns k.headers j + (file_owns k.headers x.sector j + owners k.headers d.table j)
  owned j = omega (arith, sound.accounted j, Removes-owners k.headers r j)

  file : (x.sector < num_sectors) × IsHeader (k.headers x.sector)
  file = let (_, lt, g) = Removes-Files k.headers r sound.files in (lt, g)

  freed :
      (m : Bitmap) × (deallocate (k.headers x.sector) k.free_map ≡ some m)
      × Frees k.free_map (blocks (k.headers x.sector)) m
  freed =
      deallocate-Frees (k.headers x.sector) k.free_map sound.map_valid file.1.sized file.1.fits
        (subst (λ n. Below n (blocks (k.headers x.sector))) (sym sound.map_size) file.1.inside)
        (λ j. omega (arith, owned j))

  module _ (m : Bitmap) (f : Frees k.free_map (blocks (k.headers x.sector)) m) where
    inside : x.sector < m.num_bits
    inside = omega (arith, file.0, f.same_size, sound.map_size)

    abbrev after : Disk
    after = record k { free_map = cleared m x.sector; directory = d }

    -- The free map loses what the file owned.
    lost :
        (j : ℕ)
        → in_use (cleared m x.sector) j + file_owns k.headers x.sector j ≡ in_use k.free_map j
    lost j =
        let bit_step : in_use (cleared m x.sector) j ≡ (if x.sector == j then 0 else in_use m j) =
          ground (arith, peek-cleared m x.sector f.valid inside j) in
        let total : file_owns k.headers x.sector j ≤ in_use k.free_map j = omega (arith, owned j) in
        ground (arith, bit_step, total, f.counts j)

    accounted :
        (j : ℕ)
        → in_use (cleared m x.sector) j ≡ system_owns k.headers j + owners k.headers d.table j
    accounted j = omega (arith, lost j, owned j)

    after-IsSound : IsSound after
    after-IsSound = record {
      map_valid = cleared-IsValid m x.sector f.valid inside;
      map_size = num_bits-cleared m x.sector ∙ f.same_size ∙ sound.map_size;
      places = Removes-length r ∙ sound.places;
      unique = Removes-Unique r sound.unique;
      files = (Removes-Files k.headers r sound.files).0;
      accounted = accounted;
    }

-- What `FileSystem::Remove` does on a sound disk.
pub data RemoveFileResult (k : Disk) (name : List ℕ) : Option (Bool × Disk) → Type 0 where
  missing : find k.directory name ≡ none → RemoveFileResult k name (some (false, k))
  removed :
      (k' : Disk) (s : ℕ)
      → find k.directory name ≡ some s
      → IsSound k'
      → ((q : List ℕ) → open_file k' q ≡ (if same name q then none else open_file k q))
      → ((j : ℕ) → in_use k'.free_map j + file_owns k.headers s j ≡ in_use k.free_map j)
      → RemoveFileResult k name (some (true, k'))

-- On a sound disk `Remove` passes every ASSERT. A name that is not there gives FALSE and no change.
-- Any other gives TRUE and a sound disk, on which no name that compares equal opens, every other
-- name opens as before, and the free map has lost exactly the file's header and data sectors.
pub remove_file-RemoveFileResult :
    (k : Disk) (name : List ℕ) → IsSound k → RemoveFileResult k name (remove_file k name)
unfolding remove_file open_file
remove_file-RemoveFileResult k name sound =
    go (remove k.directory name) refl (find-remove k.directory name)
  where
    opened : ℕ → OpenFile
    opened s = record { hdr = k.headers s; seek_position = 0 }

    split :
        (q : List ℕ) (b : Bool)
        → Option.map (λ s. opened s) (if b then none else find k.directory q)
          ≡ (if b then none else open_file k q)
    split q true = refl
    split q false = refl

    go :
        (out : Bool × Directory)
        → remove k.directory name ≡ out
        → RemoveResult k.directory name out
        → RemoveFileResult k name (remove_file k name)
    go out e (not_there absent) = rw (absent, remove_file) (missing absent)
    go out e (taken_out d x found finds r) =
        let (m, run, f) = freed k sound name d x r in
        rw (found, remove_file, run, clear-eq m x.sector f.valid (inside k sound name d x r m f), e)
          (removed _ x.sector found (after-IsSound k sound name d x r m f)
            (λ q. rw (finds sound.unique q) (split q (same name q))) (lost k sound name d x r m f))

open_file-absent :
    (k : Disk) (name q : List ℕ)
    → find k.directory name ≡ none
    → same name q ≡ true
    → open_file k q ≡ none
unfolding open_file
open_file-absent k name q absent alike =
    let e : find k.directory q ≡ none =
      find-lookup k.directory q
      ∙ sym (lookup-cong k.directory.table name q alike)
      ∙ sym (find-lookup k.directory name)
      ∙ absent in
    rw e

-- A `Create` that returned TRUE, followed by `Remove` of the same name: TRUE, and a sound disk with
-- every bit of the free map, and what every name opens, as before the `Create`.
pub remove_file-create :
    (k : Disk) (mem : FileHeader) (name : List ℕ) (size : ℕ) (k' : Disk)
    → IsSound k
    → IsSized mem
    → create k mem name size ≡ some (true, k')
    → (k'' : Disk) × (remove_file k' name ≡ some (true, k''))
      × IsSound k''
      × ((j : ℕ) → peek k''.free_map j ≡ peek k.free_map j)
      × ((q : List ℕ) → open_file k'' q ≡ open_file k q)
remove_file-create k mem name size k' sound sized run =
    go (remove_file-RemoveFileResult k' name c.still_sound)
  where
    c : Creates k name size k'
    c = open_file-create k mem name size k' sound sized run

    goal_of : Option (Bool × Disk) → Type 0
    goal_of out =
        (k'' : Disk) × (out ≡ some (true, k''))
        × IsSound k''
        × ((j : ℕ) → peek k''.free_map j ≡ peek k.free_map j)
        × ((q : List ℕ) → open_file k'' q ≡ open_file k q)

    as_before :
        {o : Option OpenFile} (q : List ℕ)
        → o ≡ (if same name q then none else open_file k' q)
        → o ≡ open_file k q
    as_before q e = elim (Bool-cases (same name q)) [
      | inl alike ↦ e ∙ rw (alike, open_file-absent k name q c.was_absent alike)
      | inr other ↦ e ∙ rw (other, c.others_open q other)
    ]

    go : {out : Option (Bool × Disk)} → RemoveFileResult k' name out → goal_of out
    go (missing absent) = cc (c.found_there)
    go (removed k'' s found sound'' opens loses) =
        let at : s ≡ c.sector = cc (c.found_there) in
        (
          k'',
          refl,
          sound'',
          λ j.
              peek_of_in_use k''.free_map k.free_map j
                (omega (arith, loses j, c.gains j, ap (λ t. file_owns k'.headers t j) at)),
          λ q. as_before q (opens q),
        )
