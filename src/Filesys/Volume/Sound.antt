-- ===== src/Filesys/Volume/Sound.antt =====
-- The invariant of the file system: every sector that the free map marks is owned once, by the
-- system or by one file, and every other by nobody.
use my_nachos.Base.{
  ℕ, ◌+◌, ◌≤◌, ◌<◌, true, false, some, List, [], ◌∷◌, if◌then◌else◌, ◌==◌, ◌≡◌, refl, arith, length,
  ==_self,
}
use my_nachos.Bitmap.{IsValid}
use my_nachos.Filesys.Header.{FileHeader, IsSized, num_direct, blocks}
use my_nachos.Filesys.Header.Alloc.{count, in_use, Below}
use my_nachos.Filesys.Directory.{DirectoryEntry, matches}
use my_nachos.Filesys.Directory.Lookup.{lookup, Unique, Adds, here, later, Removes}
use my_nachos.Filesys.Volume.{
  Disk, num_sectors, num_dir_entries, free_map_sector, directory_sector, write_header,
}

-- How often a file with its header in sector `s` owns sector `j`.
abbrev pub file_owns : (ℕ → FileHeader) → ℕ → ℕ → ℕ
file_owns hs s j = (if s == j then 1 else 0) + count j (blocks (hs s))

abbrev pub owners : (ℕ → FileHeader) → List DirectoryEntry → ℕ → ℕ
owners hs [] j = 0
owners hs (e ∷ es) j = (if e.in_use then file_owns hs e.sector j else 0) + owners hs es j

-- The two files of the system itself.
abbrev pub system_owns : (ℕ → FileHeader) → ℕ → ℕ
system_owns hs j = file_owns hs free_map_sector j + file_owns hs directory_sector j

-- A header whose sectors lie on the disk.
pub record IsHeader (h : FileHeader) : Type 0 where
  pub sized : IsSized h
  pub fits : h.num_sectors ≤ num_direct
  pub inside : Below num_sectors (blocks h)

abbrev pub Files : (ℕ → FileHeader) → List DirectoryEntry → Type 0
Files hs [] = Unit
Files hs (e ∷ es) =
    (e.in_use ≡ true → (e.sector < num_sectors) × IsHeader (hs e.sector)) × Files hs es

pub record IsSound (k : Disk) : Type 0 where
  pub map_valid : IsValid k.free_map
  pub map_size : k.free_map.num_bits ≡ num_sectors
  pub places : length k.directory.table ≡ num_dir_entries
  pub unique : Unique k.directory.table
  pub files : Files k.headers k.directory.table
  pub accounted :
      (j : ℕ) → in_use k.free_map j ≡ system_owns k.headers j + owners k.headers k.directory.table j

-- A header written to a sector that no file owns changes nobody else's sectors.
module _ (hs : ℕ → FileHeader) (s : ℕ) (h : FileHeader) where
  pub owners-write :
      (es : List DirectoryEntry) (j : ℕ)
      → owners hs es s ≡ 0
      → owners (write_header hs s h) es j ≡ owners hs es j
  owners-write [] j free = refl
  owners-write (e ∷ es) j free = ground (arith, owners-write es j)

  pub Files-write :
      (es : List DirectoryEntry) → owners hs es s ≡ 0 → Files hs es → Files (write_header hs s h) es
  Files-write [] free f = tt
  Files-write (e ∷ es) free f = (kept, Files-write es (omega arith) f.1)
    where
      kept : e.in_use ≡ true → (e.sector < num_sectors) × IsHeader (write_header hs s h e.sector)
      kept on = let apart : (e.sector == s) ≡ false = ground arith in rw apart (f.0 on)

  pub write_header_self : write_header hs s h s ≡ h
  write_header_self = rw (==_self s)

-- A table with one more file, and one with one file fewer.
pub Adds-owners :
    (hs : ℕ → FileHeader) {name : List ℕ} {s : ℕ} {es es' : List DirectoryEntry}
    → Adds name s es es'
    → (j : ℕ) → owners hs es' j ≡ file_owns hs s j + owners hs es j
Adds-owners hs (here e es off) j = ground arith
Adds-owners hs (later e on a) j = omega (arith, Adds-owners hs a j)

pub Adds-Files :
    (hs : ℕ → FileHeader) {name : List ℕ} {s : ℕ} {es es' : List DirectoryEntry}
    → Adds name s es es'
    → s < num_sectors
    → IsHeader (hs s)
    → Files hs es
    → Files hs es'
Adds-Files hs (here e es off) lt g f = (λ _. (lt, g), f.1)
Adds-Files hs (later e on a) lt g f = (f.0, Adds-Files hs a lt g f.1)

pub Removes-owners :
    (hs : ℕ → FileHeader) {name : List ℕ} {x : DirectoryEntry} {es es' : List DirectoryEntry}
    → Removes name x es es'
    → (j : ℕ) → owners hs es j ≡ file_owns hs x.sector j + owners hs es' j
Removes-owners hs (here es hit) j = ground arith
Removes-owners hs (later e miss r) j = omega (arith, Removes-owners hs r j)

matches-in_use : (e : DirectoryEntry) (q : List ℕ) → matches e q ≡ true → e.in_use ≡ true
matches-in_use e q h = ground arith

pub Removes-Files :
    (hs : ℕ → FileHeader) {name : List ℕ} {x : DirectoryEntry} {es es' : List DirectoryEntry}
    → Removes name x es es'
    → Files hs es
    → Files hs es' × (x.sector < num_sectors) × IsHeader (hs x.sector)
Removes-Files hs {x = x} (here es hit) f =
    let (lt, g) = f.0 (matches-in_use x _ hit) in ((λ on. cc, f.1), lt, g)
Removes-Files hs (later e miss r) f = let (fs, lt, g) = Removes-Files hs r f.1 in ((f.0, fs), lt, g)

-- The header's sector of a file that is found belongs to it.
pub lookup-owned :
    (hs : ℕ → FileHeader) (es : List DirectoryEntry) (q : List ℕ) (t : ℕ)
    → lookup es q ≡ some t
    → 1 ≤ owners hs es t
lookup-owned hs [] q t e = cc
lookup-owned hs (x ∷ es) q t e = ground (arith, lookup-owned hs es q t)
