-- ===== src/Filesys/Directory.antt =====
-- code/filesys/directory.h and directory.cc: a table of named entries of a fixed size.
-- The source's -1 (no such entry) is `none`; sector numbers are natural numbers.
pub mod Lookup
use mathlib.Core.Option
use my_nachos.Base.{
  ℕ, zero, suc, Bool, true, false, Option, none, some, List, [], ◌∷◌, ◌++◌, if◌then◌else◌, not,
  get_or, set, replicate, ◌==◌, ◌≡◌, refl, ◌&&◌,
}
use my_nachos.Filesys.Name.{strncmp_eq, strncpy}

abbrev pub file_name_max_len : ℕ
file_name_max_len = 9

pub record DirectoryEntry : Type 0 where
  pub in_use : Bool
  pub sector : ℕ
  pub name : List ℕ

-- The table has `tableSize` places, the length of the list.
pub record Directory : Type 0 where
  pub table : List DirectoryEntry

-- What the memory of a new table holds beside `inUse` is not known: `old` is that memory.
unfoldable pub new_table : List DirectoryEntry → List DirectoryEntry
new_table [] = []
new_table (e ∷ old) = record e { in_use = false } ∷ new_table old

unfoldable pub new_directory : List DirectoryEntry → Directory
new_directory old = record { table = new_table old }

abbrev pub matches : DirectoryEntry → List ℕ → Bool
matches e name = e.in_use && strncmp_eq e.name name file_name_max_len

-- The loop of `FindIndex` over a table; the index of a later entry is one more.
unfoldable pub find_index_in : List DirectoryEntry → List ℕ → Option ℕ
find_index_in [] name = none
find_index_in (e ∷ es) name =
    let later = Option.map suc (find_index_in es name) in if matches e name then some 0 else later

unfoldable pub find_index : Directory → List ℕ → Option ℕ
find_index d name = find_index_in d.table name

-- An entry that is not there is never read: `FindIndex` gives an index of the table.
abbrev pub no_entry : DirectoryEntry
no_entry = record { in_use = false; sector = 0; name = [] }

unfoldable pub find : Directory → List ℕ → Option ℕ
find d name = Option.map (λ i. (get_or d.table i no_entry).sector) (find_index d name)

abbrev pub filled : DirectoryEntry → List ℕ → ℕ → DirectoryEntry
filled e name new_sector = record {
  in_use = true;
  sector = new_sector;
  name = strncpy e.name name file_name_max_len;
}

-- The loop of `Add`: the first entry that is not in use is filled; `none` if there is none.
unfoldable pub add_in : List DirectoryEntry → List ℕ → ℕ → Option (List DirectoryEntry)
add_in [] name new_sector = none
add_in (e ∷ es) name new_sector =
    let later = Option.map (λ es'. e ∷ es') (add_in es name new_sector) in
    if not e.in_use then some (filled e name new_sector ∷ es) else later

abbrev pub added : Directory → Option (List DirectoryEntry) → Bool × Directory
added d none = (false, d)
added d (some es) = (true, record d { table = es })

unfoldable pub add : Directory → List ℕ → ℕ → Bool × Directory
add d name new_sector = elim (find_index d name) [
  | some i ↦ (false, d)
  | none ↦ added d (add_in d.table name new_sector)
]

unfoldable pub remove : Directory → List ℕ → Bool × Directory
remove d name = elim (find_index d name) [
  | none ↦ (false, d)
  | some i ↦ (
    true,
    record d { table = set d.table i (record (get_or d.table i no_entry) { in_use = false }) },
  )
]

-- The names that `List` prints, in order.
unfoldable pub list_in : List DirectoryEntry → List (List ℕ)
list_in [] = []
list_in (e ∷ es) = if e.in_use then e.name ∷ list_in es else list_in es

unfoldable pub list : Directory → List (List ℕ)
list d = list_in d.table
