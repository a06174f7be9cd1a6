-- ===== src/Filesys/Directory/Lookup.antt =====
-- code/filesys/directory.cc: what `Find` answers after `Add` and after `Remove`.
use mathlib.Core.Option
use my_nachos.Base.{
  ℕ, suc, Bool, true, false, Option, none, some, List, [], ◌∷◌, if◌then◌else◌, get_or, set, ◌+◌,
  ◌≡◌, ◌≢◌, refl, length, arith, ◌∙◌, sym, ap, inl, inr, ◌⊎◌, Bool-cases,
}
use my_nachos.Filesys.Name.{strncmp_eq, strncmp_refl, strncmp_sym, strncmp_trans, strncmp-strncpy}
use my_nachos.Filesys.Directory.{
  DirectoryEntry, Directory, matches, find_index_in, find_index, no_entry, find, filled, add_in,
  add, remove, file_name_max_len, new_table,
}

-- The sector of the first entry that matches.
abbrev pub lookup : List DirectoryEntry → List ℕ → Option ℕ
lookup [] q = none
lookup (e ∷ es) q = if matches e q then some e.sector else lookup es q

find_in-lookup :
    (es : List DirectoryEntry) (q : List ℕ)
    → Option.map (λ i. (get_or es i no_entry).sector) (find_index_in es q) ≡ lookup es q
unfolding find_index_in
find_in-lookup [] q = refl
find_in-lookup (e ∷ es) q = ground (arith, find_in-lookup es q)

pub find-lookup : (d : Directory) (q : List ℕ) → find d q ≡ lookup d.table q
unfolding find find_index
find-lookup d q = find_in-lookup d.table q

-- No two entries in use have names that compare equal.
abbrev pub Unique : List DirectoryEntry → Type 0
Unique [] = Unit
Unique (e ∷ es) = (e.in_use ≡ true → lookup es e.name ≡ none) × Unique es

abbrev pub same : List ℕ → List ℕ → Bool
same a b = strncmp_eq a b file_name_max_len

pub lookup-cong :
    (es : List DirectoryEntry) (a b : List ℕ) → same a b ≡ true → lookup es a ≡ lookup es b
lookup-cong [] a b h = refl
lookup-cong (e ∷ es) a b h = ground (
  arith,
  lookup-cong es a b h,
  strncmp_sym e.name a 9,
  strncmp_sym e.name b 9,
  strncmp_trans a b e.name 9,
)

-- `Find` and `FindIndex` fail together.
pub find_index-none :
    (es : List DirectoryEntry) (q : List ℕ)
    → (find_index_in es q ≡ none → lookup es q ≡ none)
      × (lookup es q ≡ none → find_index_in es q ≡ none)
find_index-none es q = (
  λ e. sym (find_in-lookup es q) ∙ ground (arith, find_in-lookup es q),
  λ e. ground (arith, find_in-lookup es q),
)

abbrev pub free_slots : List DirectoryEntry → ℕ
free_slots [] = 0
free_slots (e ∷ es) = (if e.in_use then 0 else 1) + free_slots es

-- What `Add` does to the table: the first entry that is not in use is filled.
pub data Adds (name : List ℕ) (s : ℕ) : List DirectoryEntry → List DirectoryEntry → Type 0 where
  here :
      (e : DirectoryEntry) (es : List DirectoryEntry)
      → e.in_use ≡ false
      → Adds name s (e ∷ es) (filled e name s ∷ es)
  later :
      (e : DirectoryEntry) {es es' : List DirectoryEntry}
      → e.in_use ≡ true
      → Adds name s es es'
      → Adds name s (e ∷ es) (e ∷ es')

abbrev pub AddsOrFull : List ℕ → ℕ → List DirectoryEntry → Type 0
AddsOrFull name s es =
    ((add_in es name s ≡ none) × (free_slots es ≡ 0))
    ⊎ ((es' : List DirectoryEntry) × (add_in es name s ≡ some es') × Adds name s es es')

pub add_in-Adds : (name : List ℕ) (s : ℕ) (es : List DirectoryEntry) → AddsOrFull name s es
unfolding add_in
add_in-Adds name s [] = inl (refl, refl)
add_in-Adds name s (e ∷ es) = go (add_in-Adds name s es) (Bool-cases e.in_use)
  where
    go : AddsOrFull name s es → (e.in_use ≡ true) ⊎ (e.in_use ≡ false) → AddsOrFull name s (e ∷ es)
    go r (inr off) = inr (filled e name s ∷ es, ground arith, here e es off)
    go (inl (stop, none_free)) (inl on) = inl (ground arith, ground arith)
    go (inr (es', run, a)) (inl on) = inr (e ∷ es', ground arith, later e on a)

pub Adds-lookup :
    {name : List ℕ} {s : ℕ} {es es' : List DirectoryEntry}
    → Adds name s es es'
    → lookup es name ≡ none
    → (q : List ℕ) → lookup es' q ≡ (if same name q then some s else lookup es q)
Adds-lookup {name} (here e es off) absent q = ground (arith, strncmp-strncpy e.name name q 9)
Adds-lookup {name} (later e on a) absent q = ground (
  arith,
  Adds-lookup a (ground arith) q,
  strncmp_sym e.name name 9,
  strncmp_sym name q 9,
  strncmp_trans q name e.name 9,
  strncmp_sym e.name q 9,
)

pub Adds-length :
    {name : List ℕ} {s : ℕ} {es es' : List DirectoryEntry}
    → Adds name s es es'
    → length es' ≡ length es
Adds-length (here e es off) = refl
Adds-length (later e on a) = ap suc (Adds-length a)

pub Adds-Unique :
    {name : List ℕ} {s : ℕ} {es es' : List DirectoryEntry}
    → Adds name s es es'
    → lookup es name ≡ none
    → Unique es
    → Unique es'
Adds-Unique {name} (here e es off) absent u = (
  λ _.
      lookup-cong es _ name (strncmp-strncpy e.name name name 9 ∙ strncmp_refl name 9)
      ∙ ground arith,
  u.1,
)
Adds-Unique {name} (later e on a) absent u = (
  λ _. ground (arith, Adds-lookup a (ground arith) e.name, strncmp_sym e.name name 9, u.0 on),
  Adds-Unique a (ground arith) u.1,
)

-- What `Remove` does to the table: the first entry that matches is no longer in use.
abbrev pub emptied : DirectoryEntry → DirectoryEntry
emptied e = record e { in_use = false }

pub data Removes (name : List ℕ) (x : DirectoryEntry)
    : List DirectoryEntry → List DirectoryEntry → Type 0 where
  here :
      (es : List DirectoryEntry) → matches x name ≡ true → Removes name x (x ∷ es) (emptied x ∷ es)
  later :
      (e : DirectoryEntry) {es es' : List DirectoryEntry}
      → matches e name ≡ false
      → Removes name x es es'
      → Removes name x (e ∷ es) (e ∷ es')

abbrev pub RemovesOrAbsent : List ℕ → List DirectoryEntry → Type 0
RemovesOrAbsent name es =
    ((find_index_in es name ≡ none) × (lookup es name ≡ none))
    ⊎ ((i : ℕ) × (find_index_in es name ≡ some i)
        × (lookup es name ≡ some (get_or es i no_entry).sector)
        × Removes name (get_or es i no_entry) es (set es i (emptied (get_or es i no_entry))))

pub find_index-Removes : (name : List ℕ) (es : List DirectoryEntry) → RemovesOrAbsent name es
unfolding find_index_in
find_index-Removes name [] = inl (refl, refl)
find_index-Removes name (e ∷ es) = go (find_index-Removes name es) (Bool-cases (matches e name))
  where
    go :
        RemovesOrAbsent name es
        → (matches e name ≡ true) ⊎ (matches e name ≡ false)
        → RemovesOrAbsent name (e ∷ es)
    go r (inl hit) = inr (0, rw hit, rw hit, here es hit)
    go (inl (absent, none_there)) (inr miss) = inl (rw (miss, absent), rw (miss, none_there))
    go (inr (i, at, found, r)) (inr miss) =
        inr (suc i, rw (miss, at), rw (miss, found), later e miss r)

pub Removes-lookup :
    {name : List ℕ} {x : DirectoryEntry} {es es' : List DirectoryEntry}
    → Removes name x es es'
    → Unique es
    → (q : List ℕ) → lookup es' q ≡ (if same name q then none else lookup es q)
Removes-lookup {name} {x} (here es hit) u q =
    ground (arith, u.0, lookup-cong es x.name q, strncmp_trans x.name name q 9)
Removes-lookup {name} (later e miss r) u q = ground (
  arith,
  Removes-lookup r u.1 q,
  strncmp_sym e.name name 9,
  strncmp_sym name q 9,
  strncmp_trans q name e.name 9,
  strncmp_sym e.name q 9,
)

pub Removes-length :
    {name : List ℕ} {x : DirectoryEntry} {es es' : List DirectoryEntry}
    → Removes name x es es'
    → length es' ≡ length es
Removes-length (here es hit) = refl
Removes-length (later e miss r) = ap suc (Removes-length r)

pub Removes-Unique :
    {name : List ℕ} {x : DirectoryEntry} {es es' : List DirectoryEntry}
    → Removes name x es es'
    → Unique es
    → Unique es'
Removes-Unique (here es hit) u = (λ on. cc, u.1)
Removes-Unique (later e miss r) u =
    (λ on. ground (arith, Removes-lookup r u.1 e.name, u.0 on), Removes-Unique r u.1)

-- The three outcomes of `Add`.
pub data AddResult (d : Directory) (name : List ℕ) (s : ℕ) : Bool × Directory → Type 0 where
  present : find d name ≢ none → AddResult d name s (false, d)
  no_room : find d name ≡ none → free_slots d.table ≡ 0 → AddResult d name s (false, d)
  entered :
      (d' : Directory)
      → find d name ≡ none
      → ((q : List ℕ) → find d' q ≡ (if same name q then some s else find d q))
      → Adds name s d.table d'.table
      → AddResult d name s (true, d')

-- `Add` of a name that is there, or to a full table, answers FALSE and changes nothing; any other
-- answers TRUE, and from then on `Find` gives the new sector for every name that compares equal in
-- the first nine characters and answers as before for every other.
pub find-add : (d : Directory) (name : List ℕ) (s : ℕ) → AddResult d name s (add d name s)
unfolding add find_index
find-add d name s = go (find_index-Removes name d.table) (add_in-Adds name s d.table)
  where
    go :
        RemovesOrAbsent name d.table → AddsOrFull name s d.table → AddResult d name s (add d name s)
    go (inr (i, at, found, _)) _ = rw (at, add) (present (λ e. cc (find-lookup d name, found)))
    go (inl (absent, gone)) (inl (stop, full)) =
        rw (absent, stop, add) (no_room (find-lookup d name ∙ gone) full)
    go (inl (absent, gone)) (inr (es', run, a)) =
        rw (absent, run, add)
          (entered (record { table = es' }) (find-lookup d name ∙ gone)
            (λ q.
              rw (find-lookup (record { table = es' }) q, find-lookup d q) (Adds-lookup a gone q))
            a)

-- The two outcomes of `Remove`; `x` is the entry that goes.
pub data RemoveResult (d : Directory) (name : List ℕ) : Bool × Directory → Type 0 where
  not_there : find d name ≡ none → RemoveResult d name (false, d)
  taken_out :
      (d' : Directory) (x : DirectoryEntry)
      → find d name ≡ some x.sector
      → (Unique d.table → (q : List ℕ) → find d' q ≡ (if same name q then none else find d q))
      → Removes name x d.table d'.table
      → RemoveResult d name (true, d')

-- `Remove` of a name that is not there answers FALSE and changes nothing. Any other answers TRUE;
-- if no two entries in use have names that compare equal, `Find` then finds no name that compares
-- equal with the removed one, and answers as before for every other.
pub find-remove : (d : Directory) (name : List ℕ) → RemoveResult d name (remove d name)
unfolding remove find_index
find-remove d name = go (find_index-Removes name d.table)
  where
    go : RemovesOrAbsent name d.table → RemoveResult d name (remove d name)
    go (inl (absent, gone)) = rw (absent, remove) (not_there (find-lookup d name ∙ gone))
    go (inr (i, at, found, r)) =
        rw (at, remove)
          (taken_out (record { table = set d.table i (emptied (get_or d.table i no_entry)) })
            (get_or d.table i no_entry) (find-lookup d name ∙ found)
            (λ u q.
              rw (find-lookup (record { table = set d.table i _ }) q, find-lookup d q)
                (Removes-lookup r u q))
            r)

pub record IsEmpty (es : List DirectoryEntry) (size : ℕ) : Type 0 where
  pub nothing : (q : List ℕ) → lookup es q ≡ none
  pub unique : Unique es
  pub room : free_slots es ≡ size
  pub places : length es ≡ size

-- A new directory finds nothing and has all its places free, whatever its memory held before.
pub new_table-IsEmpty : (old : List DirectoryEntry) → IsEmpty (new_table old) (length old)
unfolding new_table
new_table-IsEmpty [] = record { nothing = λ q. refl; unique = tt; room = refl; places = refl }
new_table-IsEmpty (e ∷ old) =
    let r = new_table-IsEmpty old in
    record {
      nothing = r.nothing;
      unique = (λ on. r.nothing e.name, r.unique);
      room = omega (arith, r.room);
      places = ap suc r.places;
    }
