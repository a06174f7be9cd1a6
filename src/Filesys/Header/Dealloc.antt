-- ===== src/Filesys/Header/Dealloc.antt =====
-- code/filesys/filehdr.cc: `Deallocate`, alone and after `Allocate`; `ByteToSector`.
use my_nachos.Base.{
  ℕ, zero, suc, ◌+◌, ◌/◌, ◌≤◌, ◌<◌, true, some, List, [], ◌∷◌, length, get_or, take, ◌≡◌, refl, ap,
  sym, ◌∙◌, arith, subst, lt→ltb, length-take_of_le, ◌↔◌,
}
use my_nachos.Base.Checked.{assert}
use my_nachos.Bitmap.{Bitmap, IsValid, peek, cleared}
use my_nachos.Bitmap.Bit.{peek-cleared, cleared-IsValid, test-eq, clear-eq, num_bits-cleared}
use my_nachos.Filesys.Header.{
  FileHeader, IsSized, num_direct, sector_size, get_sector, allocate, free_sector, deallocate_from,
  deallocate, blocks, byte_to_sector,
}
use my_nachos.Filesys.Header.Alloc.{
  count, in_use, Below, Allocated, needed, free_sectors, allocate-Allocated,
}

-- The entries of an array from `i` on begin with `bs`.
abbrev Holds : List ℕ → ℕ → List ℕ → Type 0
Holds xs i [] = Unit
Holds xs i (b ∷ bs) = (get_or xs i 0 ≡ b) × Holds xs (suc i) bs

Holds-cons : (x : ℕ) (xs : List ℕ) (i : ℕ) (bs : List ℕ) → Holds xs i bs → Holds (x ∷ xs) (suc i) bs
Holds-cons x xs i [] h = tt
Holds-cons x xs i (b ∷ bs) h = (h.0, Holds-cons x xs (suc i) bs h.1)

Holds-take : (n : ℕ) (xs : List ℕ) → Holds xs 0 (take n xs)
Holds-take zero xs = tt
Holds-take (suc n) [] = tt
Holds-take (suc n) (x ∷ xs) = (refl, Holds-cons x xs 0 (take n xs) (Holds-take n xs))

-- `m'` is `m` with the sectors `bs`, each taken in `m` and all different, given back.
pub record Frees (m : Bitmap) (bs : List ℕ) (m' : Bitmap) : Type 0 where
  pub valid : IsValid m'
  pub same_size : m'.num_bits ≡ m.num_bits
  pub counts : (j : ℕ) → in_use m' j + count j bs ≡ in_use m j

abbrev Owned : Bitmap → List ℕ → Type 0
Owned m bs = (j : ℕ) → count j bs ≤ in_use m j

deallocate_from-Frees :
    (bs : List ℕ) (i : ℕ) (h : FileHeader) (m : Bitmap)
    → IsValid m
    → Holds h.data_sectors i bs
    → i + length bs ≤ num_direct
    → Below m.num_bits bs
    → Owned m bs
    → (m' : Bitmap) × (deallocate_from (length bs) i h m ≡ some m') × Frees m bs m'
unfolding deallocate_from free_sector get_sector assert
deallocate_from-Frees [] i h m v at fits inside owned =
    (m, refl, record { valid = v; same_size = refl; counts = λ j. omega arith })
deallocate_from-Frees (b ∷ bs) i h m v at fits inside owned =
    let on : peek m b ≡ true = ground (arith, owned b) in
    let next : i + 1 ≡ suc i = omega arith in
    let (m', run, f) =
      deallocate_from-Frees bs (suc i) h (cleared m b) (cleared-IsValid m b v inside.0) at.1
        (omega arith) (subst (λ n. Below n bs) (sym (num_bits-cleared m b)) inside.1)
        (λ j. ground (arith, owned j, owned b, peek-cleared m b v inside.0 j)) in
    (
      m',
      rw
          (
            lt→ltb i num_direct (omega arith),
            at.0,
            test-eq m b v inside.0,
            on,
            clear-eq m b v inside.0,
            next,
          )
          run,
      record {
        valid = f.valid;
        same_size = f.same_size ∙ num_bits-cleared m b;
        counts = λ j. ground (arith, f.counts j, on, peek-cleared m b v inside.0 j);
      },
    )

length-blocks :
    (h : FileHeader) → IsSized h → h.num_sectors ≤ num_direct → length (blocks h) ≡ h.num_sectors
length-blocks h sized fits = length-take_of_le h.num_sectors h.data_sectors (omega (arith, sized))

-- `Deallocate` of a header whose sectors are inside the map, taken and all different passes its
-- ASSERTs and gives back exactly those sectors.
pub deallocate-Frees :
    (h : FileHeader) (m : Bitmap)
    → IsValid m
    → IsSized h
    → h.num_sectors ≤ num_direct
    → Below m.num_bits (blocks h)
    → Owned m (blocks h)
    → (m' : Bitmap) × (deallocate h m ≡ some m') × Frees m (blocks h) m'
unfolding deallocate
deallocate-Frees h m v sized fits inside owned =
    let len : length (blocks h) ≡ h.num_sectors = length-blocks h sized fits in
    let (m', run, f) =
      deallocate_from-Frees (blocks h) 0 h m v (Holds-take h.num_sectors h.data_sectors)
        (omega (arith, len)) inside owned in
    (m', subst (λ n. deallocate_from n 0 h m ≡ some m') len run, f)

pub peek_of_in_use : (m k : Bitmap) (j : ℕ) → in_use m j ≡ in_use k j → peek m j ≡ peek k j
peek_of_in_use m k j e = ground arith

module _ (h : FileHeader) (m : Bitmap) (size : ℕ) (h' : FileHeader) (m' : Bitmap)
    (fits : needed size ≤ num_direct) (a : Allocated h m size h' m') where
  pub allocated_fits : h'.num_sectors ≤ num_direct
  allocated_fits = omega (arith, a.sectors)

  pub allocated_Below : Below m'.num_bits (blocks h')
  allocated_Below = subst (λ n. Below n (blocks h')) (sym a.takes.same_size) a.takes.inside

  allocated_Owned : Owned m' (blocks h')
  allocated_Owned j = omega (arith, a.takes.counts j)

  deallocate_Allocated :
      (m'' : Bitmap) × (deallocate h' m' ≡ some m'')
      × IsValid m''
      × ((j : ℕ) → peek m'' j ≡ peek m j)
  deallocate_Allocated =
      let (m'', run, f) =
        deallocate-Frees h' m' a.takes.valid a.sized allocated_fits allocated_Below
          allocated_Owned in
      (m'', run, f.valid, λ j. peek_of_in_use m'' m j (omega (arith, f.counts j, a.takes.counts j)))

-- A file that fits its header, on a disk with room for it: `Allocate` returns TRUE, and a following
-- `Deallocate` of the same header passes its ASSERTs and leaves every bit of the map as it was
-- before.
pub deallocate-allocate :
    (h : FileHeader) (m : Bitmap) (size : ℕ)
    → IsValid m
    → IsSized h
    → needed size ≤ num_direct
    → needed size ≤ free_sectors m
    → (h' : FileHeader) × (m' : Bitmap) × (m'' : Bitmap) × (allocate h m size ≡ some (true, h', m'))
      × (deallocate h' m' ≡ some m'')
      × ((j : ℕ) → peek m'' j ≡ peek m j)
deallocate-allocate h m size v sized fits enough =
    let (h', m', run, a) = allocate-Allocated h m size v sized fits enough in
    let (m'', back, _, same) = deallocate_Allocated h m size h' m' fits a in
    (h', m', m'', run, back, same)

count-get_or : (xs : List ℕ) (i : ℕ) → i < length xs → 1 ≤ count (get_or xs i 0) xs
count-get_or [] i h = elim h [ ]
count-get_or (x ∷ xs) zero h = ground arith
count-get_or (x ∷ xs) (suc i) h = ground (arith, count-get_or xs i (omega arith))

-- A value that a list holds once stands at one place.
same_place :
    (xs : List ℕ) (i k : ℕ)
    → i < length xs
    → k < length xs
    → get_or xs i 0 ≡ get_or xs k 0
    → count (get_or xs i 0) xs ≤ 1
    → i ≡ k
same_place [] i k hi hk e once = elim hi [ ]
same_place (x ∷ xs) zero zero hi hk e once = refl
same_place (x ∷ xs) zero (suc k) hi hk e once =
    absurd (ground (arith, count-get_or xs k (omega arith)))
same_place (x ∷ xs) (suc i) zero hi hk e once =
    absurd (ground (arith, count-get_or xs i (omega arith)))
same_place (x ∷ xs) (suc i) (suc k) hi hk e once =
    ap suc (same_place xs i k (omega arith) (omega arith) e (ground arith))

get_or-take : (n i : ℕ) (xs : List ℕ) → i < n → get_or (take n xs) i 0 ≡ get_or xs i 0
get_or-take zero i xs h = elim h [ ]
get_or-take (suc n) i [] h = refl
get_or-take (suc n) zero (x ∷ xs) h = refl
get_or-take (suc n) (suc i) (x ∷ xs) h = get_or-take n i xs (omega arith)

-- The sectors of two bytes of a file: known, and one exactly when the bytes lie in the same 128
-- bytes of the file.
abbrev pub Locates : FileHeader → ℕ → ℕ → Type 0
Locates h p q =
    (s : ℕ) × (t : ℕ) × (byte_to_sector h p ≡ some s)
    × (byte_to_sector h q ≡ some t)
    × ((s ≡ t) ↔ (p / sector_size ≡ q / sector_size))

module _ (h : FileHeader) (m : Bitmap) (size : ℕ) (h' : FileHeader) (m' : Bitmap)
    (fits : needed size ≤ num_direct) (a : Allocated h m size h' m') where
  -- Byte `p` lies in the entry of its 128 bytes, which is one of the file's.
  entry : (p : ℕ) → p < size → p / 128 < length (blocks h')
  entry p hp = ground (arith, a.length_blocks)

  in_blocks :
      (p : ℕ) → p < size → get_or (blocks h') (p / 128) 0 ≡ get_or h'.data_sectors (p / 128) 0
  in_blocks p hp =
      get_or-take h'.num_sectors (p / 128) h'.data_sectors
        (omega (arith, entry p hp, a.length_blocks, a.sectors))

  pub byte_to_sector_Allocated : (p q : ℕ) → p < size → q < size → Locates h' p q
  unfolding byte_to_sector get_sector assert
  byte_to_sector_Allocated p q hp hq = (
    get_or h'.data_sectors (p / 128) 0,
    get_or h'.data_sectors (q / 128) 0,
    rw (lt→ltb (p / 128) num_direct (omega (arith, entry p hp, a.length_blocks))),
    rw (lt→ltb (q / 128) num_direct (omega (arith, entry q hq, a.length_blocks))),
    (
      λ e.
          same_place (blocks h') (p / 128) (q / 128) (entry p hp) (entry q hq)
            (in_blocks p hp ∙ e ∙ sym (in_blocks q hq)) (once (get_or (blocks h') (p / 128) 0)),
      λ e. rw e,
    ),
  )
    where
      once : (s : ℕ) → count s (blocks h') ≤ 1
      once s = ground (arith, a.takes.counts s)

-- The sector of a byte is the entry of its 128 bytes among the sectors of the file.
abbrev pub OwnSector : FileHeader → ℕ → Type 0
OwnSector h p =
    (p / sector_size < length (blocks h))
    × (byte_to_sector h p ≡ some (get_or (blocks h) (p / sector_size) 0))

-- After `Allocate` of a file that fits, `ByteToSector` of a byte of the file is the entry of its 128 bytes among the file's sectors, and it
-- gives two bytes the same sector exactly when they lie in the same 128 bytes of the file.
pub byte_to_sector-allocate :
    (h : FileHeader) (m : Bitmap) (size p q : ℕ)
    → IsValid m
    → IsSized h
    → needed size ≤ num_direct
    → needed size ≤ free_sectors m
    → p < size
    → q < size
    → (h' : FileHeader) × (m' : Bitmap) × (allocate h m size ≡ some (true, h', m'))
      × OwnSector h' p
      × Locates h' p q
unfolding byte_to_sector get_sector assert
byte_to_sector-allocate h m size p q v sized fits enough hp hq =
    let (h', m', run, a) = allocate-Allocated h m size v sized fits enough in
    let lt = entry h m size h' m' fits a p hp in
    (
      h',
      m',
      run,
      (
        lt,
        rw (lt→ltb (p / 128) num_direct (omega (arith, lt, a.length_blocks)))
            (ap some (sym (in_blocks h m size h' m' fits a p hp))),
      ),
      byte_to_sector_Allocated h m size h' m' fits a p q hp hq,
    )
