-- ===== src/Filesys/Header/Alloc.antt =====
-- code/filesys/filehdr.cc: `Allocate` and `Deallocate` against the map of free sectors.
use mathlib.Core.List.{append_assoc, append-nil}
use my_nachos.Base.{
  ℕ, zero, suc, ◌+◌, ◌≤◌, ◌<◌, true, false, Option, none, some, List, [], ◌∷◌, ◌++◌, if◌then◌else◌,
  ltb, length, set, take, ◌≡◌, refl, ap, ◌∙◌, arith, ◌==◌, subst, inl, inr, lt→ltb, Option-cases,
  dec_lt, length-set, Bool-cases, sym,
}
use my_nachos.Base.Checked.{assert}
use my_nachos.Bitmap.{Bitmap, IsValid, div_round_up, find_and_set, peek, marked}
use my_nachos.Bitmap.Bit.{peek-marked, marked-IsValid, num_bits-marked}
use my_nachos.Bitmap.Search.{
  off_count, num_clear-eq, find_and_set-Finds, Found, full, first, off_count-marked, off_count-full,
}
use my_nachos.Filesys.Header.{
  FileHeader, IsSized, num_direct, sector_size, put_sector, take_sector, allocate_from, allocate,
  blocks,
}

-- How often a sector stands in a list.
abbrev pub count : ℕ → List ℕ → ℕ
count j [] = 0
count j (x ∷ xs) = (if x == j then 1 else 0) + count j xs

-- A bit of the free map as a number.
abbrev pub in_use : Bitmap → ℕ → ℕ
in_use m j = if peek m j then 1 else 0

abbrev pub Below : ℕ → List ℕ → Type 0
Below n [] = Unit
Below n (x ∷ xs) = (x < n) × Below n xs

-- What `NumClear` counts.
abbrev pub free_sectors : Bitmap → ℕ
free_sectors m = off_count (peek m) m.num_bits

-- `m'` is `m` with the sectors `bs`, all free before and all different, taken.
pub record Takes (m : Bitmap) (bs : List ℕ) (m' : Bitmap) : Type 0 where
  pub valid : IsValid m'
  pub same_size : m'.num_bits ≡ m.num_bits
  pub inside : Below m.num_bits bs
  pub counts : (j : ℕ) → in_use m' j ≡ in_use m j + count j bs
  pub left : free_sectors m' + length bs ≡ free_sectors m

-- Taking one sector and then the others.
Takes-cons :
    (m : Bitmap) (i : ℕ) (bs : List ℕ) (m' : Bitmap)
    → IsValid m
    → i < m.num_bits
    → peek m i ≡ false
    → Takes (marked m i) bs m'
    → Takes m (i ∷ bs) m'
Takes-cons m i bs m' v h off t = record {
  valid = t.valid;
  same_size = t.same_size ∙ num_bits-marked m i;
  inside = (h, inside (num_bits-marked m i) t.inside);
  counts = λ j. ground (arith, t.counts j, peek-marked m i v h j);
  left = omega (
    arith,
    t.left,
    off_count-marked m i v h off,
    ap (off_count (peek (marked m i))) (num_bits-marked m i),
  );
}
  where
    inside : {n k : ℕ} → n ≡ k → Below n bs → Below k bs
    inside e = subst (λ n. Below n bs) e

take-set : (xs : List ℕ) (i s : ℕ) → i < length xs → take (suc i) (set xs i s) ≡ take i xs ++ s ∷ []
take-set [] i s h = elim h [ ]
take-set (x ∷ xs) zero s h = refl
take-set (x ∷ xs) (suc i) s h = rw (take-set xs i s (omega arith))

-- `places` is the length of the array.
abbrev Allocates : ℕ → ℕ → ℕ → FileHeader → Bitmap → Type 0
Allocates places n i h m =
    (h' : FileHeader) × (m' : Bitmap) × (bs : List ℕ) × (allocate_from n i h m ≡ some (h', m'))
    × Takes m bs m'
    × (length bs ≡ n)
    × (length h'.data_sectors ≡ places)
    × (h'.num_bytes ≡ h.num_bytes)
    × (h'.num_sectors ≡ h.num_sectors)
    × (take (i + n) h'.data_sectors ≡ take i h.data_sectors ++ bs)

abbrev with_sector : FileHeader → ℕ → ℕ → FileHeader
with_sector h i s = record h { data_sectors = set h.data_sectors i s }

-- One round of the loop, and then the others.
Allocates-suc :
    (places n i : ℕ) (h : FileHeader) (m : Bitmap) (s : ℕ)
    → IsValid m
    → length h.data_sectors ≡ places
    → i < places
    → find_and_set m ≡ some (some s, marked m s)
    → s < m.num_bits
    → peek m s ≡ false
    → Allocates places n (i + 1) (with_sector h i s) (marked m s)
    → Allocates places (suc n) i h m
unfolding allocate_from take_sector put_sector assert
Allocates-suc places n i h m s v sized fits e lt off
      (h', m', bs, run, t, len, sized', nb, ns, all) =
    (
      h',
      m',
      s ∷ bs,
      rw (e, lt→ltb i (length h.data_sectors) (omega (arith, sized))) run,
      Takes-cons m s bs m' v lt off t,
      ap suc len,
      sized',
      nb,
      ns,
      taken,
    )
  where
    taken : take (i + suc n) h'.data_sectors ≡ take i h.data_sectors ++ s ∷ bs
    taken =
        let e1 : i + suc n ≡ i + 1 + n = omega arith in
        let e2 : i + 1 ≡ suc i = omega arith in
        rw (e1, all, e2, take-set h.data_sectors i s (rw sized fits))
          (append_assoc (take i h.data_sectors) (s ∷ []) bs)

-- With room for `n` more entries in the header and `n` free sectors, the loop of `Allocate` runs to
-- its end and fills the next `n` entries with sectors that were free and are now taken.
allocate_from-Allocates :
    (places n i : ℕ) (h : FileHeader) (m : Bitmap)
    → IsValid m
    → length h.data_sectors ≡ places
    → i + n ≤ places
    → n ≤ off_count (peek m) m.num_bits
    → Allocates places n i h m
unfolding allocate_from take_sector put_sector assert
allocate_from-Allocates places zero i h m v sized fits enough = (
  h,
  m,
  [],
  refl,
  record {
    valid = v;
    same_size = refl;
    inside = tt;
    counts = λ j. omega arith;
    left = omega arith;
  },
  refl,
  sized,
  refl,
  refl,
  let e : i + 0 ≡ i = omega arith in rw (e, append-nil (take i h.data_sectors)),
)
allocate_from-Allocates places (suc n) i h m v sized fits enough =
    let (r, m1, e, found) = find_and_set-Finds m v in
    go found e (λ s lt off.
      allocate_from-Allocates places n (i + 1) (with_sector h i s) (marked m s)
        (marked-IsValid m s v lt) (length-set h.data_sectors i s ∙ sized) (omega arith)
        (omega (
          arith,
          off_count-marked m s v lt off,
          ap (off_count (peek (marked m s))) (num_bits-marked m s),
        )))
  where
    go :
        {r : Option ℕ} {m1 : Bitmap}
        → Found m r m1
        → find_and_set m ≡ some (r, m1)
        → ((s : ℕ)
            → s < m.num_bits
            → peek m s ≡ false
            → Allocates places n (i + 1) (with_sector h i s) (marked m s))
        → Allocates places (suc n) i h m
    go (full all) e rest = absurd (omega (arith, off_count-full (peek m) m.num_bits all))
    go (first s lt off below) e rest =
        Allocates-suc places n i h m s v sized (omega arith) e lt off (rest s lt off)

-- `Allocate` with as many free sectors as the file needs, and at most NumDirect.
pub record Allocated (h : FileHeader) (m : Bitmap) (size : ℕ) (h' : FileHeader) (m' : Bitmap)
    : Type 0 where
  pub bytes : h'.num_bytes ≡ size
  pub sectors : h'.num_sectors ≡ div_round_up size sector_size
  pub sized : IsSized h'
  pub length_blocks : length (blocks h') ≡ div_round_up size sector_size
  pub takes : Takes m (blocks h') m'

abbrev pub needed : ℕ → ℕ
needed size = div_round_up size sector_size

module _ (h : FileHeader) (m : Bitmap) (size : ℕ) (v : IsValid m) where
  -- `Allocate` on a well-formed map, with a header whose array has NumDirect places, a size of at most NumDirect
  -- sectors and as many free sectors as it needs, returns TRUE, with the size and the number of sectors written to the
  -- header, and that many different sectors, which were free and are now taken, in its array.
  pub allocate-Allocated :
      IsSized h
      → needed size ≤ num_direct
      → needed size ≤ free_sectors m
      → (h' : FileHeader) × (m' : Bitmap) × (allocate h m size ≡ some (true, h', m'))
        × Allocated h m size h' m'
  unfolding allocate
  allocate-Allocated sized fits enough =
      let h0 = record h { num_bytes = size; num_sectors = needed size } in
      let (h', m', bs, run, t, len, sized', nb, ns, all) =
        allocate_from-Allocates num_direct (needed size) 0 h0 m v sized (omega arith) enough in
      let same : blocks h' ≡ bs =
        let e : h'.num_sectors ≡ 0 + needed size = omega arith in rw e all in
      (
        h',
        m',
        rw (num_clear-eq m v, room enough, run),
        record {
          bytes = nb;
          sectors = ns;
          sized = sized';
          length_blocks = rw same len;
          takes = rw same t;
        },
      )
    where
      room : needed size ≤ free_sectors m → ltb (free_sectors m) (needed size) ≡ false
      room le = ground arith

  -- Too few free sectors: FALSE, and the map is not touched.
  pub allocate-no_space :
      free_sectors m < needed size
      → allocate h m size
        ≡ some (false, record h { num_bytes = size; num_sectors = needed size }, m)
  unfolding allocate
  allocate-no_space short = rw (num_clear-eq m v, lt→ltb (free_sectors m) (needed size) short)

-- The entry past the last one cannot be written.
take_sector-full :
    (i : ℕ) (h : FileHeader) (m : Bitmap) → length h.data_sectors ≤ i → take_sector i h m ≡ none
unfolding take_sector put_sector assert
take_sector-full i h m le = elim (Option-cases (find_and_set m)) [
  | inl stop ↦ rw stop refl
  | inr ((none, m1), e) ↦ rw e refl
  | inr ((some s, m1), e) ↦
      let past : ltb i (length h.data_sectors) ≡ false = ground arith in rw (e, past) refl
]

-- A round that ends keeps the length of the array.
length-take_sector :
    (i : ℕ) (h h' : FileHeader) (m m' : Bitmap)
    → take_sector i h m ≡ some (h', m')
    → length h'.data_sectors ≡ length h.data_sectors
unfolding take_sector put_sector assert
length-take_sector i h h' m m' run = elim (Option-cases (find_and_set m)) [
  | inl stop ↦ let bad : none ≡ some (h', m') = rw stop at run in absurd (cc)
  | inr ((none, m1), e) ↦ let bad : none ≡ some (h', m') = rw e at run in absurd (cc)
  | inr ((some s, m1), e) ↦ elim (Bool-cases (ltb i (length h.data_sectors))) [
    | inl inside ↦
        let is : some (with_sector h i s, m1) ≡ some (h', m') = rw (e, inside) at run in
        let same : with_sector h i s ≡ h' = cc in
        sym (ap (λ x. length x.data_sectors) same) ∙ length-set h.data_sectors i s
    | inr past ↦ let bad : none ≡ some (h', m') = rw (e, past) at run in absurd (cc)
  ]
]

-- The loop never gets past the end of the array.
allocate_from-overflow :
    (places n i : ℕ) (h : FileHeader) (m : Bitmap)
    → length h.data_sectors ≡ places
    → i ≤ places
    → places < i + n
    → allocate_from n i h m ≡ none
unfolding allocate_from
allocate_from-overflow places zero i h m sized le lt = absurd (omega arith)
allocate_from-overflow places (suc n) i h m sized le lt = elim (dec_lt i places) [
  | no at_end ↦ rw (take_sector-full i h m (omega (arith, sized)))
  | yes room ↦ elim (Option-cases (take_sector i h m)) [
    | inl stop ↦ rw stop
    | inr ((h', m'), e) ↦ rw e (
        allocate_from-overflow places n (i + 1) h' m' (length-take_sector i h h' m m' e ∙ sized)
          (omega arith) (omega arith))
  ]
]

pub allocate-overflow :
    (h : FileHeader) (m : Bitmap) (size : ℕ)
    → IsValid m
    → IsSized h
    → num_direct < needed size
    → needed size ≤ free_sectors m
    → allocate h m size ≡ none
unfolding allocate
allocate-overflow h m size v sized big enough =
    let run =
      allocate_from-overflow num_direct (needed size) 0
        (record h { num_bytes = size; num_sectors = needed size }) m sized (omega arith)
        (omega arith) in
    rw (num_clear-eq m v, room enough, run)
  where
    room : needed size ≤ free_sectors m → ltb (free_sectors m) (needed size) ≡ false
    room le = ground arith

-- A file that needs more sectors than the array of the header has places, on a disk with that many free sectors: `Allocate` goes on to
-- write past the end of the array. The end of the array is all that stops it: if the array had at least as many places as the file needs
-- sectors, the same call would return TRUE with that many different sectors, which were free and are now taken.
pub allocate-past_end :
    (h : FileHeader) (m : Bitmap) (size : ℕ) (places : List ℕ)
    → IsValid m
    → IsSized h
    → num_direct < needed size
    → needed size ≤ free_sectors m
    → needed size ≤ length places
    → (allocate h m size ≡ none)
      × ((h' : FileHeader) × (m' : Bitmap) × (allocate (record h { data_sectors = places }) m size
            ≡ some (true, h', m'))
          × (length (blocks h') ≡ needed size)
          × Takes m (blocks h') m')
unfolding allocate
allocate-past_end h m size places v sized big enough long =
    let h0 : FileHeader = record {
      num_bytes = size;
      num_sectors = needed size;
      data_sectors = places;
    } in
    let (h', m', bs, run, t, len, sized', nb, ns, all) =
      allocate_from-Allocates (length places) (needed size) 0 h0 m v refl (omega arith) enough in
    let same : blocks h' ≡ bs =
      let e : h'.num_sectors ≡ 0 + needed size = omega arith in rw e all in
    (
      allocate-overflow h m size v sized big enough,
      (h', m', rw (num_clear-eq m v, room enough, run), rw same len, rw same t),
    )
  where
    room : needed size ≤ free_sectors m → ltb (free_sectors m) (needed size) ≡ false
    room le = ground arith
