-- ===== src/Bitmap/Search.antt =====
-- code/lib/bitmap.cc: the constructor, `FindAndSet` and `NumClear`.
use my_nachos.Base.{
  ℕ, zero, suc, ◌+◌, ◌-◌, ◌≤◌, ◌<◌, ◌≡◌, ◌≢◌, refl, ap, ◌∙◌, Bool, true, false, Option, none, some,
  if◌then◌else◌, ltb, leb, ◌&&◌, arith, ℕ_discrete, dec_lt, lt→ltb,
}
use my_nachos.Base.Checked.{◌>>=◌, assert}
use my_nachos.Bitmap.{
  Bitmap, IsValid, peek, mark, marked, cleared, zeroed, create, clear_from, mark_from, find_and_set,
  find_from, num_clear, count_from,
}
use my_nachos.Bitmap.Bit.{
  peek-marked, peek-cleared, peek-zeroed, zeroed-IsValid, marked-IsValid, cleared-IsValid, test-eq,
  mark-eq, clear-eq, num_bits-marked, num_bits-cleared,
}

-- How many of the first `n` flags are off.
abbrev pub off_count : (ℕ → Bool) → ℕ → ℕ
off_count f zero = 0
off_count f (suc n) = off_count f n + (if f n then 0 else 1)

off_count-le : (f : ℕ → Bool) (n : ℕ) → off_count f n ≤ n
off_count-le f zero = omega arith
off_count-le f (suc n) = ground (arith, off_count-le f n)

pub off_count-zero : (f : ℕ → Bool) (n j : ℕ) → off_count f n ≡ 0 → j < n → f j ≡ true
off_count-zero f zero j e h = elim h [ ]
off_count-zero f (suc n) j e h = elim (ℕ_discrete j n) [
  | yes last ↦ rw last (ground arith)
  | no before ↦ off_count-zero f n j (ground arith) (omega arith)
]

pub off_count-full : (f : ℕ → Bool) (n : ℕ) → ((j : ℕ) → j < n → f j ≡ true) → off_count f n ≡ 0
off_count-full f zero all = refl
off_count-full f (suc n) all =
    rw (all n (omega arith), off_count-full f n (λ j h. all j (omega arith)))

pub off_count-clear : (f : ℕ → Bool) (n : ℕ) → ((j : ℕ) → f j ≡ false) → off_count f n ≡ n
off_count-clear f zero off = refl
off_count-clear f (suc n) off = rw (off n, off_count-clear f n off) (omega arith)

pub off_count-cong :
    (f g : ℕ → Bool) (n : ℕ) → ((j : ℕ) → j < n → f j ≡ g j) → off_count f n ≡ off_count g n
off_count-cong f g zero same = refl
off_count-cong f g (suc n) same =
    rw (same n (omega arith), off_count-cong f g n (λ j h. same j (omega arith)))

-- One flag turned on.
pub off_count-turn_on :
    (f g : ℕ → Bool) (n i : ℕ)
    → i < n
    → f i ≡ false
    → g i ≡ true
    → ((j : ℕ) → i ≢ j → g j ≡ f j)
    → off_count g n + 1 ≡ off_count f n
off_count-turn_on f g zero i h off on same = elim h [ ]
off_count-turn_on f g (suc n) i h off on same = elim (ℕ_discrete i n) [
  | yes e ↦
      let below : off_count g n ≡ off_count f n =
        off_count-cong g f n (λ j lt. same j (λ e'. absurd (omega arith))) in
      rw (below, ← e, off, on) (omega arith)
  | no e ↦ rw (same n e) (ground (arith, off_count-turn_on f g n i (omega arith) off on same))
]

-- One more flag counted, written as the loop counts it.
off_count-next :
    (f : ℕ → Bool) (i : ℕ) → off_count f (i + 1) ≡ off_count f i + (if f i then 0 else 1)
off_count-next f i = let e : i + 1 ≡ suc i = omega arith in rw e

module _ (b : Bitmap) (v : IsValid b) where
  count_from-eq :
      (n i count c : ℕ)
      → i + n ≡ b.num_bits
      → c + off_count (peek b) i ≡ count + off_count (peek b) b.num_bits
      → count_from n i count b ≡ some c
  unfolding count_from
  count_from-eq zero i count c e total =
      let e' : i ≡ b.num_bits = omega arith in ap some (omega (arith, ap (off_count (peek b)) e'))
  count_from-eq (suc n) i count c e total = rw (test-eq b i v (omega arith)) (
      count_from-eq n (i + 1) (if peek b i then count else count + 1) c (omega arith)
        (step (peek b i) refl))
    where
      step :
          (t : Bool)
          → peek b i ≡ t
          → c + off_count (peek b) (i + 1)
            ≡ (if t then count else count + 1) + off_count (peek b) b.num_bits
      step true e = ground (arith, off_count-next (peek b) i)
      step false e = ground (arith, off_count-next (peek b) i)

  -- `NumClear` returns the number of clear bits, and no ASSERT in it fails.
  pub num_clear-eq : num_clear b ≡ some (off_count (peek b) b.num_bits)
  unfolding num_clear
  num_clear-eq = count_from-eq b.num_bits 0 0 _ (omega arith) (omega arith)

-- What `FindAndSet` may return: `none` (the source's -1) from a full map, which stays as it is, or
-- the first clear bit, which is now marked.
pub data Found (b : Bitmap) : Option ℕ → Bitmap → Type 0 where
  full : ((j : ℕ) → j < b.num_bits → peek b j ≡ true) → Found b none b
  first :
      (i : ℕ)
      → i < b.num_bits
      → peek b i ≡ false
      → ((j : ℕ) → j < i → peek b j ≡ true)
      → Found b (some i) (marked b i)

abbrev pub Finds : Bitmap → Option (Option ℕ × Bitmap) → Type 0
Finds b out = (r : Option ℕ) × (b' : Bitmap) × (out ≡ some (r, b')) × Found b r b'

module _ (b : Bitmap) (v : IsValid b) where
  find_from-Finds :
      (n i : ℕ)
      → i + n ≡ b.num_bits
      → ((j : ℕ) → j < i → peek b j ≡ true)
      → Finds b (find_from n i b)
  unfolding find_from
  find_from-Finds zero i e below = (none, b, refl, full (λ j h. below j (omega arith)))
  find_from-Finds (suc n) i e below =
      rw (test-eq b i v h)
        (go (peek b i) refl (λ on. find_from-Finds n (i + 1) (omega arith) (further on)))
    where
      h : i < b.num_bits
      h = omega arith

      further : peek b i ≡ true → (j : ℕ) → j < i + 1 → peek b j ≡ true
      further on j lt = elim (ℕ_discrete j i) [ yes e ↦ rw e on | no e ↦ below j (omega arith) ]

      go :
          (t : Bool)
          → peek b i ≡ t
          → (peek b i ≡ true → Finds b (find_from n (i + 1) b))
          → Finds b (if t then find_from n (i + 1) b else (mark b i >>= λ b'. some (some i, b')))
      go true on rest = rest on
      go false off rest = rw (mark-eq b i v h) (some i, marked b i, refl, first i h off below)

  -- On a well-formed map `FindAndSet` passes its ASSERTs and does what `Found` says.
  pub find_and_set-Finds : Finds b (find_and_set b)
  unfolding find_and_set
  find_and_set-Finds = find_from-Finds b.num_bits 0 (omega arith) (λ j h. elim h [ ])

-- One bit marked is one clear bit fewer.
pub off_count-marked :
    (b : Bitmap) (i : ℕ)
    → IsValid b
    → i < b.num_bits
    → peek b i ≡ false
    → off_count (peek (marked b i)) b.num_bits + 1 ≡ off_count (peek b) b.num_bits
off_count-marked b i v h off =
    off_count-turn_on (peek b) (peek (marked b i)) b.num_bits i h off
      (ground (arith, peek-marked b i v h i)) (λ j e. ground (arith, peek-marked b i v h j))

-- `FindAndSet` and `NumClear` agree: on a well-formed map both return; the search fails exactly
-- when the count is 0, and one that succeeds leaves a well-formed map with one clear bit fewer.
pub data Counted (b : Bitmap) (n : ℕ) : Option ℕ → Bitmap → Type 0 where
  exhausted : n ≡ 0 → Counted b n none b
  taken :
      (i : ℕ) (b' : Bitmap)
      → IsValid b'
      → b'.num_bits ≡ b.num_bits
      → num_clear b' ≡ some (n - 1)
      → 0 < n
      → Counted b n (some i) b'

-- On a well-formed map `NumClear` and `FindAndSet` pass their ASSERTs. When `NumClear` is 0, `FindAndSet` finds nothing
-- and changes nothing; otherwise it gives a bit, and `NumClear` afterwards is one less.
pub find_and_set-num_clear :
    (b : Bitmap)
    → IsValid b
    → (n : ℕ) × (r : Option ℕ) × (b' : Bitmap) × (num_clear b ≡ some n)
      × (find_and_set b ≡ some (r, b'))
      × Counted b n r b'
find_and_set-num_clear b v =
    let (r, b', e, found) = find_and_set-Finds b v in
    (off_count (peek b) b.num_bits, r, b', num_clear-eq b v, e, counted found)
  where
    counted :
        {r : Option ℕ} {b' : Bitmap} → Found b r b' → Counted b (off_count (peek b) b.num_bits) r b'
    counted (full all) = exhausted (off_count-full (peek b) b.num_bits all)
    counted (first i h off below) =
        taken i (marked b i) (marked-IsValid b i v h) (num_bits-marked b i)
          (num_clear-eq (marked b i) (marked-IsValid b i v h)
            ∙ ap some (
                omega (
                  arith,
                  ap (off_count (peek (marked b i))) (num_bits-marked b i),
                  off_count-marked b i v h off,
                )))
          (omega (arith, off_count-marked b i v h off))

-- The two loops over a range, and the constructor.
abbrev in_range : ℕ → ℕ → ℕ → Bool
in_range i n j = leb i j && ltb j (i + n)

-- `b'` is `b` with every bit of the range set to `value`.
pub record Filled (value : Bool) (i n : ℕ) (b b' : Bitmap) : Type 0 where
  pub valid : IsValid b'
  pub same_size : b'.num_bits ≡ b.num_bits
  pub bits : (j : ℕ) → peek b' j ≡ (if in_range i n j then value else peek b j)

pub clear_from-Filled :
    (n i : ℕ) (b : Bitmap)
    → IsValid b
    → i + n ≤ b.num_bits
    → (b' : Bitmap) × (clear_from n i b ≡ some b') × Filled false i n b b'
unfolding clear_from
clear_from-Filled zero i b v h =
    (b, refl, record { valid = v; same_size = refl; bits = λ j. ground arith })
clear_from-Filled (suc n) i b v h =
    let lt : i < b.num_bits = omega arith in
    let (b', e, f) =
      clear_from-Filled n (i + 1) (cleared b i) (cleared-IsValid b i v lt)
        (rw (num_bits-cleared b i) (omega arith)) in
    (
      b',
      rw (clear-eq b i v lt) e,
      record {
        valid = f.valid;
        same_size = f.same_size ∙ num_bits-cleared b i;
        bits = λ j. ground (arith, f.bits j, peek-cleared b i v lt j);
      },
    )

pub mark_from-Filled :
    (n i : ℕ) (b : Bitmap)
    → IsValid b
    → i + n ≤ b.num_bits
    → (b' : Bitmap) × (mark_from n i b ≡ some b') × Filled true i n b b'
unfolding mark_from
mark_from-Filled zero i b v h =
    (b, refl, record { valid = v; same_size = refl; bits = λ j. ground arith })
mark_from-Filled (suc n) i b v h =
    let lt : i < b.num_bits = omega arith in
    let (b', e, f) =
      mark_from-Filled n (i + 1) (marked b i) (marked-IsValid b i v lt)
        (rw (num_bits-marked b i) (omega arith)) in
    (
      b',
      rw (mark-eq b i v lt) e,
      record {
        valid = f.valid;
        same_size = f.same_size ∙ num_bits-marked b i;
        bits = λ j. ground (arith, f.bits j, peek-marked b i v lt j);
      },
    )

-- The constructor gives a well-formed map of the size asked for with every bit clear.
pub create-clear :
    (n : ℕ)
    → 0 < n
    → (b : Bitmap) × (create n ≡ some b)
      × IsValid b
      × (b.num_bits ≡ n)
      × ((j : ℕ) → peek b j ≡ false)
unfolding create assert
create-clear n h =
    let (b, e, f) = clear_from-Filled n 0 (zeroed n) (zeroed-IsValid n h) (omega arith) in
    (b, rw (lt→ltb 0 n h) e, f.valid, f.same_size, λ j. ground (arith, f.bits j, peek-zeroed n j))

-- Which of the two outcomes it is, from the bits.
pub find_and_set-first :
    (b : Bitmap) (i : ℕ)
    → IsValid b
    → i < b.num_bits
    → peek b i ≡ false
    → ((j : ℕ) → j < i → peek b j ≡ true)
    → find_and_set b ≡ some (some i, marked b i)
find_and_set-first b i v h off below =
    let (r, b', e, found) = find_and_set-Finds b v in e ∙ decide found
  where
    decide :
        {r : Option ℕ} {b' : Bitmap}
        → Found b r b'
        → ◌≡◌ {A = Option (Option ℕ × Bitmap)} (some (r, b')) (some (some i, marked b i))
    decide (full all) = cc (all i h)
    decide (first k hk off' below') = elim (dec_lt k i) [
      | yes lt ↦ cc (below k lt)
      | no ge ↦ elim (dec_lt i k) [
        | yes lt ↦ cc (below' i lt)
        | no ge' ↦ let e : k ≡ i = omega arith in rw e
      ]
    ]

pub find_and_set-full :
    (b : Bitmap)
    → IsValid b
    → ((j : ℕ) → j < b.num_bits → peek b j ≡ true)
    → find_and_set b ≡ some (none, b)
find_and_set-full b v all = let (r, b', e, found) = find_and_set-Finds b v in e ∙ decide found
  where
    decide :
        {r : Option ℕ} {b' : Bitmap}
        → Found b r b'
        → ◌≡◌ {A = Option (Option ℕ × Bitmap)} (some (r, b')) (some (none, b))
    decide (full _) = refl
    decide (first k hk off below) = cc (all k hk)
