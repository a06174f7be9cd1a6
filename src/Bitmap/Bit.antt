-- ===== src/Bitmap/Bit.antt =====
-- code/lib/bitmap.cc: what `Mark` and `Clear` do to each bit of the map.
use Prim.Native.Nat.{bit_and, bit_or}
use my_nachos.Base.{
  ℕ, ◌/◌, ◌%◌, ◌^◌, ◌≤◌, ◌<◌, ◌≡◌, ◌≢◌, refl, ◌∙◌, true, false, none, some, if◌then◌else◌, ltb,
  ◌==◌, length, get_or, set, arith, ℕ_discrete, get_or-set_self, get_or-set_ne, length-set,
  length-replicate, lt→ltb, ==_self, ==_of_ne, get_or-replicate,
}
use my_nachos.Base.Bits.{
  bit, bit-lt, zero-bit, all_but, bit_and_pow-zero, bit-set_self, bit-set_ne, bit-clear_self,
  bit-clear_ne,
}
use my_nachos.Base.Checked.{assert}
use my_nachos.Bitmap.{
  Bitmap, IsValid, peek, test, mark, marked, clear, cleared, bits_in_word, div_round_up, zeroed,
}

-- The word and the place in it where bit `i` of the map lives.
abbrev place : Bitmap → ℕ → ℕ
place b i = bit (get_or b.words (i / 32) 0) (i % 32)

peek-place : (b : Bitmap) (i : ℕ) → peek b i ≡ (place b i == 1)
unfolding peek
peek-place b i =
    let w = get_or b.words (i / 32) 0 in
    ground
      (arith, (bit_and_pow-zero w (i % 32)).0, (bit_and_pow-zero w (i % 32)).1, bit-lt w (i % 32))

in_words : (b : Bitmap) (i : ℕ) → IsValid b → i < b.num_bits → i / 32 < length b.words
in_words b i v h = ground (arith, v.sized, v.enough)

-- One word of the map written at `i`: the bit `i` is the written one, and the others of its word
-- and of every other word are the old ones.
module _ (b : Bitmap) (i : ℕ) (v : IsValid b) (h : i < b.num_bits) (w bit_value : ℕ)
    (here : bit w (i % 32) ≡ bit_value)
    (others : (k : ℕ) → k < 32 → i % 32 ≢ k → bit w k ≡ bit (get_or b.words (i / 32) 0) k) where
  place-write :
      (j : ℕ)
      → bit (get_or (set b.words (i / 32) w) (j / 32) 0) (j % 32)
        ≡ (if i == j then bit_value else place b j)
  place-write j = elim (ℕ_discrete (i / 32) (j / 32)) [
    | no apart ↦
        rw (get_or-set_ne b.words (i / 32) (j / 32) w 0 apart, ==_of_ne i j (λ e. apart (rw e)))
    | yes same ↦
        rw (← same, get_or-set_self b.words (i / 32) w 0 (in_words b i v h))
          (elim (ℕ_discrete (i % 32) (j % 32)) [
            | yes low ↦ let e : i ≡ j = omega arith in rw (← low, ← e, ==_self i) here
            | no low ↦ rw (others (j % 32) (omega arith) low, ==_of_ne i j (λ e. low (rw e)))
          ])
  ]

pub num_bits-marked : (b : Bitmap) (i : ℕ) → (marked b i).num_bits ≡ b.num_bits
unfolding marked
num_bits-marked b i = refl

pub num_bits-cleared : (b : Bitmap) (i : ℕ) → (cleared b i).num_bits ≡ b.num_bits
unfolding cleared
num_bits-cleared b i = refl

module _ (b : Bitmap) (i : ℕ) (v : IsValid b) (h : i < b.num_bits) where
  pub peek-marked : (j : ℕ) → peek (marked b i) j ≡ (if i == j then true else peek b j)
  unfolding marked
  peek-marked j =
      rw
        (
          peek-place (marked b i) j,
          peek-place b j,
          place-write b i v h (bit_or (get_or b.words (i / 32) 0) (2 ^ (i % 32))) 1
              (bit-set_self (get_or b.words (i / 32) 0) (i % 32))
              (λ k _ apart. bit-set_ne (get_or b.words (i / 32) 0) (i % 32) k apart) j,
        )
        (ground arith)

  pub peek-cleared : (j : ℕ) → peek (cleared b i) j ≡ (if i == j then false else peek b j)
  unfolding cleared
  peek-cleared j =
      rw
        (
          peek-place (cleared b i) j,
          peek-place b j,
          place-write b i v h (bit_and (get_or b.words (i / 32) 0) (all_but 32 (i % 32))) 0
              (bit-clear_self 32 (get_or b.words (i / 32) 0) (i % 32) (omega arith))
              (λ k lt apart.
                bit-clear_ne 32 (get_or b.words (i / 32) 0) (i % 32) k (omega arith) lt apart)
              j,
        )
        (ground arith)

  pub marked-IsValid : IsValid (marked b i)
  unfolding marked
  marked-IsValid = record {
    nonempty = v.nonempty;
    enough = v.enough;
    sized = length-set b.words (i / 32) _ ∙ v.sized;
  }

  pub cleared-IsValid : IsValid (cleared b i)
  unfolding cleared
  cleared-IsValid = record {
    nonempty = v.nonempty;
    enough = v.enough;
    sized = length-set b.words (i / 32) _ ∙ v.sized;
  }

  -- Inside the map no ASSERT fails, so the checked operations are their bodies.
  pub test-eq : test b i ≡ some (peek b i)
  unfolding test assert
  test-eq = rw (lt→ltb i b.num_bits h)

  pub mark-eq : mark b i ≡ some (marked b i)
  unfolding mark test assert
  mark-eq = ground (arith, num_bits-marked b i, peek-marked i)

  pub clear-eq : clear b i ≡ some (cleared b i)
  unfolding clear test assert
  clear-eq = ground (arith, num_bits-cleared b i, peek-cleared i)

-- Outside the map the first ASSERT of each operation fails.
pub outside :
    (b : Bitmap) (i : ℕ)
    → b.num_bits ≤ i
    → (test b i ≡ none) × (mark b i ≡ none) × (clear b i ≡ none)
unfolding test mark clear assert
outside b i h = let e : ltb i b.num_bits ≡ false = ground arith in (rw e, rw e, rw e)

-- `Mark` inside the map succeeds; afterwards `Test` answers TRUE for the marked bit and as before
-- for every other number, and the map stays well formed with the same number of bits.
pub test-mark :
    (b : Bitmap) (i : ℕ)
    → IsValid b
    → i < b.num_bits
    → (b' : Bitmap) × (mark b i ≡ some b')
      × IsValid b'
      × (b'.num_bits ≡ b.num_bits)
      × ((j : ℕ) → test b' j ≡ (if i == j then some true else test b j))
unfolding test assert
test-mark b i v h = (
  marked b i,
  mark-eq b i v h,
  marked-IsValid b i v h,
  num_bits-marked b i,
  λ j. ground (arith, num_bits-marked b i, peek-marked b i v h j),
)

-- `Clear` inside the map succeeds; afterwards `Test` answers FALSE for the cleared bit and as
-- before for every other number, and the map stays well formed with the same number of bits.
pub test-clear :
    (b : Bitmap) (i : ℕ)
    → IsValid b
    → i < b.num_bits
    → (b' : Bitmap) × (clear b i ≡ some b')
      × IsValid b'
      × (b'.num_bits ≡ b.num_bits)
      × ((j : ℕ) → test b' j ≡ (if i == j then some false else test b j))
unfolding test assert
test-clear b i v h = (
  cleared b i,
  clear-eq b i v h,
  cleared-IsValid b i v h,
  num_bits-cleared b i,
  λ j. ground (arith, num_bits-cleared b i, peek-cleared b i v h j),
)

pub peek-zeroed : (n j : ℕ) → peek (zeroed n) j ≡ false
peek-zeroed n j = rw (
  peek-place (zeroed n) j,
  get_or-replicate {A = ℕ} (div_round_up n bits_in_word) (j / 32) 0,
  zero-bit (j % 32),
)

pub zeroed-IsValid : (n : ℕ) → 0 < n → IsValid (zeroed n)
zeroed-IsValid n h = record { nonempty = h; enough = refl; sized = length-replicate {A = ℕ} _ 0 }
