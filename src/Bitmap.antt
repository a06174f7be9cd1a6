-- ===== src/Bitmap.antt =====
-- code/lib/bitmap.h and code/lib/bitmap.cc: an array of bits in 32-bit words.
-- Bit numbers and counts are natural numbers (the source's ints, never negative here); `none` is a
-- failed ASSERT. `words` is the array `map`. Each ASSERT stands before the accesses it guards, so a
-- word is only read or written inside the array of a well-formed map.
pub mod Bit
pub mod Search
pub mod SelfTest
use Prim.Native.Nat.{bit_and, bit_or}
use my_nachos.Base.{
  ℕ, zero, suc, ◌+◌, ◌-◌, ◌*◌, ◌/◌, ◌%◌, ◌^◌, ◌≤◌, ◌<◌, ◌≡◌, refl, Bool, true, false, not, Option,
  none, some, List, if◌then◌else◌, ltb, ◌==◌, length, get_or, set, replicate,
}
use my_nachos.Base.Bits.{all_but}
use my_nachos.Base.Checked.{◌>>=◌, ◌>>◌, assert}

abbrev pub bits_in_word : ℕ
bits_in_word = 32

-- divRoundUp of lib/utility.h
abbrev pub div_round_up : ℕ → ℕ → ℕ
div_round_up n s = n / s + (if ltb 0 (n % s) then 1 else 0)

pub record Bitmap : Type 0 where
  pub num_bits : ℕ
  pub num_words : ℕ
  pub words : List ℕ

-- The body of `Test`, past its ASSERT.
unfoldable pub peek : Bitmap → ℕ → Bool
peek b which =
    if bit_and (get_or b.words (which / bits_in_word) 0) (2 ^ (which % bits_in_word)) == 0
    then false
    else true

unfoldable pub test : Bitmap → ℕ → Option Bool
test b which = do assert (ltb which b.num_bits); some (peek b which)

-- The assignments of `Mark` and of `Clear`.
unfoldable pub marked : Bitmap → ℕ → Bitmap
marked b which = record b {
  words =
      set b.words (which / bits_in_word)
        (bit_or (get_or b.words (which / bits_in_word) 0) (2 ^ (which % bits_in_word)));
}

unfoldable pub cleared : Bitmap → ℕ → Bitmap
cleared b which = record b {
  words = set b.words (which / bits_in_word) (
      bit_and (get_or b.words (which / bits_in_word) 0)
        (all_but bits_in_word (which % bits_in_word)));
}

unfoldable pub mark : Bitmap → ℕ → Option Bitmap
mark b which = do
  assert (ltb which b.num_bits)
  now ← test (marked b which) which
  assert now
  some (marked b which)

unfoldable pub clear : Bitmap → ℕ → Option Bitmap
clear b which = do
  assert (ltb which b.num_bits)
  now ← test (cleared b which) which
  assert (not now)
  some (cleared b which)

-- `for (i = ...; ...) Clear(i);` with the rounds left first.
unfoldable pub clear_from : ℕ → ℕ → Bitmap → Option Bitmap
clear_from zero i b = some b
clear_from (suc n) i b = clear b i >>= clear_from n (i + 1)

unfoldable pub mark_from : ℕ → ℕ → Bitmap → Option Bitmap
mark_from zero i b = some b
mark_from (suc n) i b = mark b i >>= mark_from n (i + 1)

abbrev pub zeroed : ℕ → Bitmap
zeroed n = record {
  num_bits = n;
  num_words = div_round_up n bits_in_word;
  words = replicate (div_round_up n bits_in_word) 0;
}

-- The constructor Bitmap(numItems).
unfoldable pub create : ℕ → Option Bitmap
create num_items = do assert (ltb 0 num_items); clear_from num_items 0 (zeroed num_items)

-- The loop of `FindAndSet` at `i`, with the rounds left first; `-1` is `none`.
unfoldable pub find_from : ℕ → ℕ → Bitmap → Option (Option ℕ × Bitmap)
find_from zero i b = some (none, b)
find_from (suc n) i b =
    let rest = find_from n (i + 1) b in
    test b i >>= λ t. if t then rest else (mark b i >>= λ b'. some (some i, b'))

unfoldable pub find_and_set : Bitmap → Option (Option ℕ × Bitmap)
find_and_set b = find_from b.num_bits 0 b

unfoldable pub count_from : ℕ → ℕ → ℕ → Bitmap → Option ℕ
count_from zero i count b = some count
count_from (suc n) i count b =
    test b i >>= λ t. count_from n (i + 1) (if t then count else count + 1) b

unfoldable pub num_clear : Bitmap → Option ℕ
num_clear b = count_from b.num_bits 0 0 b

-- What the constructor sets up and every operation keeps.
pub record IsValid (b : Bitmap) : Type 0 where
  pub nonempty : 0 < b.num_bits
  pub enough : b.num_words ≡ div_round_up b.num_bits bits_in_word
  pub sized : length b.words ≡ b.num_words
