-- ===== src/Machine/Word.antt =====
-- 32-bit words as the simulator computes with them: an `int` or `unsigned int` is its bit pattern, a
-- number below 2 ^ 32.
use my_nachos.Base.{
  ℕ, ◌+◌, ◌-◌, ◌*◌, ◌/◌, ◌%◌, ◌^◌, Bool, true, false, not, if◌then◌else◌, ltb, leb,
}

abbrev pub word_size : ℕ
word_size = 4294967296

abbrev pub sign_bit : ℕ
sign_bit = 2147483648

abbrev pub add32 : ℕ → ℕ → ℕ
add32 a b = (a + b) % word_size

abbrev pub sub32 : ℕ → ℕ → ℕ
sub32 a b = (a + (word_size - b)) % word_size

abbrev pub neg32 : ℕ → ℕ
neg32 a = (word_size - a) % word_size

abbrev pub not32 : ℕ → ℕ
not32 a = word_size - 1 - a

-- a & SIGN_BIT
abbrev pub is_neg : ℕ → Bool
is_neg a = leb sign_bit a

-- (a ^ b) & SIGN_BIT
abbrev pub signs_differ : ℕ → ℕ → Bool
signs_differ a b = if is_neg a then not (is_neg b) else is_neg b

-- a << k
abbrev pub shl32 : ℕ → ℕ → ℕ
shl32 a k = a * 2 ^ k % word_size

-- `a >> k` on an int: copies of the sign come in from above.
abbrev pub sar32 : ℕ → ℕ → ℕ
sar32 a k = if is_neg a then not32 (not32 a / 2 ^ k) else a / 2 ^ k

-- `a < b` on ints
abbrev pub slt32 : ℕ → ℕ → Bool
slt32 a b =
    if is_neg a then (if is_neg b then ltb a b else true) else (if is_neg b then false else ltb a b)

-- The distance of an int from 0.
abbrev pub magnitude : ℕ → ℕ
magnitude a = if is_neg a then word_size - a else a
