-- ===== src/Base/Bits.antt =====
-- Single bits of a number, and what the bit operations do to each bit.
use Prim.Native.Nat.{min, max, digits, bit_and, bit_or}
use Prim.Native.Nat.{bit_and-bitwise, bit_or-bitwise}
use Prim.Native.Nat.{ℕ, zero, suc, ◌+◌, ◌-◌, ◌*◌, ◌/◌, ◌%◌, ◌^◌, ◌≤◌, ◌<◌}
use mathlib.Core.Path.{◌≡◌, refl, ◌∙◌, ap, subst}
use mathlib.Core.Logic.{◌≢◌, ◌↔◌}
use native.Mathlib.Decide.{ℕ_discrete}
use native.Mathlib.Omega.{arith}
use native.Mathlib.Nat.{pow-suc, le_refl, one-le-pow, pow-le-pow_right}

-- Bit `k` of `w`.
abbrev pub bit : ℕ → ℕ → ℕ
bit w zero = w % 2
bit w (suc k) = bit (w / 2) k

pub bit-lt : (w k : ℕ) → bit w k < 2
bit-lt w zero = omega arith
bit-lt w (suc k) = bit-lt (w / 2) k

pub zero-bit : (k : ℕ) → bit 0 k ≡ 0
zero-bit zero = refl
zero-bit (suc k) = zero-bit k

-- `digits` puts a digit below the rest.
bit_low : (q r : ℕ) → r < 2 → bit (q * 2 + r) 0 ≡ r
bit_low q r h = omega arith

bit_high : (q r k : ℕ) → r < 2 → bit (q * 2 + r) (suc k) ≡ bit q k
bit_high q r k h = let e : (q * 2 + r) / 2 ≡ q = omega arith in rw e

module _ (z : ℕ → ℕ) (f : ℕ → ℕ → ℕ) (small : (a b : ℕ) → a < 2 → b < 2 → f a b < 2)
    (base : (b k : ℕ) → bit (z b) k ≡ f 0 (bit b k)) where
  bit-digits : (n a b k : ℕ) → a ≤ n → bit (digits z f n a b) k ≡ f (bit a k) (bit b k)
  bit-digits zero zero b k h = rw zero-bit (base b k)
  bit-digits zero (suc a) b k h = absurd (omega arith)
  bit-digits (suc n) zero b k h = rw zero-bit (base b k)
  bit-digits (suc n) (suc a) b zero h =
      bit_low (digits z f n (suc a / 2) (b / 2)) (f (suc a % 2) (b % 2))
        (small (suc a % 2) (b % 2) (omega arith) (omega arith))
  bit-digits (suc n) (suc a) b (suc k) h =
      bit_high (digits z f n (suc a / 2) (b / 2)) (f (suc a % 2) (b % 2)) k
        (small (suc a % 2) (b % 2) (omega arith) (omega arith))
      ∙ bit-digits n (suc a / 2) (b / 2) k (omega arith)

pub bit-bit_and : (a b k : ℕ) → bit (bit_and a b) k ≡ min (bit a k) (bit b k)
bit-bit_and a b k = simp bit_and-bitwise (
    bit-digits (λ _. 0) min (λ a b p q. omega arith) (λ b k. zero-bit k ∙ omega arith) a a b k
      (le_refl a))

pub bit-bit_or : (a b k : ℕ) → bit (bit_or a b) k ≡ max (bit a k) (bit b k)
bit-bit_or a b k =
    simp bit_or-bitwise
      (bit-digits (λ b. b) max (λ a b p q. omega arith) (λ b k. omega arith) a a b k (le_refl a))

-- A number is 0 if all its bits are.
zero_of_bits : (n w : ℕ) → w ≤ n → ((k : ℕ) → bit w k ≡ 0) → w ≡ 0
zero_of_bits zero w h all = omega arith
zero_of_bits (suc n) zero h all = refl
zero_of_bits (suc n) (suc w) h all =
    omega (arith, all 0, zero_of_bits n (suc w / 2) (omega arith) (λ k. all (suc k)))

double_half : (x : ℕ) → (x * 2 / 2 ≡ x) × (x * 2 % 2 ≡ 0)
double_half x = omega arith

-- `1 << j` has the one bit `j`.
pub bit-pow_self : (k : ℕ) → bit (2 ^ k) k ≡ 1
bit-pow_self zero = refl
bit-pow_self (suc k) = rw (pow-suc 2 k, (double_half (2 ^ k)).0) (bit-pow_self k)

pub bit-pow_ne : (j k : ℕ) → j ≢ k → bit (2 ^ j) k ≡ 0
bit-pow_ne zero zero h = absurd (h refl)
bit-pow_ne zero (suc k) h = zero-bit k
bit-pow_ne (suc j) zero h = rw (pow-suc 2 j) (omega arith)
bit-pow_ne (suc j) (suc k) h =
    rw (pow-suc 2 j, (double_half (2 ^ j)).0) (bit-pow_ne j k (λ e. h (ap suc e)))

-- `~(1 << j)` in a word of `n` bits has all bits but `j`.
abbrev pub all_but : ℕ → ℕ → ℕ
all_but n j = 2 ^ n - 1 - 2 ^ j

all_but-low : (n : ℕ) → (all_but (suc n) 0 / 2 ≡ 2 ^ n - 1) × (all_but (suc n) 0 % 2 ≡ 0)
all_but-low n = rw (pow-suc 2 n) (omega arith, omega (arith, one-le-pow n 2))

pow-lt-pow_right : (j n : ℕ) → j < n → 2 ^ j + 1 ≤ 2 ^ n
pow-lt-pow_right j n h =
    omega (arith, pow-le-pow_right {n = 2} (omega arith) h, pow-suc 2 j, one-le-pow j 2)

all_but-high :
    (n j : ℕ)
    → j < n
    → (all_but (suc n) (suc j) / 2 ≡ all_but n j) × (all_but (suc n) (suc j) % 2 ≡ 1)
all_but-high n j h =
    rw (pow-suc 2 n, pow-suc 2 j)
      (omega (arith, pow-lt-pow_right j n h), omega (arith, pow-lt-pow_right j n h))

ones-half : (n : ℕ) → ((2 ^ suc n - 1) / 2 ≡ 2 ^ n - 1) × ((2 ^ suc n - 1) % 2 ≡ 1)
ones-half n = rw (pow-suc 2 n) (omega (arith, one-le-pow n 2), omega (arith, one-le-pow n 2))

bit-ones : (n k : ℕ) → k < n → bit (2 ^ n - 1) k ≡ 1
bit-ones zero k h = elim h [ ]
bit-ones (suc n) zero h = (ones-half n).1
bit-ones (suc n) (suc k) h = rw (ones-half n).0 (bit-ones n k (omega arith))

bit-all_but_self : (n j : ℕ) → j < n → bit (all_but n j) j ≡ 0
bit-all_but_self zero j h = elim h [ ]
bit-all_but_self (suc n) zero h = (all_but-low n).1
bit-all_but_self (suc n) (suc j) h =
    rw (all_but-high n j (omega arith)).0 (bit-all_but_self n j (omega arith))

bit-all_but_ne : (n j k : ℕ) → j < n → k < n → j ≢ k → bit (all_but n j) k ≡ 1
bit-all_but_ne zero j k hj hk h = elim hj [ ]
bit-all_but_ne (suc n) zero zero hj hk h = absurd (h refl)
bit-all_but_ne (suc n) zero (suc k) hj hk h = rw (all_but-low n).0 (bit-ones n k (omega arith))
bit-all_but_ne (suc n) (suc j) zero hj hk h = (all_but-high n j (omega arith)).1
bit-all_but_ne (suc n) (suc j) (suc k) hj hk h =
    rw (all_but-high n j (omega arith)).0
      (bit-all_but_ne n j k (omega arith) (omega arith) (λ e. h (ap suc e)))

-- `w & (1 << k)` is zero exactly when bit `k` of `w` is.
pub bit_and_pow-zero : (w k : ℕ) → (bit_and w (2 ^ k) ≡ 0) ↔ (bit w k ≡ 0)
bit_and_pow-zero w k = (
  λ e.
      omega (
        arith,
        bit-bit_and w (2 ^ k) k,
        bit-pow_self k,
        zero-bit k,
        ap (λ t. bit t k) e,
        bit-lt w k,
      ),
  λ e. zero_of_bits (bit_and w (2 ^ k)) (bit_and w (2 ^ k)) (le_refl _) (none_of e),
)
  where
    none_of : bit w k ≡ 0 → (j : ℕ) → bit (bit_and w (2 ^ k)) j ≡ 0
    none_of e j = elim (ℕ_discrete k j) [
      | yes same ↦ omega (arith, bit-bit_and w (2 ^ k) j, subst (λ t. bit w t ≡ 0) same e)
      | no apart ↦ omega (arith, bit-bit_and w (2 ^ k) j, bit-pow_ne k j apart)
    ]

-- Setting and clearing bit `k` of a 32-bit word, seen at bit `j`.
pub bit-set_self : (w k : ℕ) → bit (bit_or w (2 ^ k)) k ≡ 1
bit-set_self w k = omega (arith, bit-bit_or w (2 ^ k) k, bit-pow_self k, bit-lt w k)

pub bit-set_ne : (w k j : ℕ) → k ≢ j → bit (bit_or w (2 ^ k)) j ≡ bit w j
bit-set_ne w k j h = omega (arith, bit-bit_or w (2 ^ k) j, bit-pow_ne k j h)

pub bit-clear_self : (n w k : ℕ) → k < n → bit (bit_and w (all_but n k)) k ≡ 0
bit-clear_self n w k h = omega (arith, bit-bit_and w (all_but n k) k, bit-all_but_self n k h)

pub bit-clear_ne : (n w k j : ℕ) → k < n → j < n → k ≢ j → bit (bit_and w (all_but n k)) j ≡ bit w j
bit-clear_ne n w k j hk hj h =
    omega (arith, bit-bit_and w (all_but n k) j, bit-all_but_ne n k j hk hj h, bit-lt w j)
