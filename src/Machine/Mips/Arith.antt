-- ===== src/Machine/Mips/Arith.antt =====
-- code/machine/mipssim.cc: the arithmetic of single instructions.
use native.Mathlib.Nat.{
  div-le_self, div-add-mod, mod-lt, pow-suc, one-le-pow, mul-le-mul_right, div-lt_iff_lt-mul,
}
use my_nachos.Base.{
  ◌&&◌, some, ℕ, zero, suc, ◌+◌, ◌-◌, ◌*◌, ◌/◌, ◌%◌, ◌^◌, ◌<◌, ◌≤◌, ◌≡◌, ◌≢◌, refl, Bool, true,
  false, if◌then◌else◌, arith, inl, inr, ◌⊎◌, Bool-cases, ℕ_discrete, ==_of_ne, ◌==◌,
}
use my_nachos.Machine.Mult.{Pair}
use my_nachos.Machine.Word.{
  word_size, sign_bit, add32, sub32, neg32, is_neg, signs_differ, magnitude, sar32,
}
use my_nachos.Machine.Mips.Tables.{op_add, op_addi, op_sub, op_srl}
use my_nachos.Machine.Mips.Decode.{Instruction}
use my_nachos.Machine.Mips.Execute.{
  Registers, Effect, raise, finish, overflow_exception, write_reg, add_checked, sub_checked,
  set_reg, div_overflows, div_pair, div_signed,
}
use my_nachos.Machine.Mips.Switch.{execute}

-- An int plus 2 ^ 31, which orders and adds ints as numbers do.
abbrev pub bias : ℕ → ℕ
bias a = (a + sign_bit) % word_size

-- What an instruction with the exact result `biased - 2 ^ 31 - offset` must do: write it to the register when it is an
-- int, and trap otherwise.
pub data Exact (biased offset d : ℕ) (regs : Registers) (pc_after : ℕ) : Effect → Type 0 where
  fits :
      {v : ℕ}
      → v < word_size
      → bias v + offset ≡ biased
      → Exact biased offset d regs pc_after (finish (write_reg d v regs) pc_after 0 0)
  overflows :
      (biased < offset) ⊎ (word_size + offset ≤ biased)
      → Exact biased offset d regs pc_after (raise overflow_exception 0)

either-Exact :
    {biased offset d : ℕ} {regs : Registers} {pc_after : ℕ} (c : Bool) {e f : Effect}
    → (c ≡ true → Exact biased offset d regs pc_after e)
    → (c ≡ false → Exact biased offset d regs pc_after f)
    → Exact biased offset d regs pc_after (if c then e else f)
either-Exact true x y = x refl
either-Exact false x y = y refl

add_checked-Exact :
    (d a b : ℕ) (regs : Registers) (pc_after : ℕ)
    → a < word_size
    → b < word_size
    → Exact (bias a + bias b) sign_bit d regs pc_after (add_checked d a b regs pc_after)
unfolding add_checked
add_checked-Exact d a b regs pc_after ha hb =
    either-Exact _ (λ c. overflows (add_overflow a b ha hb c))
      (λ c. fits (omega arith) (ground (arith, c)))
  where
    add_overflow :
        (a b : ℕ)
        → a < word_size
        → b < word_size
        → (if signs_differ a b then false else signs_differ a (add32 a b)) ≡ true
        → (bias a + bias b < sign_bit) ⊎ (word_size + sign_bit ≤ bias a + bias b)
    add_overflow a b ha hb c = elim (Bool-cases (is_neg a)) [
      | inl n ↦ inl (ground (arith, c, n))
      | inr n ↦ inr (ground (arith, c, n))
    ]

-- SUB's exact result is `a - b`, so bias a + 2 ^ 32 is what b's bias is taken from.
sub_checked-Exact :
    (d a b : ℕ) (regs : Registers) (pc_after : ℕ)
    → a < word_size
    → b < word_size
    → Exact (bias a + sign_bit) (bias b) d regs pc_after (sub_checked d a b regs pc_after)
unfolding sub_checked
sub_checked-Exact d a b regs pc_after ha hb =
    either-Exact _ (λ c. overflows (sub_overflow a b ha hb c))
      (λ c. fits (omega arith) (ground (arith, c)))
  where
    sub_overflow :
        (a b : ℕ)
        → a < word_size
        → b < word_size
        → (if signs_differ a b then signs_differ a (sub32 a b) else false) ≡ true
        → (bias a + sign_bit < bias b) ⊎ (word_size + bias b ≤ bias a + sign_bit)
    sub_overflow a b ha hb c = elim (Bool-cases (is_neg a)) [
      | inl n ↦ inl (ground (arith, c, n))
      | inr n ↦ inr (ground (arith, c, n))
    ]

-- On registers and an immediate that are words, ADD, ADDI and SUB write the exact sum or difference of the two ints when
-- it is an int, and otherwise, and only then, raise an overflow exception and write nothing.
pub execute-Exact :
    (i : Instruction) (regs : Registers) (pc_after : ℕ)
    → regs i.rs < word_size
    → regs i.rt < word_size
    → i.extra < word_size
    → Exact
        (bias (regs i.rs) + bias (regs i.rt))
        sign_bit
        i.rd
        regs
        pc_after
        (execute op_add i regs pc_after)
      × Exact
          (bias i.extra + bias (regs i.rs))
          sign_bit
          i.rt
          regs
          pc_after
          (execute op_addi i regs pc_after)
      × Exact
          (bias (regs i.rs) + sign_bit)
          (bias (regs i.rt))
          i.rd
          regs
          pc_after
          (execute op_sub i regs pc_after)
unfolding execute
execute-Exact i regs pc_after hs ht he = (
  add_checked-Exact i.rd (regs i.rs) (regs i.rt) regs pc_after hs ht,
  add_checked-Exact i.rt i.extra (regs i.rs) regs pc_after he hs,
  sub_checked-Exact i.rd (regs i.rs) (regs i.rt) regs pc_after hs ht,
)

not32-div : (a k : ℕ) → sign_bit ≤ a → a < word_size → sign_bit ≤ sar32 a k
not32-div a k h w = let le = div-le_self (word_size - 1 - a) (2 ^ k) in ground (arith, le)

half-lt : (a k : ℕ) → a < word_size → 1 ≤ k → a / 2 ^ k < sign_bit
half-lt a zero w h = absurd (omega arith)
half-lt a (suc k) w h =
    let p = one-le-pow k 2 (omega arith) in
    let e = pow-suc 2 k in
    let wide : 2 * sign_bit ≤ 2 ^ suc k * sign_bit =
      mul-le-mul_right {m = 2} {n = 2 ^ suc k} sign_bit (omega (arith, e, p)) in
    (div-lt_iff_lt-mul (omega (arith, e, p))).1 (omega (arith, wide))

-- SRL is no logical shift: of a word with the sign bit, and for a shamt above 0, it writes a word that has the sign bit,
-- and so differs from the quotient by 2 ^ shamt.
pub execute-srl :
    (i : Instruction) (regs : Registers) (pc_after : ℕ)
    → regs i.rt < word_size
    → sign_bit ≤ regs i.rt
    → 1 ≤ i.extra
    → (v : ℕ) × (execute op_srl i regs pc_after ≡ finish (write_reg i.rd v regs) pc_after 0 0)
      × (sign_bit ≤ v)
      × (v ≢ regs i.rt / 2 ^ i.extra)
unfolding execute set_reg
execute-srl i regs pc_after h big k =
    let kept = not32-div (regs i.rt) i.extra big h in
    let low = half-lt (regs i.rt) i.extra h k in
    (sar32 (regs i.rt) i.extra, refl, kept, λ e. omega arith)

magnitude-neg32 : (q : ℕ) → q ≤ sign_bit → (magnitude (neg32 q) ≡ q) × (magnitude q ≡ q)
magnitude-neg32 q h = (ground arith, ground arith)

magnitude-bounds : (a : ℕ) → a < word_size → (magnitude a ≤ sign_bit) × (1 ≤ a → 1 ≤ magnitude a)
magnitude-bounds a h = (ground arith, λ h1. ground arith)

either-magnitude : (c : Bool) (q : ℕ) → q ≤ sign_bit → magnitude (if c then neg32 q else q) ≡ q
either-magnitude true q h = (magnitude-neg32 q h).0
either-magnitude false q h = (magnitude-neg32 q h).1

either-sign :
    (c : Bool) (q : ℕ)
    → (c ≡ true → q ≤ sign_bit)
    → (c ≡ false → q < sign_bit)
    → ((if c then neg32 q else q) ≡ 0) ⊎ (is_neg (if c then neg32 q else q) ≡ c)
either-sign true q t f = elim (ℕ_discrete q 0) [
  | yes e ↦ inl (rw e refl)
  | no n ↦ let h = t refl in inr (ground arith)
]
either-sign false q t f = let h = f refl in inr (ground arith)

-- Only -2 ^ 31 by -1 has a quotient of 2 ^ 31.
quotient-lt :
    (a b : ℕ)
    → a < word_size
    → b < word_size
    → 1 ≤ b
    → (a ≢ sign_bit) ⊎ (b ≢ word_size - 1)
    → signs_differ a b ≡ false
    → magnitude a / magnitude b < sign_bit
quotient-lt a b ha hb h1 o same =
    let q_le = div-le_self (magnitude a) (magnitude b) in
    let fact = div-add-mod (magnitude a) (magnitude b) in
    elim (ℕ_discrete a sign_bit) [
      | no small ↦ let m : magnitude a < sign_bit = ground (arith, small) in omega (arith, q_le, m)
      | yes e ↦
          let other : b ≢ word_size - 1 = elim o [ inl n ↦ absurd (n e) | inr n ↦ n ] in
          let two : 2 ≤ magnitude b = ground (arith, same, e, other) in
          let twice : 2 * (magnitude a / magnitude b) ≤ magnitude b * (magnitude a / magnitude b) =
            mul-le-mul_right {m = 2} {n = magnitude b} (magnitude a / magnitude b) two in
          let m : magnitude a ≤ sign_bit = (magnitude-bounds a ha).0 in
          omega (arith, twice, fact, m)
    ]

div_pair-Divides :
    (a b : ℕ)
    → a < word_size
    → b < word_size
    → 1 ≤ b
    → (a ≢ sign_bit) ⊎ (b ≢ word_size - 1)
    → (magnitude (div_pair a b).lo * magnitude b + magnitude (div_pair a b).hi ≡ magnitude a)
      × (magnitude (div_pair a b).hi < magnitude b)
      × (((div_pair a b).hi ≡ 0) ⊎ (is_neg (div_pair a b).hi ≡ is_neg a))
      × (((div_pair a b).lo ≡ 0) ⊎ (is_neg (div_pair a b).lo ≡ signs_differ a b))
unfolding div_pair
div_pair-Divides a b ha hb h1 o =
    let fact = div-add-mod (magnitude a) (magnitude b) in
    let a_le = (magnitude-bounds a ha).0 in
    let b_ge = (magnitude-bounds b hb).1 h1 in
    let q_le = div-le_self (magnitude a) (magnitude b) in
    let r_lt = mod-lt (magnitude a) b_ge in
    let b_le = (magnitude-bounds b hb).0 in
    rw
      (
        ==_of_ne b 0 (omega arith),
        either-magnitude (signs_differ a b) (magnitude a / magnitude b) (omega (arith, q_le, a_le)),
        either-magnitude (is_neg a) (magnitude a % magnitude b) (omega (arith, r_lt, b_le)),
      )
      (
        let swap : magnitude a / magnitude b * magnitude b
                ≡ magnitude b * (magnitude a / magnitude b) =
              grind arith in
            omega (arith, fact, swap),
        r_lt,
        either-sign (is_neg a) (magnitude a % magnitude b) (λ c. omega (arith, r_lt, b_le))
            (λ c. omega (arith, r_lt, b_le)),
        either-sign (signs_differ a b) (magnitude a / magnitude b) (λ c. omega (arith, q_le, a_le))
            (λ c. quotient-lt a b ha hb h1 o c),
      )

-- DIV of two words, by one that is not 0 and other than -2 ^ 31 by -1, has a result and divides towards zero: quotient and remainder satisfy
-- the division's equation on distances from 0, the remainder is closer to 0 than the divisor, it is 0 or has the
-- dividend's sign, and the quotient is 0 or has the sign of the operands' product.
pub div_signed-Divides :
    (a b : ℕ)
    → a < word_size
    → b < word_size
    → 1 ≤ b
    → (a ≢ sign_bit) ⊎ (b ≢ word_size - 1)
    → (p : Pair) × (div_signed a b ≡ some p)
      × (magnitude p.lo * magnitude b + magnitude p.hi ≡ magnitude a)
      × (magnitude p.hi < magnitude b)
      × ((p.hi ≡ 0) ⊎ (is_neg p.hi ≡ is_neg a))
      × ((p.lo ≡ 0) ⊎ (is_neg p.lo ≡ signs_differ a b))
unfolding div_signed
div_signed-Divides a b ha hb h1 o =
    let fits : div_overflows a b ≡ false = elim o [
      | inl na ↦ rw (==_of_ne a sign_bit na) refl
      | inr nb ↦ rw (==_of_ne b (word_size - 1) nb) (and_false (a == sign_bit))
    ] in
    let (fact, lt, sign_r, sign_q) = div_pair-Divides a b ha hb h1 o in
    (div_pair a b, rw fits refl, fact, lt, sign_r, sign_q)
  where
    and_false : (c : Bool) → (c && false) ≡ false
    and_false true = refl
    and_false false = refl
