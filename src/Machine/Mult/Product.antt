-- ===== src/Machine/Mult/Product.antt =====
-- code/machine/mipssim.cc: `Mult` computes the product.
use native.Mathlib.Nat.{pow-suc, one-le-pow, add-mul-mod_self_left, div-add-mod, mul-le-mul}
use my_nachos.Base.{
  ℕ, zero, suc, ◌+◌, ◌-◌, ◌*◌, ◌/◌, ◌%◌, ◌^◌, ◌≤◌, ◌<◌, ◌≡◌, refl, ap, sym, ◌∙◌, Bool, true, false,
  if◌then◌else◌, ltb, ◌==◌, ◌||◌, arith, Bool-cases, inl, inr, ◌⊎◌, ℕ_discrete, ==_of_ne, ltb→lt,
}
use my_nachos.Machine.Word.{word_size, neg32, is_neg, shl32, sar32, magnitude, signs_differ}
use my_nachos.Machine.Mult.{Pair, accumulate, shift_hi, mult_loop, negate, mult}

abbrev double_size : ℕ
double_size = 18446744073709551616

-- The number that a pair of words stands for.
abbrev pub value : Pair → ℕ
value r = r.hi * word_size + r.lo

pub record IsPair (r : Pair) : Type 0 where
  pub hi_word : r.hi < word_size
  pub lo_word : r.lo < word_size

accumulate-value :
    (b_lo b_hi : ℕ) (r : Pair)
    → IsPair r
    → b_lo < word_size
    → b_hi < word_size
    → (value (accumulate b_lo b_hi r) ≡ (value r + (b_hi * word_size + b_lo)) % double_size)
      × IsPair (accumulate b_lo b_hi r)
unfolding accumulate
accumulate-value b_lo b_hi r w hl hh = (ground arith, ground arith)

shift-value :
    (b_lo b_hi : ℕ)
    → b_lo < word_size
    → b_hi < word_size
    → (shift_hi b_lo b_hi * word_size + shl32 b_lo 1 ≡ 2 * (b_hi * word_size + b_lo) % double_size)
      × (shift_hi b_lo b_hi < word_size)
      × (shl32 b_lo 1 < word_size)
unfolding shift_hi
shift-value b_lo b_hi hl hh = (ground arith, ground arith, ground arith)

negate-value :
    (r : Pair)
    → IsPair r
    → (value (negate r) ≡ (double_size - value r) % double_size) × IsPair (negate r)
unfolding negate
negate-value r w = (ground arith, ground arith)

-- The number made of the lowest `n` bits of `a`.
abbrev low_bits : ℕ → ℕ → ℕ
low_bits zero a = 0
low_bits (suc n) a = a % 2 + 2 * low_bits n (a / 2)

low_bits-small : (n a : ℕ) → a < 2 ^ n → low_bits n a ≡ a
low_bits-small zero a h = omega arith
low_bits-small (suc n) a h =
    let e = pow-suc 2 n in
    let rest = low_bits-small n (a / 2) (omega (arith, e)) in omega (arith, rest)

low_bits-pow : (n m a : ℕ) → n ≤ m → low_bits n (a + 2 ^ m) ≡ low_bits n a
low_bits-pow zero m a h = refl
low_bits-pow (suc n) zero a h = absurd (omega arith)
low_bits-pow (suc n) (suc m) a h =
    let e = pow-suc 2 m in
    let half : (a + 2 ^ suc m) / 2 ≡ a / 2 + 2 ^ m = omega (arith, e) in
    let even : (a + 2 ^ suc m) % 2 ≡ a % 2 = omega (arith, e) in
    let rest = low_bits-pow n m (a / 2) (omega arith) in rw (half, even, rest) refl

low_bits-sar32 : (n a : ℕ) → n ≤ 31 → a < word_size → low_bits n (sar32 a 1) ≡ low_bits n (a / 2)
low_bits-sar32 n a h w = elim (Bool-cases (is_neg a)) [
  | inl e ↦
      let same : sar32 a 1 ≡ a / 2 + 2 ^ 31 = ground (arith, e) in
      ap (low_bits n) same ∙ low_bits-pow n 31 (a / 2) h
  | inr e ↦ let same : sar32 a 1 ≡ a / 2 = ground (arith, e) in ap (low_bits n) same
]

product_step : (M u v k : ℕ) → zero < M → (u % M + v % M * k) % M ≡ (u + v * k) % M
product_step M u v k h =
    let whole : u + v * k ≡ (u % M + v % M * k) + M * (u / M + v / M * k) =
      let eu = div-add-mod u M in let ev = ap (λ x. x * k) (div-add-mod v M) in grind arith in
    sym (ap (λ x. x % M) whole ∙ add-mul-mod_self_left (u % M + v % M * k) M (u / M + v / M * k))

record Computes (n a b_lo b_hi : ℕ) (r s : Pair) : Type 0 where
  sum : value s ≡ (value r + (b_hi * word_size + b_lo) * low_bits n a) % double_size
  words : IsPair s

-- A round that has put the lowest bit's share into `r'`, and the rounds after it.
Computes-suc :
    (n a b_lo b_hi : ℕ) (r r' s : Pair)
    → n ≤ 31
    → a < word_size
    → b_lo < word_size
    → b_hi < word_size
    → value r' ≡ (value r + (b_hi * word_size + b_lo) * (a % 2)) % double_size
    → Computes n (sar32 a 1) (shl32 b_lo 1) (shift_hi b_lo b_hi) r' s
    → Computes (suc n) a b_lo b_hi r s
Computes-suc n a b_lo b_hi r r' s hn ha hl hh e c =
    let b : ℕ = b_hi * word_size + b_lo in
    let k : ℕ = low_bits n (a / 2) in
    let twice = (shift-value b_lo b_hi hl hh).0 in
    let low = low_bits-sar32 n a hn ha in
    let first : value s
        ≡ ((value r + b * (a % 2)) % double_size + 2 * b % double_size * k) % double_size =
      c.sum ∙ rw (e, twice, low) refl in
    let spread : value r + b * (a % 2) + 2 * b * k ≡ value r + b * (a % 2 + 2 * k) = grind arith in
    record {
      sum =
          first
          ∙ product_step double_size (value r + b * (a % 2)) (2 * b) k (omega arith)
          ∙ ap (λ x. x % double_size) spread;
      words = c.words;
    }

mult_loop-Computes :
    (n a b_lo b_hi : ℕ) (r : Pair)
    → n ≤ 32
    → a < word_size
    → b_lo < word_size
    → b_hi < word_size
    → IsPair r
    → Computes n a b_lo b_hi r (mult_loop n a b_lo b_hi r)
unfolding mult_loop
mult_loop-Computes zero a b_lo b_hi r hn ha hl hh w = record {
  sum = omega (arith, w.hi_word, w.lo_word);
  words = w;
}
mult_loop-Computes (suc n) a b_lo b_hi r hn ha hl hh w =
    let add = accumulate-value b_lo b_hi r w hl hh in
    let twice = shift-value b_lo b_hi hl hh in
    let sar_word : sar32 a 1 < word_size = ground arith in
    let r' : Pair = accumulate b_lo b_hi r in
    let later =
      λ (t : Pair) (e : value t ≡ (value r + (b_hi * word_size + b_lo) * (a % 2)) % double_size)
          (v : IsPair t).
        Computes-suc n a b_lo b_hi r t
          (mult_loop n (sar32 a 1) (shl32 b_lo 1) (shift_hi b_lo b_hi) t) (omega arith) ha hl hh e
          (mult_loop-Computes n (sar32 a 1) (shl32 b_lo 1) (shift_hi b_lo b_hi) t (omega arith)
            sar_word twice.2 twice.1 v) in
    elim (ℕ_discrete (a % 2) 1) [
      | yes odd ↦ rw odd (elim (Bool-cases (ltb a 2)) [
        | inl one ↦ rw one (record {
          sum =
              let p = one-le-pow n 2 (omega arith) in
              let none_left = low_bits-small n (a / 2) (omega (arith, ltb→lt a 2 one, p)) in
              let whole : a % 2 + 2 * low_bits n (a / 2) ≡ 1 =
                omega (arith, none_left, ltb→lt a 2 one, odd) in
              rw whole (omega (arith, add.0));
          words = add.1;
        })
        | inr more ↦ rw more (later r' (rw odd (ground (arith, add.0))) add.1)
      ])
      | no even ↦ rw (==_of_ne (a % 2) 1 even) (
          later r
            (let none_added : a % 2 ≡ 0 = omega arith in
              rw none_added (omega (arith, w.hi_word, w.lo_word)))
            w)
    ]

product-bound : (a b : ℕ) → a < word_size → b < word_size → a * b < double_size
product-bound a b ha hb =
    let most : a * b ≤ 4294967295 * 4294967295 =
      mul-le-mul {n₂ = 4294967295} {m₂ = 4294967295} (omega arith) (omega arith) in
    omega arith

mult_loop-product :
    (a b : ℕ)
    → a < word_size
    → b < word_size
    → (value (mult_loop 32 a b 0 (record { hi = 0; lo = 0 })) ≡ a * b)
      × IsPair (mult_loop 32 a b 0 (record { hi = 0; lo = 0 }))
mult_loop-product a b ha hb =
    let c =
      mult_loop-Computes 32 a b 0 (record { hi = 0; lo = 0 }) (omega arith) ha hb (omega arith)
        (record { hi_word = omega arith; lo_word = omega arith }) in
    let all = low_bits-small 32 a ha in
    let swap : (b * a) ≡ a * b = grind arith in
    let small = product-bound a b ha hb in (c.sum ∙ rw all (omega (arith, swap, small)), c.words)

-- The product of two ints, in two's complement over both words.
abbrev pub signed_product : ℕ → ℕ → ℕ
signed_product a b =
    if signs_differ a b
    then (double_size - magnitude a * magnitude b) % double_size
    else magnitude a * magnitude b

signed_product-zero : (a b : ℕ) → magnitude a * magnitude b ≡ 0 → signed_product a b ≡ 0
signed_product-zero a b e = rw e (ground arith)

zero_product : (a b : ℕ) → (a ≡ 0) ⊎ (b ≡ 0) → (magnitude a * magnitude b ≡ 0) × (a * b ≡ 0)
zero_product a b (inl e) = rw e (omega arith, omega arith)
zero_product a b (inr e) = rw e (omega arith, omega arith)

magnitude-eq : (a : ℕ) → a < word_size → (if is_neg a then neg32 a else a) ≡ magnitude a
magnitude-eq a h = ground arith

magnitude-lt : (a : ℕ) → a < word_size → magnitude a < word_size
magnitude-lt a h = ground arith

zero_operand : (a b : ℕ) → ((a ≡ 0) ⊎ (b ≡ 0)) ⊎ ((a == 0 || b == 0) ≡ false)
zero_operand a b = elim (ℕ_discrete a 0) [
  | yes e ↦ inl (inl e)
  | no ne ↦ elim (ℕ_discrete b 0) [
    | yes e ↦ inl (inr e)
    | no ne' ↦ inr (rw (==_of_ne a 0 ne, ==_of_ne b 0 ne') refl)
  ]
]

zero_operand-true : (a b : ℕ) → (a ≡ 0) ⊎ (b ≡ 0) → (a == 0 || b == 0) ≡ true
zero_operand-true a b (inl e) = rw e refl
zero_operand-true a b (inr e) = rw e (ground arith)

-- For any two words, `Mult` leaves two words in hi and lo that together are the product: of the words as unsigned
-- numbers when the arithmetic is unsigned, and of the ints in two's complement when it is signed.
pub mult-product :
    (a b : ℕ) (signed_arith : Bool)
    → a < word_size
    → b < word_size
    → (value (mult a b signed_arith) ≡ (if signed_arith then signed_product a b else a * b))
      × IsPair (mult a b signed_arith)
unfolding mult
mult-product a b true ha hb = elim (zero_operand a b) [
  | inl z ↦
      let zero_of = zero_product a b z in
      rw (zero_operand-true a b z) (
        sym (signed_product-zero a b zero_of.0),
        record { hi_word = omega arith; lo_word = omega arith },
      )
  | inr nz ↦
      let c =
        mult_loop-product (magnitude a) (magnitude b) (magnitude-lt a ha) (magnitude-lt b hb) in
      rw (nz, magnitude-eq a ha, magnitude-eq b hb)
        (elim (Bool-cases (signs_differ a b)) [
          | inl e ↦
              let n =
                negate-value
                  (mult_loop 32 (magnitude a) (magnitude b) 0 (record { hi = 0; lo = 0 })) c.1 in
              rw e (n.0 ∙ rw c.0 refl, n.1)
          | inr e ↦ rw e c
        ])
]
mult-product a b false ha hb = elim (zero_operand a b) [
  | inl z ↦
      rw (zero_operand-true a b z)
        (sym (zero_product a b z).1, record { hi_word = omega arith; lo_word = omega arith })
  | inr nz ↦ rw nz (mult_loop-product a b ha hb)
]
