-- ===== src/Machine/Mult.antt =====
-- code/machine/mipssim.cc: `Mult`, the double-length product by shifting and adding.
pub mod Product
use my_nachos.Base.{
  ℕ, zero, suc, ◌+◌, ◌-◌, ◌*◌, ◌/◌, ◌%◌, ◌^◌, Bool, true, false, not, if◌then◌else◌, ltb, leb, ◌==◌,
  ◌||◌,
}
use my_nachos.Machine.Word.{word_size, add32, neg32, not32, is_neg, shl32, sar32}

-- The words `hi` and `lo` of the result.
pub record Pair : Type 0 where
  pub hi : ℕ
  pub lo : ℕ

-- `lo += bLo; if (lo < bLo) hi += 1; hi += bHi;`
unfoldable pub accumulate : ℕ → ℕ → Pair → Pair
accumulate b_lo b_hi r =
    let lo = add32 r.lo b_lo in
    let hi = if ltb lo b_lo then add32 r.hi 1 else r.hi in record { hi = add32 hi b_hi; lo = lo }

-- `bHi <<= 1; if (bLo & 0x80000000) bHi |= 1;` The shifted word is even, so `|` adds.
unfoldable pub shift_hi : ℕ → ℕ → ℕ
shift_hi b_lo b_hi = if is_neg b_lo then shl32 b_hi 1 + 1 else shl32 b_hi 1

-- The loop, with the rounds left first; `a & 0xfffffffe` is 0 exactly for a < 2.
unfoldable pub mult_loop : ℕ → ℕ → ℕ → ℕ → Pair → Pair
mult_loop zero a b_lo b_hi r = r
mult_loop (suc n) a b_lo b_hi r =
    let r' = accumulate b_lo b_hi r in
    let more =
      mult_loop n (sar32 a 1) (shl32 b_lo 1) (shift_hi b_lo b_hi) (if a % 2 == 1 then r' else r) in
    if a % 2 == 1 then (if ltb a 2 then r' else more) else more

-- `hi = ~hi; lo = ~lo; lo++; if (lo == 0) hi++;`
unfoldable pub negate : Pair → Pair
negate r =
    let lo = add32 (not32 r.lo) 1 in
    let hi = if lo == 0 then add32 (not32 r.hi) 1 else not32 r.hi in record { hi = hi; lo = lo }

unfoldable pub mult : ℕ → ℕ → Bool → Pair
mult a b signed_arith =
    let a' = if is_neg a then neg32 a else a in
    let b' = if is_neg b then neg32 b else b in
    let negative = if is_neg a then not (is_neg b) else is_neg b in
    let start : Pair = record { hi = 0; lo = 0 } in
    if a == 0 || b == 0
    then start
    else (if signed_arith
        then (if negative then negate (mult_loop 32 a' b' 0 start) else mult_loop 32 a' b' 0 start)
        else mult_loop 32 a b 0 start)
