-- ===== src/Machine/Mips/Unaligned.antt =====
-- code/machine/mipssim.cc: LWL and LWR, SWL and SWR, as the two halves of an access at any address.
use my_nachos.Base.{
  ℕ, zero, suc, ◌+◌, ◌*◌, ◌/◌, ◌%◌, ◌^◌, ◌<◌, ◌≤◌, ◌≡◌, refl, arith, inl, inr, ◌⊎◌,
}
use my_nachos.Machine.Word.{word_size}
use my_nachos.Machine.Mips.Execute.{load_left, load_right, store_left, store_right}

-- The word `byte` bytes above the foot of a pair of words in memory, low word first.
abbrev pub word_at : ℕ → ℕ → ℕ → ℕ
word_at byte low high = (high * word_size + low) / 2 ^ (8 * byte) % word_size

byte_cases : (b : ℕ) → 1 ≤ b → b < 4 → (b ≡ 1) ⊎ ((b ≡ 2) ⊎ (b ≡ 3))
byte_cases zero l h = absurd (omega arith)
byte_cases (suc zero) l h = inl refl
byte_cases (suc (suc zero)) l h = inr (inl refl)
byte_cases (suc (suc (suc zero))) l h = inr (inr refl)
byte_cases (suc (suc (suc (suc b)))) l h = absurd (omega arith)

-- For any words `low` and `high` that lie one above the other and any address that is not a multiple of 4, LWR at the
-- address and LWL at the address + 3, in either order, load the unaligned word there, whatever the register held.
pub load_unaligned :
    (byte old low high : ℕ)
    → 1 ≤ byte
    → byte < 4
    → old < word_size
    → low < word_size
    → high < word_size
    → (load_left ((byte + 3) % 4) (load_right byte old low) high ≡ word_at byte low high)
      × (load_right byte (load_left ((byte + 3) % 4) old high) low ≡ word_at byte low high)
unfolding load_left load_right
load_unaligned byte old low high h1 h4 ho hl hh = elim (byte_cases byte h1 h4) [
  | inl e ↦ rw e (omega arith, omega arith)
  | inr (inl e) ↦ rw e (omega arith, omega arith)
  | inr (inr e) ↦ rw e (omega arith, omega arith)
]

-- Storing a word with SWR at an unaligned address and SWL at the address + 3 and then reading there gives the word
-- back, and the bytes around it stay.
pub store_unaligned :
    (byte reg low high : ℕ)
    → 1 ≤ byte
    → byte < 4
    → reg < word_size
    → low < word_size
    → high < word_size
    → (word_at byte (store_right byte low reg) (store_left ((byte + 3) % 4) high reg) ≡ reg)
      × (store_right byte low reg % 2 ^ (8 * byte) ≡ low % 2 ^ (8 * byte))
      × (store_left ((byte + 3) % 4) high reg / 2 ^ (8 * byte) ≡ high / 2 ^ (8 * byte))
unfolding store_left store_right
store_unaligned byte reg low high h1 h4 hr hl hh = elim (byte_cases byte h1 h4) [
  | inl e ↦ rw e (omega arith, omega arith, omega arith)
  | inr (inl e) ↦ rw e (omega arith, omega arith, omega arith)
  | inr (inr e) ↦ rw e (omega arith, omega arith, omega arith)
]
