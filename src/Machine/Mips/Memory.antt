-- ===== src/Machine/Mips/Memory.antt =====
-- code/machine/translate.cc: what `WriteMem` stores, `ReadMem` loads.
use my_nachos.Base.{ℕ, ◌+◌, ◌%◌, ◌<◌, ◌≤◌, ◌≡◌, true, arith, ◌≢◌, ==_of_ne, ◌⊎◌, inl, inr}
use my_nachos.Machine.Mips.Execute.{extend_byte}
use my_nachos.Machine.Mips.Processor.{load_value, store_value}
use my_nachos.Machine.Word.{word_size}

-- A word, a half word and a byte that are stored at an address are loaded from there again, a byte sign-extended, and every byte that is not
-- one of the four, the two or the one written stays as it was.
pub load_value-store_value :
    (at v j : ℕ) (memory : ℕ → ℕ)
    → v < word_size
    → (load_value (store_value at 4 v memory) at 4 ≡ v)
      × (load_value (store_value at 2 v memory) at 2 ≡ v % 65536)
      × (load_value (store_value at 1 v memory) at 1 ≡ extend_byte true v)
      × ((j < at) ⊎ (at + 4 ≤ j) → store_value at 4 v memory j ≡ memory j)
      × ((j < at) ⊎ (at + 2 ≤ j) → store_value at 2 v memory j ≡ memory j)
      × (j ≢ at → store_value at 1 v memory j ≡ memory j)
unfolding load_value store_value extend_byte
load_value-store_value at v j memory h = (
  ground arith,
  ground arith,
  ground arith,
  λ o. elim o [ inl l ↦ ground arith | inr g ↦ ground arith ],
  λ o. elim o [ inl l ↦ ground arith | inr g ↦ ground arith ],
  λ ne. rw (==_of_ne j at ne),
)
