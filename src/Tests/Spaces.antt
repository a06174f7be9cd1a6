-- ===== src/Tests/Spaces.antt =====
-- A program of 200 bytes of code, and a page table of two loaded pages.
use my_nachos.Base.{
  ℕ, zero, suc, Bool, replicate, ◌<◌, ◌≡◌, ◌≢◌, refl, sym, ◌∙◌, true, false, none, some, [], ◌∷◌,
  arith, get_or, Option,
}
use my_nachos.Base.Checked.{assert}
use my_nachos.Machine.Tlb.{TranslationEntry, reset_entry, memory_size}
use my_nachos.Userprog.AddrSpace.{
  NoffHeader, AddrSpace, needed_size, pages_of, new_space, init_registers, translate,
  physical_address,
}
use my_nachos.Userprog.AddrSpace.Isolation.{translate-apart, translate-new_space}
use my_nachos.Userprog.AddrSpace.Start.{Starts, init_registers-Starts}

abbrev small_program : NoffHeader
small_program = record {
  code_size = 200;
  readonly_data_size = 0;
  init_data_size = 40;
  uninit_data_size = 8;
}

-- A disk with room for every page file.
abbrev created : ℕ → Bool
created size = true

init_registers-Starts_example :
    (space : AddrSpace) × (new_space created small_program ≡ some space)
    × Starts small_program space (init_registers space (λ r. 7))
init_registers-Starts_example =
    init_registers-Starts created small_program (λ r. 7) (omega arith) refl

abbrev small_space : AddrSpace
small_space = record {
  pt = replicate 10 reset_entry;
  num_pages = 10;
  current_noff_header = small_program;
}

small_space-made : new_space created small_program ≡ some small_space
unfolding new_space needed_size pages_of assert
small_space-made = refl

translate-new_space_example : translate 300 true small_space ≡ none
translate-new_space_example =
    translate-new_space created small_program small_space 300 true small_space-made (omega arith)

abbrev loaded : ℕ → TranslationEntry
loaded f = record reset_entry { ppn = some f; valid = true }

abbrev two_pages : AddrSpace
two_pages = record {
  pt = loaded 5 ∷ loaded 3 ∷ [];
  num_pages = 2;
  current_noff_header = small_program;
}

frames-apart :
    (i j f : ℕ)
    → (get_or two_pages.pt i reset_entry).ppn ≡ some f
    → (get_or two_pages.pt j reset_entry).ppn ≡ some f
    → i ≡ j
frames-apart zero zero f a b = refl
frames-apart zero (suc zero) f a b = absurd (five_three (a ∙ sym b))
  where
    five_three : ◌≡◌ {A = Option ℕ} (some 5) (some 3) → ⊥
    five_three e = let bad : ◌≡◌ {A = ℕ} 5 3 = cc in omega (arith, bad)
frames-apart (suc zero) zero f a b = absurd (three_five (a ∙ sym b))
  where
    three_five : ◌≡◌ {A = Option ℕ} (some 3) (some 5) → ⊥
    three_five e = let bad : ◌≡◌ {A = ℕ} 3 5 = cc in omega (arith, bad)
frames-apart (suc zero) (suc zero) f a b = refl
frames-apart (suc (suc i)) j f a b = absurd (cc)
frames-apart i (suc (suc j)) f a b = absurd (cc)

abbrev first_read : AddrSpace
first_read = record two_pages { pt = record (loaded 5) { used = true } ∷ loaded 3 ∷ [] }

abbrev second_read : AddrSpace
second_read = record two_pages { pt = loaded 5 ∷ record (loaded 3) { used = true } ∷ [] }

translate-apart_example :
    (641 < memory_size) × ((388 < memory_size) × (◌≢◌ {A = ℕ} 1 132 → ◌≢◌ {A = ℕ} 641 388))
unfolding translate physical_address assert
translate-apart_example =
    translate-apart 1 132 641 388 false false two_pages first_read second_read frames-apart refl
      refl
