-- ===== src/Tests/Tlb.antt =====
-- code/machine: a TLB with three entries.
use my_nachos.Base.{
  ℕ, zero, suc, ◌+◌, ◌-◌, ◌*◌, ◌/◌, ◌%◌, ◌<◌, ◌≡◌, refl, true, false, some, List, [], ◌∷◌, length,
  get_or, if◌then◌else◌, arith,
}
use my_nachos.Machine.Word.{word_size}
use my_nachos.Machine.Tlb.{
  fifo, TranslationEntry, reset_entry, page_size, num_phys_pages, update_flag, newest, hit,
  translate, misaligned, page_of, physical, find_page, translate_hit,
}
use my_nachos.Machine.Tlb.Replace.{AreInts}
use my_nachos.Machine.Tlb.Hit.{translate-inside, translate-below}

abbrev entry_of : ℕ → ℕ → ℕ → TranslationEntry
entry_of page frame age = record {
  vpn = some page;
  tid = some 1;
  ppn = some frame;
  valid = true;
  read_only = false;
  used = false;
  dirty = false;
  fifo_flag = age;
  lru_flag = age;
}

abbrev three_pages : List TranslationEntry
three_pages = entry_of 0 5 3 ∷ entry_of 1 6 1 ∷ entry_of 2 7 2 ∷ []

three_pages-AreInts : AreInts fifo three_pages
three_pages-AreInts zero h = omega arith
three_pages-AreInts (suc zero) h = omega arith
three_pages-AreInts (suc (suc zero)) h = omega arith
three_pages-AreInts (suc (suc (suc j))) h = absurd (omega arith)

updated-AreInts : AreInts fifo (update_flag fifo three_pages 1)
unfolding update_flag newest
updated-AreInts zero h = omega arith
updated-AreInts (suc zero) h = omega arith
updated-AreInts (suc (suc zero)) h = omega arith
updated-AreInts (suc (suc (suc j))) h = absurd (omega arith)

hit_run : translate fifo three_pages 260 4 false ≡ hit 900 three_pages
unfolding translate misaligned page_of find_page translate_hit physical
hit_run = refl

translate-inside_example :
    (k : ℕ) × (frame : ℕ) × (k < length three_pages)
    × ((get_or three_pages k reset_entry).vpn ≡ some (260 / page_size))
    × ((get_or three_pages k reset_entry).valid ≡ true)
    × ((get_or three_pages k reset_entry).ppn ≡ some frame)
    × ((if (get_or three_pages k reset_entry).read_only then false else false) ≡ false)
    × (frame < num_phys_pages)
    × (900 / page_size ≡ frame)
    × (900 % page_size ≡ 260 % page_size)
translate-inside_example =
    translate-inside fifo three_pages three_pages 260 4 900 false (omega arith) hit_run

translate-below_example :
    (at : ℕ) × (tlb : List TranslationEntry) × (translate fifo three_pages 4294967292 4 false
      ≡ hit at tlb)
    × (at + (word_size - 4294967292) ≡ 5 * page_size)
unfolding misaligned find_page
translate-below_example =
    translate-below fifo three_pages 4294967292 4 0 5 false (omega arith) (omega arith) refl refl
      refl refl (omega arith) (omega arith)
