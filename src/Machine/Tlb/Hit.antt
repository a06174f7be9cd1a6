-- ===== src/Machine/Tlb/Hit.antt =====
-- code/machine/translate.cc: translation by the TLB.
use my_nachos.Base.{
  ℕ, suc, ◌+◌, ◌-◌, ◌*◌, ◌/◌, ◌%◌, ◌<◌, ◌≡◌, refl, ap, ◌∙◌, Bool, true, false, some, List, [], ◌∷◌,
  if◌then◌else◌, leb, ltb, ◌==◌, ◌&&◌, get_or, length, arith, Bool-cases, inl, inr, Option-cases,
}
use my_nachos.Machine.Word.{word_size, sign_bit, is_neg}
use my_nachos.Machine.Tlb.{
  Policy, fifo, lru, update_flag, TranslationEntry, reset_entry, page_size, num_phys_pages, hit,
  memory_size, page_of, physical, names_page, find_page, translate_hit, misaligned, translate,
}

-- The place that is found holds a valid entry of the page.
find_page-names :
    (tlb : List TranslationEntry) (i page r : ℕ)
    → find_page tlb i page ≡ some r
    → (k : ℕ) × (r ≡ i + k) × (k < length tlb) × (names_page (get_or tlb k reset_entry) page ≡ true)
unfolding find_page
find_page-names [] i page r run = cc
find_page-names (e ∷ es) i page r run = elim (Bool-cases (names_page e page)) [
  | inl y ↦ let at : i ≡ r = cc in (0, omega arith, omega arith, y)
  | inr n ↦
      let (k, at, lt, named) = find_page-names es (i + 1) page r cc in
      (suc k, omega arith, omega arith, named)
]

-- What a hit says of the entry.
record Allows (e : TranslationEntry) (virt_addr : ℕ) (writing : Bool) (at : ℕ) : Type 0 where
  frame : ℕ
  holds : e.ppn ≡ some frame
  on_machine : frame < num_phys_pages
  lands : physical frame virt_addr ≡ some at
  permitted : (if e.read_only then writing else false) ≡ false

translate_hit-Allows :
    (p : Policy) (tlb tlb' : List TranslationEntry) (i virt_addr at : ℕ) (writing : Bool)
    → translate_hit p tlb i virt_addr writing ≡ hit at tlb'
    → Allows (get_or tlb i reset_entry) virt_addr writing at
unfolding translate_hit
translate_hit-Allows p tlb tlb' i virt_addr at writing run =
    let e : TranslationEntry = get_or tlb i reset_entry in
    elim (Bool-cases (if e.read_only then writing else false)) [
      | inl refused ↦ cc
      | inr permitted ↦ elim (Option-cases e.ppn) [
        | inl nowhere ↦ cc
        | inr (frame, holds) ↦ elim (Bool-cases (leb num_phys_pages frame)) [
          | inl big ↦ cc
          | inr small ↦ elim (Option-cases (physical frame virt_addr)) [
            | inl below ↦ cc
            | inr (at', lands) ↦ elim (Bool-cases (leb (at' + 4) memory_size)) [
              | inl inside ↦
                  let same : at' ≡ at = cc in
                  record {
                    frame = frame;
                    holds = holds;
                    on_machine = ground (arith, small);
                    lands = lands ∙ ap some same;
                    permitted = permitted;
                  }
              | inr outside ↦ cc
            ]
          ]
        ]
      ]
    ]

names_page-vpn :
    (e : TranslationEntry) (page : ℕ)
    → names_page e page ≡ true
    → (e.vpn ≡ some page) × (e.valid ≡ true)
names_page-vpn e page h = elim (Option-cases e.vpn) [
  | inl off ↦ cc
  | inr (v, on) ↦
      let both : (e.valid && (v == page)) ≡ true = cc in
      let same : v ≡ page = ground (arith, both) in (on ∙ ap some same, ground (arith, both))
]

translate-find :
    (p : Policy) (tlb tlb' : List TranslationEntry) (virt_addr size at page : ℕ) (writing : Bool)
    → page_of virt_addr ≡ some page
    → translate p tlb virt_addr size writing ≡ hit at tlb'
    → (k : ℕ) × (k < length tlb)
      × ((get_or tlb k reset_entry).vpn ≡ some page)
      × ((get_or tlb k reset_entry).valid ≡ true)
      × Allows (get_or tlb k reset_entry) virt_addr writing at
unfolding translate
translate-find p tlb tlb' virt_addr size at page writing on_page run =
    elim (Bool-cases (misaligned virt_addr size)) [
      | inl off ↦ cc
      | inr aligned ↦ elim (Option-cases (find_page tlb 0 page)) [
        | inl missed ↦ cc
        | inr (r, got) ↦
            let (k, at_k, lt, named) = find_page-names tlb 0 page r got in
            let same : k ≡ r = omega arith in
            let (vpn, valid) = names_page-vpn (get_or tlb k reset_entry) page named in
            (k, lt, vpn, valid, translate_hit-Allows p tlb tlb' k virt_addr at writing cc)
      ]
    ]

-- When the TLB translates an address below 2 ^ 31, it has a valid entry for the address's page, with a frame of the
-- machine, that allows the access, and the physical address lies in that frame at the address's offset in its page.
pub translate-inside :
    (p : Policy) (tlb tlb' : List TranslationEntry) (virt_addr size at : ℕ) (writing : Bool)
    → virt_addr < sign_bit
    → translate p tlb virt_addr size writing ≡ hit at tlb'
    → (k : ℕ) × (frame : ℕ) × (k < length tlb)
      × ((get_or tlb k reset_entry).vpn ≡ some (virt_addr / page_size))
      × ((get_or tlb k reset_entry).valid ≡ true)
      × ((get_or tlb k reset_entry).ppn ≡ some frame)
      × ((if (get_or tlb k reset_entry).read_only then writing else false) ≡ false)
      × (frame < num_phys_pages)
      × (at / page_size ≡ frame)
      × (at % page_size ≡ virt_addr % page_size)
unfolding page_of physical
translate-inside p tlb tlb' virt_addr size at writing low run =
    let positive : is_neg virt_addr ≡ false = ground arith in
    let on_page : page_of virt_addr ≡ some (virt_addr / page_size) = rw positive refl in
    let (k, lt, vpn, valid, a) =
      translate-find p tlb tlb' virt_addr size at (virt_addr / page_size) writing on_page run in
    let lands : a.frame * page_size + virt_addr % page_size ≡ at = cc in
    (
      k,
      a.frame,
      lt,
      vpn,
      valid,
      a.holds,
      a.permitted,
      a.on_machine,
      omega (arith, lands),
      omega (arith, lands),
    )

-- The physical address lies before the frame.
physical-before :
    (virt_addr frame : ℕ)
    → virt_addr < word_size
    → word_size < virt_addr + page_size
    → 0 < frame
    → physical frame virt_addr ≡ some (frame * page_size - (word_size - virt_addr))
unfolding physical
physical-before virt_addr frame word high pos =
    let negative : is_neg virt_addr ≡ true = ground arith in
    let rest : (word_size - virt_addr) % page_size ≡ word_size - virt_addr = omega arith in
    let room : ltb (frame * page_size) (word_size - virt_addr) ≡ false = ground arith in
    rw (negative, rest, room) refl

-- An address less than 128 below 2 ^ 32, a negative int, with the alignment of its size, when the first TLB entry of page 0 allows the access and
-- has a frame of the machine other than the first: Translate answers it, with a physical address that lies before that frame.
pub translate-below :
    (p : Policy) (tlb : List TranslationEntry) (virt_addr size k frame : ℕ) (writing : Bool)
    → virt_addr < word_size
    → word_size < virt_addr + page_size
    → misaligned virt_addr size ≡ false
    → find_page tlb 0 0 ≡ some k
    → (if (get_or tlb k reset_entry).read_only then writing else false) ≡ false
    → (get_or tlb k reset_entry).ppn ≡ some frame
    → 0 < frame
    → frame < num_phys_pages
    → (at : ℕ) × (tlb' : List TranslationEntry) × (translate p tlb virt_addr size writing
        ≡ hit at tlb')
      × (at + (word_size - virt_addr) ≡ frame * page_size)
unfolding translate translate_hit page_of
translate-below p tlb virt_addr size k frame writing word high aligned found permitted on pos
      small =
    let back = word_size - virt_addr in
    let negative : is_neg virt_addr ≡ true = ground arith in
    let near : ltb back page_size ≡ true = ground arith in
    let before = physical-before virt_addr frame word high pos in
    let fits : leb num_phys_pages frame ≡ false = ground arith in
    let inside : leb (frame * page_size - back + 4) memory_size ≡ true = ground arith in
    (
      frame * page_size - back,
      elim p [ fifo ↦ tlb | lru ↦ update_flag lru tlb k ],
      rw (aligned, negative, near, found, permitted, on, fits, before, inside) refl,
      omega arith,
    )
