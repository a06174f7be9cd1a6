-- ===== src/Userprog/AddrSpace/Isolation.antt =====
-- `AddrSpace::Translate` on a page table whose pages have frames of their own, and on a new one.
use my_nachos.Base.{
  ℕ, ◌+◌, ◌*◌, ◌/◌, ◌%◌, ◌<◌, ◌≡◌, refl, sym, ap, ◌∙◌, subst, Bool, true, false, ◌&&◌, Option, none,
  some, arith, ◌-◌, replicate, ◌≢◌, ltb, leb, get_or, get_or-replicate, Bool-cases, Option-cases,
  inl, inr, ltb→lt,
}
use my_nachos.Base.Checked.{assert}
use my_nachos.Machine.Word.{word_size}
use my_nachos.Machine.Mips.Execute.{
  no_exception, address_error_exception, read_only_exception, bus_error_exception,
}
use my_nachos.Machine.Tlb.{TranslationEntry, reset_entry, num_phys_pages, memory_size}
use my_nachos.Userprog.AddrSpace.{
  NoffHeader, AddrSpace, needed_size, pages_of, new_space, physical_address, touched, translate,
}

-- The entry of the page of an address.
abbrev pub entry_of : ℕ → AddrSpace → TranslationEntry
entry_of vaddr space = get_or space.pt (vaddr / 128) reset_entry

physical-inside :
    (o : Option ℕ) (offset pa : ℕ)
    → offset < 128
    → physical_address o offset ≡ some (no_exception, pa)
    → (f : ℕ) × (o ≡ some f) × (pa ≡ f * 128 + offset) × (pa < memory_size)
unfolding physical_address assert
physical-inside none offset pa small run =
    let outside : ltb (((word_size - 1) * 128 + offset) % word_size) memory_size ≡ false =
      ground arith in
    let bad : none ≡ some (no_exception, pa) = rw outside at run in absurd (cc)
physical-inside (some f) offset pa small run = elim (Bool-cases (leb num_phys_pages f)) [
  | inl e ↦
      let bad : some (bus_error_exception, 0) ≡ some (no_exception, pa) = rw e at run in absurd (cc)
  | inr e ↦
      let plain : (f * 128 + offset) % word_size ≡ f * 128 + offset = ground (arith, e) in
      let inside : ltb (f * 128 + offset) memory_size ≡ true = ground (arith, e) in
      let is : some (no_exception, f * 128 + offset) ≡ some (no_exception, pa) =
        rw (e, plain, inside) at run in
      let same : f * 128 + offset ≡ pa = cc in
      let lt = ltb→lt (f * 128 + offset) memory_size inside in
      (f, refl, sym same, subst (λ x. x < memory_size) same lt)
]

translate-located :
    (a pa : ℕ) (w : Bool) (space space' : AddrSpace)
    → translate a w space ≡ some (no_exception, (pa, space'))
    → (a / 128 < space.num_pages)
      × ((f : ℕ) × ((entry_of a space).ppn ≡ some f)
          × (pa ≡ f * 128 + a % 128)
          × (pa < memory_size))
unfolding translate
translate-located a pa w space space' run = elim (Bool-cases (leb space.num_pages (a / 128))) [
  | inl e ↦
      let bad : some (address_error_exception, (0, space)) ≡ some (no_exception, (pa, space')) =
        rw e at run in
      absurd (cc)
  | inr e ↦ elim (Bool-cases (w && (entry_of a space).read_only)) [
    | inl i ↦
        let bad : some (read_only_exception, (0, space)) ≡ some (no_exception, (pa, space')) =
          rw (e, i) at run in
        absurd (cc)
    | inr i ↦ elim (Option-cases (physical_address (entry_of a space).ppn (a % 128))) [
      | inl p ↦
          let bad : none ≡ some (no_exception, (pa, space')) = rw (e, i, p) at run in absurd (cc)
      | inr ((x, q), p) ↦
          let is : some
                (x, (q, record space { pt = touched x (a / 128) w (entry_of a space) space.pt }))
              ≡ some (no_exception, (pa, space')) =
            rw (e, i, p) at run in
          let fine : x ≡ no_exception = cc in
          let same : q ≡ pa = cc in
          (
            ground (arith, e),
            physical-inside (entry_of a space).ppn (a % 128) pa (omega arith)
                (p ∙ ap some (rw (fine, same) refl)),
          )
    ]
  ]
]

-- When no two pages of a space have the same frame, two addresses that Translate answers without an exception, for reading or
-- writing, have physical addresses inside the memory, and different ones when they are different.
pub translate-apart :
    (a b pa pb : ℕ) (v w : Bool) (space sa sb : AddrSpace)
    → ((i j f : ℕ)
        → (get_or space.pt i reset_entry).ppn ≡ some f
        → (get_or space.pt j reset_entry).ppn ≡ some f
        → i ≡ j)
    → translate a v space ≡ some (no_exception, (pa, sa))
    → translate b w space ≡ some (no_exception, (pb, sb))
    → (pa < memory_size) × ((pb < memory_size) × (a ≢ b → pa ≢ pb))
translate-apart a b pa pb v w space sa sb apart run_a run_b =
    let (in_a, (f, at_a, pa_is, lt_a)) = translate-located a pa v space sa run_a in
    let (in_b, (g, at_b, pb_is, lt_b)) = translate-located b pb w space sb run_b in
    (
      lt_a,
      (
        lt_b,
        λ ne same.
            let frames : f ≡ g = ground (arith, pa_is, pb_is, same) in
            let pages : a / 128 ≡ b / 128 =
              apart (a / 128) (b / 128) g (at_a ∙ ap some frames) at_b in
            ne (ground (arith, pages, frames, pa_is, pb_is, same)),
      ),
    )

new_space-pt :
    (create : ℕ → Bool) (noff : NoffHeader) (space : AddrSpace)
    → new_space create noff ≡ some space
    → space.pt ≡ replicate space.num_pages reset_entry
unfolding new_space assert
new_space-pt create noff space made =
    elim (Bool-cases (create (pages_of (needed_size noff) * 128 % word_size))) [
      | inl e ↦
          let is : some (record {
            pt = replicate (pages_of (needed_size noff)) reset_entry;
            num_pages = pages_of (needed_size noff);
            current_noff_header = noff;
          })
              ≡ some space =
            rw e at made in
          cc
      | inr e ↦ let bad : none ≡ some space = rw e at made in absurd (cc)
    ]

unloaded-none : (offset : ℕ) → offset < 128 → physical_address none offset ≡ none
unfolding physical_address assert
unloaded-none offset small =
    let outside : ltb (((word_size - 1) * 128 + offset) % word_size) memory_size ≡ false =
      ground arith in
    rw outside refl

-- In an address space that the constructor has made, Translate answers no address of the program: the frame of a page that is not loaded is -1,
-- which is below the bound for frames, and the unsigned physical address made of it is outside the memory, so the ASSERT fails.
pub translate-new_space :
    (create : ℕ → Bool) (noff : NoffHeader) (space : AddrSpace) (a : ℕ) (w : Bool)
    → new_space create noff ≡ some space
    → a < space.num_pages * 128
    → translate a w space ≡ none
unfolding translate
translate-new_space create noff space a w made lt =
    let inside : leb space.num_pages (a / 128) ≡ false = ground arith in
    let unloaded : get_or space.pt (a / 128) reset_entry ≡ reset_entry =
      ap (λ es. get_or es (a / 128) reset_entry) (new_space-pt create noff space made)
      ∙ get_or-replicate space.num_pages (a / 128) reset_entry in
    rw (inside, unloaded, unloaded-none (a % 128) (omega arith))
      (elim (Bool-cases (w && false)) [ inl e ↦ rw e (absurd (nothing w e)) | inr e ↦ rw e refl ])
  where
    nothing : (b : Bool) → (b && false) ≡ true → ⊥
    nothing true e = cc
    nothing false e = cc
