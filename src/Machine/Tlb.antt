-- ===== src/Machine/Tlb.antt =====
-- code/machine: the TLB and its replacement. translate.h, the replacement functions of machine.cc, and `Translate` of
-- translate.cc as built with USE_TLB.
-- A page number that may be -1 is an option; FIFOFlag and LRUFlag, which start at -1, are kept one higher.
pub mod Replace
pub mod Hit
use my_nachos.Base.{
  ℕ, zero, suc, ◌+◌, ◌-◌, ◌*◌, ◌/◌, ◌%◌, Bool, true, false, not, Option, none, some, List, [], ◌∷◌,
  if◌then◌else◌, leb, ltb, ◌==◌, ◌&&◌, get_or, set, length, ◌≤◌,
}
use my_nachos.Base.Checked.{◌>>=◌}
use my_nachos.Machine.Word.{is_neg, magnitude}
use my_nachos.Machine.Mips.Execute.{
  Exception, address_error_exception, read_only_exception, bus_error_exception, tlb_miss_exception,
}

-- FIFO_REPLACE or LRU_REPLACE.
pub data Policy : Type 0 where
  fifo : Policy
  lru : Policy

pub record TranslationEntry : Type 0 where
  pub vpn : Option ℕ
  pub tid : Option ℕ
  pub ppn : Option ℕ
  pub valid : Bool
  pub read_only : Bool
  pub used : Bool
  pub dirty : Bool
  pub fifo_flag : ℕ
  pub lru_flag : ℕ

abbrev pub reset_entry : TranslationEntry
reset_entry = record {
  vpn = none;
  tid = none;
  ppn = none;
  valid = false;
  read_only = false;
  used = false;
  dirty = false;
  fifo_flag = 0;
  lru_flag = 0;
}

abbrev pub flag_of : Policy → TranslationEntry → ℕ
flag_of fifo e = e.fifo_flag
flag_of lru e = e.lru_flag

abbrev pub with_flag : Policy → ℕ → TranslationEntry → TranslationEntry
with_flag fifo f e = record e { fifo_flag = f }
with_flag lru f e = record e { lru_flag = f }

abbrev pub page_size : ℕ
page_size = 128

abbrev pub num_phys_pages : ℕ
num_phys_pages = 128

abbrev pub tlb_size : ℕ
tlb_size = 3

-- INT_MAX, as the flags are kept.
abbrev pub int_max : ℕ
int_max = 2147483648

-- The loop of `findOneToReplace`, from place `i` on, with targetv and targeti.
unfoldable pub find_least : Policy → List TranslationEntry → ℕ → ℕ → ℕ → ℕ
find_least p [] i targetv targeti = targeti
find_least p (e ∷ es) i targetv targeti =
    let lower = ltb (flag_of p e) targetv in
    find_least p es (i + 1) (if lower then flag_of p e else targetv) (if lower then i else targeti)

unfoldable pub find_one_to_replace : Policy → List TranslationEntry → ℕ
find_one_to_replace p t = find_least p t 0 int_max 0

-- The loop of `updateFIFOFlag` and `updateLRUFlag`.
unfoldable pub newest : Policy → List TranslationEntry → ℕ → ℕ → ℕ → ℕ
newest p [] i pos num = num
newest p (e ∷ es) i pos num =
    let counts = if e.valid then not (i == pos) else false in
    newest p es (i + 1) pos
      (if counts then (if leb (flag_of p e) num then num else flag_of p e) else num)

unfoldable pub update_flag : Policy → List TranslationEntry → ℕ → List TranslationEntry
update_flag p t pos = set t pos (with_flag p (newest p t 0 pos 0 + 1) (get_or t pos reset_entry))

-- The first place that is not valid, in `updateTLB`.
unfoldable pub first_invalid : List TranslationEntry → ℕ → Option ℕ
first_invalid [] i = none
first_invalid (e ∷ es) i = let rest = first_invalid es (i + 1) in if e.valid then rest else some i

-- `updateTLB` updates FIFO flags only.
unfoldable pub update_tlb :
    Policy → List TranslationEntry → TranslationEntry → List TranslationEntry
update_tlb p tlb entry =
    let i : ℕ = elim (first_invalid tlb 0) [ none ↦ find_one_to_replace p tlb | some i ↦ i ] in
    elim p [ fifo ↦ update_flag fifo (set tlb i entry) i | lru ↦ set tlb i entry ]

abbrev pub names_page : TranslationEntry → ℕ → Bool
names_page e page = elim e.vpn [ none ↦ false | some v ↦ e.valid && (v == page) ]

unfoldable pub find_page : List TranslationEntry → ℕ → ℕ → Option ℕ
find_page [] i page = none
find_page (e ∷ es) i page =
    let rest = find_page es (i + 1) page in if names_page e page then some i else rest

pub data TlbResult : Type 0 where
  hit : ℕ → List TranslationEntry → TlbResult
  fault : Exception → TlbResult
  assert_failed : TlbResult

abbrev pub memory_size : ℕ
memory_size = num_phys_pages * page_size

-- `virtAddr / PageSize` on ints, which rounds towards 0: the last 127 addresses below 0 are on page 0 too, and a negative
-- page number, `none` here, is nobody's.
unfoldable pub page_of : ℕ → Option ℕ
page_of virt_addr =
    if is_neg virt_addr
    then (if ltb (magnitude virt_addr) page_size then some 0 else none)
    else some (virt_addr / page_size)

-- `pageFrame * PageSize + offset`, when it is not negative; the offset has the sign of the address.
unfoldable pub physical : ℕ → ℕ → Option ℕ
physical frame virt_addr =
    let back = magnitude virt_addr % page_size in
    let foot = frame * page_size in
    if is_neg virt_addr
    then (if ltb foot back then none else some (foot - back))
    else some (foot + virt_addr % page_size)

-- What follows a hit at place `i`. The use and dirty bits are set in `entry`, a copy that is not written back.
unfoldable pub translate_hit : Policy → List TranslationEntry → ℕ → ℕ → Bool → TlbResult
translate_hit p tlb i virt_addr writing =
    let entry : TranslationEntry = get_or tlb i reset_entry in
    if (if entry.read_only then writing else false)
    then fault read_only_exception
    else elim entry.ppn [
      | none ↦ fault bus_error_exception
      | some frame ↦
          if leb num_phys_pages frame
          then fault bus_error_exception
          else elim (physical frame virt_addr) [
            | none ↦ assert_failed
            | some at ↦
                if leb (at + 4) memory_size
                then hit at (elim p [ fifo ↦ tlb | lru ↦ update_flag lru tlb i ])
                else assert_failed
          ]
    ]

unfoldable pub misaligned : ℕ → ℕ → Bool
misaligned virt_addr size =
    if size == 4
    then not (virt_addr % 4 == 0)
    else (if size == 2 then not (virt_addr % 2 == 0) else false)

unfoldable pub translate : Policy → List TranslationEntry → ℕ → ℕ → Bool → TlbResult
translate p tlb virt_addr size writing =
    if misaligned virt_addr size
    then fault address_error_exception
    else elim (page_of virt_addr >>= find_page tlb 0) [
      | none ↦ fault tlb_miss_exception
      | some i ↦ translate_hit p tlb i virt_addr writing
    ]
