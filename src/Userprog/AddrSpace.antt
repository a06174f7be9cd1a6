-- ===== src/Userprog/AddrSpace.antt =====
-- code/userprog/addrspace.cc, built with RDATA and without USE_RPT: the page table of a program and its first registers.
-- A page frame that may be -1 is an option. The sizes in a header are not negative.
pub mod Isolation
pub mod Start
use my_nachos.Base.{
  ℕ, ◌+◌, ◌-◌, ◌*◌, ◌/◌, ◌%◌, Bool, true, false, ◌&&◌, Option, none, some, List, if◌then◌else◌, ltb,
  leb, ◌==◌, get_or, set, replicate,
}
use my_nachos.Base.Checked.{◌>>=◌, ◌>>◌, assert}
use my_nachos.Bitmap.{div_round_up}
use my_nachos.Machine.Word.{word_size, is_neg, magnitude}
use my_nachos.Machine.Mips.Execute.{
  Registers, Exception, no_exception, address_error_exception, read_only_exception,
  bus_error_exception, write_reg,
}
use my_nachos.Machine.Tlb.{TranslationEntry, reset_entry, page_size, num_phys_pages, memory_size}

-- The sizes of the segments of a program.
pub record NoffHeader : Type 0 where
  pub code_size : ℕ
  pub readonly_data_size : ℕ
  pub init_data_size : ℕ
  pub uninit_data_size : ℕ

abbrev pub user_stack_size : ℕ
user_stack_size = 1024

abbrev pub pc_register : ℕ
pc_register = 34

abbrev pub next_pc_register : ℕ
next_pc_register = 35

abbrev pub stack_register : ℕ
stack_register = 29

abbrev pub num_total_regs : ℕ
num_total_regs = 40

pub record AddrSpace : Type 0 where
  pub pt : List TranslationEntry
  pub num_pages : ℕ
  pub current_noff_header : NoffHeader

abbrev pub total_size : NoffHeader → ℕ
total_size noff =
    noff.code_size + noff.readonly_data_size + noff.init_data_size + noff.uninit_data_size
    + user_stack_size

-- `size` as an int: the sum wraps around.
unfoldable pub needed_size : NoffHeader → ℕ
needed_size noff = total_size noff % word_size

-- `numPages = divRoundUp(size, PageSize)`: for a negative size the quotient rounds towards 0, and numPages is unsigned.
unfoldable pub pages_of : ℕ → ℕ
pages_of size =
    if is_neg size
    then (word_size - magnitude size / page_size) % word_size
    else div_round_up size page_size

-- AddrSpace::AddrSpace after the header is read. `create` is what Create of the thread's page file answers for a size.
unfoldable pub new_space : (ℕ → Bool) → NoffHeader → Option AddrSpace
new_space create noff =
    let pages = pages_of (needed_size noff) in
    do
      assert (create (pages * page_size % word_size))
      some (record {
        pt = replicate pages reset_entry;
        num_pages = pages;
        current_noff_header = noff;
      })

-- Registers from 0 to NumTotalRegs are cleared, and three of them set.
unfoldable pub init_registers : AddrSpace → Registers → Registers
init_registers space regs =
    write_reg stack_register ((space.num_pages * page_size + (word_size - 16)) % word_size) (
      write_reg next_pc_register 4
        (write_reg pc_register 0 (λ r. if ltb r num_total_regs then 0 else regs r)))

-- What the machine keeps of the running program.
pub record MachineSpace : Type 0 where
  pub machine_pt : List TranslationEntry
  pub page_table_size : ℕ
  pub machine_noff_header : NoffHeader

unfoldable pub save_state : MachineSpace → AddrSpace → AddrSpace
save_state m space = record space {
  pt = m.machine_pt;
  num_pages = m.page_table_size;
  current_noff_header = m.machine_noff_header;
}

unfoldable pub restore_state : AddrSpace → MachineSpace
restore_state space = record {
  machine_pt = space.pt;
  page_table_size = space.num_pages;
  machine_noff_header = space.current_noff_header;
}

-- The entry after a translation.
abbrev pub used_entry : Bool → TranslationEntry → TranslationEntry
used_entry writing e = record e { used = true; dirty = if writing then true else e.dirty }

-- `pfn >= NumPhysPages` on ints: -1 is below the bound.
abbrev pub too_big : Option ℕ → Bool
too_big none = false
too_big (some pfn) = leb num_phys_pages pfn

-- The bits of `pfn`.
abbrev pub frame_word : Option ℕ → ℕ
frame_word none = word_size - 1
frame_word (some pfn) = pfn

-- `*paddr` is unsigned: the product and the sum wrap around.
unfoldable pub physical_address : Option ℕ → ℕ → Option (Exception × ℕ)
physical_address pfn offset =
    let paddr = (frame_word pfn * page_size + offset) % word_size in
    if too_big pfn
    then some (bus_error_exception, 0)
    else (assert (ltb paddr memory_size) >> some (no_exception, paddr))

abbrev pub touched :
    Exception → ℕ → Bool → TranslationEntry → List TranslationEntry → List TranslationEntry
touched no_exception vpn writing pte table = set table vpn (used_entry writing pte)
touched _ vpn writing pte table = table

-- The exception, the physical address where there is none, and the page table. With a bus error the table is as before.
unfoldable pub translate : ℕ → Bool → AddrSpace → Option (Exception × (ℕ × AddrSpace))
translate vaddr writing space =
    let vpn = vaddr / page_size in
    let pte : TranslationEntry = get_or space.pt vpn reset_entry in
    if leb space.num_pages vpn
    then some (address_error_exception, (0, space))
    else (if writing && pte.read_only
        then some (read_only_exception, (0, space))
        else (physical_address pte.ppn (vaddr % page_size) >>= λ r.
            some (r.0, (r.1, record space { pt = touched r.0 vpn writing pte space.pt }))))
