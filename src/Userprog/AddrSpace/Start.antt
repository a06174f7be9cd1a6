-- ===== src/Userprog/AddrSpace/Start.antt =====
-- The first registers of a program, and the switch from one address space to another and back.
use my_nachos.Base.{
  ℕ, Bool, true, false, some, ◌+◌, ◌-◌, ◌*◌, ◌%◌, ◌≤◌, ◌<◌, replicate, ◌≡◌, refl, arith, length,
  length-replicate,
}
use my_nachos.Base.Checked.{assert}
use my_nachos.Machine.Word.{word_size, sign_bit, is_neg}
use my_nachos.Bitmap.{div_round_up}
use my_nachos.Machine.Mips.Execute.{Registers}
use my_nachos.Machine.Mips.Safe.{IsSafe}
use my_nachos.Machine.Tlb.{page_size, reset_entry}
use my_nachos.Userprog.AddrSpace.{
  NoffHeader, user_stack_size, AddrSpace, total_size, needed_size, pages_of, new_space,
  init_registers, stack_register, pc_register, next_pc_register, save_state, restore_state,
}

-- The program starts at its first instruction, with a stack pointer that leaves the room of the stack, but 16 bytes, above the segments
-- and 16 bytes to the end of the address space, which the page table covers.
pub record Starts (noff : NoffHeader) (space : AddrSpace) (regs : Registers) : Type 0 where
  pub safe : IsSafe regs
  pub first : regs pc_register ≡ 0
  pub second : regs next_pc_register ≡ 4
  pub above :
      noff.code_size + noff.readonly_data_size + noff.init_data_size + noff.uninit_data_size
        + user_stack_size
      ≤ regs stack_register + 16
  pub top : regs stack_register + 16 ≡ space.num_pages * page_size
  pub covered : length space.pt ≡ space.num_pages

new_space-made :
    (create : ℕ → Bool) (noff : NoffHeader)
    → total_size noff + page_size < sign_bit
    → create (div_round_up (total_size noff) page_size * page_size) ≡ true
    → new_space create noff
      ≡ some (record {
        pt = replicate (div_round_up (total_size noff) page_size) reset_entry;
        num_pages = div_round_up (total_size noff) page_size;
        current_noff_header = noff;
      })
unfolding new_space needed_size pages_of assert
new_space-made create noff small created =
    let size = total_size noff in
    let plain : size % word_size ≡ size = omega arith in
    let positive : is_neg size ≡ false = ground arith in
    let whole : div_round_up size 128 * 128 % word_size ≡ div_round_up size 128 * 128 =
      ground arith in
    rw (plain, positive, whole, created) refl

-- For a program whose segments and stack, with a page more, are below 2 ^ 31 bytes, and when Create makes the page file of that many whole pages:
-- the constructor makes an address space. InitRegisters on it, whatever the registers held: the registers satisfy what every instruction keeps
-- (R0 is 0 and the target of the pending load is one of the 32 registers), the program starts at address 0 with 4 next, the stack pointer is 16
-- below the end of the address space, which has room for the segments and the stack, and the page table has an entry for each of its pages.
pub init_registers-Starts :
    (create : ℕ → Bool) (noff : NoffHeader) (regs : Registers)
    → total_size noff + page_size < sign_bit
    → create (div_round_up (total_size noff) page_size * page_size) ≡ true
    → (space : AddrSpace) × (new_space create noff ≡ some space)
      × Starts noff space (init_registers space regs)
unfolding init_registers
init_registers-Starts create noff regs small created =
    let size = total_size noff in
    let enough : size ≤ div_round_up size 128 * 128 = ground arith in
    let below : div_round_up size 128 * 128 < sign_bit = ground arith in
    let stack : (div_round_up size 128 * 128 + (word_size - 16)) % word_size + 16
        ≡ div_round_up size 128 * 128 =
      omega (arith, enough, below) in
    (
      _,
      new_space-made create noff small created,
      record {
        safe = record { r0 = refl; target = omega arith };
        first = refl;
        second = refl;
        above = omega (arith, enough, stack);
        top = stack;
        covered = length-replicate (div_round_up size 128) reset_entry;
      },
    )

-- SaveState after RestoreState of the same address space changes nothing in it.
pub save_state-restore_state : (space : AddrSpace) → save_state (restore_state space) space ≡ space
unfolding save_state restore_state
save_state-restore_state space = refl
