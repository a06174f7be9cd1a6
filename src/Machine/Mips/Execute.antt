-- ===== src/Machine/Mips/Execute.antt =====
-- code/machine/mipssim.cc: the switch of `Machine::OneInstruction`, as built with SIM_FIX.
-- What an instruction does is an `Effect`: it raises an exception and returns, or asks for a read or a write of memory
-- and goes on, or leaves the switch. A read or write that fails returns from `OneInstruction`, so what comes after it
-- is under the constructor.
use Prim.Native.Nat.{bit_and, bit_or}
use my_nachos.Base.{
  ℕ, ◌+◌, ◌-◌, ◌*◌, ◌/◌, ◌%◌, Bool, false, if◌then◌else◌, leb, ◌==◌, Option, some, none, ◌&&◌,
}
use my_nachos.Machine.Word.{
  add32, sub32, neg32, is_neg, signs_differ, shl32, magnitude, sign_bit, word_size,
}
use my_nachos.Machine.Mult.{Pair}
use my_nachos.Machine.Mips.Decode.{Instruction}

pub data Exception : Type 0 where
  no_exception : Exception
  syscall_exception : Exception
  page_fault_exception : Exception
  tlb_miss_exception : Exception
  read_only_exception : Exception
  bus_error_exception : Exception
  address_error_exception : Exception
  overflow_exception : Exception
  illegal_instr_exception : Exception

abbrev pub Registers : Type 0
Registers = ℕ → ℕ

abbrev pub write_reg : ℕ → ℕ → Registers → Registers
write_reg r v regs = λ j. if j == r then v else regs j

abbrev pub ret_addr_reg : ℕ
ret_addr_reg = 31

abbrev pub hi_reg : ℕ
hi_reg = 32

abbrev pub lo_reg : ℕ
lo_reg = 33

abbrev pub pc_reg : ℕ
pc_reg = 34

abbrev pub next_pc_reg : ℕ
next_pc_reg = 35

abbrev pub prev_pc_reg : ℕ
prev_pc_reg = 36

abbrev pub load_reg : ℕ
load_reg = 37

abbrev pub load_value_reg : ℕ
load_value_reg = 38

abbrev pub bad_vaddr_reg : ℕ
bad_vaddr_reg = 39

-- `assert_false` stops the simulator: a failed ASSERT, or a division without a result. `finish` holds the registers, pcAfter, nextLoadReg and nextLoadValue at the end of the switch.
pub data Effect : Type 0 where
  assert_false : Effect
  raise : Exception → ℕ → Effect
  finish : Registers → ℕ → ℕ → ℕ → Effect
  read : ℕ → ℕ → (ℕ → Effect) → Effect
  write : ℕ → ℕ → ℕ → Effect → Effect

-- IndexToAddr
abbrev pub index_to_addr : ℕ → ℕ
index_to_addr x = shl32 x 2

-- OP_ADD, and OP_ADDI with the immediate as `a`.
unfoldable pub add_checked : ℕ → ℕ → ℕ → Registers → ℕ → Effect
add_checked d a b regs pc_after =
    let sum = add32 a b in
    if (if signs_differ a b then false else signs_differ a sum)
    then raise overflow_exception 0
    else finish (write_reg d sum regs) pc_after 0 0

unfoldable pub sub_checked : ℕ → ℕ → ℕ → Registers → ℕ → Effect
sub_checked d a b regs pc_after =
    let diff = sub32 a b in
    if (if signs_differ a b then signs_differ a diff else false)
    then raise overflow_exception 0
    else finish (write_reg d diff regs) pc_after 0 0

-- The quotient of two ints is no int.
abbrev pub div_overflows : ℕ → ℕ → Bool
div_overflows a b = (a == sign_bit) && (b == word_size - 1)

-- C divides towards zero, and the remainder has the sign of the dividend.
unfoldable pub div_pair : ℕ → ℕ → Pair
div_pair a b =
    let q = magnitude a / magnitude b in
    let r = magnitude a % magnitude b in
    if b == 0 then record { hi = 0; lo = 0 } else record {
      hi = if is_neg a then neg32 r else r;
      lo = if signs_differ a b then neg32 q else q;
    }

-- OP_DIV. -2^31 / -1 is undefined in C++ and stops the simulator on x86: it has no result.
unfoldable pub div_signed : ℕ → ℕ → Option Pair
div_signed a b = if div_overflows a b then none else some (div_pair a b)

unfoldable pub div_unsigned : ℕ → ℕ → Pair
div_unsigned a b = if b == 0 then record { hi = 0; lo = 0 } else record { hi = a % b; lo = a / b }

unfoldable pub write_pair : Pair → Registers → Registers
write_pair p regs = write_reg lo_reg p.lo (write_reg hi_reg p.hi regs)

-- The value of OP_LB (signed) or OP_LBU.
unfoldable pub extend_byte : Bool → ℕ → ℕ
extend_byte signed value =
    if (if signed then leb 128 (value % 256) else false)
    then value % 256 + 4294967040
    else value % 256

unfoldable pub extend_half : Bool → ℕ → ℕ
extend_half signed value =
    if (if signed then leb 32768 (value % 65536) else false)
    then value % 65536 + 4294901760
    else value % 65536

-- The register that LWL and LWR fill up: with the pending load, when it is this register's.
unfoldable pub pending : ℕ → Registers → ℕ
pending rt regs = if regs load_reg == rt then regs load_value_reg else regs rt

-- The switches of LWL, LWR, SWL and SWR on `byte`, the place of the address in its word. The operands of each `|`
-- have no bit in common, so it adds.
unfoldable pub load_left : ℕ → ℕ → ℕ → ℕ
load_left byte old value =
    if byte == 3
    then value
    else (if byte == 2
        then old % 256 + shl32 value 8
        else (if byte == 1 then old % 65536 + shl32 value 16 else old % 16777216 + shl32 value 24))

unfoldable pub load_right : ℕ → ℕ → ℕ → ℕ
load_right byte old value =
    if byte == 3
    then old / 256 * 256 + value / 16777216
    else (if byte == 2
        then old / 65536 * 65536 + value / 65536
        else (if byte == 1 then old / 16777216 * 16777216 + value / 256 else value))

unfoldable pub store_left : ℕ → ℕ → ℕ → ℕ
store_left byte value reg =
    if byte == 3
    then reg
    else (if byte == 2
        then value / 16777216 * 16777216 + reg / 256
        else (if byte == 1
            then value / 65536 * 65536 + reg / 65536
            else value / 256 * 256 + reg / 16777216))

unfoldable pub store_right : ℕ → ℕ → ℕ → ℕ
store_right byte value reg =
    if byte == 3
    then value % 16777216 + shl32 reg 24
    else (if byte == 2
        then value % 65536 + shl32 reg 16
        else (if byte == 1 then value % 256 + shl32 reg 8 else reg))

unfoldable pub execute_lb : Bool → Instruction → Registers → ℕ → Effect
execute_lb signed i regs pc_after =
    read (add32 (regs i.rs) i.extra) 1
      (λ value. finish regs pc_after i.rt (extend_byte signed value))

unfoldable pub execute_lh : Bool → Instruction → Registers → ℕ → Effect
execute_lh signed i regs pc_after =
    let tmp = add32 (regs i.rs) i.extra in
    if tmp % 2 == 0
    then read tmp 2 (λ value. finish regs pc_after i.rt (extend_half signed value))
    else raise address_error_exception tmp

unfoldable pub execute_lw : Instruction → Registers → ℕ → Effect
execute_lw i regs pc_after =
    let tmp = add32 (regs i.rs) i.extra in
    if tmp % 4 == 0
    then read tmp 4 (λ value. finish regs pc_after i.rt value)
    else raise address_error_exception tmp

unfoldable pub execute_lwl : Instruction → Registers → ℕ → Effect
execute_lwl i regs pc_after =
    let tmp = add32 (regs i.rs) i.extra in
    read (tmp - tmp % 4) 4
      (λ value. finish regs pc_after i.rt (load_left (tmp % 4) (pending i.rt regs) value))

unfoldable pub execute_lwr : Instruction → Registers → ℕ → Effect
execute_lwr i regs pc_after =
    let tmp = add32 (regs i.rs) i.extra in
    read (tmp - tmp % 4) 4
      (λ value. finish regs pc_after i.rt (load_right (tmp % 4) (pending i.rt regs) value))

unfoldable pub execute_store : ℕ → Instruction → Registers → ℕ → Effect
execute_store size i regs pc_after =
    write (add32 (regs i.rs) i.extra) size (regs i.rt) (finish regs pc_after 0 0)

unfoldable pub execute_swl : Instruction → Registers → ℕ → Effect
execute_swl i regs pc_after =
    let tmp = add32 (regs i.rs) i.extra in
    read (tmp - tmp % 4) 4 (λ value.
      write (tmp - tmp % 4) 4 (store_left (tmp % 4) value (regs i.rt)) (finish regs pc_after 0 0))

unfoldable pub execute_swr : Instruction → Registers → ℕ → Effect
execute_swr i regs pc_after =
    let tmp = add32 (regs i.rs) i.extra in
    read (tmp - tmp % 4) 4 (λ value.
      write (tmp - tmp % 4) 4 (store_right (tmp % 4) value (regs i.rt)) (finish regs pc_after 0 0))

unfoldable pub branch : Bool → Instruction → Registers → ℕ → Effect
branch taken i regs pc_after =
    finish regs (if taken then add32 (regs next_pc_reg) (index_to_addr i.extra) else pc_after) 0 0

-- The jump of OP_J and OP_JAL stays in the 256 MB around pcAfter.
unfoldable pub jump : Instruction → Registers → ℕ → Effect
jump i regs pc_after =
    finish regs (bit_or (bit_and pc_after 4026531840) (index_to_addr i.extra)) 0 0

abbrev pub link : ℕ → Registers → Registers
link r regs = write_reg r (add32 (regs next_pc_reg) 4) regs

abbrev pub flag : Bool → ℕ
flag b = if b then 1 else 0

-- The results that only write one register.
unfoldable pub set_reg : ℕ → ℕ → Registers → ℕ → Effect
set_reg r v regs pc_after = finish (write_reg r v regs) pc_after 0 0
