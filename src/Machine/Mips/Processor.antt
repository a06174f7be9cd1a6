-- ===== src/Machine/Mips/Processor.antt =====
-- code/machine: `Machine::OneInstruction`, `DelayedLoad` (mipssim.cc), `RaiseException` (machine.cc), `ReadMem` and
-- `WriteMem` (translate.cc).
use my_nachos.Base.Checked.{◌>>=◌}
use my_nachos.Base.{
  ℕ, ◌+◌, ◌*◌, ◌/◌, ◌%◌, Bool, true, false, if◌then◌else◌, leb, ◌==◌, Option, none, some,
}
use my_nachos.Machine.Word.{add32}
use my_nachos.Machine.Mips.Decode.{Instruction, decode}
use my_nachos.Machine.Mips.Execute.{
  Registers, write_reg, pc_reg, next_pc_reg, prev_pc_reg, load_reg, load_value_reg, bad_vaddr_reg,
  Effect, assert_false, raise, finish, read, write, Exception,
}
use my_nachos.Machine.Mips.Switch.{execute}

-- The registers, the bytes of mainMemory, and whatever else the kernel and the translation keep.
pub record Machine {ℓ} (S : Type ℓ) : Type ℓ where
  pub registers : Registers
  pub memory : ℕ → ℕ
  pub rest : S

-- What `Translate` answers; `stopped` is a failed ASSERT in it.
pub data Translation : Type 0 where
  mapped : ℕ → Translation
  refused : Exception → Translation
  stopped : Translation

-- What the processor calls: `Translate` on (address, size, writing), which may change the tables, the memory and the
-- kernel but not the registers; `ExceptionHandler`; and `Interrupt::setStatus`, which is told whether the mode is the
-- system's.
pub record Kernel {ℓ} (S : Type ℓ) : Type ℓ where
  pub translate : ℕ → ℕ → Bool → (ℕ → ℕ) → S → (ℕ → ℕ) × S × Translation
  pub exception_handler : Exception → Machine S → Machine S
  pub set_status : Bool → S → S

unfoldable pub delayed_load : ℕ → ℕ → Registers → Registers
delayed_load next_reg next_value regs =
    let loaded : Registers = write_reg (regs load_reg) (regs load_value_reg) regs in
    write_reg 0 0 (write_reg load_value_reg next_value (write_reg load_reg next_reg loaded))

-- The end of the instruction: the delayed load, then the program counters.
unfoldable pub complete : Registers → ℕ → ℕ → ℕ → Registers
complete regs pc_after next_load_reg next_load_value =
    let loaded : Registers = delayed_load next_load_reg next_load_value regs in
    write_reg next_pc_reg pc_after
      (write_reg pc_reg (loaded next_pc_reg) (write_reg prev_pc_reg (loaded pc_reg) loaded))

-- A `char` is signed, so one byte is sign-extended. Numbers are stored low byte first.
unfoldable pub load_value : (ℕ → ℕ) → ℕ → ℕ → ℕ
load_value memory at size =
    if size == 1
    then (if leb 128 (memory at) then memory at + 4294967040 else memory at)
    else (if size == 2
        then memory at + 256 * memory (at + 1)
        else memory at
          + 256 * memory (at + 1)
          + 65536 * memory (at + 2)
          + 16777216 * memory (at + 3))

abbrev write_byte : ℕ → ℕ → (ℕ → ℕ) → ℕ → ℕ
write_byte at v memory = λ j. if j == at then v % 256 else memory j

unfoldable pub store_value : ℕ → ℕ → ℕ → (ℕ → ℕ) → ℕ → ℕ
store_value at size v memory =
    if size == 1
    then write_byte at v memory
    else (if size == 2
        then write_byte (at + 1) (v / 256) (write_byte at v memory)
        else write_byte (at + 3) (v / 16777216) (
            write_byte (at + 2) (v / 65536)
              (write_byte (at + 1) (v / 256) (write_byte at v memory))))

module _ {ℓ} {S : Type ℓ} (k : Kernel S) where
  unfoldable pub raise_exception : Exception → ℕ → Machine S → Machine S
  raise_exception which bad_vaddr m =
      let regs : Registers = delayed_load 0 0 (write_reg bad_vaddr_reg bad_vaddr m.registers) in
      let entered : Machine S = record {
        registers = regs;
        memory = m.memory;
        rest = k.set_status true m.rest;
      } in
      let handled : Machine S = k.exception_handler which entered in
      record {
        registers = handled.registers;
        memory = handled.memory;
        rest = k.set_status false handled.rest;
      }

  -- The value read, or nothing when an exception was raised.
  unfoldable pub read_mem : ℕ → ℕ → Machine S → Option (Machine S × Option ℕ)
  read_mem addr size m =
      let (memory, rest, t) = k.translate addr size false m.memory m.rest in
      let m' : Machine S = record { registers = m.registers; memory = memory; rest = rest } in
      elim t [
        | mapped at ↦ some (m', some (load_value memory at size))
        | refused e ↦ some (raise_exception e addr m', none)
        | stopped ↦ none
      ]

  unfoldable pub write_mem : ℕ → ℕ → ℕ → Machine S → Option (Machine S × Bool)
  write_mem addr size v m =
      let (memory, rest, t) = k.translate addr size true m.memory m.rest in
      let m' : Machine S = record { registers = m.registers; memory = memory; rest = rest } in
      elim t [
        | mapped at ↦ some (record m' { memory = store_value at size v memory }, true)
        | refused e ↦ some (raise_exception e addr m', false)
        | stopped ↦ none
      ]

  abbrev pub with_registers : Registers → Machine S → Machine S
  with_registers regs m = record { registers = regs; memory = m.memory; rest = m.rest }

  -- A failed ASSERT leaves no machine.
  unfoldable pub run_effect : Effect → Machine S → Option (Machine S)
  run_effect assert_false m = none
  run_effect (raise e bad) m = some (raise_exception e bad m)
  run_effect (finish regs pc_after next_load_reg next_load_value) m =
      some (with_registers (complete regs pc_after next_load_reg next_load_value) m)
  run_effect (read addr size next) m =
      let after = λ (v : ℕ) (m' : Machine S). run_effect (next v) m' in
      read_mem addr size m >>= λ r. elim r.1 [ none ↦ some r.0 | some v ↦ after v r.0 ]
  run_effect (write addr size v next) m =
      let after = λ (m' : Machine S). run_effect next m' in
      write_mem addr size v m >>= λ r. if r.1 then after r.0 else some r.0

  unfoldable pub one_instruction : Machine S → Option (Machine S)
  one_instruction m = read_mem (m.registers pc_reg) 4 m >>= λ r. elim r.1 [
    | none ↦ some r.0
    | some raw ↦
        let instr : Instruction = decode raw in
        let pc_after : ℕ = add32 (r.0.registers next_pc_reg) 4 in
        run_effect (execute instr.op_code instr r.0.registers pc_after) r.0
  ]
