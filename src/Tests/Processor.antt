-- ===== src/Tests/Processor.antt =====
-- code/machine: the simulated processor on a memory that is mapped to itself.
use my_nachos.Base.{
  ◌≢◌, ◌≤◌, ◌<◌, ℕ, ◌+◌, ◌*◌, ◌/◌, ◌%◌, ◌^◌, ◌<◌, ◌≡◌, ◌⊎◌, inl, true, if◌then◌else◌, ◌==◌, ltb,
  arith, some,
}
use my_nachos.Machine.Word.{sign_bit, signs_differ, is_neg, magnitude}
use my_nachos.Machine.Mult.{mult, Pair}
use my_nachos.Machine.Mult.Product.{value, IsPair, signed_product, mult-product}
use my_nachos.Machine.Mips.Tables.{op_add, op_addi, op_sub, op_srl}
use my_nachos.Machine.Mips.Decode.{Instruction}
use my_nachos.Machine.Mips.Execute.{
  Registers, address_error_exception, store_left, store_right, extend_byte, div_signed,
}
use my_nachos.Machine.Mips.Switch.{execute}
use my_nachos.Machine.Mips.Processor.{Machine, Kernel, mapped, refused, load_value, store_value}
use my_nachos.Machine.Mips.Arith.{Exact, bias, execute-Exact, div_signed-Divides}
use my_nachos.Machine.Mips.Memory.{load_value-store_value}
use my_nachos.Machine.Mips.Unaligned.{word_at, store_unaligned}

abbrev flat_kernel : Kernel ℕ
flat_kernel = record {
  translate = λ addr size writing memory rest.
      (memory, rest, if ltb addr 4096 then mapped addr else refused address_error_exception);
  exception_handler = λ e m. m;
  set_status = λ system rest. rest;
}

abbrev no_registers : Registers
no_registers r = if r == 8 then 2147483653 else (if r == 9 then 7 else 0)

-- addi $9, $8, 5 at address 0
abbrev flat_machine : Machine ℕ
flat_machine = record {
  registers = no_registers;
  memory = λ at. (if at == 0 then 5 else (if at == 2 then 9 else (if at == 3 then 33 else 0)));
  rest = 0;
}

mult-product_example :
    (value (mult 4294967293 5 true) ≡ signed_product 4294967293 5) × IsPair (mult 4294967293 5 true)
mult-product_example = mult-product 4294967293 5 true (omega arith) (omega arith)

store_unaligned_example :
    (word_at 1 (store_right 1 67305985 99) (store_left ((1 + 3) % 4) 134678021 99) ≡ 99)
    × (store_right 1 67305985 99 % 2 ^ (8 * 1) ≡ 67305985 % 2 ^ (8 * 1))
    × (store_left ((1 + 3) % 4) 134678021 99 / 2 ^ (8 * 1) ≡ 134678021 / 2 ^ (8 * 1))
store_unaligned_example =
    store_unaligned 1 99 67305985 134678021 (omega arith) (omega arith) (omega arith) (omega arith)
      (omega arith)

load_value-store_value_example :
    (load_value (store_value 8 4 70000 (λ j. 0)) 8 4 ≡ 70000)
    × (load_value (store_value 8 2 70000 (λ j. 0)) 8 2 ≡ 70000 % 65536)
    × (load_value (store_value 8 1 70000 (λ j. 0)) 8 1 ≡ extend_byte true 70000)
    × ((12 < 8) ⊎ (12 ≤ 12) → store_value 8 4 70000 (λ j. 0) 12 ≡ 0)
    × ((12 < 8) ⊎ (10 ≤ 12) → store_value 8 2 70000 (λ j. 0) 12 ≡ 0)
    × (◌≢◌ {A = ℕ} 12 8 → store_value 8 1 70000 (λ j. 0) 12 ≡ 0)
load_value-store_value_example = load_value-store_value 8 70000 12 (λ j. 0) (omega arith)

-- srl $9, $8, 2
abbrev srl_instruction : Instruction
srl_instruction = record { value = 542850; op_code = op_srl; rs = 0; rt = 8; rd = 9; extra = 2 }

execute-Exact_example :
    Exact
      (bias (no_registers srl_instruction.rs) + bias (no_registers srl_instruction.rt))
      sign_bit
      srl_instruction.rd
      no_registers
      4
      (execute op_add srl_instruction no_registers 4)
    × Exact
        (bias srl_instruction.extra + bias (no_registers srl_instruction.rs))
        sign_bit
        srl_instruction.rt
        no_registers
        4
        (execute op_addi srl_instruction no_registers 4)
    × Exact
        (bias (no_registers srl_instruction.rs) + sign_bit)
        (bias (no_registers srl_instruction.rt))
        srl_instruction.rd
        no_registers
        4
        (execute op_sub srl_instruction no_registers 4)
execute-Exact_example =
    execute-Exact srl_instruction no_registers 4 (omega arith) (omega arith) (omega arith)

div_signed-Divides_example :
    (p : Pair) × (div_signed 4294967289 2 ≡ some p)
    × (magnitude p.lo * magnitude 2 + magnitude p.hi ≡ magnitude 4294967289)
    × (magnitude p.hi < magnitude 2)
    × ((p.hi ≡ 0) ⊎ (is_neg p.hi ≡ is_neg 4294967289))
    × ((p.lo ≡ 0) ⊎ (is_neg p.lo ≡ signs_differ 4294967289 2))
div_signed-Divides_example =
    div_signed-Divides 4294967289 2 (omega arith) (omega arith) (omega arith)
      (inl (λ e. omega arith))

abbrev loading : Registers
loading r = if r == 37 then 9 else (if r == 38 then 77 else r)
