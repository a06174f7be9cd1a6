-- ===== src/Machine/Mips/Switch.antt =====
-- code/machine/mipssim.cc: the switch of `Machine::OneInstruction`, one clause for each case.
use Prim.Native.Nat.{bit_and, bit_or, bit_xor}
use my_nachos.Base.{ℕ, ◌%◌, Bool, true, false, not, if◌then◌else◌, ltb, ◌==◌, none, some}
use my_nachos.Machine.Word.{add32, sub32, not32, is_neg, shl32, sar32, slt32}
use my_nachos.Machine.Mult.{mult}
use my_nachos.Machine.Mips.Tables.{
  Op, op_add, op_addi, op_addiu, op_addu, op_and, op_andi, op_beq, op_bgez, op_bgezal, op_bgtz,
  op_blez, op_bltz, op_bltzal, op_bne, op_div, op_divu, op_j, op_jal, op_jalr, op_jr, op_lb, op_lbu,
  op_lh, op_lhu, op_lui, op_lw, op_lwl, op_lwr, op_mfhi, op_mflo, op_mthi, op_mtlo, op_mult,
  op_multu, op_nor, op_or, op_ori, op_rfe, op_sb, op_sh, op_sll, op_sllv, op_slt, op_slti, op_sltiu,
  op_sltu, op_sra, op_srav, op_srl, op_srlv, op_sub, op_subu, op_sw, op_swl, op_swr, op_xor,
  op_xori, op_syscall, op_unimp, op_res, special, bcond,
}
use my_nachos.Machine.Mips.Decode.{Instruction}
use my_nachos.Machine.Mips.Execute.{
  Registers, ret_addr_reg, hi_reg, lo_reg, add_checked, sub_checked, div_signed, div_unsigned,
  write_pair, execute_lb, execute_lh, execute_lw, execute_lwl, execute_lwr, execute_store,
  execute_swl, execute_swr, branch, jump, link, flag, set_reg, Effect, assert_false, raise, finish,
  syscall_exception, illegal_instr_exception,
}

-- `registers[rs] > 0` on ints
abbrev is_positive : ℕ → Bool
is_positive a = if is_neg a then false else not (a == 0)

-- SRL and SRLV shift the int `tmp`, as SRA and SRAV shift the register.
unfoldable pub execute : Op → Instruction → Registers → ℕ → Effect
execute op_add i regs pc_after = add_checked i.rd (regs i.rs) (regs i.rt) regs pc_after
execute op_addi i regs pc_after = add_checked i.rt i.extra (regs i.rs) regs pc_after
execute op_addiu i regs pc_after = set_reg i.rt (add32 (regs i.rs) i.extra) regs pc_after
execute op_addu i regs pc_after = set_reg i.rd (add32 (regs i.rs) (regs i.rt)) regs pc_after
execute op_and i regs pc_after = set_reg i.rd (bit_and (regs i.rs) (regs i.rt)) regs pc_after
execute op_andi i regs pc_after = set_reg i.rt (bit_and (regs i.rs) (i.extra % 65536)) regs pc_after
execute op_beq i regs pc_after = branch (regs i.rs == regs i.rt) i regs pc_after
execute op_bgez i regs pc_after = branch (not (is_neg (regs i.rs))) i regs pc_after
execute op_bgezal i regs pc_after =
    let linked : Registers = link ret_addr_reg regs in
    branch (not (is_neg (linked i.rs))) i linked pc_after
execute op_bgtz i regs pc_after = branch (is_positive (regs i.rs)) i regs pc_after
execute op_blez i regs pc_after = branch (not (is_positive (regs i.rs))) i regs pc_after
execute op_bltz i regs pc_after = branch (is_neg (regs i.rs)) i regs pc_after
execute op_bltzal i regs pc_after =
    let linked : Registers = link ret_addr_reg regs in
    branch (is_neg (linked i.rs)) i linked pc_after
execute op_bne i regs pc_after = branch (not (regs i.rs == regs i.rt)) i regs pc_after
execute op_div i regs pc_after = elim (div_signed (regs i.rs) (regs i.rt)) [
  | none ↦ assert_false
  | some p ↦ finish (write_pair p regs) pc_after 0 0
]
execute op_divu i regs pc_after =
    finish (write_pair (div_unsigned (regs i.rs) (regs i.rt)) regs) pc_after 0 0
execute op_j i regs pc_after = jump i regs pc_after
execute op_jal i regs pc_after = jump i (link ret_addr_reg regs) pc_after
execute op_jalr i regs pc_after =
    let linked : Registers = link i.rd regs in finish linked (linked i.rs) 0 0
execute op_jr i regs pc_after = finish regs (regs i.rs) 0 0
execute op_lb i regs pc_after = execute_lb true i regs pc_after
execute op_lbu i regs pc_after = execute_lb false i regs pc_after
execute op_lh i regs pc_after = execute_lh true i regs pc_after
execute op_lhu i regs pc_after = execute_lh false i regs pc_after
execute op_lui i regs pc_after = set_reg i.rt (shl32 i.extra 16) regs pc_after
execute op_lw i regs pc_after = execute_lw i regs pc_after
execute op_lwl i regs pc_after = execute_lwl i regs pc_after
execute op_lwr i regs pc_after = execute_lwr i regs pc_after
execute op_mfhi i regs pc_after = set_reg i.rd (regs hi_reg) regs pc_after
execute op_mflo i regs pc_after = set_reg i.rd (regs lo_reg) regs pc_after
execute op_mthi i regs pc_after = set_reg hi_reg (regs i.rs) regs pc_after
execute op_mtlo i regs pc_after = set_reg lo_reg (regs i.rs) regs pc_after
execute op_mult i regs pc_after =
    finish (write_pair (mult (regs i.rs) (regs i.rt) true) regs) pc_after 0 0
execute op_multu i regs pc_after =
    finish (write_pair (mult (regs i.rs) (regs i.rt) false) regs) pc_after 0 0
execute op_nor i regs pc_after = set_reg i.rd (not32 (bit_or (regs i.rs) (regs i.rt))) regs pc_after
execute op_or i regs pc_after = set_reg i.rd (bit_or (regs i.rs) (regs i.rt)) regs pc_after
execute op_ori i regs pc_after = set_reg i.rt (bit_or (regs i.rs) (i.extra % 65536)) regs pc_after
execute op_sb i regs pc_after = execute_store 1 i regs pc_after
execute op_sh i regs pc_after = execute_store 2 i regs pc_after
execute op_sll i regs pc_after = set_reg i.rd (shl32 (regs i.rt) i.extra) regs pc_after
execute op_sllv i regs pc_after = set_reg i.rd (shl32 (regs i.rt) (regs i.rs % 32)) regs pc_after
execute op_slt i regs pc_after = set_reg i.rd (flag (slt32 (regs i.rs) (regs i.rt))) regs pc_after
execute op_slti i regs pc_after = set_reg i.rt (flag (slt32 (regs i.rs) i.extra)) regs pc_after
execute op_sltiu i regs pc_after = set_reg i.rt (flag (ltb (regs i.rs) i.extra)) regs pc_after
execute op_sltu i regs pc_after = set_reg i.rd (flag (ltb (regs i.rs) (regs i.rt))) regs pc_after
execute op_sra i regs pc_after = set_reg i.rd (sar32 (regs i.rt) i.extra) regs pc_after
execute op_srav i regs pc_after = set_reg i.rd (sar32 (regs i.rt) (regs i.rs % 32)) regs pc_after
execute op_srl i regs pc_after = set_reg i.rd (sar32 (regs i.rt) i.extra) regs pc_after
execute op_srlv i regs pc_after = set_reg i.rd (sar32 (regs i.rt) (regs i.rs % 32)) regs pc_after
execute op_sub i regs pc_after = sub_checked i.rd (regs i.rs) (regs i.rt) regs pc_after
execute op_subu i regs pc_after = set_reg i.rd (sub32 (regs i.rs) (regs i.rt)) regs pc_after
execute op_sw i regs pc_after = execute_store 4 i regs pc_after
execute op_swl i regs pc_after = execute_swl i regs pc_after
execute op_swr i regs pc_after = execute_swr i regs pc_after
execute op_xor i regs pc_after = set_reg i.rd (bit_xor (regs i.rs) (regs i.rt)) regs pc_after
execute op_xori i regs pc_after = set_reg i.rt (bit_xor (regs i.rs) (i.extra % 65536)) regs pc_after
execute op_syscall i regs pc_after = raise syscall_exception 0
execute op_unimp i regs pc_after = raise illegal_instr_exception 0
execute op_res i regs pc_after = raise illegal_instr_exception 0
-- `default: ASSERT(FALSE)`: no instruction decodes to these.
execute op_rfe i regs pc_after = assert_false
execute special i regs pc_after = assert_false
execute bcond i regs pc_after = assert_false
