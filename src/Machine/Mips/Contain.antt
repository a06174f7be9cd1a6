-- ===== src/Machine/Mips/Contain.antt =====
-- code/machine/mipssim.cc: how far the cases of the switch reach.
use my_nachos.Base.{
  ℕ, ◌<◌, ◌≡◌, Bool, true, false, if◌then◌else◌, arith, ==_of_ne, none, some, subst, sym, refl,
}
use my_nachos.Machine.Mips.Tables.{
  Op, op_add, op_addi, op_addiu, op_addu, op_and, op_andi, op_beq, op_bgez, op_bgezal, op_bgtz,
  op_blez, op_bltz, op_bltzal, op_bne, op_div, op_divu, op_j, op_jal, op_jalr, op_jr, op_lb, op_lbu,
  op_lh, op_lhu, op_lui, op_lw, op_lwl, op_lwr, op_mfhi, op_mflo, op_mthi, op_mtlo, op_mult,
  op_multu, op_nor, op_or, op_ori, op_rfe, op_sb, op_sh, op_sll, op_sllv, op_slt, op_slti, op_sltiu,
  op_sltu, op_sra, op_srav, op_srl, op_srlv, op_sub, op_subu, op_sw, op_swl, op_swr, op_xor,
  op_xori, op_syscall, op_unimp, op_res, special, bcond,
}
use my_nachos.Machine.Mips.Decode.{Instruction}
use my_nachos.Machine.Mips.Execute.{
  Registers, Effect, raise, finish, read, write, write_reg, load_reg, next_pc_reg, ret_addr_reg,
  hi_reg, lo_reg, add_checked, sub_checked, div_overflows, div_signed, set_reg, branch, jump, link,
  write_pair, execute_lb, execute_lh, execute_lw, execute_lwl, execute_lwr, execute_store,
  execute_swl, execute_swr, div_pair, assert_false,
}
use my_nachos.Machine.Word.{add32}
use my_nachos.Machine.Mult.{Pair}
use my_nachos.Machine.Mips.Switch.{execute}
use my_nachos.Machine.Mips.Reach.{known, HasFields}

-- An effect that keeps the pending load's target and leaves one for the next that is a general register.
pub data Contained : Effect → Type 0 where
  raises : {e : _} {a : ℕ} → Contained (raise e a)
  finishes :
      {regs : Registers} {pc_after r v : ℕ}
      → regs load_reg < 32
      → r < 32
      → Contained (finish regs pc_after r v)
  reads :
      {a size : ℕ} {next : ℕ → Effect}
      → ((v : ℕ) → Contained (next v))
      → Contained (read a size next)
  writes : {a size v : ℕ} {next : Effect} → Contained next → Contained (write a size v next)

-- No general register, HI or LO is the register that holds the target.
kept : (r v : ℕ) (regs : Registers) → r < 34 → regs load_reg < 32 → write_reg r v regs load_reg < 32
kept r v regs hr h = rw (==_of_ne load_reg r (ground arith)) h

link-kept : (r : ℕ) (regs : Registers) → r < 34 → regs load_reg < 32 → link r regs load_reg < 32
link-kept r regs hr h = kept r (add32 (regs next_pc_reg) 4) regs hr h

set_reg-Contained :
    (r v : ℕ) (regs : Registers) (pc_after : ℕ)
    → r < 34
    → regs load_reg < 32
    → Contained (set_reg r v regs pc_after)
unfolding set_reg
set_reg-Contained r v regs pc_after hr h = finishes (kept r v regs hr h) (omega arith)

either-Contained :
    (b : Bool) {e f : Effect} → Contained e → Contained f → Contained (if b then e else f)
either-Contained true x y = x
either-Contained false x y = y

add_checked-Contained :
    (d a b : ℕ) (regs : Registers) (pc_after : ℕ)
    → d < 32
    → regs load_reg < 32
    → Contained (add_checked d a b regs pc_after)
unfolding add_checked
add_checked-Contained d a b regs pc_after hd h =
    either-Contained _ raises (finishes (kept d _ regs (omega arith) h) (omega arith))

sub_checked-Contained :
    (d a b : ℕ) (regs : Registers) (pc_after : ℕ)
    → d < 32
    → regs load_reg < 32
    → Contained (sub_checked d a b regs pc_after)
unfolding sub_checked
sub_checked-Contained d a b regs pc_after hd h =
    either-Contained _ raises (finishes (kept d _ regs (omega arith) h) (omega arith))

write_pair-kept :
    (p : Pair) (regs : Registers) → regs load_reg < 32 → write_pair p regs load_reg < 32
unfolding write_pair
write_pair-kept p regs h = h

branch-Contained :
    (b : Bool) (i : Instruction) (regs : Registers) (pc_after : ℕ)
    → regs load_reg < 32
    → Contained (branch b i regs pc_after)
unfolding branch
branch-Contained b i regs pc_after h = finishes h (omega arith)

jump-Contained :
    (i : Instruction) (regs : Registers) (pc_after : ℕ)
    → regs load_reg < 32
    → Contained (jump i regs pc_after)
unfolding jump
jump-Contained i regs pc_after h = finishes h (omega arith)

store-Contained :
    (size : ℕ) (i : Instruction) (regs : Registers) (pc_after : ℕ)
    → regs load_reg < 32
    → Contained (execute_store size i regs pc_after)
unfolding execute_store
store-Contained size i regs pc_after h = writes (finishes h (omega arith))

lb-Contained :
    (s : Bool) (i : Instruction) (regs : Registers) (pc_after : ℕ)
    → HasFields i
    → regs load_reg < 32
    → Contained (execute_lb s i regs pc_after)
unfolding execute_lb
lb-Contained s i regs pc_after f h = reads (λ v. finishes h f.rt_lt)

lh-Contained :
    (s : Bool) (i : Instruction) (regs : Registers) (pc_after : ℕ)
    → HasFields i
    → regs load_reg < 32
    → Contained (execute_lh s i regs pc_after)
unfolding execute_lh
lh-Contained s i regs pc_after f h = either-Contained _ (reads (λ v. finishes h f.rt_lt)) raises

-- Of the cases of the switch, each leaves a contained effect.
div-Contained :
    (a b : ℕ) (regs : Registers) (pc_after : ℕ)
    → div_overflows a b ≡ false
    → regs load_reg < 32
    → Contained (elim (div_signed a b) [
      | none ↦ assert_false
      | some p ↦ finish (write_pair p regs) pc_after 0 0
    ])
unfolding div_signed
div-Contained a b regs pc_after fits h =
    let e : div_signed a b ≡ some (div_pair a b) = rw fits refl in
    subst
      (λ o.
        Contained
          (elim o [ none ↦ assert_false | some p ↦ finish (write_pair p regs) pc_after 0 0 ]))
      (sym e) (finishes (write_pair-kept (div_pair a b) regs h) (omega arith))

-- DIV of operands that have no quotient.
abbrev pub overflows : Op → Instruction → Registers → Bool
overflows op_div i regs = div_overflows (regs i.rs) (regs i.rt)
overflows _ i regs = false

pub execute-Contained :
    (op : Op) (i : Instruction) (regs : Registers) (pc_after : ℕ)
    → known op ≡ true
    → HasFields i
    → overflows op i regs ≡ false
    → regs load_reg < 32
    → Contained (execute op i regs pc_after)
unfolding execute execute_lw execute_lwl execute_lwr execute_swl execute_swr
execute-Contained op_add i regs pc_after kn f _ h =
    add_checked-Contained i.rd _ _ regs pc_after f.rd_lt h
execute-Contained op_addi i regs pc_after kn f _ h =
    add_checked-Contained i.rt _ _ regs pc_after f.rt_lt h
execute-Contained op_addiu i regs pc_after kn f _ h =
    set_reg-Contained i.rt _ regs pc_after (omega (arith, f.rt_lt)) h
execute-Contained op_addu i regs pc_after kn f _ h =
    set_reg-Contained i.rd _ regs pc_after (omega (arith, f.rd_lt)) h
execute-Contained op_and i regs pc_after kn f _ h =
    set_reg-Contained i.rd _ regs pc_after (omega (arith, f.rd_lt)) h
execute-Contained op_andi i regs pc_after kn f _ h =
    set_reg-Contained i.rt _ regs pc_after (omega (arith, f.rt_lt)) h
execute-Contained op_beq i regs pc_after kn f _ h = branch-Contained _ i regs pc_after h
execute-Contained op_bgez i regs pc_after kn f _ h = branch-Contained _ i regs pc_after h
execute-Contained op_bgezal i regs pc_after kn f _ h =
    branch-Contained _ i _ pc_after (link-kept ret_addr_reg regs (omega arith) h)
execute-Contained op_bgtz i regs pc_after kn f _ h = branch-Contained _ i regs pc_after h
execute-Contained op_blez i regs pc_after kn f _ h = branch-Contained _ i regs pc_after h
execute-Contained op_bltz i regs pc_after kn f _ h = branch-Contained _ i regs pc_after h
execute-Contained op_bltzal i regs pc_after kn f _ h =
    branch-Contained _ i _ pc_after (link-kept ret_addr_reg regs (omega arith) h)
execute-Contained op_bne i regs pc_after kn f _ h = branch-Contained _ i regs pc_after h
execute-Contained op_div i regs pc_after kn f fits h =
    div-Contained (regs i.rs) (regs i.rt) regs pc_after fits h
execute-Contained op_divu i regs pc_after kn f _ h =
    finishes (write_pair-kept _ regs h) (omega arith)
execute-Contained op_j i regs pc_after kn f _ h = jump-Contained i regs pc_after h
execute-Contained op_jal i regs pc_after kn f _ h =
    jump-Contained i _ pc_after (link-kept ret_addr_reg regs (omega arith) h)
execute-Contained op_jalr i regs pc_after kn f _ h =
    finishes (kept i.rd _ regs (omega (arith, f.rd_lt)) h) (omega arith)
execute-Contained op_jr i regs pc_after kn f _ h = finishes h (omega arith)
execute-Contained op_lb i regs pc_after kn f _ h = lb-Contained _ i regs pc_after f h
execute-Contained op_lbu i regs pc_after kn f _ h = lb-Contained _ i regs pc_after f h
execute-Contained op_lh i regs pc_after kn f _ h = lh-Contained _ i regs pc_after f h
execute-Contained op_lhu i regs pc_after kn f _ h = lh-Contained _ i regs pc_after f h
execute-Contained op_lui i regs pc_after kn f _ h =
    set_reg-Contained i.rt _ regs pc_after (omega (arith, f.rt_lt)) h
execute-Contained op_lw i regs pc_after kn f _ h =
    either-Contained _ (reads (λ v. finishes h f.rt_lt)) raises
execute-Contained op_lwl i regs pc_after kn f _ h = reads (λ v. finishes h f.rt_lt)
execute-Contained op_lwr i regs pc_after kn f _ h = reads (λ v. finishes h f.rt_lt)
execute-Contained op_mfhi i regs pc_after kn f _ h =
    set_reg-Contained i.rd _ regs pc_after (omega (arith, f.rd_lt)) h
execute-Contained op_mflo i regs pc_after kn f _ h =
    set_reg-Contained i.rd _ regs pc_after (omega (arith, f.rd_lt)) h
execute-Contained op_mthi i regs pc_after kn f _ h =
    set_reg-Contained hi_reg _ regs pc_after (omega arith) h
execute-Contained op_mtlo i regs pc_after kn f _ h =
    set_reg-Contained lo_reg _ regs pc_after (omega arith) h
execute-Contained op_mult i regs pc_after kn f _ h =
    finishes (write_pair-kept _ regs h) (omega arith)
execute-Contained op_multu i regs pc_after kn f _ h =
    finishes (write_pair-kept _ regs h) (omega arith)
execute-Contained op_nor i regs pc_after kn f _ h =
    set_reg-Contained i.rd _ regs pc_after (omega (arith, f.rd_lt)) h
execute-Contained op_or i regs pc_after kn f _ h =
    set_reg-Contained i.rd _ regs pc_after (omega (arith, f.rd_lt)) h
execute-Contained op_ori i regs pc_after kn f _ h =
    set_reg-Contained i.rt _ regs pc_after (omega (arith, f.rt_lt)) h
execute-Contained op_sb i regs pc_after kn f _ h = store-Contained _ i regs pc_after h
execute-Contained op_sh i regs pc_after kn f _ h = store-Contained _ i regs pc_after h
execute-Contained op_sll i regs pc_after kn f _ h =
    set_reg-Contained i.rd _ regs pc_after (omega (arith, f.rd_lt)) h
execute-Contained op_sllv i regs pc_after kn f _ h =
    set_reg-Contained i.rd _ regs pc_after (omega (arith, f.rd_lt)) h
execute-Contained op_slt i regs pc_after kn f _ h =
    set_reg-Contained i.rd _ regs pc_after (omega (arith, f.rd_lt)) h
execute-Contained op_slti i regs pc_after kn f _ h =
    set_reg-Contained i.rt _ regs pc_after (omega (arith, f.rt_lt)) h
execute-Contained op_sltiu i regs pc_after kn f _ h =
    set_reg-Contained i.rt _ regs pc_after (omega (arith, f.rt_lt)) h
execute-Contained op_sltu i regs pc_after kn f _ h =
    set_reg-Contained i.rd _ regs pc_after (omega (arith, f.rd_lt)) h
execute-Contained op_sra i regs pc_after kn f _ h =
    set_reg-Contained i.rd _ regs pc_after (omega (arith, f.rd_lt)) h
execute-Contained op_srav i regs pc_after kn f _ h =
    set_reg-Contained i.rd _ regs pc_after (omega (arith, f.rd_lt)) h
execute-Contained op_srl i regs pc_after kn f _ h =
    set_reg-Contained i.rd _ regs pc_after (omega (arith, f.rd_lt)) h
execute-Contained op_srlv i regs pc_after kn f _ h =
    set_reg-Contained i.rd _ regs pc_after (omega (arith, f.rd_lt)) h
execute-Contained op_sub i regs pc_after kn f _ h =
    sub_checked-Contained i.rd _ _ regs pc_after f.rd_lt h
execute-Contained op_subu i regs pc_after kn f _ h =
    set_reg-Contained i.rd _ regs pc_after (omega (arith, f.rd_lt)) h
execute-Contained op_sw i regs pc_after kn f _ h = store-Contained _ i regs pc_after h
execute-Contained op_swl i regs pc_after kn f _ h = reads (λ v. writes (finishes h (omega arith)))
execute-Contained op_swr i regs pc_after kn f _ h = reads (λ v. writes (finishes h (omega arith)))
execute-Contained op_xor i regs pc_after kn f _ h =
    set_reg-Contained i.rd _ regs pc_after (omega (arith, f.rd_lt)) h
execute-Contained op_xori i regs pc_after kn f _ h =
    set_reg-Contained i.rt _ regs pc_after (omega (arith, f.rt_lt)) h
execute-Contained op_syscall i regs pc_after kn f _ h = raises
execute-Contained op_unimp i regs pc_after kn f _ h = raises
execute-Contained op_res i regs pc_after kn f _ h = raises
execute-Contained op_rfe i regs pc_after kn f _ h = absurd (ground (arith, kn))
execute-Contained special i regs pc_after kn f _ h = absurd (ground (arith, kn))
execute-Contained bcond i regs pc_after kn f _ h = absurd (ground (arith, kn))
