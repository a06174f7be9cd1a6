-- ===== src/Machine/Mips/Reach.antt =====
-- code/machine/mipssim.cc: what every instruction decodes to, and how far its execution reaches.
use my_nachos.Base.{
  ℕ, zero, suc, ◌*◌, ◌/◌, ◌%◌, ◌<◌, ◌≡◌, refl, Bool, true, false, if◌then◌else◌, ◌==◌, List, [],
  ◌∷◌, get_or, arith, Bool-cases, inl, inr,
}
use my_nachos.Machine.Mips.Tables.{
  Op, op_add, op_addi, op_addiu, op_addu, op_and, op_andi, op_beq, op_bgez, op_bgezal, op_bgtz,
  op_blez, op_bltz, op_bltzal, op_bne, op_div, op_divu, op_j, op_jal, op_jalr, op_jr, op_lb, op_lbu,
  op_lh, op_lhu, op_lui, op_lw, op_lwl, op_lwr, op_mfhi, op_mflo, op_mthi, op_mtlo, op_mult,
  op_multu, op_nor, op_or, op_ori, op_rfe, op_sb, op_sh, op_sll, op_sllv, op_slt, op_slti, op_sltiu,
  op_sltu, op_sra, op_srav, op_srl, op_srlv, op_sub, op_subu, op_sw, op_swl, op_swr, op_xor,
  op_xori, op_syscall, op_unimp, op_res, special, bcond, ifmt, OpInfo, op_table, special_table,
}
use my_nachos.Machine.Mips.Decode.{Instruction, decode, decode_op, decode_bcond}

-- The codes that the switch has a case for.
abbrev pub known : Op → Bool
known op_rfe = false
known special = false
known bcond = false
known op = true

-- The codes that may stand in the first table.
abbrev in_table : Op → Bool
in_table op_rfe = false
in_table op = true

abbrev all {ℓ} : {A : Type ℓ} → (A → Bool) → List A → Bool
all p [] = true
all p (x ∷ xs) = if p x then all p xs else false

all-get_or {ℓ} :
    {A : Type ℓ} (p : A → Bool) (xs : List A) (i : ℕ) (d : A)
    → all p xs ≡ true
    → p d ≡ true
    → p (get_or xs i d) ≡ true
all-get_or p [] i d h hd = hd
all-get_or p (x ∷ xs) zero d h hd = elim (Bool-cases (p x)) [
  | inl e ↦ e
  | inr e ↦ ground (arith, e, h)
]
all-get_or p (x ∷ xs) (suc i) d h hd = elim (Bool-cases (p x)) [
  | inl e ↦ all-get_or p xs i d (ground (arith, e, h)) hd
  | inr e ↦ absurd (ground (arith, e, h))
]

either-known :
    (b : Bool) (x y : Op) → known x ≡ true → known y ≡ true → known (if b then x else y) ≡ true
either-known true x y h k = h
either-known false x y h k = k

bcond-known : (value : ℕ) → known (decode_bcond value) ≡ true
unfolding decode_bcond
bcond-known value =
    let i : ℕ = value / 65536 % 32 * 65536 in
    either-known (i == 0) op_bltz _ refl (
      either-known (i == 65536) op_bgez _ refl (
        either-known (i == 1048576) op_bltzal _ refl
          (either-known (i == 1114112) op_bgezal op_unimp refl refl)))

decode_op-known : (op : Op) (value : ℕ) → in_table op ≡ true → known (decode_op op value) ≡ true
unfolding decode_op
decode_op-known op_add value h = refl
decode_op-known op_addi value h = refl
decode_op-known op_addiu value h = refl
decode_op-known op_addu value h = refl
decode_op-known op_and value h = refl
decode_op-known op_andi value h = refl
decode_op-known op_beq value h = refl
decode_op-known op_bgez value h = refl
decode_op-known op_bgezal value h = refl
decode_op-known op_bgtz value h = refl
decode_op-known op_blez value h = refl
decode_op-known op_bltz value h = refl
decode_op-known op_bltzal value h = refl
decode_op-known op_bne value h = refl
decode_op-known op_div value h = refl
decode_op-known op_divu value h = refl
decode_op-known op_j value h = refl
decode_op-known op_jal value h = refl
decode_op-known op_jalr value h = refl
decode_op-known op_jr value h = refl
decode_op-known op_lb value h = refl
decode_op-known op_lbu value h = refl
decode_op-known op_lh value h = refl
decode_op-known op_lhu value h = refl
decode_op-known op_lui value h = refl
decode_op-known op_lw value h = refl
decode_op-known op_lwl value h = refl
decode_op-known op_lwr value h = refl
decode_op-known op_mfhi value h = refl
decode_op-known op_mflo value h = refl
decode_op-known op_mthi value h = refl
decode_op-known op_mtlo value h = refl
decode_op-known op_mult value h = refl
decode_op-known op_multu value h = refl
decode_op-known op_nor value h = refl
decode_op-known op_or value h = refl
decode_op-known op_ori value h = refl
decode_op-known op_sb value h = refl
decode_op-known op_sh value h = refl
decode_op-known op_sll value h = refl
decode_op-known op_sllv value h = refl
decode_op-known op_slt value h = refl
decode_op-known op_slti value h = refl
decode_op-known op_sltiu value h = refl
decode_op-known op_sltu value h = refl
decode_op-known op_sra value h = refl
decode_op-known op_srav value h = refl
decode_op-known op_srl value h = refl
decode_op-known op_srlv value h = refl
decode_op-known op_sub value h = refl
decode_op-known op_subu value h = refl
decode_op-known op_sw value h = refl
decode_op-known op_swl value h = refl
decode_op-known op_swr value h = refl
decode_op-known op_xor value h = refl
decode_op-known op_xori value h = refl
decode_op-known op_syscall value h = refl
decode_op-known op_unimp value h = refl
decode_op-known op_res value h = refl
decode_op-known op_rfe value h = ground (arith, h)
decode_op-known special value h = all-get_or known special_table (value % 64) op_res refl refl
decode_op-known bcond value h = bcond-known value

pub decode-known : (value : ℕ) → known (decode value).op_code ≡ true
unfolding decode
decode-known value =
    decode_op-known
      (get_or op_table (value / 67108864 % 64) (record { op_code = op_res; format = ifmt })).op_code
      value
      (all-get_or (λ (info : OpInfo). in_table info.op_code) op_table (value / 67108864 % 64)
        (record { op_code = op_res; format = ifmt }) refl refl)

-- The register numbers of an instruction name general registers.
pub record HasFields (i : Instruction) : Type 0 where
  pub rs_lt : i.rs < 32
  pub rt_lt : i.rt < 32
  pub rd_lt : i.rd < 32

pub decode-HasFields : (value : ℕ) → HasFields (decode value)
unfolding decode
decode-HasFields value = record { rs_lt = omega arith; rt_lt = omega arith; rd_lt = omega arith }
