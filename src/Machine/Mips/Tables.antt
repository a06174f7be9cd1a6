-- ===== src/Machine/Mips/Tables.antt =====
-- code/machine/mipssim.h: the operation codes and the tables that decode them.
use my_nachos.Base.{List, [], ◌∷◌}

-- The OP_ codes that an instruction can decode to, then SPECIAL and BCOND, which stand in the table only.
pub data Op : Type 0 where
  op_add : Op
  op_addi : Op
  op_addiu : Op
  op_addu : Op
  op_and : Op
  op_andi : Op
  op_beq : Op
  op_bgez : Op
  op_bgezal : Op
  op_bgtz : Op
  op_blez : Op
  op_bltz : Op
  op_bltzal : Op
  op_bne : Op
  op_div : Op
  op_divu : Op
  op_j : Op
  op_jal : Op
  op_jalr : Op
  op_jr : Op
  op_lb : Op
  op_lbu : Op
  op_lh : Op
  op_lhu : Op
  op_lui : Op
  op_lw : Op
  op_lwl : Op
  op_lwr : Op
  op_mfhi : Op
  op_mflo : Op
  op_mthi : Op
  op_mtlo : Op
  op_mult : Op
  op_multu : Op
  op_nor : Op
  op_or : Op
  op_ori : Op
  op_rfe : Op
  op_sb : Op
  op_sh : Op
  op_sll : Op
  op_sllv : Op
  op_slt : Op
  op_slti : Op
  op_sltiu : Op
  op_sltu : Op
  op_sra : Op
  op_srav : Op
  op_srl : Op
  op_srlv : Op
  op_sub : Op
  op_subu : Op
  op_sw : Op
  op_swl : Op
  op_swr : Op
  op_xor : Op
  op_xori : Op
  op_syscall : Op
  op_unimp : Op
  op_res : Op
  special : Op
  bcond : Op

pub data Format : Type 0 where
  ifmt : Format
  jfmt : Format
  rfmt : Format

pub record OpInfo : Type 0 where
  pub op_code : Op
  pub format : Format

abbrev i_format : Op → OpInfo
i_format op = record { op_code = op; format = ifmt }

abbrev pub op_table : List OpInfo
op_table =
    record { op_code = special; format = rfmt }
    ∷ i_format bcond
    ∷ record { op_code = op_j; format = jfmt }
    ∷ record { op_code = op_jal; format = jfmt }
    ∷ i_format op_beq
    ∷ i_format op_bne
    ∷ i_format op_blez
    ∷ i_format op_bgtz
    ∷ i_format op_addi
    ∷ i_format op_addiu
    ∷ i_format op_slti
    ∷ i_format op_sltiu
    ∷ i_format op_andi
    ∷ i_format op_ori
    ∷ i_format op_xori
    ∷ i_format op_lui
    ∷ i_format op_unimp
    ∷ i_format op_unimp
    ∷ i_format op_unimp
    ∷ i_format op_unimp
    ∷ i_format op_res
    ∷ i_format op_res
    ∷ i_format op_res
    ∷ i_format op_res
    ∷ i_format op_res
    ∷ i_format op_res
    ∷ i_format op_res
    ∷ i_format op_res
    ∷ i_format op_res
    ∷ i_format op_res
    ∷ i_format op_res
    ∷ i_format op_res
    ∷ i_format op_lb
    ∷ i_format op_lh
    ∷ i_format op_lwl
    ∷ i_format op_lw
    ∷ i_format op_lbu
    ∷ i_format op_lhu
    ∷ i_format op_lwr
    ∷ i_format op_res
    ∷ i_format op_sb
    ∷ i_format op_sh
    ∷ i_format op_swl
    ∷ i_format op_sw
    ∷ i_format op_res
    ∷ i_format op_res
    ∷ i_format op_swr
    ∷ i_format op_res
    ∷ i_format op_unimp
    ∷ i_format op_unimp
    ∷ i_format op_unimp
    ∷ i_format op_unimp
    ∷ i_format op_res
    ∷ i_format op_res
    ∷ i_format op_res
    ∷ i_format op_res
    ∷ i_format op_unimp
    ∷ i_format op_unimp
    ∷ i_format op_unimp
    ∷ i_format op_unimp
    ∷ i_format op_res
    ∷ i_format op_res
    ∷ i_format op_res
    ∷ i_format op_res
    ∷ []

abbrev pub special_table : List Op
special_table =
    op_sll ∷ op_res ∷ op_srl ∷ op_sra ∷ op_sllv ∷ op_res ∷ op_srlv ∷ op_srav ∷ op_jr ∷ op_jalr
    ∷ op_res ∷ op_res ∷ op_syscall ∷ op_unimp ∷ op_res ∷ op_res ∷ op_mfhi ∷ op_mthi ∷ op_mflo
    ∷ op_mtlo ∷ op_res ∷ op_res ∷ op_res ∷ op_res ∷ op_mult ∷ op_multu ∷ op_div ∷ op_divu ∷ op_res
    ∷ op_res ∷ op_res ∷ op_res ∷ op_add ∷ op_addu ∷ op_sub ∷ op_subu ∷ op_and ∷ op_or ∷ op_xor
    ∷ op_nor ∷ op_res ∷ op_res ∷ op_slt ∷ op_sltu ∷ op_res ∷ op_res ∷ op_res ∷ op_res ∷ op_res
    ∷ op_res ∷ op_res ∷ op_res ∷ op_res ∷ op_res ∷ op_res ∷ op_res ∷ op_res ∷ op_res ∷ op_res
    ∷ op_res ∷ op_res ∷ op_res ∷ op_res ∷ op_res ∷ []
