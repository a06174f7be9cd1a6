-- ===== src/Machine/Mips/Decode.antt =====
-- code/machine/mipssim.cc: `Instruction` and `Instruction::Decode`.
use my_nachos.Base.{ℕ, ◌+◌, ◌*◌, ◌/◌, ◌%◌, if◌then◌else◌, leb, ◌==◌, get_or}
use my_nachos.Machine.Mips.Tables.{
  Op, op_bltz, op_bgez, op_bltzal, op_bgezal, op_unimp, op_res, special, bcond, Format, ifmt, jfmt,
  rfmt, OpInfo, op_table, special_table,
}

pub record Instruction : Type 0 where
  pub value : ℕ
  pub op_code : Op
  pub rs : ℕ
  pub rt : ℕ
  pub rd : ℕ
  pub extra : ℕ

-- A mask of low bits is a remainder. An immediate is sign-extended to a word.
unfoldable pub decode_extra : Format → ℕ → ℕ
decode_extra ifmt value = let low = value % 65536 in if leb 32768 low then low + 4294901760 else low
decode_extra rfmt value = value / 64 % 32
decode_extra jfmt value = value % 67108864

-- `value & 0x1f0000` is the field rt, shifted.
unfoldable pub decode_bcond : ℕ → Op
decode_bcond value =
    let i = value / 65536 % 32 * 65536 in
    if i == 0
    then op_bltz
    else (if i == 65536
        then op_bgez
        else (if i == 1048576 then op_bltzal else (if i == 1114112 then op_bgezal else op_unimp)))

unfoldable pub decode_op : Op → ℕ → Op
decode_op special value = get_or special_table (value % 64) op_res
decode_op bcond value = decode_bcond value
decode_op op value = op

unfoldable pub decode : ℕ → Instruction
decode value =
    let info : OpInfo =
      get_or op_table (value / 67108864 % 64) (record { op_code = op_res; format = ifmt }) in
    record {
      value = value;
      op_code = decode_op info.op_code value;
      rs = value / 2097152 % 32;
      rt = value / 65536 % 32;
      rd = value / 2048 % 32;
      extra = decode_extra info.format value;
    }
