-- ===== src/Decode.antt =====
-- nachos/nachos-3.4/code/machine/mipssim.h (the operation codes and their tables) and Decode of
-- machine/mipssim.cc: an instruction word taken apart. `(value >> k) & mask` is a quotient and a
-- remainder here, and `extra`, an int, is its 32-bit pattern.
pub mod Fields
mod Examples
use os_project2_nach_os.Base.{
  ℕ, ◌+◌, ◌*◌, ◌/◌, ◌%◌, ◌^◌, List, [], ◌∷◌, Result, ok, or_wild, ◌>>=◌, get_elem?, leb, ◌==◌,
  if◌then◌else◌,
}

-- SPECIAL and BCOND only stand in the first table.
pub data Opcode : Type 0 where
  op_add op_addi op_addiu op_addu op_and op_andi op_beq : Opcode
  op_bgez op_bgezal op_bgtz op_blez op_bltz op_bltzal op_bne : Opcode
  op_div op_divu op_j op_jal op_jalr op_jr op_lb : Opcode
  op_lbu op_lh op_lhu op_lui op_lw op_lwl op_lwr : Opcode
  op_mfhi op_mflo op_mthi op_mtlo op_mult op_multu op_nor : Opcode
  op_or op_ori op_rfe op_sb op_sh op_sll op_sllv : Opcode
  op_slt op_slti op_sltiu op_sltu op_sra op_srav op_srl : Opcode
  op_srlv op_sub op_subu op_sw op_swl op_swr op_xor : Opcode
  op_xori op_syscall op_unimp op_res : Opcode
  special bcond : Opcode

pub data Format : Type 0 where
  ifmt jfmt rfmt : Format

pub record OpInfo : Type 0 where
  pub op_code : Opcode
  pub format : Format

abbrev info : Opcode → Format → OpInfo
info o f = record { op_code = o; format = f }

abbrev pub op_table : List OpInfo
op_table =
    info special rfmt
    ∷ info bcond ifmt
    ∷ info op_j jfmt
    ∷ info op_jal jfmt
    ∷ info op_beq ifmt
    ∷ info op_bne ifmt
    ∷ info op_blez ifmt
    ∷ info op_bgtz ifmt
    ∷ info op_addi ifmt
    ∷ info op_addiu ifmt
    ∷ info op_slti ifmt
    ∷ info op_sltiu ifmt
    ∷ info op_andi ifmt
    ∷ info op_ori ifmt
    ∷ info op_xori ifmt
    ∷ info op_lui ifmt
    ∷ info op_unimp ifmt
    ∷ info op_unimp ifmt
    ∷ info op_unimp ifmt
    ∷ info op_unimp ifmt
    ∷ info op_res ifmt
    ∷ info op_res ifmt
    ∷ info op_res ifmt
    ∷ info op_res ifmt
    ∷ info op_res ifmt
    ∷ info op_res ifmt
    ∷ info op_res ifmt
    ∷ info op_res ifmt
    ∷ info op_res ifmt
    ∷ info op_res ifmt
    ∷ info op_res ifmt
    ∷ info op_res ifmt
    ∷ info op_lb ifmt
    ∷ info op_lh ifmt
    ∷ info op_lwl ifmt
    ∷ info op_lw ifmt
    ∷ info op_lbu ifmt
    ∷ info op_lhu ifmt
    ∷ info op_lwr ifmt
    ∷ info op_res ifmt
    ∷ info op_sb ifmt
    ∷ info op_sh ifmt
    ∷ info op_swl ifmt
    ∷ info op_sw ifmt
    ∷ info op_res ifmt
    ∷ info op_res ifmt
    ∷ info op_swr ifmt
    ∷ info op_res ifmt
    ∷ info op_unimp ifmt
    ∷ info op_unimp ifmt
    ∷ info op_unimp ifmt
    ∷ info op_unimp ifmt
    ∷ info op_res ifmt
    ∷ info op_res ifmt
    ∷ info op_res ifmt
    ∷ info op_res ifmt
    ∷ info op_unimp ifmt
    ∷ info op_unimp ifmt
    ∷ info op_unimp ifmt
    ∷ info op_unimp ifmt
    ∷ info op_res ifmt
    ∷ info op_res ifmt
    ∷ info op_res ifmt
    ∷ info op_res ifmt
    ∷ []

abbrev pub special_table : List Opcode
special_table =
    op_sll ∷ op_res ∷ op_srl ∷ op_sra ∷ op_sllv ∷ op_res ∷ op_srlv ∷ op_srav ∷ op_jr ∷ op_jalr
    ∷ op_res ∷ op_res ∷ op_syscall ∷ op_unimp ∷ op_res ∷ op_res ∷ op_mfhi ∷ op_mthi ∷ op_mflo
    ∷ op_mtlo ∷ op_res ∷ op_res ∷ op_res ∷ op_res ∷ op_mult ∷ op_multu ∷ op_div ∷ op_divu ∷ op_res
    ∷ op_res ∷ op_res ∷ op_res ∷ op_add ∷ op_addu ∷ op_sub ∷ op_subu ∷ op_and ∷ op_or ∷ op_xor
    ∷ op_nor ∷ op_res ∷ op_res ∷ op_slt ∷ op_sltu ∷ op_res ∷ op_res ∷ op_res ∷ op_res ∷ op_res
    ∷ op_res ∷ op_res ∷ op_res ∷ op_res ∷ op_res ∷ op_res ∷ op_res ∷ op_res ∷ op_res ∷ op_res
    ∷ op_res ∷ op_res ∷ op_res ∷ op_res ∷ op_res ∷ []

pub record Instruction : Type 0 where
  pub value : ℕ
  pub op_code : Opcode
  pub rs : ℕ
  pub rt : ℕ
  pub rd : ℕ
  pub extra : ℕ

abbrev pub sign_extend : ℕ → ℕ
sign_extend v = if leb 32768 v then v + 4294901760 else v

abbrev pub extra_of : Format → ℕ → ℕ
extra_of format value = elim format [
  | ifmt ↦ sign_extend (value % 65536)
  | rfmt ↦ value / 64 % 32
  | jfmt ↦ value % 67108864
]

-- value & 0x1f0000
abbrev pub bcond_bits : ℕ → ℕ
bcond_bits value = value / 65536 % 32 * 65536

abbrev pub branch_code : ℕ → Opcode
branch_code i =
    if i == 0
    then op_bltz
    else (if i == 65536
        then op_bgez
        else (if i == 1048576 then op_bltzal else (if i == 1114112 then op_bgezal else op_unimp)))

abbrev pub op_code_of : Opcode → ℕ → Result Opcode
op_code_of code value = elim code [
  | special ↦ or_wild (get_elem? special_table (value % 64))
  | bcond ↦ ok (branch_code (bcond_bits value))
  | plain ↦ ok plain
]

unfoldable pub decode : ℕ → Result Instruction
decode value = do
  entry ← or_wild (get_elem? op_table (value / 67108864 % 64))
  code ← op_code_of entry.op_code value
  ok (record {
    value = value;
    op_code = code;
    rs = value / 2097152 % 32;
    rt = value / 65536 % 32;
    rd = value / 2048 % 32;
    extra = extra_of entry.format value;
  })
