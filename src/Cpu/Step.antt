-- ===== src/Cpu/Step.antt =====
-- The switch of OneInstruction on the operation, and the routine around it
-- (nachos/nachos-3.4/code/machine/mipssim.cc). A case that the source enters by falling through
-- from another is written out in both.
use os_project2_nach_os.Base.{
  ℕ, ◌/◌, ◌%◌, Bool, true, false, ◌&&◌, not, Option, none, some, Result, ok, err, assertion_failed,
  wild_access, length, ◌>>=◌, bit_and, bit_or, bit_xor, ltb, ◌==◌, if◌then◌else◌,
}
use os_project2_nach_os.Memory.{
  ExceptionType, syscall_exception, overflow_exception, illegal_instr_exception, Machine,
}
use os_project2_nach_os.Memory.Access.{raise_exception, delayed_load, read_mem, load_value_reg}
use os_project2_nach_os.Decode.{
  Opcode, op_add, op_addi, op_addiu, op_addu, op_and, op_andi, op_beq, op_bgez, op_bgezal, op_bgtz,
  op_blez, op_bltz, op_bltzal, op_bne, op_div, op_divu, op_j, op_jal, op_jalr, op_jr, op_lb, op_lbu,
  op_lh, op_lhu, op_lui, op_lw, op_lwl, op_lwr, op_mfhi, op_mflo, op_mthi, op_mtlo, op_mult,
  op_multu, op_nor, op_or, op_ori, op_sb, op_sh, op_sll, op_sllv, op_slt, op_slti, op_sltiu,
  op_sltu, op_sra, op_srav, op_srl, op_srlv, op_sub, op_subu, op_sw, op_swl, op_swr, op_syscall,
  op_xor, op_xori, op_unimp, op_res, Instruction, decode,
}
use os_project2_nach_os.Mult.{is_negative, Double, mult}
use os_project2_nach_os.Cpu.{
  reg, with_reg, ret_addr_reg, hi_reg, lo_reg, pc_reg, next_pc_reg, prev_pc_reg, add32, sub32,
  invert, shift_left_by, shift_right_by, signs_differ, signed_lt, bool_int, index_to_addr, low_half,
  divide, Executed, broke, returned, following, put, put_hi_lo, branch, link,
}
use os_project2_nach_os.Cpu.Transfer.{
  address, byte_value, half_value, left_value, right_value, pending, store_left, store_right,
  assert_aligned, load_from, load_checked, store_to, store_merged,
}

-- A jump to an address.
abbrev pub jump : Machine → ℕ → Result Executed
jump m target = ok (broke m target 0 0)

-- (pcAfter & 0xf0000000) | IndexToAddr(instr->extra)
abbrev pub absolute_target : Machine → ℕ → ℕ
absolute_target m extra = bit_or (bit_and (following m) 4026531840) (index_to_addr extra)

abbrev pub put_product : Machine → Double → Result Executed
put_product m d = put_hi_lo m d.high d.low

-- The registers that an instruction may touch lie in the array: those that it names, and those
-- that the source names by a constant, of which the largest is LoadValueReg.
unfoldable pub check_registers : Machine → Instruction → Result (Unit {0})
check_registers m i =
    if ltb i.rs (length m.registers)
      && ltb i.rt (length m.registers)
      && ltb i.rd (length m.registers)
      && ltb load_value_reg (length m.registers)
    then ok tt
    else err wild_access

module _ (system_call : Machine → Result Machine) where
  abbrev pub raise_and_return : Machine → ExceptionType → Result Executed
  raise_and_return m which = raise_exception system_call m which 0 >>= λ m'. ok (returned m')

  -- ADD, ADDI and SUB: the result, or the exception for an overflow.
  abbrev pub put_checked : Machine → ℕ → ℕ → Bool → Result Executed
  put_checked m n v overflowed =
      if overflowed then raise_and_return m overflow_exception else put m n v

  -- The switch, in four parts by the order of the source. RFE, SPECIAL and BCOND have no case.
  unfoldable pub execute_sub_to_xori : Opcode → Machine → Instruction → Result Executed
  execute_sub_to_xori op_sub m i = put_checked m i.rd (sub32 (reg m i.rs) (reg m i.rt)) (
      signs_differ (reg m i.rs) (reg m i.rt)
      && signs_differ (reg m i.rs) (sub32 (reg m i.rs) (reg m i.rt)))
  execute_sub_to_xori op_subu m i = put m i.rd (sub32 (reg m i.rs) (reg m i.rt))
  execute_sub_to_xori op_sw m i = store_to system_call m (address m i) 4 (reg m i.rt)
  execute_sub_to_xori op_swl m i =
      store_merged system_call m (address m i)
        (λ m' v. store_left (address m i % 4) v (reg m' i.rt))
  execute_sub_to_xori op_swr m i =
      store_merged system_call m (address m i)
        (λ m' v. store_right (address m i % 4) v (reg m' i.rt))
  execute_sub_to_xori op_syscall m i = raise_and_return m syscall_exception
  execute_sub_to_xori op_xor m i = put m i.rd (bit_xor (reg m i.rs) (reg m i.rt))
  execute_sub_to_xori op_xori m i = put m i.rt (bit_xor (reg m i.rs) (low_half i.extra))
  execute_sub_to_xori op_unimp m i = raise_and_return m illegal_instr_exception
  execute_sub_to_xori op_res m i = raise_and_return m illegal_instr_exception
  execute_sub_to_xori other m i = err assertion_failed

  unfoldable pub execute_mfhi_to_srlv : Opcode → Machine → Instruction → Result Executed
  unfolding execute_sub_to_xori
  execute_mfhi_to_srlv op_mfhi m i = put m i.rd (reg m hi_reg)
  execute_mfhi_to_srlv op_mflo m i = put m i.rd (reg m lo_reg)
  execute_mfhi_to_srlv op_mthi m i = put m hi_reg (reg m i.rs)
  execute_mfhi_to_srlv op_mtlo m i = put m lo_reg (reg m i.rs)
  execute_mfhi_to_srlv op_mult m i = put_product m (mult (reg m i.rs) (reg m i.rt) true)
  execute_mfhi_to_srlv op_multu m i = put_product m (mult (reg m i.rs) (reg m i.rt) false)
  execute_mfhi_to_srlv op_nor m i = put m i.rd (invert (bit_or (reg m i.rs) (reg m i.rt)))
  execute_mfhi_to_srlv op_or m i = put m i.rd (bit_or (reg m i.rs) (reg m i.rs))
  execute_mfhi_to_srlv op_ori m i = put m i.rt (bit_or (reg m i.rs) (low_half i.extra))
  execute_mfhi_to_srlv op_sb m i = store_to system_call m (address m i) 1 (reg m i.rt)
  execute_mfhi_to_srlv op_sh m i = store_to system_call m (address m i) 2 (reg m i.rt)
  execute_mfhi_to_srlv op_sll m i = put m i.rd (shift_left_by (reg m i.rt) i.extra)
  execute_mfhi_to_srlv op_sllv m i = put m i.rd (shift_left_by (reg m i.rt) (reg m i.rs % 32))
  execute_mfhi_to_srlv op_slt m i = put m i.rd (bool_int (signed_lt (reg m i.rs) (reg m i.rt)))
  execute_mfhi_to_srlv op_slti m i = put m i.rt (bool_int (signed_lt (reg m i.rs) i.extra))
  execute_mfhi_to_srlv op_sltiu m i = put m i.rt (bool_int (ltb (reg m i.rs) i.extra))
  execute_mfhi_to_srlv op_sltu m i = put m i.rd (bool_int (ltb (reg m i.rs) (reg m i.rt)))
  execute_mfhi_to_srlv op_sra m i = put m i.rd (shift_right_by (reg m i.rt) i.extra)
  execute_mfhi_to_srlv op_srav m i = put m i.rd (shift_right_by (reg m i.rt) (reg m i.rs % 32))
  execute_mfhi_to_srlv op_srl m i = put m i.rd (shift_right_by (reg m i.rt) i.extra)
  execute_mfhi_to_srlv op_srlv m i = put m i.rd (shift_right_by (reg m i.rt) (reg m i.rs % 32))
  execute_mfhi_to_srlv other m i = execute_sub_to_xori other m i

  unfoldable pub execute_j_to_lwr : Opcode → Machine → Instruction → Result Executed
  unfolding execute_mfhi_to_srlv
  execute_j_to_lwr op_j m i = jump m (absolute_target m i.extra)
  execute_j_to_lwr op_jal m i = let m' = link m ret_addr_reg in jump m' (absolute_target m' i.extra)
  execute_j_to_lwr op_jalr m i = let m' = link m i.rd in jump m' (reg m' i.rs)
  execute_j_to_lwr op_jr m i = jump m (reg m i.rs)
  execute_j_to_lwr op_lb m i =
      load_from system_call m (address m i) 1 i.rt (λ _ v. byte_value true v)
  execute_j_to_lwr op_lbu m i =
      load_from system_call m (address m i) 1 i.rt (λ _ v. byte_value false v)
  execute_j_to_lwr op_lh m i =
      load_checked system_call m (address m i) 2 i.rt (λ _ v. half_value true v)
  execute_j_to_lwr op_lhu m i =
      load_checked system_call m (address m i) 2 i.rt (λ _ v. half_value false v)
  execute_j_to_lwr op_lui m i = put m i.rt (shift_left_by i.extra 16)
  execute_j_to_lwr op_lw m i = load_checked system_call m (address m i) 4 i.rt (λ _ v. v)
  execute_j_to_lwr op_lwl m i = assert_aligned (address m i) >>= λ _.
      load_from system_call m (address m i) 4 i.rt
        (λ m' v. left_value (address m i % 4) (pending m' i.rt) v)
  execute_j_to_lwr op_lwr m i = assert_aligned (address m i) >>= λ _.
      load_from system_call m (address m i) 4 i.rt
        (λ m' v. right_value (address m i % 4) (pending m' i.rt) v)
  execute_j_to_lwr other m i = execute_mfhi_to_srlv other m i

  unfoldable pub execute_add_to_divu : Opcode → Machine → Instruction → Result Executed
  unfolding execute_j_to_lwr
  execute_add_to_divu op_add m i = put_checked m i.rd (add32 (reg m i.rs) (reg m i.rt)) (
      not (signs_differ (reg m i.rs) (reg m i.rt))
      && signs_differ (reg m i.rs) (add32 (reg m i.rs) (reg m i.rt)))
  execute_add_to_divu op_addi m i =
      put_checked m i.rt (add32 (reg m i.rs) i.extra) (
        not (signs_differ (reg m i.rs) i.extra)
        && signs_differ i.extra (add32 (reg m i.rs) i.extra))
  execute_add_to_divu op_addiu m i = put m i.rt (add32 (reg m i.rs) i.extra)
  execute_add_to_divu op_addu m i = put m i.rd (add32 (reg m i.rs) (reg m i.rt))
  execute_add_to_divu op_and m i = put m i.rd (bit_and (reg m i.rs) (reg m i.rt))
  execute_add_to_divu op_andi m i = put m i.rt (bit_and (reg m i.rs) (low_half i.extra))
  execute_add_to_divu op_beq m i = branch m i.extra (reg m i.rs == reg m i.rt)
  execute_add_to_divu op_bgez m i = branch m i.extra (not (is_negative (reg m i.rs)))
  execute_add_to_divu op_bgezal m i =
      let m' = link m ret_addr_reg in branch m' i.extra (not (is_negative (reg m' i.rs)))
  execute_add_to_divu op_bgtz m i = branch m i.extra (signed_lt 0 (reg m i.rs))
  execute_add_to_divu op_blez m i = branch m i.extra (not (signed_lt 0 (reg m i.rs)))
  execute_add_to_divu op_bltz m i = branch m i.extra (is_negative (reg m i.rs))
  execute_add_to_divu op_bltzal m i =
      let m' = link m ret_addr_reg in branch m' i.extra (is_negative (reg m' i.rs))
  execute_add_to_divu op_bne m i = branch m i.extra (not (reg m i.rs == reg m i.rt))
  execute_add_to_divu op_div m i =
      if reg m i.rt == 0
      then put_hi_lo m 0 0
      else (divide (reg m i.rs) (reg m i.rt) >>= λ (q, r). put_hi_lo m r q)
  execute_add_to_divu op_divu m i =
      if reg m i.rt == 0
      then put_hi_lo m 0 0
      else put_hi_lo m (reg m i.rs % reg m i.rt) (reg m i.rs / reg m i.rt)
  execute_add_to_divu other m i = execute_j_to_lwr other m i

  unfoldable pub execute : Opcode → Machine → Instruction → Result Executed
  unfolding execute_add_to_divu
  execute op m i = execute_add_to_divu op m i

  -- DelayedLoad, and the program counters.
  abbrev pub advance : Machine → ℕ → Machine
  advance m pc_after =
      with_reg (with_reg (with_reg m prev_pc_reg (reg m pc_reg)) pc_reg (reg m next_pc_reg))
        next_pc_reg pc_after

  abbrev pub retire : Executed → Result Machine
  retire (returned m) = ok m
  retire (broke m pc_after load value) =
      delayed_load m load value >>= λ m'. ok (advance m' pc_after)

  abbrev pub run_word : Option ℕ × Machine → Result Machine
  run_word (none, m) = ok m
  run_word (some raw, m) =
      decode raw >>= λ i. check_registers m i >>= λ checked. execute i.op_code m i >>= retire

  unfoldable pub one_instruction : Machine → Result Machine
  unfolding read_mem decode check_registers execute delayed_load
  one_instruction m = read_mem system_call m (reg m pc_reg) 4 >>= run_word
