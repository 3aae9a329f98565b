-- ===== src/Cpu/Execute.antt =====
-- The switch of OneInstruction, case by case: each keeps the machine's state.
use native.Mathlib.Nat.{div-le_self, mod-le}
use os_project2_nach_os.Base.{
  ℕ, ◌/◌, ◌%◌, ◌<◌, inl, inr, refl, Bool, true, false, ◌&&◌, not, Result, ◌>>=◌, Ends, >>=-Ends,
  at_assertion, bit_and, bit_or, bit_xor, ltb, ◌==◌, Bool-cases, if◌then◌else◌, arith,
}
use os_project2_nach_os.Base.Bits.{bit_and-le, bit_or-lt, bit_xor-lt}
use os_project2_nach_os.Memory.{Machine, syscall_exception, illegal_instr_exception}
use os_project2_nach_os.Decode.{
  Opcode, op_add, op_addi, op_addiu, op_addu, op_and, op_andi, op_beq, op_bgez, op_bgezal, op_bgtz,
  op_blez, op_bltz, op_bltzal, op_bne, op_div, op_divu, op_j, op_jal, op_jalr, op_jr, op_lb, op_lbu,
  op_lh, op_lhu, op_lui, op_lw, op_lwl, op_lwr, op_mfhi, op_mflo, op_mthi, op_mtlo, op_mult,
  op_multu, op_nor, op_or, op_ori, op_rfe, op_sb, op_sh, op_sll, op_sllv, op_slt, op_slti, op_sltiu,
  op_sltu, op_sra, op_srav, op_srl, op_srlv, op_sub, op_subu, op_sw, op_swl, op_swr, op_syscall,
  op_xor, op_xori, op_unimp, op_res, special, bcond, Instruction,
}
use os_project2_nach_os.Mult.{word, is_negative, mult}
use os_project2_nach_os.Mult.Product.{mult-product}
use os_project2_nach_os.Cpu.{
  reg, ret_addr_reg, hi_reg, lo_reg, add32, sub32, invert, shift_left_by, shift_right_by,
  signs_differ, signed_lt, bool_int, index_to_addr, low_half, divide, following, put_hi_lo, link,
}
use os_project2_nach_os.Cpu.Transfer.{
  address, byte_value, half_value, left_value, right_value, pending, store_left, store_right,
}
use os_project2_nach_os.Cpu.Step.{absolute_target, put_product, execute}
use os_project2_nach_os.Cpu.State.{IsMachine}
use os_project2_nach_os.Cpu.Memory.{KeepsState}
use os_project2_nach_os.Cpu.Keeps.{
  ExecutedDone, IsFields, put_done, put_hi_lo_done, jump_done, branch_done, link-IsMachine,
  shift_right_times-lt, divide-Ends, bool_int-lt, byte_value-lt, half_value-lt, left_value-lt,
  right_value-lt, pending-lt, raise_done, put_checked_done, load_done, load_checked_done,
  aligned_load_done, store_done, store_merged_done,
}

and-lt : (a b : ℕ) → a < word → bit_and a b < word
and-lt a b h = omega (arith, bit_and-le a a b (omega arith))

target-lt : (m : Machine) (extra : ℕ) → absolute_target m extra < word
target-lt m extra =
    bit_or-lt 32 (bit_and (following m) 4026531840) (index_to_addr extra)
      (and-lt (following m) 4026531840 (omega arith)) (omega arith)

product_done :
    (m : Machine) (a b : ℕ) (signed_arith : Bool)
    → a < word
    → b < word
    → IsMachine m
    → Ends ExecutedDone (put_product m (mult a b signed_arith))
product_done m a b signed_arith ha hb g =
    let (product, high, low) = mult-product a b signed_arith ha hb in
    put_hi_lo_done m (mult a b signed_arith).high (mult a b signed_arith).low high low g

div_done :
    (m : Machine) (a b : ℕ)
    → a < word
    → IsMachine m
    → Ends ExecutedDone
        (if b == 0 then put_hi_lo m 0 0 else (divide a b >>= λ (q, r). put_hi_lo m r q))
div_done m a b ha g = elim (Bool-cases (b == 0)) [
  | inl by_zero ↦ rw (by_zero) (put_hi_lo_done m 0 0 (omega arith) (omega arith) g)
  | inr fine ↦ rw (fine) (
      >>=-Ends (λ (q, r). (q < word) × (r < word)) ExecutedDone (divide a b)
        (λ (q, r). put_hi_lo m r q) (divide-Ends a b ha)
        (λ (q, r) (hq, hr). put_hi_lo_done m r q hr hq g))
]

divu_done :
    (m : Machine) (a b : ℕ)
    → a < word
    → IsMachine m
    → Ends ExecutedDone (if b == 0 then put_hi_lo m 0 0 else put_hi_lo m (a % b) (a / b))
divu_done m a b ha g = elim (Bool-cases (b == 0)) [
  | inl by_zero ↦ rw (by_zero) (put_hi_lo_done m 0 0 (omega arith) (omega arith) g)
  | inr fine ↦ rw (fine) (
      put_hi_lo_done m (a % b) (a / b) (omega (arith, mod-le a b)) (omega (arith, div-le_self a b))
        g)
]

module _ (system_call : Machine → Result Machine) (keeps : KeepsState system_call) where
  pub execute_done :
      (op : Opcode) (m : Machine) (i : Instruction)
      → IsMachine m
      → IsFields i
      → Ends ExecutedDone (execute system_call op m i)
  unfolding execute
  execute_done op_add m i g f =
      put_checked_done system_call keeps m i.rd (add32 (reg m i.rs) (reg m i.rt))
        (not (signs_differ (reg m i.rs) (reg m i.rt))
          && signs_differ (reg m i.rs) (add32 (reg m i.rs) (reg m i.rt)))
        (omega (arith, f.rd_below)) (omega arith) g
  execute_done op_addi m i g f =
      put_checked_done system_call keeps m i.rt (add32 (reg m i.rs) i.extra)
        (not (signs_differ (reg m i.rs) i.extra)
          && signs_differ i.extra (add32 (reg m i.rs) i.extra))
        (omega (arith, f.rt_below)) (omega arith) g
  execute_done op_addiu m i g f =
      put_done m i.rt (add32 (reg m i.rs) i.extra) (omega (arith, f.rt_below)) (omega arith) g
  execute_done op_addu m i g f =
      put_done m i.rd (add32 (reg m i.rs) (reg m i.rt)) (omega (arith, f.rd_below)) (omega arith) g
  execute_done op_and m i g f =
      put_done m i.rd (bit_and (reg m i.rs) (reg m i.rt)) (omega (arith, f.rd_below))
        (and-lt (reg m i.rs) (reg m i.rt) (g.words i.rs)) g
  execute_done op_andi m i g f =
      put_done m i.rt (bit_and (reg m i.rs) (low_half i.extra)) (omega (arith, f.rt_below))
        (and-lt (reg m i.rs) (low_half i.extra) (g.words i.rs)) g
  execute_done op_beq m i g f = branch_done m i.extra (reg m i.rs == reg m i.rt) g
  execute_done op_bgez m i g f = branch_done m i.extra (not (is_negative (reg m i.rs))) g
  execute_done op_bgezal m i g f =
      branch_done (link m ret_addr_reg) i.extra (not (is_negative (reg (link m ret_addr_reg) i.rs)))
        (link-IsMachine m ret_addr_reg (omega arith) g)
  execute_done op_bgtz m i g f = branch_done m i.extra (signed_lt 0 (reg m i.rs)) g
  execute_done op_blez m i g f = branch_done m i.extra (not (signed_lt 0 (reg m i.rs))) g
  execute_done op_bltz m i g f = branch_done m i.extra (is_negative (reg m i.rs)) g
  execute_done op_bltzal m i g f =
      branch_done (link m ret_addr_reg) i.extra (is_negative (reg (link m ret_addr_reg) i.rs))
        (link-IsMachine m ret_addr_reg (omega arith) g)
  execute_done op_bne m i g f = branch_done m i.extra (not (reg m i.rs == reg m i.rt)) g
  execute_done op_div m i g f = div_done m (reg m i.rs) (reg m i.rt) (g.words i.rs) g
  execute_done op_divu m i g f = divu_done m (reg m i.rs) (reg m i.rt) (g.words i.rs) g
  execute_done op_j m i g f = jump_done m (absolute_target m i.extra) (target-lt m i.extra) g
  execute_done op_jal m i g f =
      jump_done (link m ret_addr_reg) (absolute_target (link m ret_addr_reg) i.extra)
        (target-lt (link m ret_addr_reg) i.extra) (link-IsMachine m ret_addr_reg (omega arith) g)
  execute_done op_jalr m i g f =
      let g' = link-IsMachine m i.rd f.rd_below g in
      jump_done (link m i.rd) (reg (link m i.rd) i.rs) (g'.words i.rs) g'
  execute_done op_jr m i g f = jump_done m (reg m i.rs) (g.words i.rs) g
  execute_done op_lb m i g f =
      load_done system_call keeps m (address m i) 1 i.rt (λ _ v. byte_value true v) (omega arith)
        refl f.rt_below (λ _ v _ _. byte_value-lt true v) g
  execute_done op_lbu m i g f =
      load_done system_call keeps m (address m i) 1 i.rt (λ _ v. byte_value false v) (omega arith)
        refl f.rt_below (λ _ v _ _. byte_value-lt false v) g
  execute_done op_lh m i g f =
      load_checked_done system_call keeps m (address m i) 2 i.rt (λ _ v. half_value true v)
        (omega arith) refl f.rt_below (λ _ v _ _. half_value-lt true v) g
  execute_done op_lhu m i g f =
      load_checked_done system_call keeps m (address m i) 2 i.rt (λ _ v. half_value false v)
        (omega arith) refl f.rt_below (λ _ v _ _. half_value-lt false v) g
  execute_done op_lui m i g f =
      put_done m i.rt (shift_left_by i.extra 16) (omega (arith, f.rt_below)) (omega arith) g
  execute_done op_lw m i g f =
      load_checked_done system_call keeps m (address m i) 4 i.rt (λ _ v. v) (omega arith) refl
        f.rt_below (λ _ v _ h. h) g
  execute_done op_lwl m i g f =
      aligned_load_done system_call keeps m (address m i) i.rt
        (λ n v. left_value (address m i % 4) (pending n i.rt) v) (omega arith) f.rt_below
        (λ n v gn h. left_value-lt (address m i % 4) (pending n i.rt) v (pending-lt n i.rt gn) h) g
  execute_done op_lwr m i g f =
      aligned_load_done system_call keeps m (address m i) i.rt
        (λ n v. right_value (address m i % 4) (pending n i.rt) v) (omega arith) f.rt_below
        (λ n v gn h. right_value-lt (address m i % 4) (pending n i.rt) v (pending-lt n i.rt gn) h) g
  execute_done op_mfhi m i g f =
      put_done m i.rd (reg m hi_reg) (omega (arith, f.rd_below)) (g.words hi_reg) g
  execute_done op_mflo m i g f =
      put_done m i.rd (reg m lo_reg) (omega (arith, f.rd_below)) (g.words lo_reg) g
  execute_done op_mthi m i g f = put_done m hi_reg (reg m i.rs) (omega arith) (g.words i.rs) g
  execute_done op_mtlo m i g f = put_done m lo_reg (reg m i.rs) (omega arith) (g.words i.rs) g
  execute_done op_mult m i g f =
      product_done m (reg m i.rs) (reg m i.rt) true (g.words i.rs) (g.words i.rt) g
  execute_done op_multu m i g f =
      product_done m (reg m i.rs) (reg m i.rt) false (g.words i.rs) (g.words i.rt) g
  execute_done op_nor m i g f =
      put_done m i.rd (invert (bit_or (reg m i.rs) (reg m i.rt))) (omega (arith, f.rd_below))
        (omega arith) g
  execute_done op_or m i g f =
      put_done m i.rd (bit_or (reg m i.rs) (reg m i.rs)) (omega (arith, f.rd_below))
        (bit_or-lt 32 (reg m i.rs) (reg m i.rs) (g.words i.rs) (g.words i.rs)) g
  execute_done op_ori m i g f =
      put_done m i.rt (bit_or (reg m i.rs) (low_half i.extra)) (omega (arith, f.rt_below))
        (bit_or-lt 32 (reg m i.rs) (low_half i.extra) (g.words i.rs) (omega arith)) g
  execute_done op_rfe m i g f = at_assertion
  execute_done op_sb m i g f =
      store_done system_call keeps m (address m i) 1 (reg m i.rt) (omega arith) refl g
  execute_done op_sh m i g f =
      store_done system_call keeps m (address m i) 2 (reg m i.rt) (omega arith) refl g
  execute_done op_sll m i g f =
      put_done m i.rd (shift_left_by (reg m i.rt) i.extra) (omega (arith, f.rd_below)) (omega arith)
        g
  execute_done op_sllv m i g f =
      put_done m i.rd (shift_left_by (reg m i.rt) (reg m i.rs % 32)) (omega (arith, f.rd_below))
        (omega arith) g
  execute_done op_slt m i g f =
      put_done m i.rd (bool_int (signed_lt (reg m i.rs) (reg m i.rt))) (omega (arith, f.rd_below))
        (bool_int-lt (signed_lt (reg m i.rs) (reg m i.rt))) g
  execute_done op_slti m i g f =
      put_done m i.rt (bool_int (signed_lt (reg m i.rs) i.extra)) (omega (arith, f.rt_below))
        (bool_int-lt (signed_lt (reg m i.rs) i.extra)) g
  execute_done op_sltiu m i g f =
      put_done m i.rt (bool_int (ltb (reg m i.rs) i.extra)) (omega (arith, f.rt_below))
        (bool_int-lt (ltb (reg m i.rs) i.extra)) g
  execute_done op_sltu m i g f =
      put_done m i.rd (bool_int (ltb (reg m i.rs) (reg m i.rt))) (omega (arith, f.rd_below))
        (bool_int-lt (ltb (reg m i.rs) (reg m i.rt))) g
  execute_done op_sra m i g f =
      put_done m i.rd (shift_right_by (reg m i.rt) i.extra) (omega (arith, f.rd_below))
        (shift_right_times-lt (i.extra % 32) (reg m i.rt) (g.words i.rt)) g
  execute_done op_srav m i g f =
      put_done m i.rd (shift_right_by (reg m i.rt) (reg m i.rs % 32)) (omega (arith, f.rd_below))
        (shift_right_times-lt (reg m i.rs % 32 % 32) (reg m i.rt) (g.words i.rt)) g
  execute_done op_srl m i g f =
      put_done m i.rd (shift_right_by (reg m i.rt) i.extra) (omega (arith, f.rd_below))
        (shift_right_times-lt (i.extra % 32) (reg m i.rt) (g.words i.rt)) g
  execute_done op_srlv m i g f =
      put_done m i.rd (shift_right_by (reg m i.rt) (reg m i.rs % 32)) (omega (arith, f.rd_below))
        (shift_right_times-lt (reg m i.rs % 32 % 32) (reg m i.rt) (g.words i.rt)) g
  execute_done op_sub m i g f =
      put_checked_done system_call keeps m i.rd (sub32 (reg m i.rs) (reg m i.rt))
        (signs_differ (reg m i.rs) (reg m i.rt)
          && signs_differ (reg m i.rs) (sub32 (reg m i.rs) (reg m i.rt)))
        (omega (arith, f.rd_below)) (omega arith) g
  execute_done op_subu m i g f =
      put_done m i.rd (sub32 (reg m i.rs) (reg m i.rt)) (omega (arith, f.rd_below)) (omega arith) g
  execute_done op_sw m i g f =
      store_done system_call keeps m (address m i) 4 (reg m i.rt) (omega arith) refl g
  execute_done op_swl m i g f =
      store_merged_done system_call keeps m (address m i)
        (λ n v. store_left (address m i % 4) v (reg n i.rt)) (omega arith) g
  execute_done op_swr m i g f =
      store_merged_done system_call keeps m (address m i)
        (λ n v. store_right (address m i % 4) v (reg n i.rt)) (omega arith) g
  execute_done op_syscall m i g f =
      raise_done system_call keeps m syscall_exception 0 (omega arith) g
  execute_done op_xor m i g f =
      put_done m i.rd (bit_xor (reg m i.rs) (reg m i.rt)) (omega (arith, f.rd_below))
        (bit_xor-lt 32 (reg m i.rs) (reg m i.rt) (g.words i.rs) (g.words i.rt)) g
  execute_done op_xori m i g f =
      put_done m i.rt (bit_xor (reg m i.rs) (low_half i.extra)) (omega (arith, f.rt_below))
        (bit_xor-lt 32 (reg m i.rs) (low_half i.extra) (g.words i.rs) (omega arith)) g
  execute_done op_unimp m i g f =
      raise_done system_call keeps m illegal_instr_exception 0 (omega arith) g
  execute_done op_res m i g f =
      raise_done system_call keeps m illegal_instr_exception 0 (omega arith) g
  execute_done special m i g f = at_assertion
  execute_done bcond m i g f = at_assertion
