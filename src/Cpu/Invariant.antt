-- ===== src/Cpu/Invariant.antt =====
-- OneInstruction keeps the machine's state, whatever word it runs.
use os_project2_nach_os.Base.{
  ℕ, ◌<◌, ◌≡◌, refl, lt→ltb, length, ok, Option, none, some, Result, Ends, >>=-Ends, arith,
}
use os_project2_nach_os.Memory.{Machine}
use os_project2_nach_os.Memory.Access.{load_value_reg, read_mem}
use os_project2_nach_os.Decode.{Instruction}
use os_project2_nach_os.Decode.Fields.{decode_ranges}
use os_project2_nach_os.Mult.{word}
use os_project2_nach_os.Cpu.{
  reg, with_reg, pc_reg, next_pc_reg, prev_pc_reg, num_total_regs, Executed, broke, returned,
}
use os_project2_nach_os.Cpu.Step.{
  advance, retire, check_registers, run_word, execute, one_instruction,
}
use os_project2_nach_os.Cpu.State.{
  IsReady, with_reg-IsMachine, reg-with_reg, delayed_load-ok, after_load, after_load-IsReady,
}
use os_project2_nach_os.Cpu.Memory.{KeepsState, ReadDone, read_mem-Ends}
use os_project2_nach_os.Cpu.Keeps.{ExecutedDone}
use os_project2_nach_os.Cpu.Execute.{execute_done}

-- A register of the program counters is set.
with_pc-IsReady :
    (m : Machine) (n v : ℕ) → 33 < n → n < 37 → v < word → IsReady m → IsReady (with_reg m n v)
with_pc-IsReady m n v low high small r = record {
  machine = with_reg-IsMachine m n v (λ q. absurd (omega (arith, high, q))) small r.machine;
  zero_reg = ground (arith, reg-with_reg m n 0 v, r.zero_reg);
}

module _ (system_call : Machine → Result Machine) where
  advance-IsReady :
      (m : Machine) (pc_after : ℕ)
      → pc_after < word
      → IsReady m
      → IsReady (advance system_call m pc_after)
  advance-IsReady m pc_after small r =
      with_pc-IsReady (with_reg (with_reg m prev_pc_reg (reg m pc_reg)) pc_reg (reg m next_pc_reg))
        next_pc_reg pc_after (omega arith) (omega arith) small
        (with_pc-IsReady (with_reg m prev_pc_reg (reg m pc_reg)) pc_reg (reg m next_pc_reg)
          (omega arith) (omega arith) (r.machine.words next_pc_reg)
          (with_pc-IsReady m prev_pc_reg (reg m pc_reg) (omega arith) (omega arith)
            (r.machine.words pc_reg) r))

  retire-Ends : (x : Executed) → ExecutedDone x → Ends IsReady (retire system_call x)
  retire-Ends (returned m) r = r
  retire-Ends (broke m pc_after load value) (g, hp, hl, hv) = rw (delayed_load-ok m load value g) (
      advance-IsReady (after_load m load value) pc_after hp
        (after_load-IsReady m load value hl hv g))

module _ (system_call : Machine → Result Machine) (keeps : KeepsState system_call) where
  check_registers-ok :
      (m : Machine) (i : Instruction)
      → length m.registers ≡ num_total_regs
      → i.rs < 32
      → i.rt < 32
      → i.rd < 32
      → check_registers m i ≡ ok tt
  unfolding check_registers
  check_registers-ok m i count rs rt rd = rw (
    lt→ltb i.rs (length m.registers) (omega arith),
    lt→ltb i.rt (length m.registers) (omega arith),
    lt→ltb i.rd (length m.registers) (omega arith),
    lt→ltb load_value_reg (length m.registers) (omega arith),
  )

  run_word-Ends :
      (o : Option ℕ) (m : Machine) → ReadDone (o, m) → Ends IsReady (run_word system_call (o, m))
  run_word-Ends none m r = r
  run_word-Ends (some raw) m (g, small) =
      let (i, decoded, (rs, rt, rd, extra)) = decode_ranges raw small in
      rw (decoded, check_registers-ok m i g.register_count rs rt rd)
        (>>=-Ends ExecutedDone IsReady (execute system_call i.op_code m i) (retire system_call)
          (execute_done system_call keeps i.op_code m i g
            (record { rs_below = rs; rt_below = rt; rd_below = rd; extra_below = extra }))
          (retire-Ends system_call))

  -- From a state between instructions, for any word at the program counter, OneInstruction ends
  -- between instructions again, or stops at an ASSERT, with the machine halted or in a trap of the
  -- host's division: it never leaves an array. Between instructions there are 40 registers of 32
  -- bits, register 0 holds 0, a pending load names a general register, memory has its size and
  -- consists of bytes, and there is one table with the entries that may be indexed. The system
  -- calls may do anything that keeps this.
  pub one_instruction-IsReady :
      (m : Machine) → IsReady m → Ends IsReady (one_instruction system_call m)
  unfolding one_instruction
  one_instruction-IsReady m r =
      >>=-Ends ReadDone IsReady (read_mem system_call m (reg m pc_reg) 4) (run_word system_call)
        (read_mem-Ends system_call keeps m (reg m pc_reg) 4 r.machine (r.machine.words pc_reg) refl)
        (λ (o, n) done. run_word-Ends o n done)
