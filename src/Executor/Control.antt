-- ===== src/Executor/Control.antt =====
-- The branches of `execute`, its exceptions and returns, and the table branches. `none` is an
-- opcode of another group.
use lecerf.Base.{
  ℕ, ◌*◌, bit_and, bit_or, Bool, true, false, ◌==◌, ◌&&◌, not, if◌then◌else◌, add32, sub32, shl32,
  not32, has, Option, none, some,
}
use lecerf.Cpu.{
  Cpu, set_reg, cpu_set_flags_nzcv_sub, reg_pc, reg_lr, apsr_n, apsr_z, apsr_c, apsr_v,
}
use lecerf.Exception.{Host, M, ◌>>=◌, ◌>>◌, is_thread, exc_enter, exc_return, exc_svc, raise_fault}
use lecerf.Decoder.Insn.{
  Insn, Opcode, op_add_reg_t2, op_b_cond, op_b_uncond, op_bkpt, op_blx_reg, op_bx, op_cbnz, op_cbz,
  op_cmp_reg_t2, op_mov_reg, op_svc, op_t32_b_cond, op_t32_bl, op_t32_tbb, op_t32_tbh, op_udf,
}
use lecerf.Executor.Cond.{cond_table, cond_pass, pc_plus_4, reg_or_pc}
use lecerf.Executor.Steps.{Ending, break, done, cpu, modify, finish, fail, load, checked}

-- `(t & 0xFFFFFFF0u) == 0xFFFFFFF0u && c->mode == MODE_HANDLER`
abbrev pub is_exc_return : Cpu → ℕ → Bool
is_exc_return c t = (bit_and t 0xFFFFFFF0 == 0xFFFFFFF0) && not (is_thread c.mode)

-- `c->r[REG_PC] + 4 + i->imm`
abbrev pub target : Insn → Cpu → ℕ
target i c = add32 (pc_plus_4 c) i.imm

-- The condition of T32_B_COND, false above 0xD.
unfoldable pub b_cond_pass : ℕ → ℕ → Bool
b_cond_pass apsr cond =
    cond_table (has apsr apsr_n) (has apsr apsr_z) (has apsr apsr_c) (has apsr apsr_v) false cond

-- ADD, CMP and MOV of the high registers, with PC read as PC + 4: `next_pc` and the CPU.
unfoldable pub high_regs : Opcode → Insn → ℕ → Cpu → Option (ℕ × Cpu)
high_regs op_add_reg_t2 i next_pc c =
    let r = add32 (reg_or_pc c i.rn) (reg_or_pc c i.rm) in
    some (if i.rd == reg_pc then (bit_and r (not32 1), c) else (next_pc, set_reg c i.rd r))
high_regs op_cmp_reg_t2 i next_pc c =
    let a = reg_or_pc c i.rn in
    let b = reg_or_pc c i.rm in some (next_pc, cpu_set_flags_nzcv_sub c a b (sub32 a b))
high_regs op_mov_reg i next_pc c =
    let v = reg_or_pc c i.rm in
    some (if i.rd == reg_pc then (bit_and v (not32 1), c) else (next_pc, set_reg c i.rd v))
high_regs _ i next_pc c = none

-- BLX of a register and BL, which set LR.
unfoldable pub blx : Insn → Cpu → ℕ × Cpu
blx i c = (bit_and (c.r i.rm) (not32 1), set_reg c reg_lr (bit_or (add32 (c.r reg_pc) 2) 1))

unfoldable pub bl : Insn → Cpu → ℕ × Cpu
bl i c = let c' = set_reg c reg_lr (bit_or (pc_plus_4 c) 1) in (bit_and (target i c') (not32 1), c')

-- The branches: `next_pc` and the CPU.
unfoldable pub branches : Opcode → Insn → ℕ → Cpu → Option (ℕ × Cpu)
unfolding b_cond_pass blx bl
branches op_b_cond i next_pc c = some (if cond_pass c.apsr i.cond then target i c else next_pc, c)
branches op_b_uncond i next_pc c = some (target i c, c)
branches op_cbz i next_pc c = some (if c.r i.rn == 0 then target i c else next_pc, c)
branches op_cbnz i next_pc c = some (if c.r i.rn == 0 then next_pc else target i c, c)
branches op_blx_reg i next_pc c = some (blx i c)
branches op_t32_bl i next_pc c = some (bl i c)
branches op_t32_b_cond i next_pc c =
    some (if b_cond_pass c.apsr i.cond then target i c else next_pc, c)
branches _ i next_pc c = none

module _ {T S : Type 0} (h : Host T S) where
  -- A branch to `t` that is an exception return in handler mode.
  unfoldable pub branch_or_return : ℕ → M S Ending
  branch_or_return t = do
    c ← cpu h
    if is_exc_return c t then checked h (exc_return h t) else finish h (break (bit_and t (not32 1)))

  -- TBB and TBH: an entry of a table of bytes or halfwords.
  unfoldable pub table_branch : ℕ → ℕ → M S Ending
  table_branch size idx = do
    v ← load h size idx
    c ← cpu h
    finish h (break (add32 (pc_plus_4 c) (v * 2)))

  unfoldable pub control : Opcode → Insn → ℕ → Cpu → Option (M S Ending)
  unfolding branch_or_return table_branch
  control op_udf i next_pc c = some (fail h)
  control op_svc i next_pc c =
      some (do modify h (λ c'. set_reg c' reg_pc next_pc); checked h (exc_enter h exc_svc))
  control op_bx i next_pc c = some (branch_or_return (c.r i.rm))
  control op_bkpt i next_pc c =
      some (do modify h (λ c'. record c' { halted = true }); finish h done)
  control op_t32_tbb i next_pc c = some (table_branch 1 (add32 (reg_or_pc c i.rn) (c.r i.rm)))
  control op_t32_tbh i next_pc c =
      some (table_branch 2 (add32 (reg_or_pc c i.rn) (shl32 (c.r i.rm) 1)))
  control _ i next_pc c = none

  -- `default`: UsageFault with UNDEFINSTR.
  unfoldable pub undefined : M S Ending
  undefined s = finish h done (raise_fault h 6 0 1 s)
