-- ===== src/Executor.antt =====
-- src/core/executor.c: `execute`, the effect of one decoded instruction on the board.
-- The cases of its switch are grouped in the child modules by what they touch; each group answers
-- `none` to the opcodes of the others, and no opcode is in two groups.
pub mod Cond
pub mod Alu
pub mod Wide
pub mod Multiply
pub mod Bitfield
pub mod System
pub mod Vfp
pub mod Steps
pub mod Control
pub mod Memory
pub mod Multiple
pub mod Kept
pub mod Complete
pub mod Compare
pub mod CompareBranch
pub mod Insert
pub mod Reverse
pub mod Product
use lecerf.Base.{
  ℕ, ◌+◌, Bool, true, false, not, ◌&&◌, if◌then◌else◌, add32, has, u64, Option, none, some,
}
use lecerf.Cpu.{
  Cpu, set_reg, reg_pc, cpu_in_it, cpu_it_cond, cpu_it_advance, apsr_n, apsr_z, apsr_c, apsr_v,
}
use lecerf.Exception.{Host, M, ◌>>=◌, ◌>>◌}
use lecerf.Decoder.Insn.{Insn, Opcode, op_t32_it}
use lecerf.Executor.Cond.{cond_table, op_is_flagsetter}
use lecerf.Executor.Alu.{arith_16, logic_16, shift_16, address_16, extend_16}
use lecerf.Executor.Wide.{modified_imm, plain_imm, shifted_reg, shift_32}
use lecerf.Executor.Multiply.{multiply}
use lecerf.Executor.Bitfield.{bitfield}
use lecerf.Executor.System.{system}
use lecerf.Executor.Vfp.{Float, vfp}
use lecerf.Executor.Steps.{Ending, break, done, modify, finish}
use lecerf.Executor.Control.{branches, high_regs, control, undefined}
use lecerf.Executor.Memory.{memory}
use lecerf.Executor.Multiple.{multiple}

-- The first answer of two groups.
infixr 4 ◌orelse◌
abbrev pub ◌orelse◌ : {A : Type 0} → Option A → Option A → Option A
some a orelse o = some a
none orelse o = o

-- The cases that change only the CPU and leave `next_pc`.
unfoldable pub data_processing : Float → Opcode → Insn → Cpu → Option Cpu
data_processing f op i c =
    arith_16 op i c
    orelse logic_16 op i c
    orelse shift_16 op i c
    orelse address_16 op i c
    orelse extend_16 op i c
    orelse modified_imm op i c
    orelse plain_imm op i c
    orelse shifted_reg op i c
    orelse shift_32 op i c
    orelse multiply op i c
    orelse bitfield op i c
    orelse system op i c
    orelse vfp f op i c

-- The condition of an IT block, on the flags of `execute`'s own table.
unfoldable pub it_pass : Cpu → Bool
unfolding cond_table
it_pass c =
    cond_table (has c.apsr apsr_n) (has c.apsr apsr_z) (has c.apsr apsr_c) (has c.apsr apsr_v) true
      (cpu_it_cond c)

abbrev pub is_it : Opcode → Bool
is_it op_t32_it = true
is_it _ = false

-- What follows the switch: APSR is restored in an IT block unless the instruction compares, the IT
-- state advances unless it is IT, and PC and the cycle count move on.
unfoldable pub retire_insn : Opcode → Bool → ℕ → ℕ → Cpu → Cpu
unfolding op_is_flagsetter
retire_insn op in_it saved_apsr next_pc c =
    let c1 = if in_it && not (op_is_flagsetter op) then record c { apsr = saved_apsr } else c in
    let c2 = if in_it && not (is_it op) then cpu_it_advance c1 else c1 in
    record (set_reg c2 reg_pc next_pc) { cycles = u64 (c2.cycles + 1) }

-- The end of an instruction that an IT block skips.
unfoldable pub skip_insn : ℕ → Cpu → Cpu
skip_insn next_pc c =
    let c' = set_reg (cpu_it_advance c) reg_pc next_pc in record c' { cycles = u64 (c'.cycles + 1) }

module _ {T S : Type 0} (h : Host T S) (f : Float) where
  open h use {get_cpu, put_cpu}

  -- The answers of the groups, before the case of the groups after them.
  unfoldable pub on_cpu : ℕ → Option Cpu → M S Ending → M S Ending
  on_cpu next_pc (some c) m = modify h (λ _. c) >> finish h (break next_pc)
  on_cpu next_pc none m = m

  unfoldable pub on_branch : Option (ℕ × Cpu) → M S Ending → M S Ending
  unfolding on_cpu
  on_branch (some (pc, c)) m = on_cpu pc (some c) m
  on_branch none m = m

  unfoldable pub on_memory : ℕ → Option (M S (Unit {0})) → M S Ending → M S Ending
  on_memory next_pc (some step) m = step >> finish h (break next_pc)
  on_memory next_pc none m = m

  unfoldable pub on_step : Option (M S Ending) → M S Ending → M S Ending
  on_step (some step) m = step
  on_step none m = m

  -- The switch.
  unfoldable pub dispatch : Insn → ℕ → Cpu → M S Ending
  unfolding undefined on_cpu on_branch on_memory on_step
  dispatch i next_pc c = on_cpu next_pc (data_processing f i.op i c) (
      on_branch (branches i.op i next_pc c orelse high_regs i.op i next_pc c) (
        on_memory next_pc (memory h i.op i c)
          (on_step (control h i.op i next_pc c orelse multiple h i.op i next_pc) (undefined h))))

  -- The result of `execute` for the end of the switch.
  ending : Opcode → Bool → ℕ → Option Ending × S → Bool × S
  unfolding retire_insn
  ending op in_it saved_apsr (none, s) = (false, put_cpu (record (get_cpu s) { halted = true }) s)
  ending op in_it saved_apsr (some done, s) = (true, s)
  ending op in_it saved_apsr (some (break next_pc), s) =
      (true, put_cpu (retire_insn op in_it saved_apsr next_pc (get_cpu s)) s)

  -- `execute`
  unfoldable pub execute : Insn → S → Bool × S
  unfolding dispatch ending it_pass skip_insn
  execute i s =
      let c = get_cpu s in
      let next_pc = add32 (c.r reg_pc) i.size in
      if cpu_in_it c && not (it_pass c)
      then (true, put_cpu (skip_insn next_pc c) s)
      else ending i.op (cpu_in_it c) c.apsr (dispatch i next_pc c s)
