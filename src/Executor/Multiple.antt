-- ===== src/Executor/Multiple.antt =====
-- The loads and stores of several registers of `execute`. `none` is an opcode of another group.
use lecerf.Base.{
  ℕ, zero, suc, ◌+◌, ◌*◌, ◌^◌, bit_and, ◌==◌, if◌then◌else◌, add32, sub32, mul32, not32, has,
  of_bool, Option, none, some,
}
use lecerf.Cpu.{set_reg, reg_sp, reg_pc}
use lecerf.Exception.{Host, M, ◌>>=◌, ◌>>◌}
use lecerf.Decoder.Insn.{
  Insn, Opcode, op_ldm, op_pop, op_push, op_stm, op_t32_ldm, op_t32_stm, op_vldm, op_vpop, op_vpush,
  op_vstm,
}
use lecerf.Executor.Cond.{pc_plus_4}
use lecerf.Executor.Control.{branch_or_return}
use lecerf.Executor.Vfp.{set_u}
use lecerf.Executor.Steps.{Ending, break, cpu, modify, finish, load, store}

-- The number of the digits `k` to `k + n - 1` of a register list that are set.
unfoldable pub count_regs : ℕ → ℕ → ℕ → ℕ
count_regs zero k list = 0
count_regs (suc n) k list = of_bool (has list (2 ^ k)) + count_regs n (k + 1) list

-- The PC that `execute` goes to after a list with the word `v` for the PC.
abbrev pub pc_of : Option ℕ → ℕ → ℕ
pc_of none next_pc = next_pc
pc_of (some v) next_pc = bit_and v (not32 1)

module _ {T S : Type 0} (h : Host T S) where
  -- The words of the registers `k` to `k + n - 1` of a list, stored upwards from `a`; the result is
  -- the address after them. The PC is stored as PC + 4.
  unfoldable pub store_list : ℕ → ℕ → ℕ → ℕ → M S ℕ
  store_list zero k list a = finish h a
  store_list (suc n) k list a =
      let rest = store_list n (k + 1) list in
      if has list (2 ^ k)
      then (do
        c ← cpu h
        store h 4 a (if k == reg_pc then pc_plus_4 c else c.r k)
        rest (add32 a 4))
      else rest a

  -- The words from `a` upwards, loaded to the registers of a list; the result is the address after
  -- them and the word for the PC.
  unfoldable pub load_list : ℕ → ℕ → ℕ → ℕ → Option ℕ → M S (ℕ × Option ℕ)
  load_list zero k list a pc = finish h (a, pc)
  load_list (suc n) k list a pc =
      let rest = load_list n (k + 1) list in
      if has list (2 ^ k)
      then (do
        v ← load h 4 a
        modify h (λ c. if k == reg_pc then c else set_reg c k v)
        rest (add32 a 4) (if k == reg_pc then some v else pc))
      else rest a pc

  unfoldable pub push : Insn → M S (Unit {0})
  unfolding count_regs store_list
  push i = do
    c ← cpu h
    let sp = sub32 (c.r reg_sp) (count_regs 15 0 i.reg_list * 4)
    modify h (λ c'. set_reg c' reg_sp sp)
    a ← store_list 15 0 i.reg_list sp
    finish h tt

  unfoldable pub pop : Insn → ℕ → M S Ending
  unfolding load_list
  pop i next_pc = do
    c ← cpu h
    (sp, pc) ← load_list 16 0 i.reg_list (c.r reg_sp) none
    modify h (λ c'. set_reg c' reg_sp sp)
    elim pc [ none ↦ finish h (break next_pc) | some v ↦ branch_or_return h v ]

  unfoldable pub stm : Insn → M S (Unit {0})
  unfolding store_list
  stm i = do c ← cpu h; a ← store_list 8 0 i.reg_list (c.r i.rn); modify h (λ c'. set_reg c' i.rn a)

  -- The base is written back unless it is in the list.
  unfoldable pub ldm : Insn → M S (Unit {0})
  unfolding load_list
  ldm i = do
    c ← cpu h
    (a, pc) ← load_list 8 0 i.reg_list (c.r i.rn) none
    modify h (λ c'. if has i.reg_list (2 ^ i.rn) then c' else set_reg c' i.rn a)

  -- `i->add ? base : (base - cnt * 4)`
  start : Insn → ℕ → ℕ → ℕ
  start i cnt base = if i.add then base else sub32 base (mul32 cnt 4)

  -- `if (i->writeback) c->r[i->rn] = i->add ? a : start;`
  end_multiple : Insn → ℕ → ℕ → M S (Unit {0})
  end_multiple i first a =
      modify h (λ c. if i.writeback then set_reg c i.rn (if i.add then a else first) else c)

  unfoldable pub ldm_32 : Insn → ℕ → M S Ending
  unfolding count_regs load_list start end_multiple
  ldm_32 i next_pc = do
    c ← cpu h
    let first = start i (count_regs 16 0 i.reg_list) (c.r i.rn)
    (a, pc) ← load_list 16 0 i.reg_list first none
    end_multiple i first a
    finish h (break (pc_of pc next_pc))

  unfoldable pub stm_32 : Insn → M S (Unit {0})
  unfolding count_regs store_list start end_multiple
  stm_32 i = do
    c ← cpu h
    let first = start i (count_regs 16 0 i.reg_list) (c.r i.rn)
    a ← store_list 16 0 i.reg_list first
    end_multiple i first a

  -- `n` VFP registers from `d` upwards at `a` upwards; the result is the address after them.
  unfoldable pub store_vfps : ℕ → ℕ → ℕ → M S ℕ
  store_vfps zero d a = finish h a
  store_vfps (suc n) d a = do c ← cpu h; store h 4 a (c.fpu.u d); store_vfps n (d + 1) (add32 a 4)

  unfoldable pub load_vfps : ℕ → ℕ → ℕ → M S ℕ
  load_vfps zero d a = finish h a
  load_vfps (suc n) d a = do
    v ← load h 4 a
    modify h (λ c. set_u c d v)
    load_vfps n (d + 1) (add32 a 4)

  unfoldable pub vpush : Insn → M S (Unit {0})
  unfolding store_vfps
  vpush i = do
    c ← cpu h
    let sp = sub32 (c.r reg_sp) (mul32 i.imm 4)
    modify h (λ c'. set_reg c' reg_sp sp)
    a ← store_vfps i.imm i.sd sp
    finish h tt

  unfoldable pub vpop : Insn → M S (Unit {0})
  unfolding load_vfps
  vpop i = do
    c ← cpu h
    a ← load_vfps i.imm i.sd (c.r reg_sp)
    modify h (λ c'. set_reg c' reg_sp (add32 (c.r reg_sp) (mul32 i.imm 4)))

  unfoldable pub vldm : Insn → M S (Unit {0})
  unfolding load_vfps start end_multiple
  vldm i = do
    c ← cpu h
    let first = start i i.imm (c.r i.rn)
    a ← load_vfps i.imm i.sd first
    end_multiple i first a

  unfoldable pub vstm : Insn → M S (Unit {0})
  unfolding store_vfps start end_multiple
  vstm i = do
    c ← cpu h
    let first = start i i.imm (c.r i.rn)
    a ← store_vfps i.imm i.sd first
    end_multiple i first a

  unfoldable pub multiple : Opcode → Insn → ℕ → Option (M S Ending)
  unfolding push pop stm ldm ldm_32 stm_32 vpush vpop vldm vstm
  multiple op_push i next_pc = some (push i >> finish h (break next_pc))
  multiple op_pop i next_pc = some (pop i next_pc)
  multiple op_stm i next_pc = some (stm i >> finish h (break next_pc))
  multiple op_ldm i next_pc = some (ldm i >> finish h (break next_pc))
  multiple op_t32_ldm i next_pc = some (ldm_32 i next_pc)
  multiple op_t32_stm i next_pc = some (stm_32 i >> finish h (break next_pc))
  multiple op_vpush i next_pc = some (vpush i >> finish h (break next_pc))
  multiple op_vpop i next_pc = some (vpop i >> finish h (break next_pc))
  multiple op_vldm i next_pc = some (vldm i >> finish h (break next_pc))
  multiple op_vstm i next_pc = some (vstm i >> finish h (break next_pc))
  multiple _ i next_pc = none
