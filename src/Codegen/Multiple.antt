-- ===== src/Codegen/Multiple.antt =====
-- The code of the 32-bit LDM and STM of src/core/codegen.c.
use lecerf.Base.{
  ℕ, ◌+◌, ◌*◌, ◌^◌, Bool, ◌==◌, ◌&&◌, if◌then◌else◌, has, add32, Option, none, some, List, [], ◌++◌,
  length,
}
use lecerf.Cpu.{reg_pc}
use lecerf.Codegen.Emit.{
  Target, ld_eax, ld_ecx, st_eax, mov_r9d_reg, mov_eax_imm, add_imm, sub_imm, mov_rcx_r14,
  mov_edx_eax, mov_r8d_imm, sub_rsp_16,
}
use lecerf.Codegen.EmitStack.{mov_r11_off_ecx, mov_r11_off_eax, add_edx_imm, mov_r9d_imm}
use lecerf.Codegen.Memory.{call_bus_write}
use lecerf.Codegen.Stack.{
  Sram, listed, each, total, over_jump, too_far, in_bounds, point_r11, load_slow, commit_r10d,
  load_fast,
}

-- The arguments of `emit_ldm_stm` after the bus.
pub record Transfer : Type 0 where
  pub rn : ℕ
  pub reg_list : ℕ
  pub is_load : Bool
  pub is_db : Bool
  pub writeback : Bool
  pub insn_pc : ℕ

module _ (t : Target) (x : Transfer) where
  -- The address of the first word in `eax`.
  abbrev pub start_address : ℕ → List ℕ
  start_address cnt = ld_eax t x.rn ++ (if x.is_db then sub_imm (cnt * 4) else [])

  -- The path through the bus, register by register.
  abbrev store_slow : ℕ → List ℕ
  store_slow k =
      (if k == reg_pc then mov_r9d_imm (add32 x.insn_pc 4) else mov_r9d_reg t k) ++ call_bus_write t

  abbrev pub transfer_slow : ℕ → ℕ → ℕ → List ℕ
  transfer_slow cnt k off =
      start_address cnt
      ++ sub_rsp_16
      ++ mov_rcx_r14
      ++ mov_edx_eax
      ++ add_edx_imm off
      ++ mov_r8d_imm 4
      ++ (if x.is_load then load_slow t k else store_slow k)

  -- The path in flat memory.
  abbrev store_fast : ℕ → ℕ → ℕ → List ℕ
  store_fast cnt k off =
      if k == reg_pc
      then mov_eax_imm (add32 x.insn_pc 4) ++ mov_r11_off_eax off ++ start_address cnt
      else ld_ecx t k ++ mov_r11_off_ecx off

  abbrev pub transfer_fast : ℕ → ℕ → ℕ → List ℕ
  transfer_fast cnt k off = if x.is_load then load_fast t k off else store_fast cnt k off

  abbrev pub base_back : ℕ → List ℕ
  base_back cnt =
      if x.writeback
      then ld_eax t x.rn
        ++ (if x.is_db then sub_imm (cnt * 4) else add_imm (cnt * 4))
        ++ st_eax t x.rn
      else []

  -- The sizes that the C code adds up for the jumps.
  abbrev pub transfer_fast_size : ℕ → ℕ
  transfer_fast_size k =
      if x.is_load
      then 14 + (if k == reg_pc then 19 else 0)
      else if k == reg_pc
      then if x.is_db then 24 else 19
      else 14

  abbrev pub transfer_slow_size : ℕ → ℕ
  transfer_slow_size k =
      7
      + (if x.is_db then 5 else 0)
      + (if x.is_load then (if k == reg_pc then 56 else 60) else if k == reg_pc then 50 else 51)

  abbrev pub base_back_size : ℕ
  base_back_size = if x.writeback then 19 else 0

  abbrev pub regs : List ℕ
  regs = listed 16 0 x.reg_list

  abbrev pub has_pc : Bool
  has_pc = x.is_load && has x.reg_list (2 ^ 15)

  -- `fast_body` and `slow_body` of the registers `ks`, and the whole path through the bus.
  abbrev pub transfer_fast_body : List ℕ → ℕ
  transfer_fast_body ks = 23 + total transfer_fast_size ks + base_back_size

  abbrev pub transfer_slow_body : List ℕ → ℕ
  transfer_slow_body ks = total transfer_slow_size ks + base_back_size + (if has_pc then 28 else 0)

  abbrev pub slow_path : List ℕ → List ℕ
  slow_path ks =
      each (transfer_slow (length ks)) 0 ks
      ++ base_back (length ks)
      ++ (if has_pc then commit_r10d t else [])

  unfoldable pub emit_ldm_stm : Option Sram → List ℕ
  unfolding listed each total
  emit_ldm_stm sram =
      let ks = regs in
      let cnt = length ks in
      let fast_body = transfer_fast_body ks in
      let slow_body = transfer_slow_body ks in
      if cnt == 0
      then []
      else start_address cnt ++ elim sram [
        | none ↦ slow_path ks
        | some m ↦
            if too_far fast_body slow_body
            then slow_path ks
            else in_bounds m cnt fast_body slow_body
              ++ point_r11 m
              ++ each (transfer_fast cnt) 0 ks
              ++ base_back cnt
              ++ over_jump slow_body
              ++ slow_path ks
      ]
