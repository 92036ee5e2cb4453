-- ===== src/Codegen/OpSizes.antt =====
-- How long the code of an instruction and of a block is, except for lists of registers.
use lecerf.Base.{
  ◌+◌, ◌*◌, ◌≤◌, Bool, true, false, not, Option, List, [], ◌∷◌, ◌++◌, length, length-append,
  Bool-cases, inl, inr, add32, ◌≡◌, arith,
}
use lecerf.Decoder.Insn.{
  Insn, Opcode, op_add_imm3, op_add_imm8, op_add_reg, op_and_reg, op_b_cond, op_b_uncond,
  op_cmn_reg, op_cmp_imm, op_cmp_reg, op_cmp_reg_t2, op_eor_reg, op_ldr_imm, op_ldr_lit, op_ldr_reg,
  op_ldr_sp, op_ldrb_imm, op_ldrh_imm, op_mov_imm, op_mov_reg, op_orr_reg, op_pop, op_push,
  op_str_imm, op_str_reg, op_str_sp, op_strb_imm, op_strh_imm, op_sub_imm3, op_sub_imm8, op_sub_reg,
  op_t32_add_imm, op_t32_addw, op_t32_and_imm, op_t32_b_cond, op_t32_bl, op_t32_cmn_imm,
  op_t32_cmn_reg, op_t32_cmp_imm, op_t32_cmp_reg, op_t32_eor_imm, op_t32_ldm, op_t32_ldr_imm,
  op_t32_ldr_lit, op_t32_ldr_reg, op_t32_ldrb_imm, op_t32_ldrd_imm, op_t32_ldrh_imm, op_t32_mov_imm,
  op_t32_movw, op_t32_orr_imm, op_t32_stm, op_t32_str_imm, op_t32_str_reg, op_t32_strb_imm,
  op_t32_strd_imm, op_t32_strh_imm, op_t32_sub_imm, op_t32_subw, op_tst_reg,
}
use lecerf.Cpu.{reg_sp}
use lecerf.Codegen.Stack.{Sram}
use lecerf.Codegen.Block.{writes_pc, all_insns, trailing_pc, thunk_code}
use lecerf.Codegen.Op.{op_code, emit_op, emit_ops}
use lecerf.Codegen.Emit.{Target}
use lecerf.Codegen.Flags.{emit_flags_nzcv, emit_flags_nz, emit_b_uncond, emit_t32_bl}
use lecerf.Codegen.Memory.{emit_prologue, emit_epilogue_check, emit_load, emit_store}
use lecerf.Codegen.Sizes.{
  length-if_le, length-emit_b_cond_fast, length-emit_load_from_eax, length-emit_load,
  length-emit_store,
}

-- PUSH, POP, LDM and STM, whose code is as long as their lists.
unfoldable pub is_multiple : Opcode → Bool
is_multiple op_push = true
is_multiple op_pop = true
is_multiple op_t32_ldm = true
is_multiple op_t32_stm = true
is_multiple _ = false

module _ (t : Target) (sram : Option Sram) where
  -- The code of an instruction is at most 147 bytes, unless it has a list of registers.
  length-op_code :
      (i : Insn) (op : Opcode) → is_multiple op ≡ false → length (op_code t sram i op) ≤ 147
  unfolding op_code is_multiple emit_flags_nzcv emit_flags_nz emit_b_uncond emit_t32_bl
  length-op_code i op_t32_movw h = omega arith
  length-op_code i op_t32_addw h = omega arith
  length-op_code i op_t32_subw h = omega arith
  length-op_code i op_add_reg h = omega arith
  length-op_code i op_sub_reg h = omega arith
  length-op_code i op_add_imm3 h = omega arith
  length-op_code i op_add_imm8 h = omega arith
  length-op_code i op_sub_imm3 h = omega arith
  length-op_code i op_sub_imm8 h = omega arith
  length-op_code i op_and_reg h = omega arith
  length-op_code i op_orr_reg h = omega arith
  length-op_code i op_eor_reg h = omega arith
  length-op_code i op_cmp_imm h = omega arith
  length-op_code i op_t32_cmp_imm h = omega arith
  length-op_code i op_cmp_reg h = omega arith
  length-op_code i op_cmp_reg_t2 h = omega arith
  length-op_code i op_t32_cmp_reg h = omega arith
  length-op_code i op_cmn_reg h = omega arith
  length-op_code i op_t32_cmn_reg h = omega arith
  length-op_code i op_t32_cmn_imm h = omega arith
  length-op_code i op_tst_reg h = omega arith
  length-op_code i op_mov_imm h = omega arith
  length-op_code i op_b_uncond h = omega arith
  length-op_code i op_t32_bl h = omega arith
  length-op_code i op_t32_mov_imm h = elim (Bool-cases i.set_flags) [
    | inl e ↦ rw e (omega arith)
    | inr e ↦ rw e (omega arith)
  ]
  length-op_code i op_mov_reg h = elim (Bool-cases i.set_flags) [
    | inl e ↦ rw e (omega arith)
    | inr e ↦ rw e (omega arith)
  ]
  length-op_code i op_t32_add_imm h = elim (Bool-cases i.set_flags) [
    | inl e ↦ rw e (omega arith)
    | inr e ↦ rw e (omega arith)
  ]
  length-op_code i op_t32_sub_imm h = elim (Bool-cases i.set_flags) [
    | inl e ↦ rw e (omega arith)
    | inr e ↦ rw e (omega arith)
  ]
  length-op_code i op_t32_and_imm h = elim (Bool-cases i.set_flags) [
    | inl e ↦ rw e (omega arith)
    | inr e ↦ rw e (omega arith)
  ]
  length-op_code i op_t32_orr_imm h = elim (Bool-cases i.set_flags) [
    | inl e ↦ rw e (omega arith)
    | inr e ↦ rw e (omega arith)
  ]
  length-op_code i op_t32_eor_imm h = elim (Bool-cases i.set_flags) [
    | inl e ↦ rw e (omega arith)
    | inr e ↦ rw e (omega arith)
  ]
  length-op_code i op_ldr_imm h = omega (arith, length-emit_load t i.rd i.rn i.imm 4)
  length-op_code i op_t32_ldr_imm h = omega (arith, length-emit_load t i.rd i.rn i.imm 4)
  length-op_code i op_ldrb_imm h = omega (arith, length-emit_load t i.rd i.rn i.imm 1)
  length-op_code i op_t32_ldrb_imm h = omega (arith, length-emit_load t i.rd i.rn i.imm 1)
  length-op_code i op_ldrh_imm h = omega (arith, length-emit_load t i.rd i.rn i.imm 2)
  length-op_code i op_t32_ldrh_imm h = omega (arith, length-emit_load t i.rd i.rn i.imm 2)
  length-op_code i op_str_imm h = omega (arith, length-emit_store t i.rd i.rn i.imm 4)
  length-op_code i op_t32_str_imm h = omega (arith, length-emit_store t i.rd i.rn i.imm 4)
  length-op_code i op_strb_imm h = omega (arith, length-emit_store t i.rd i.rn i.imm 1)
  length-op_code i op_t32_strb_imm h = omega (arith, length-emit_store t i.rd i.rn i.imm 1)
  length-op_code i op_strh_imm h = omega (arith, length-emit_store t i.rd i.rn i.imm 2)
  length-op_code i op_t32_strh_imm h = omega (arith, length-emit_store t i.rd i.rn i.imm 2)
  length-op_code i op_ldr_sp h = omega (arith, length-emit_load t i.rd reg_sp i.imm 4)
  length-op_code i op_str_sp h = omega (arith, length-emit_store t i.rd reg_sp i.imm 4)
  length-op_code i op_ldr_lit h = omega (arith, length-emit_load_from_eax t i.rd 4)
  length-op_code i op_t32_ldr_lit h = omega (arith, length-emit_load_from_eax t i.rd 4)
  length-op_code i op_ldr_reg h = omega (arith, length-emit_load_from_eax t i.rd 4)
  length-op_code i op_t32_ldr_reg h = omega (arith, length-emit_load_from_eax t i.rd 4)
  length-op_code i op_str_reg h = omega arith
  length-op_code i op_t32_str_reg h = omega arith
  length-op_code i op_t32_ldrd_imm h = omega (
    arith,
    length-append (emit_load t i.rd i.rn i.imm 4) (emit_load t i.rs i.rn (add32 i.imm 4) 4),
    length-emit_load t i.rd i.rn i.imm 4,
    length-emit_load t i.rs i.rn (add32 i.imm 4) 4,
  )
  length-op_code i op_t32_strd_imm h = omega (
    arith,
    length-append (emit_store t i.rd i.rn i.imm 4) (emit_store t i.rs i.rn (add32 i.imm 4) 4),
    length-emit_store t i.rd i.rn i.imm 4,
    length-emit_store t i.rs i.rn (add32 i.imm 4) 4,
  )
  length-op_code i op_b_cond h = omega (arith, length-emit_b_cond_fast t i)
  length-op_code i op_t32_b_cond h = omega (arith, length-emit_b_cond_fast t i)
  length-op_code i op_push h = absurd (cc h)
  length-op_code i op_pop h = absurd (cc h)
  length-op_code i op_t32_ldm h = absurd (cc h)
  length-op_code i op_t32_stm h = absurd (cc h)
  length-op_code i _ h = omega arith

  length-emit_ops :
      (is : List Insn)
      → all_insns (λ i. not (is_multiple i.op)) is ≡ true
      → length (emit_ops t sram is) ≤ length is * 147
  unfolding emit_ops all_insns emit_op
  length-emit_ops [] h = omega arith
  length-emit_ops (i ∷ is) h = elim (Bool-cases (is_multiple i.op)) [
    | inl e ↦ absurd (ground (arith, h, e))
    | inr e ↦
        let tail : all_insns (λ j. not (is_multiple j.op)) is ≡ true = ground (arith, h, e) in
        omega (
          arith,
          length-append (op_code t sram i i.op) (emit_ops t sram is),
          length-op_code i i.op e,
          length-emit_ops is tail,
        )
  ]

length-trailing_pc : (t : Target) (is : List Insn) → length (trailing_pc t is) ≤ 11
unfolding trailing_pc
length-trailing_pc t [] = omega arith
length-trailing_pc t (i ∷ []) = length-if_le (writes_pc i.op) _ _ 11 (omega arith) (omega arith)
length-trailing_pc t (i ∷ j ∷ is) = length-trailing_pc t (j ∷ is)

-- The code of a block without lists of registers.
pub length-thunk_code :
    (t : Target) (sram : Option Sram) (is : List Insn)
    → all_insns (λ i. not (is_multiple i.op)) is ≡ true
    → length (thunk_code t sram is) ≤ length is * 147 + 67
unfolding thunk_code emit_prologue emit_epilogue_check
length-thunk_code t sram is h =
    let ops = emit_ops t sram is in
    let last = trailing_pc t is in
    omega (
      arith,
      length-emit_ops t sram is h,
      length-trailing_pc t is,
      length-append ops last,
      length-append (ops ++ last) (emit_epilogue_check t),
    )
