-- ===== src/Codegen/Op.antt =====
-- `codegen_supports` and `emit_op` of src/core/codegen.c.
use lecerf.Base.{
  ℕ, Bool, true, false, not, if◌then◌else◌, add32, bit_and, not32, u16, Option, List, [], ◌∷◌, ◌++◌,
}
use lecerf.Cpu.{reg_sp}
use lecerf.Decoder.Insn.{
  Insn, Opcode, op_add_imm3, op_add_imm8, op_add_reg, op_and_reg, op_b_cond, op_b_uncond,
  op_cmn_reg, op_cmp_imm, op_cmp_reg, op_cmp_reg_t2, op_eor_reg, op_ldr_imm, op_ldr_lit, op_ldr_reg,
  op_ldr_sp, op_ldrb_imm, op_ldrh_imm, op_mov_imm, op_mov_reg, op_nop, op_orr_reg, op_pop, op_push,
  op_str_imm, op_str_reg, op_str_sp, op_strb_imm, op_strh_imm, op_sub_imm3, op_sub_imm8, op_sub_reg,
  op_t32_add_imm, op_t32_addw, op_t32_and_imm, op_t32_b_cond, op_t32_bl, op_t32_cmn_imm,
  op_t32_cmn_reg, op_t32_cmp_imm, op_t32_cmp_reg, op_t32_eor_imm, op_t32_ldm, op_t32_ldr_imm,
  op_t32_ldr_lit, op_t32_ldr_reg, op_t32_ldrb_imm, op_t32_ldrd_imm, op_t32_ldrh_imm, op_t32_mov_imm,
  op_t32_movw, op_t32_nop, op_t32_orr_imm, op_t32_stm, op_t32_str_imm, op_t32_str_reg,
  op_t32_strb_imm, op_t32_strd_imm, op_t32_strh_imm, op_t32_sub_imm, op_t32_subw, op_tst_reg,
}
use lecerf.Codegen.Emit.{
  Target, ld_eax, ld_ecx, st_eax, mov_eax_imm, op_add_ec, op_sub_ec, op_and_ec, op_or_ec, op_xor_ec,
  add_imm, sub_imm, and_imm, or_imm, xor_imm, test_eax_eax,
}
use lecerf.Codegen.Flags.{
  emit_flags_nzcv, emit_flags_nz, emit_b_cond_fast, emit_b_uncond, emit_t32_bl,
}
use lecerf.Codegen.Memory.{emit_load_from_eax, emit_load, store_at_eax, emit_store}
use lecerf.Codegen.Stack.{Sram, emit_push_v, emit_pop}
use lecerf.Codegen.Multiple.{emit_ldm_stm}

-- `codegen_supports`
unfoldable pub codegen_supports : Opcode → Bool
codegen_supports op_mov_imm = true
codegen_supports op_mov_reg = true
codegen_supports op_add_reg = true
codegen_supports op_sub_reg = true
codegen_supports op_add_imm3 = true
codegen_supports op_add_imm8 = true
codegen_supports op_sub_imm3 = true
codegen_supports op_sub_imm8 = true
codegen_supports op_and_reg = true
codegen_supports op_orr_reg = true
codegen_supports op_eor_reg = true
codegen_supports op_nop = true
codegen_supports op_t32_nop = true
codegen_supports op_t32_mov_imm = true
codegen_supports op_t32_add_imm = true
codegen_supports op_t32_sub_imm = true
codegen_supports op_t32_and_imm = true
codegen_supports op_t32_orr_imm = true
codegen_supports op_t32_eor_imm = true
codegen_supports op_t32_addw = true
codegen_supports op_t32_subw = true
codegen_supports op_t32_movw = true
codegen_supports op_cmp_imm = true
codegen_supports op_cmp_reg = true
codegen_supports op_cmp_reg_t2 = true
codegen_supports op_cmn_reg = true
codegen_supports op_tst_reg = true
codegen_supports op_t32_cmp_imm = true
codegen_supports op_t32_cmp_reg = true
codegen_supports op_t32_cmn_imm = true
codegen_supports op_t32_cmn_reg = true
codegen_supports op_ldr_imm = true
codegen_supports op_str_imm = true
codegen_supports op_ldrb_imm = true
codegen_supports op_strb_imm = true
codegen_supports op_ldrh_imm = true
codegen_supports op_strh_imm = true
codegen_supports op_ldr_sp = true
codegen_supports op_str_sp = true
codegen_supports op_ldr_lit = true
codegen_supports op_ldr_reg = true
codegen_supports op_str_reg = true
codegen_supports op_t32_ldr_imm = true
codegen_supports op_t32_str_imm = true
codegen_supports op_t32_ldrb_imm = true
codegen_supports op_t32_strb_imm = true
codegen_supports op_t32_ldrh_imm = true
codegen_supports op_t32_strh_imm = true
codegen_supports op_t32_ldr_lit = true
codegen_supports op_t32_ldr_reg = true
codegen_supports op_t32_str_reg = true
codegen_supports op_t32_ldrd_imm = true
codegen_supports op_t32_strd_imm = true
codegen_supports op_push = true
codegen_supports op_pop = true
codegen_supports op_t32_ldm = true
codegen_supports op_t32_stm = true
codegen_supports op_b_cond = true
codegen_supports op_t32_b_cond = true
codegen_supports op_b_uncond = true
codegen_supports op_t32_bl = true
codegen_supports _ = false

-- The address of a literal, `((pc + 4) & ~3) + imm`.
abbrev literal_at : Insn → ℕ
literal_at i = add32 (bit_and (add32 i.pc 4) (not32 3)) i.imm

module _ (t : Target) (sram : Option Sram) where
  -- The flags where the instruction asks for them, and the result into its register.
  abbrev flags_if : Insn → List ℕ → List ℕ
  flags_if i code = if i.set_flags then code else []

  -- Two registers in `eax` and `ecx`.
  abbrev pub operands : Insn → List ℕ
  operands i = ld_eax t i.rn ++ ld_ecx t i.rm

  abbrev pub multiple : Insn → Bool → List ℕ
  multiple i is_load =
      emit_ldm_stm t
        (record {
          rn = i.rn;
          reg_list = u16 i.reg_list;
          is_load = is_load;
          is_db = not i.add;
          writeback = i.writeback;
          insn_pc = i.pc;
        })
        sram

  -- The cases of `emit_op` on the opcode.
  unfoldable pub op_code : Insn → Opcode → List ℕ
  unfolding emit_flags_nzcv emit_flags_nz emit_b_cond_fast emit_b_uncond emit_t32_bl emit_load
      emit_store emit_load_from_eax emit_push_v emit_pop emit_ldm_stm
  op_code i op_mov_imm = mov_eax_imm i.imm ++ test_eax_eax ++ emit_flags_nz t ++ st_eax t i.rd
  op_code i op_t32_mov_imm =
      mov_eax_imm i.imm ++ flags_if i (test_eax_eax ++ emit_flags_nz t) ++ st_eax t i.rd
  op_code i op_t32_movw = mov_eax_imm i.imm ++ st_eax t i.rd
  op_code i op_mov_reg =
      ld_eax t i.rm ++ flags_if i (test_eax_eax ++ emit_flags_nz t) ++ st_eax t i.rd
  op_code i op_add_reg = operands i ++ op_add_ec ++ emit_flags_nzcv t false ++ st_eax t i.rd
  op_code i op_sub_reg = operands i ++ op_sub_ec ++ emit_flags_nzcv t true ++ st_eax t i.rd
  op_code i op_add_imm3 = ld_eax t i.rn ++ add_imm i.imm ++ emit_flags_nzcv t false ++ st_eax t i.rd
  op_code i op_add_imm8 = ld_eax t i.rn ++ add_imm i.imm ++ emit_flags_nzcv t false ++ st_eax t i.rd
  op_code i op_sub_imm3 = ld_eax t i.rn ++ sub_imm i.imm ++ emit_flags_nzcv t true ++ st_eax t i.rd
  op_code i op_sub_imm8 = ld_eax t i.rn ++ sub_imm i.imm ++ emit_flags_nzcv t true ++ st_eax t i.rd
  op_code i op_t32_add_imm =
      ld_eax t i.rn ++ add_imm i.imm ++ flags_if i (emit_flags_nzcv t false) ++ st_eax t i.rd
  op_code i op_t32_addw = ld_eax t i.rn ++ add_imm i.imm ++ st_eax t i.rd
  op_code i op_t32_sub_imm =
      ld_eax t i.rn ++ sub_imm i.imm ++ flags_if i (emit_flags_nzcv t true) ++ st_eax t i.rd
  op_code i op_t32_subw = ld_eax t i.rn ++ sub_imm i.imm ++ st_eax t i.rd
  op_code i op_and_reg = operands i ++ op_and_ec ++ emit_flags_nz t ++ st_eax t i.rd
  op_code i op_t32_and_imm =
      ld_eax t i.rn ++ and_imm i.imm ++ flags_if i (emit_flags_nz t) ++ st_eax t i.rd
  op_code i op_orr_reg = operands i ++ op_or_ec ++ emit_flags_nz t ++ st_eax t i.rd
  op_code i op_t32_orr_imm =
      ld_eax t i.rn ++ or_imm i.imm ++ flags_if i (emit_flags_nz t) ++ st_eax t i.rd
  op_code i op_eor_reg = operands i ++ op_xor_ec ++ emit_flags_nz t ++ st_eax t i.rd
  op_code i op_t32_eor_imm =
      ld_eax t i.rn ++ xor_imm i.imm ++ flags_if i (emit_flags_nz t) ++ st_eax t i.rd
  op_code i op_cmp_imm = ld_eax t i.rn ++ sub_imm i.imm ++ emit_flags_nzcv t true
  op_code i op_t32_cmp_imm = ld_eax t i.rn ++ sub_imm i.imm ++ emit_flags_nzcv t true
  op_code i op_cmp_reg = operands i ++ op_sub_ec ++ emit_flags_nzcv t true
  op_code i op_cmp_reg_t2 = operands i ++ op_sub_ec ++ emit_flags_nzcv t true
  op_code i op_t32_cmp_reg = operands i ++ op_sub_ec ++ emit_flags_nzcv t true
  op_code i op_cmn_reg = operands i ++ op_add_ec ++ emit_flags_nzcv t false
  op_code i op_t32_cmn_reg = operands i ++ op_add_ec ++ emit_flags_nzcv t false
  op_code i op_t32_cmn_imm = ld_eax t i.rn ++ add_imm i.imm ++ emit_flags_nzcv t false
  op_code i op_tst_reg = operands i ++ op_and_ec ++ emit_flags_nz t
  op_code i op_ldr_imm = emit_load t i.rd i.rn i.imm 4
  op_code i op_t32_ldr_imm = emit_load t i.rd i.rn i.imm 4
  op_code i op_ldrb_imm = emit_load t i.rd i.rn i.imm 1
  op_code i op_t32_ldrb_imm = emit_load t i.rd i.rn i.imm 1
  op_code i op_ldrh_imm = emit_load t i.rd i.rn i.imm 2
  op_code i op_t32_ldrh_imm = emit_load t i.rd i.rn i.imm 2
  op_code i op_str_imm = emit_store t i.rd i.rn i.imm 4
  op_code i op_t32_str_imm = emit_store t i.rd i.rn i.imm 4
  op_code i op_strb_imm = emit_store t i.rd i.rn i.imm 1
  op_code i op_t32_strb_imm = emit_store t i.rd i.rn i.imm 1
  op_code i op_strh_imm = emit_store t i.rd i.rn i.imm 2
  op_code i op_t32_strh_imm = emit_store t i.rd i.rn i.imm 2
  op_code i op_ldr_sp = emit_load t i.rd reg_sp i.imm 4
  op_code i op_str_sp = emit_store t i.rd reg_sp i.imm 4
  op_code i op_ldr_lit = mov_eax_imm (literal_at i) ++ emit_load_from_eax t i.rd 4
  op_code i op_t32_ldr_lit = mov_eax_imm (literal_at i) ++ emit_load_from_eax t i.rd 4
  op_code i op_ldr_reg = operands i ++ op_add_ec ++ emit_load_from_eax t i.rd 4
  op_code i op_t32_ldr_reg = operands i ++ op_add_ec ++ emit_load_from_eax t i.rd 4
  op_code i op_str_reg = operands i ++ op_add_ec ++ store_at_eax t i.rd 4
  op_code i op_t32_str_reg = operands i ++ op_add_ec ++ store_at_eax t i.rd 4
  op_code i op_t32_ldrd_imm =
      emit_load t i.rd i.rn i.imm 4 ++ emit_load t i.rs i.rn (add32 i.imm 4) 4
  op_code i op_t32_strd_imm =
      emit_store t i.rd i.rn i.imm 4 ++ emit_store t i.rs i.rn (add32 i.imm 4) 4
  op_code i op_push = emit_push_v t sram (u16 i.reg_list)
  op_code i op_pop = emit_pop t sram (u16 i.reg_list)
  op_code i op_t32_ldm = multiple i true
  op_code i op_t32_stm = multiple i false
  op_code i op_b_uncond = emit_b_uncond t i
  op_code i op_b_cond = emit_b_cond_fast t i
  op_code i op_t32_b_cond = emit_b_cond_fast t i
  op_code i op_t32_bl = emit_t32_bl t i
  op_code i _ = []

  -- `emit_op`
  unfoldable pub emit_op : Insn → List ℕ
  unfolding op_code
  emit_op i = op_code i i.op

  -- The code of a block, without the prologue.
  unfoldable pub emit_ops : List Insn → List ℕ
  unfolding emit_op
  emit_ops [] = []
  emit_ops (i ∷ is) = emit_op i ++ emit_ops is
