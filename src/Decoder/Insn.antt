-- ===== src/Decoder/Insn.antt =====
-- `opcode_t` and `insn_t` of include/core/decoder.h.
use lecerf.Base.{ℕ, Bool}

-- `opcode_t`; OP_COUNT is only the number of the others.
pub data Opcode : Type 0 where
  op_undefined op_lsl_imm op_lsr_imm op_asr_imm op_add_reg op_sub_reg op_add_imm3 op_sub_imm3 :
      Opcode
  op_mov_imm op_cmp_imm op_add_imm8 op_sub_imm8 op_and_reg op_eor_reg op_lsl_reg op_lsr_reg : Opcode
  op_asr_reg op_adc_reg op_sbc_reg op_ror_reg op_tst_reg op_rsb_imm op_cmp_reg op_cmn_reg : Opcode
  op_orr_reg op_mul op_bic_reg op_mvn_reg op_add_reg_t2 op_cmp_reg_t2 op_mov_reg op_bx : Opcode
  op_blx_reg op_ldr_lit op_str_reg op_strh_reg op_strb_reg op_ldrsb_reg op_ldr_reg op_ldrh_reg :
      Opcode
  op_ldrb_reg op_ldrsh_reg op_str_imm op_ldr_imm op_strb_imm op_ldrb_imm op_strh_imm : Opcode
  op_ldrh_imm op_str_sp op_ldr_sp op_adr op_add_sp_imm op_add_sp_sp op_sub_sp_sp op_sxth : Opcode
  op_sxtb op_uxth op_uxtb op_push op_pop op_rev op_rev16 op_revsh op_cps op_bkpt op_stm op_ldm :
      Opcode
  op_b_cond op_b_uncond op_svc op_udf op_nop op_yield op_wfe op_wfi op_sev op_it op_cbz op_cbnz :
      Opcode
  op_t32_bl op_t32_b_cond op_t32_and_imm op_t32_bic_imm op_t32_orr_imm op_t32_orn_imm : Opcode
  op_t32_eor_imm op_t32_teq_imm op_t32_add_imm op_t32_adc_imm op_t32_sbc_imm op_t32_sub_imm : Opcode
  op_t32_rsb_imm op_t32_tst_imm op_t32_cmn_imm op_t32_cmp_imm op_t32_mov_imm op_t32_mvn_imm : Opcode
  op_t32_addw op_t32_subw op_t32_movw op_t32_movt op_t32_adr_t2 op_t32_adr_t3 op_t32_and_reg :
      Opcode
  op_t32_bic_reg op_t32_orr_reg op_t32_orn_reg op_t32_eor_reg op_t32_teq_reg op_t32_add_reg : Opcode
  op_t32_adc_reg op_t32_sbc_reg op_t32_sub_reg op_t32_rsb_reg op_t32_tst_reg op_t32_cmn_reg : Opcode
  op_t32_cmp_reg op_t32_mov_reg op_t32_mvn_reg op_t32_ldr_imm op_t32_str_imm op_t32_ldr_lit : Opcode
  op_t32_ldr_reg op_t32_str_reg op_t32_ldrb_imm op_t32_strb_imm op_t32_ldrh_imm op_t32_strh_imm :
      Opcode
  op_t32_ldrsb_imm op_t32_ldrsh_imm op_t32_ldrd_imm op_t32_strd_imm op_t32_ldm op_t32_stm : Opcode
  op_t32_msr op_t32_mrs op_t32_nop op_t32_mul op_t32_mla op_t32_mls op_t32_umull op_t32_smull :
      Opcode
  op_t32_umlal op_t32_smlal op_t32_udiv op_t32_sdiv op_t32_bfi op_t32_bfc op_t32_ubfx : Opcode
  op_t32_sbfx op_t32_clz op_t32_rbit op_t32_usat op_t32_ssat op_t32_lsl_r op_t32_lsr_r : Opcode
  op_t32_asr_r op_t32_ror_r op_vldr_s op_vstr_s op_vadd_s op_vsub_s op_vmul_s op_vdiv_s : Opcode
  op_vmov_f_r op_vmov_r_f op_vmov_s op_vabs_s op_vneg_s op_vsqrt_s op_vmov_imm_s op_vfma_s : Opcode
  op_vfms_s op_vfnma_s op_vfnms_s op_vmla_s op_vmls_s op_vnmul_s op_vnmla_s op_vnmls_s op_vpush :
      Opcode
  op_vpop op_vldm op_vstm op_vcmp_s op_vcvt_f_i op_vcvt_i_f op_vmrs op_vmsr op_t32_tbb : Opcode
  op_t32_tbh op_t32_it : Opcode

-- `insn_t`
pub record Insn : Type 0 where
  pub op : Opcode
  pub pc : ℕ
  pub size : ℕ
  pub rd : ℕ
  pub rn : ℕ
  pub rm : ℕ
  pub rs : ℕ
  pub imm : ℕ
  pub raw : ℕ
  pub cond : ℕ
  pub reg_list : ℕ
  pub set_flags : Bool
  pub writeback : Bool
  pub add : Bool
  pub index : Bool
  pub shift_type : ℕ
  pub shift_n : ℕ
  pub it_mask : ℕ
  pub it_first : ℕ
  pub sd : ℕ
  pub sn : ℕ
  pub sm : ℕ
