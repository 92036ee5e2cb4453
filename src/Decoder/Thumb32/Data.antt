-- ===== src/Decoder/Thumb32/Data.antt =====
-- The data processing of `decode_thumb32`.
use lecerf.Base.{ℕ, ◌*◌, ◌^◌, bit_or, Bool, not, ◌==◌, ◌&&◌, if◌then◌else◌}
use lecerf.Decoder.Insn.{
  Insn, Opcode, op_t32_adc_imm, op_t32_adc_reg, op_t32_add_imm, op_t32_add_reg, op_t32_addw,
  op_t32_adr_t2, op_t32_adr_t3, op_t32_and_imm, op_t32_and_reg, op_t32_asr_r, op_t32_bic_imm,
  op_t32_bic_reg, op_t32_cmn_imm, op_t32_cmn_reg, op_t32_cmp_imm, op_t32_cmp_reg, op_t32_eor_imm,
  op_t32_eor_reg, op_t32_lsl_r, op_t32_lsr_r, op_t32_mla, op_t32_mls, op_t32_mov_imm,
  op_t32_mov_reg, op_t32_movt, op_t32_movw, op_t32_mul, op_t32_mvn_imm, op_t32_mvn_reg,
  op_t32_orn_imm, op_t32_orn_reg, op_t32_orr_imm, op_t32_orr_reg, op_t32_ror_r, op_t32_rsb_imm,
  op_t32_rsb_reg, op_t32_sbc_imm, op_t32_sbc_reg, op_t32_sdiv, op_t32_smlal, op_t32_smull,
  op_t32_sub_imm, op_t32_sub_reg, op_t32_subw, op_t32_teq_imm, op_t32_teq_reg, op_t32_tst_imm,
  op_t32_tst_reg, op_t32_udiv, op_t32_umlal, op_t32_umull,
}
use lecerf.Decoder.Expand.{thumb_expand_imm}
use lecerf.Decoder.Thumb16.{field}

-- The table of the modified immediates; the other codes leave the opcode.
unfoldable pub modified_op : ℕ → ℕ → ℕ → Bool → Opcode → Opcode
modified_op op4 rn rd s old =
    let test = (rd == 15) && s in
    if op4 == 0
    then if test then op_t32_tst_imm else op_t32_and_imm
    else if op4 == 1
    then op_t32_bic_imm
    else if op4 == 2
    then if rn == 15 then op_t32_mov_imm else op_t32_orr_imm
    else if op4 == 3
    then if rn == 15 then op_t32_mvn_imm else op_t32_orn_imm
    else if op4 == 4
    then if test then op_t32_teq_imm else op_t32_eor_imm
    else if op4 == 8
    then if test then op_t32_cmn_imm else op_t32_add_imm
    else if op4 == 10
    then op_t32_adc_imm
    else if op4 == 11
    then op_t32_sbc_imm
    else if op4 == 13
    then if test then op_t32_cmp_imm else op_t32_sub_imm
    else if op4 == 14
    then op_t32_rsb_imm
    else old

-- `(i_bit << 11) | (imm3 << 8) | imm8`
abbrev pub imm12_of : ℕ → ℕ → ℕ
imm12_of w0 w1 = bit_or (bit_or (field w0 10 1 * 2 ^ 11) (field w1 12 7 * 2 ^ 8)) (field w1 0 0xFF)

unfoldable pub modified : ℕ → ℕ → Insn → Insn
unfolding modified_op
modified w0 w1 out =
    let s = not (field w0 4 1 == 0) in
    record out {
      rn = field w0 0 0xF;
      rd = field w1 8 0xF;
      imm = thumb_expand_imm (imm12_of w0 w1);
      set_flags = s;
      op = modified_op (field w0 5 0xF) (field w0 0 0xF) (field w1 8 0xF) s out.op;
    }

-- ADDW, SUBW, MOVW and MOVT; every other code leaves the opcode undefined.
unfoldable pub plain : ℕ → ℕ → Insn → Insn
plain w0 w1 out =
    let op4 = field w0 4 0x1F in
    let imm12 = imm12_of w0 w1 in
    let out' = record out { rn = field w0 0 0xF; rd = field w1 8 0xF } in
    if op4 == 0x00
    then record out' {
      imm = imm12;
      op = if field w0 0 0xF == 15 then op_t32_adr_t3 else op_t32_addw;
    }
    else if op4 == 0x0A
    then record out' {
      imm = imm12;
      op = if field w0 0 0xF == 15 then op_t32_adr_t2 else op_t32_subw;
    }
    else if op4 == 0x04
    then record out' { imm = bit_or (field w0 0 0xF * 2 ^ 12) imm12; op = op_t32_movw }
    else if op4 == 0x0C
    then record out' { imm = bit_or (field w0 0 0xF * 2 ^ 12) imm12; op = op_t32_movt }
    else out'

-- The table of the shifted registers.
unfoldable pub register_op : ℕ → ℕ → ℕ → Bool → Opcode → Opcode
register_op op4 rn rd s old =
    let test = (rd == 15) && s in
    if op4 == 0
    then if test then op_t32_tst_reg else op_t32_and_reg
    else if op4 == 1
    then op_t32_bic_reg
    else if op4 == 2
    then if rn == 15 then op_t32_mov_reg else op_t32_orr_reg
    else if op4 == 3
    then if rn == 15 then op_t32_mvn_reg else op_t32_orn_reg
    else if op4 == 4
    then if test then op_t32_teq_reg else op_t32_eor_reg
    else if op4 == 8
    then if test then op_t32_cmn_reg else op_t32_add_reg
    else if op4 == 10
    then op_t32_adc_reg
    else if op4 == 11
    then op_t32_sbc_reg
    else if op4 == 13
    then if test then op_t32_cmp_reg else op_t32_sub_reg
    else if op4 == 14
    then op_t32_rsb_reg
    else old

unfoldable pub register : ℕ → ℕ → Insn → Insn
unfolding register_op
register w0 w1 out =
    let s = not (field w0 4 1 == 0) in
    record out {
      rn = field w0 0 0xF;
      rd = field w1 8 0xF;
      rm = field w1 0 0xF;
      set_flags = s;
      shift_type = field w1 4 3;
      shift_n = bit_or (field w1 12 7 * 4) (field w1 6 3);
      op = register_op (field w0 5 0xF) (field w0 0 0xF) (field w1 8 0xF) s out.op;
    }

-- Shifts by a register.
unfoldable pub shift_reg : ℕ → ℕ → Insn → Insn
shift_reg w0 w1 out =
    let typ = field w0 5 3 in
    record out {
      rn = field w0 0 0xF;
      rd = field w1 8 0xF;
      rm = field w1 0 0xF;
      set_flags = not (field w0 4 1 == 0);
      op =
          if typ == 0
          then op_t32_lsl_r
          else if typ == 1
          then op_t32_lsr_r
          else if typ == 2
          then op_t32_asr_r
          else op_t32_ror_r;
    }

-- MUL, MLA and MLS.
unfoldable pub multiply : ℕ → ℕ → Insn → Insn
multiply w0 w1 out =
    let op1 = field w0 4 7 in
    let op2 = field w1 4 0xF in
    record out {
      rn = field w0 0 0xF;
      rm = field w1 0 0xF;
      rd = field w1 8 0xF;
      rs = field w1 12 0xF;
      op =
          if (op1 == 0) && (op2 == 0)
          then if field w1 12 0xF == 15 then op_t32_mul else op_t32_mla
          else if (op1 == 0) && (op2 == 1)
          then op_t32_mls
          else out.op;
    }

-- The long multiplications and the divisions, whose `rd` is in another place.
unfoldable pub multiply_long : ℕ → ℕ → Insn → Insn
multiply_long w0 w1 out =
    let op1 = field w0 4 7 in
    let op2 = field w1 4 0xF in
    let out' = record out {
      rn = field w0 0 0xF;
      rm = field w1 0 0xF;
      rd = field w1 12 0xF;
      rs = field w1 8 0xF;
    } in
    if op1 == 0
    then record out' { op = op_t32_smull }
    else if (op1 == 1) && (op2 == 0xF)
    then record out' { rd = field w1 8 0xF; op = op_t32_sdiv }
    else if op1 == 2
    then record out' { op = op_t32_umull }
    else if (op1 == 3) && (op2 == 0xF)
    then record out' { rd = field w1 8 0xF; op = op_t32_udiv }
    else if op1 == 4
    then record out' { op = op_t32_smlal }
    else if op1 == 6
    then record out' { op = op_t32_umlal }
    else out'

-- BFI, BFC, UBFX and SBFX.
unfoldable pub bit_field : Opcode → ℕ → ℕ → Insn → Insn
bit_field op w0 w1 out = record out {
  rn = field w0 0 0xF;
  rd = field w1 8 0xF;
  imm = bit_or (field w1 0 0x1F * 2 ^ 8) (bit_or (field w1 12 7 * 4) (field w1 6 3));
  op = op;
}

-- CLZ and RBIT.
unfoldable pub one_register : Opcode → ℕ → ℕ → Insn → Insn
one_register op w0 w1 out = record out { rm = field w0 0 0xF; rd = field w1 8 0xF; op = op }
