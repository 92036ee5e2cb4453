-- ===== src/Decoder/Thumb32/Vfp.antt =====
-- The VFP encodings of `decode_thumb32`.
use lecerf.Base.{ℕ, ◌*◌, ◌^◌, bit_and, bit_or, Bool, not, ◌==◌, ◌&&◌, ◌||◌, if◌then◌else◌}
use lecerf.Decoder.Insn.{
  Insn, Opcode, op_vabs_s, op_vadd_s, op_vcmp_s, op_vcvt_f_i, op_vcvt_i_f, op_vdiv_s, op_vfma_s,
  op_vfms_s, op_vfnma_s, op_vfnms_s, op_vldm, op_vldr_s, op_vmla_s, op_vmls_s, op_vmov_f_r,
  op_vmov_imm_s, op_vmov_r_f, op_vmov_s, op_vmrs, op_vmsr, op_vmul_s, op_vneg_s, op_vnmla_s,
  op_vnmls_s, op_vnmul_s, op_vpop, op_vpush, op_vsqrt_s, op_vstm, op_vstr_s, op_vsub_s,
}
use lecerf.Decoder.Thumb16.{matches, field}

-- `(V << 1) | D`
abbrev pub single : ℕ → ℕ → ℕ
single v d = bit_or (v * 2) d

-- VPUSH, VPOP, VLDM and VSTM.
unfoldable pub vfp_multiple : ℕ → ℕ → Insn → Insn
vfp_multiple w0 w1 out =
    let p = field w0 8 1 in
    let u = field w0 7 1 in
    let w = field w0 5 1 in
    let l = field w0 4 1 in
    let rn = field w0 0 0xF in
    record out {
      rn = rn;
      writeback = not (w == 0);
      add = not (u == 0);
      index = not (p == 0);
      sd =
          if field w1 8 1 == 0
          then single (field w1 12 0xF) (field w0 6 1)
          else bit_or (field w0 6 1 * 32) (field w1 12 0xF * 2);
      imm = field w1 0 0xFF;
      op =
          if (rn == 13) && ((p == 1) && ((u == 0) && ((w == 1) && (l == 0))))
          then op_vpush
          else if (rn == 13) && ((p == 0) && ((u == 1) && ((w == 1) && (l == 1))))
          then op_vpop
          else if l == 0
          then op_vstm
          else op_vldm;
    }

-- VLDR and VSTR.
unfoldable pub vfp_single : ℕ → ℕ → Insn → Insn
vfp_single w0 w1 out = record out {
  rn = field w0 0 0xF;
  sd = single (field w1 12 0xF) (field w0 6 1);
  imm = field w1 0 0xFF * 4;
  add = not (field w0 7 1 == 0);
  op = if field w0 4 1 == 0 then op_vstr_s else op_vldr_s;
}

-- VMOV between a core and a VFP register.
unfoldable pub vfp_move : ℕ → ℕ → Insn → Insn
vfp_move w0 w1 out = record out {
  rd = field w1 12 0xF;
  sn = single (field w0 0 0xF) (field w1 7 1);
  op = if field w0 4 1 == 0 then op_vmov_r_f else op_vmov_f_r;
}

-- The immediate of VMOV: `VFPExpandImm32`.
unfoldable pub vfp_imm : ℕ → ℕ
vfp_imm imm8 =
    let b = field imm8 6 1 in
    bit_or
      (bit_or (bit_or (field imm8 7 1 * 2 ^ 31) ((if b == 0 then 1 else 0) * 2 ^ 30))
        ((if b == 0 then 0 else 0x1F) * 2 ^ 25))
      (bit_and imm8 0x3F * 2 ^ 19)

-- The group `op0 == 0xB`, but for the immediate of VMOV.
unfoldable pub vfp_other_op : ℕ → ℕ → Opcode → Opcode
vfp_other_op vn opc2 old =
    if vn == 0
    then if opc2 == 3 then op_vabs_s else op_vmov_s
    else if vn == 1
    then if opc2 == 3 then op_vsqrt_s else op_vneg_s
    else if (vn == 4) || (vn == 5)
    then op_vcmp_s
    else if vn == 8
    then op_vcvt_i_f
    else if (vn == 0xC) || (vn == 0xD)
    then op_vcvt_f_i
    else old

-- The arithmetic of three registers.
unfoldable pub vfp_arith_op : ℕ → Bool → Opcode → Opcode
vfp_arith_op op0 op2 old =
    if op0 == 0x3
    then if op2 then op_vsub_s else op_vadd_s
    else if op0 == 0x2
    then if op2 then op_vnmul_s else op_vmul_s
    else if op0 == 0x8
    then op_vdiv_s
    else if op0 == 0x0
    then if op2 then op_vmls_s else op_vmla_s
    else if op0 == 0x1
    then if op2 then op_vnmla_s else op_vnmls_s
    else if op0 == 0xA
    then if op2 then op_vfms_s else op_vfma_s
    else if op0 == 0x9
    then if op2 then op_vfnma_s else op_vfnms_s
    else old

-- VFP data processing.
unfoldable pub vfp_data : ℕ → ℕ → Insn → Insn
unfolding vfp_imm vfp_other_op vfp_arith_op
vfp_data w0 w1 out =
    let op0 = bit_and (field w0 4 0xF) 0xB in
    let vn = field w0 0 0xF in
    let out' = record out {
      sd = single (field w1 12 0xF) (field w0 6 1);
      sn = single vn (field w1 7 1);
      sm = single (field w1 0 0xF) (field w1 5 1);
    } in
    if (w0 == 0xEEF1) && matches w1 0x0FFF 0x0A10
    then record out' { rd = field w1 12 0xF; op = op_vmrs }
    else if (w0 == 0xEEE1) && matches w1 0x0FFF 0x0A10
    then record out' { rd = field w1 12 0xF; op = op_vmsr }
    else if (op0 == 0xB) && matches w1 0xF0 0
    then record out' { imm = vfp_imm (bit_or (vn * 16) (field w1 0 0xF)); op = op_vmov_imm_s }
    else if op0 == 0xB
    then record out' { op = vfp_other_op vn (field w1 6 3) out.op }
    else record out' { op = vfp_arith_op op0 (not (field w1 6 1 == 0)) out.op }
