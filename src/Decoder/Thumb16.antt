-- ===== src/Decoder/Thumb16.antt =====
-- `decode_thumb16` of src/core/decoder.c, a function for each of its groups of encodings.
-- The decoder writes only some fields of the instruction that it is given, so the old value of that
-- instruction is an argument.
pub mod Branch
pub mod Fields
use lecerf.Base.{
  ℕ, ◌+◌, ◌*◌, ◌/◌, ◌^◌, ◌%◌, bit_and, bit_or, Bool, true, false, not, ◌==◌, ◌&&◌, ◌||◌, ltb,
  if◌then◌else◌, ◌>>>◌, shl32, u8, sext8, mul32,
}
use lecerf.Decoder.Insn.{
  Insn, Opcode, op_adc_reg, op_add_imm3, op_add_imm8, op_add_reg, op_add_reg_t2, op_add_sp_imm,
  op_add_sp_sp, op_adr, op_and_reg, op_asr_imm, op_asr_reg, op_b_cond, op_b_uncond, op_bic_reg,
  op_bkpt, op_blx_reg, op_bx, op_cbnz, op_cbz, op_cmn_reg, op_cmp_imm, op_cmp_reg, op_cmp_reg_t2,
  op_cps, op_eor_reg, op_ldm, op_ldr_imm, op_ldr_lit, op_ldr_reg, op_ldr_sp, op_ldrb_imm,
  op_ldrb_reg, op_ldrh_imm, op_ldrh_reg, op_ldrsb_reg, op_ldrsh_reg, op_lsl_imm, op_lsl_reg,
  op_lsr_imm, op_lsr_reg, op_mov_imm, op_mov_reg, op_mul, op_mvn_reg, op_nop, op_orr_reg, op_pop,
  op_push, op_rev, op_rev16, op_revsh, op_ror_reg, op_rsb_imm, op_sbc_reg, op_sev, op_stm,
  op_str_imm, op_str_reg, op_str_sp, op_strb_imm, op_strb_reg, op_strh_imm, op_strh_reg,
  op_sub_imm3, op_sub_imm8, op_sub_reg, op_sub_sp_sp, op_svc, op_sxtb, op_sxth, op_t32_it,
  op_tst_reg, op_udf, op_undefined, op_uxtb, op_uxth, op_wfe, op_wfi, op_yield,
}

-- `set_undef`, and the `out->raw = w` after it.
unfoldable pub set_undef : ℕ → ℕ → Insn → Insn
set_undef raw pc out = record out {
  op = op_undefined;
  pc = pc;
  size = 2;
  raw = raw;
  rd = 0;
  rn = 0;
  rm = 0;
  rs = 0;
  imm = 0;
  cond = 0xE;
  reg_list = 0;
}

-- `(w & mask) == value`
abbrev pub matches : ℕ → ℕ → ℕ → Bool
matches w mask value = bit_and w mask == value

-- `(w >> k) & mask`
abbrev pub field : ℕ → ℕ → ℕ → ℕ
field w k mask = bit_and (w >>> k) mask

-- ADD and SUB of a register or of three bits.
add_sub : ℕ → Insn → Insn
add_sub w out =
    let opc = field w 9 1 == 1 in
    if field w 10 1 == 0
    then record out {
      rn = field w 3 7;
      rd = field w 0 7;
      rm = field w 6 7;
      op = if opc then op_sub_reg else op_add_reg;
    }
    else record out {
      rn = field w 3 7;
      rd = field w 0 7;
      imm = field w 6 7;
      op = if opc then op_sub_imm3 else op_add_imm3;
    }

-- Shifts by an immediate.
shift_imm : ℕ → Insn → Insn
shift_imm w out =
    let op = field w 11 3 in
    record out {
      rm = field w 3 7;
      rd = field w 0 7;
      imm = field w 6 0x1F;
      op = if op == 0 then op_lsl_imm else if op == 1 then op_lsr_imm else op_asr_imm;
    }

-- MOV, CMP, ADD and SUB of eight bits.
imm8 : ℕ → Insn → Insn
imm8 w out =
    let op = field w 11 3 in
    record out {
      rd = field w 8 7;
      rn = field w 8 7;
      imm = field w 0 0xFF;
      op =
          if op == 0
          then op_mov_imm
          else if op == 1
          then op_cmp_imm
          else if op == 2
          then op_add_imm8
          else op_sub_imm8;
    }

-- The table of the data-processing group.
data_op : ℕ → Opcode
data_op op =
    if op == 0
    then op_and_reg
    else if op == 1
    then op_eor_reg
    else if op == 2
    then op_lsl_reg
    else if op == 3
    then op_lsr_reg
    else if op == 4
    then op_asr_reg
    else if op == 5
    then op_adc_reg
    else if op == 6
    then op_sbc_reg
    else if op == 7
    then op_ror_reg
    else if op == 8
    then op_tst_reg
    else if op == 9
    then op_rsb_imm
    else if op == 10
    then op_cmp_reg
    else if op == 11
    then op_cmn_reg
    else if op == 12
    then op_orr_reg
    else if op == 13
    then op_mul
    else if op == 14
    then op_bic_reg
    else op_mvn_reg

-- Data processing on registers.
data_reg : ℕ → Insn → Insn
unfolding data_op
data_reg w out = record out {
  rm = field w 3 7;
  rd = field w 0 7;
  rn = field w 0 7;
  op = data_op (field w 6 0xF);
}

-- ADD, CMP and MOV of the high registers, BX and BLX.
special : ℕ → Insn → Insn
special w out =
    let opc = field w 8 3 in
    let rdn = bit_or (field w 7 1 * 8) (field w 0 7) in
    let out' = record out { rm = field w 3 0xF } in
    if opc == 0
    then record out' { rn = rdn; rd = rdn; op = op_add_reg_t2 }
    else if opc == 1
    then record out' { rn = rdn; op = op_cmp_reg_t2 }
    else if opc == 2
    then record out' { rd = rdn; op = op_mov_reg }
    else record out' { op = if field w 7 1 == 1 then op_blx_reg else op_bx }

-- The table of the loads and stores with a register offset.
mem_op : ℕ → Opcode
mem_op opc =
    if opc == 0
    then op_str_reg
    else if opc == 1
    then op_strh_reg
    else if opc == 2
    then op_strb_reg
    else if opc == 3
    then op_ldrsb_reg
    else if opc == 4
    then op_ldr_reg
    else if opc == 5
    then op_ldrh_reg
    else if opc == 6
    then op_ldrb_reg
    else op_ldrsh_reg

mem_reg : ℕ → Insn → Insn
unfolding mem_op
mem_reg w out = record out {
  rm = field w 6 7;
  rn = field w 3 7;
  rd = field w 0 7;
  op = mem_op (field w 9 7);
}

-- Loads and stores with an offset of five bits, scaled by the size of the access.
mem_imm : ℕ → Opcode → Opcode → ℕ → Insn → Insn
mem_imm scale load store w out = record out {
  rn = field w 3 7;
  rd = field w 0 7;
  imm = field w 6 0x1F * scale;
  op = if field w 11 1 == 1 then load else store;
}

-- A register and eight bits, scaled by 4.
rd_imm8 : Opcode → ℕ → Insn → Insn
rd_imm8 op w out = record out { rd = field w 8 7; imm = field w 0 0xFF * 4; op = op }

-- The hints 0xBF00 to 0xBFF0.
hint : ℕ → Opcode
hint n =
    if n == 1
    then op_yield
    else if n == 2
    then op_wfe
    else if n == 3
    then op_wfi
    else if n == 4
    then op_sev
    else op_nop

extend_op : ℕ → Opcode
extend_op opc =
    if opc == 0
    then op_sxth
    else if opc == 1
    then op_sxtb
    else if opc == 2
    then op_uxth
    else op_uxtb

-- REV, REV16 and REVSH; the code 2 leaves the opcode undefined.
rev_op : ℕ → Opcode → Opcode
rev_op opc old =
    if opc == 0 then op_rev else if opc == 1 then op_rev16 else if opc == 3 then op_revsh else old

-- The miscellaneous group 1011. None of the tests after it holds of a word of this group.
misc : ℕ → Insn → Insn
unfolding hint extend_op rev_op
misc w out =
    if matches w 0xFF80 0xB000
    then record out { imm = field w 0 0x7F * 4; op = op_add_sp_sp }
    else if matches w 0xFF80 0xB080
    then record out { imm = field w 0 0x7F * 4; op = op_sub_sp_sp }
    else if matches w 0xFE00 0xB400
    then record out { op = op_push; reg_list = bit_or (field w 0 0xFF) (field w 8 1 * 0x4000) }
    else if matches w 0xFE00 0xBC00
    then record out { op = op_pop; reg_list = bit_or (field w 0 0xFF) (field w 8 1 * 0x8000) }
    else if matches w 0xF500 0xB100
    then record out {
      rn = field w 0 7;
      imm = bit_or (field w 9 1 * 64) (field w 3 0x1F * 2);
      op = if field w 11 1 == 1 then op_cbnz else op_cbz;
    }
    else if matches w 0xFF00 0xBF00 && not (bit_and w 0xF == 0)
    then record out { op = op_t32_it; it_first = field w 4 0xF; it_mask = field w 0 0xF }
    else if matches w 0xFF0F 0xBF00
    then record out { op = hint (field w 4 0xF) }
    else if matches w 0xFF00 0xB200
    then record out { rm = field w 3 7; rd = field w 0 7; op = extend_op (field w 6 3) }
    else if matches w 0xFF00 0xBA00
    then record out { rm = field w 3 7; rd = field w 0 7; op = rev_op (field w 6 3) out.op }
    else if matches w 0xFF00 0xBE00
    then record out { op = op_bkpt; imm = field w 0 0xFF }
    else if matches w 0xFFE0 0xB660
    then record out {
      op = op_cps;
      imm = bit_or (bit_or (field w 4 1 * 4) (field w 1 1 * 2)) (field w 0 1);
    }
    else out

-- B<cond>, UDF and SVC.
branch_cond : ℕ → Insn → Insn
branch_cond w out =
    let cond = field w 8 0xF in
    if cond == 0xE
    then record out { op = op_udf; imm = field w 0 0xFF }
    else if cond == 0xF
    then record out { op = op_svc; imm = field w 0 0xFF }
    else record out { op = op_b_cond; cond = cond; imm = mul32 (sext8 (field w 0 0xFF)) 2 }

-- `(i32)((w & 0x7FF) << 21) >> 20`: the shift to the right keeps the sign.
branch_offset : ℕ → ℕ
branch_offset w =
    let v = shl32 (field w 0 0x7FF) 21 in
    if ltb v 0x80000000 then v >>> 20 else (v >>> 20) + 0xFFFFF000

branch : ℕ → Insn → Insn
unfolding branch_offset
branch w out = record out { op = op_b_uncond; cond = 0xE; imm = branch_offset w }

multiple : ℕ → Insn → Insn
multiple w out = record out {
  rn = field w 8 7;
  reg_list = field w 0 0xFF;
  op = if field w 11 1 == 1 then op_ldm else op_stm;
}

-- The groups, each at the place that the source tries it.
groups : ℕ → Insn → Insn
unfolding add_sub shift_imm imm8 data_reg special mem_reg mem_imm rd_imm8 misc branch_cond branch
    multiple
groups w out =
    if matches w 0xF800 0x1800
    then add_sub w out
    else if matches w 0xE000 0x0000
    then shift_imm w out
    else if matches w 0xE000 0x2000
    then imm8 w out
    else if matches w 0xFC00 0x4000
    then data_reg w out
    else if matches w 0xFC00 0x4400
    then special w out
    else if matches w 0xF800 0x4800
    then rd_imm8 op_ldr_lit w out
    else if matches w 0xF000 0x5000
    then mem_reg w out
    else if matches w 0xF000 0x6000
    then mem_imm 4 op_ldr_imm op_str_imm w out
    else if matches w 0xF000 0x7000
    then mem_imm 1 op_ldrb_imm op_strb_imm w out
    else if matches w 0xF000 0x8000
    then mem_imm 2 op_ldrh_imm op_strh_imm w out
    else if matches w 0xF000 0x9000
    then rd_imm8 (if field w 11 1 == 1 then op_ldr_sp else op_str_sp) w out
    else if matches w 0xF800 0xA000
    then rd_imm8 op_adr w out
    else if matches w 0xF800 0xA800
    then rd_imm8 op_add_sp_imm w out
    else if matches w 0xF000 0xB000
    then misc w out
    else if matches w 0xF000 0xC000
    then multiple w out
    else if matches w 0xF000 0xD000
    then branch_cond w out
    else if matches w 0xF800 0xE000
    then branch w out
    else if w == 0xBF00
    then record out { op = op_nop }
    else out

-- `decode_thumb16`; its result is always 2.
unfoldable pub decode_thumb16 : ℕ → ℕ → Insn → Insn
unfolding set_undef groups
decode_thumb16 w pc out = groups w (set_undef w pc out)

-- `is_t32`
unfoldable pub is_t32 : ℕ → Bool
is_t32 w = let top5 = field w 11 0x1F in (top5 == 0x1D) || (top5 == 0x1E) || (top5 == 0x1F)
