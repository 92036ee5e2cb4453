-- ===== src/Decoder/Thumb32/Memory.antt =====
-- The loads and stores of `decode_thumb32`.
use lecerf.Base.{ℕ, ◌*◌, Bool, true, false, not, ◌==◌, ◌&&◌, ◌||◌, if◌then◌else◌, has}
use lecerf.Decoder.Insn.{
  Insn, Opcode, op_t32_ldm, op_t32_ldr_imm, op_t32_ldr_lit, op_t32_ldr_reg, op_t32_ldrb_imm,
  op_t32_ldrd_imm, op_t32_ldrh_imm, op_t32_ldrsb_imm, op_t32_ldrsh_imm, op_t32_stm, op_t32_str_imm,
  op_t32_str_reg, op_t32_strb_imm, op_t32_strd_imm, op_t32_strh_imm, op_t32_tbb, op_t32_tbh,
}
use lecerf.Decoder.Thumb16.{matches, field}

-- The opcode of an access of a size, a load or a store, signed or not.
unfoldable pub access_op : ℕ → Bool → Bool → Opcode
access_op size load signed =
    if load && (signed && (size == 0))
    then op_t32_ldrsb_imm
    else if load && (signed && (size == 1))
    then op_t32_ldrsh_imm
    else if size == 2
    then if load then op_t32_ldr_imm else op_t32_str_imm
    else if size == 1
    then if load then op_t32_ldrh_imm else op_t32_strh_imm
    else if load
    then op_t32_ldrb_imm
    else op_t32_strb_imm

-- The tests of the form with eight bits.
abbrev pub is_imm8_form : ℕ → Bool
is_imm8_form field6 =
    matches field6 0x24 0x24
    || (matches field6 0x3C 0x30
        || (matches field6 0x3C 0x38 || (matches field6 0x3C 0x24 || matches field6 0x3C 0x2C)))

-- Load and store single.
unfoldable pub load_store : ℕ → ℕ → Insn → Insn
unfolding access_op
load_store w0 w1 out =
    let size = field w0 5 3 in
    let load = not (field w0 4 1 == 0) in
    let signed = not (field w0 8 1 == 0) in
    if field w0 0 0xF == 15
    then record out {
      rd = field w1 12 0xF;
      imm = field w1 0 0xFFF;
      add = not (field w0 7 1 == 0);
      op = if load && (size == 2) then op_t32_ldr_lit else out.op;
    }
    else if has w0 0x0080
    then record out {
      rn = field w0 0 0xF;
      rd = field w1 12 0xF;
      imm = field w1 0 0xFFF;
      add = true;
      index = true;
      writeback = false;
      op = access_op size load signed;
    }
    else if is_imm8_form (field w1 6 0x3F)
    then record out {
      rn = field w0 0 0xF;
      rd = field w1 12 0xF;
      imm = field w1 0 0xFF;
      index = not (field w1 10 1 == 0);
      add = not (field w1 9 1 == 0);
      writeback = not (field w1 8 1 == 0);
      op = access_op size load signed;
    }
    else if field w1 6 0x3F == 0
    then record out {
      rn = field w0 0 0xF;
      rd = field w1 12 0xF;
      rm = field w1 0 0xF;
      shift_n = field w1 4 3;
      shift_type = 0;
      index = true;
      add = true;
      writeback = false;
      op = if size == 2 then (if load then op_t32_ldr_reg else op_t32_str_reg) else out.op;
    }
    else out

-- LDRD and STRD.
unfoldable pub dual : ℕ → ℕ → Insn → Insn
dual w0 w1 out = record out {
  rn = field w0 0 0xF;
  rd = field w1 12 0xF;
  rs = field w1 8 0xF;
  imm = field w1 0 0xFF * 4;
  index = not (field w0 8 1 == 0);
  add = not (field w0 7 1 == 0);
  writeback = not (field w0 5 1 == 0);
  op = if field w0 4 1 == 0 then op_t32_strd_imm else op_t32_ldrd_imm;
}

-- LDM and STM.
unfoldable pub multiple_32 : ℕ → ℕ → Insn → Insn
multiple_32 w0 w1 out = record out {
  rn = field w0 0 0xF;
  reg_list = w1;
  writeback = not (field w0 5 1 == 0);
  add = field w0 8 1 == 0;
  op = if field w0 4 1 == 0 then op_t32_stm else op_t32_ldm;
}

-- TBB and TBH.
unfoldable pub table_branch : ℕ → ℕ → Insn → Insn
table_branch w0 w1 out = record out {
  rn = field w0 0 0xF;
  rm = field w1 0 0xF;
  op = if has w1 0x10 then op_t32_tbh else op_t32_tbb;
}
