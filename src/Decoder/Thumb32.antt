-- ===== src/Decoder/Thumb32.antt =====
-- `decode_thumb32` of src/core/decoder.c, a function for each of its groups of encodings, and
-- `decode`.
pub mod Data
pub mod Unreached
pub mod Link
pub mod Range
pub mod RangeMemory
pub mod Fields
pub mod Vfp
pub mod Memory
use lecerf.Base.{
  ℕ, ◌+◌, ◌-◌, ◌*◌, ◌^◌, bit_and, bit_or, bit_xor, Bool, true, false, not, ◌==◌, ◌&&◌, ◌||◌, has,
  if◌then◌else◌, ◌>>>◌, add32,
}
use lecerf.Decoder.Insn.{
  Insn, Opcode, op_b_uncond, op_t32_b_cond, op_t32_bfc, op_t32_bfi, op_t32_bl, op_t32_clz,
  op_t32_mrs, op_t32_msr, op_t32_nop, op_t32_rbit, op_t32_sbfx, op_t32_ubfx,
}
use lecerf.Bus.{Mmio, bus_r16}
use lecerf.Decoder.Expand.{sext}
use lecerf.Decoder.Thumb16.{set_undef, matches, field, is_t32, decode_thumb16}
use lecerf.Decoder.Thumb32.Data.{
  modified, plain, register, shift_reg, multiply, multiply_long, bit_field, one_register,
}
use lecerf.Decoder.Thumb32.Vfp.{vfp_multiple, vfp_single, vfp_move, vfp_data}
use lecerf.Decoder.Thumb32.Memory.{load_store, dual, multiple_32, table_branch}

-- `(~(J ^ S)) & 1`
abbrev pub inverted : ℕ → ℕ → ℕ
inverted j s = bit_and (0xFFFFFFFF - bit_xor j s) 1

-- The offset of BL and of B T4.
unfoldable pub offset_25 : ℕ → ℕ → ℕ
offset_25 w0 w1 =
    let s = field w0 10 1 in
    let i1 = inverted (field w1 13 1) s in
    let i2 = inverted (field w1 11 1) s in
    sext
      (bit_or
        (bit_or (bit_or (bit_or (s * 2 ^ 24) (i1 * 2 ^ 23)) (i2 * 2 ^ 22))
          (field w0 0 0x3FF * 2 ^ 12))
        (field w1 0 0x7FF * 2))
      25

-- The offset of B T3.
unfoldable pub offset_21 : ℕ → ℕ → ℕ
offset_21 w0 w1 =
    sext
      (bit_or
        (bit_or
          (bit_or (bit_or (field w0 10 1 * 2 ^ 20) (field w1 11 1 * 2 ^ 19))
            (field w1 13 1 * 2 ^ 18))
          (field w0 0 0x3F * 2 ^ 12))
        (field w1 0 0x7FF * 2))
      21

-- The branches and miscellaneous control; words with `w1[15:14]` 11 and `w1[12]` 0 fall through.
abbrev pub is_branch_32 : ℕ → ℕ → Bool
is_branch_32 w0 w1 =
    matches w0 0xF800 0xF000
    && (matches w1 0x8000 0x8000 && not ((field w1 14 3 == 3) && (field w1 12 1 == 0)))

pub branch_32 : ℕ → ℕ → Insn → Insn
unfolding offset_25 offset_21
branch_32 w0 w1 out =
    if (field w1 14 3 == 3) && (field w1 12 1 == 1)
    then record out { imm = offset_25 w0 w1; op = op_t32_bl }
    else if (field w1 14 3 == 2) && (field w1 12 1 == 1)
    then record out { imm = offset_25 w0 w1; op = op_b_uncond }
    else if w0 == 0xF3EF
    then record out { rd = field w1 8 0xF; imm = field w1 0 0xFF; op = op_t32_mrs }
    else if matches w0 0xFFF0 0xF380
    then record out {
      rn = field w0 0 0xF;
      imm = field w1 0 0xFF;
      rs = field w1 10 3;
      op = op_t32_msr;
    }
    else if (w0 == 0xF3AF) || (w0 == 0xF3BF)
    then record out { op = op_t32_nop }
    else record out { imm = offset_21 w0 w1; cond = field w0 6 0xF; op = op_t32_b_cond }

-- BFC is BFI of no register.
abbrev pub insert_op : ℕ → Opcode
insert_op w0 = if field w0 0 0xF == 15 then op_t32_bfc else op_t32_bfi

-- The groups after the multiplications, each at the place that the source tries it. The tests of
-- MRS and MSR at its end hold of no word that comes to them.
late_groups : ℕ → ℕ → Insn → Insn
unfolding bit_field one_register vfp_multiple vfp_single vfp_move vfp_data multiple_32 table_branch
late_groups w0 w1 out =
    if matches w0 0xFE40 0xE800 && not (field w0 7 1 == field w0 8 1)
    then multiple_32 w0 w1 out
    else if matches w0 0xFFF0 0xE8D0 && matches w1 0xFFE0 0xF000
    then table_branch w0 w1 out
    else if matches w0 0xFBF0 0xF360
    then bit_field (insert_op w0) w0 w1 out
    else if matches w0 0xFBF0 0xF3C0
    then bit_field op_t32_ubfx w0 w1 out
    else if matches w0 0xFBF0 0xF340
    then bit_field op_t32_sbfx w0 w1 out
    else if matches w0 0xFFF0 0xFAB0 && matches w1 0xF0F0 0xF080
    then one_register op_t32_clz w0 w1 out
    else if matches w0 0xFFF0 0xFA90 && matches w1 0xF0F0 0xF0A0
    then one_register op_t32_rbit w0 w1 out
    else if matches w0 0xFE00 0xEC00
        && (matches (field w1 8 0xF) 0xE 0xA && not ((field w0 8 1 == 1) && (field w0 5 1 == 0)))
    then vfp_multiple w0 w1 out
    else if matches w0 0xFF00 0xED00 && (field w1 8 0xF == 0xA)
    then vfp_single w0 w1 out
    else if matches w0 0xFFE0 0xEE00 && ((field w1 8 0xF == 0xA) && matches w1 0x7F 0x10)
    then vfp_move w0 w1 out
    else if matches w0 0xFF00 0xEE00 && (field w1 8 0xF == 0xA)
    then vfp_data w0 w1 out
    else out

groups_32 : ℕ → ℕ → Insn → Insn
unfolding branch_32 modified plain load_store dual register shift_reg multiply multiply_long
    late_groups
groups_32 w0 w1 out =
    if is_branch_32 w0 w1
    then branch_32 w0 w1 out
    else if matches w0 0xFA00 0xF000 && (field w1 15 1 == 0)
    then modified w0 w1 out
    else if matches w0 0xFA00 0xF200 && (field w1 15 1 == 0)
    then plain w0 w1 out
    else if matches w0 0xFE00 0xF800
    then load_store w0 w1 out
    else if matches w0 0xFE40 0xE840
    then dual w0 w1 out
    else if matches w0 0xFE00 0xEA00
    then register w0 w1 out
    else if matches w0 0xFFA0 0xFA00 && matches w1 0xF0F0 0xF000
    then shift_reg w0 w1 out
    else if matches w0 0xFF80 0xFB00
    then multiply w0 w1 out
    else if matches w0 0xFF80 0xFB80
    then multiply_long w0 w1 out
    else late_groups w0 w1 out

-- `decode_thumb32`; its result is always 4.
unfoldable pub decode_thumb32 : ℕ → ℕ → ℕ → Insn → Insn
unfolding set_undef groups_32
decode_thumb32 w0 w1 pc out =
    let raw = w0 * 2 ^ 16 + w1 in
    groups_32 w0 w1 (record (set_undef raw pc out) { size = 4; raw = raw })

module _ {T S : Type 0} (m : Mmio T S) where
  -- `decode`: the length of the instruction, the instruction and what the bus reads leave.
  unfoldable pub decode : ℕ → Insn → S → (ℕ × Insn) × S
  unfolding decode_thumb16 decode_thumb32 is_t32
  decode pc out s =
      let (w0, s1) = bus_r16 m pc s in
      let (w1, s2) = bus_r16 m (add32 pc 2) s1 in
      if is_t32 w0
      then ((4, decode_thumb32 w0 w1 pc out), s2)
      else ((2, decode_thumb16 w0 pc out), s1)
