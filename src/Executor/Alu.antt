-- ===== src/Executor/Alu.antt =====
-- The 16-bit data processing of `execute`: arithmetic, logic and shifts, addresses,
-- extension and byte reversal. `none` is an opcode of another group.
use lecerf.Base.{
  ℕ, ◌+◌, ◌%◌, ◌^◌, bit_and, bit_or, bit_xor, Bool, false, ◌==◌, leb, if◌then◌else◌, of_bool, ◌>>>◌,
  shl32, add32, sub32, mul32, not32, sext8, sext16, Option, none, some,
}
use lecerf.Cpu.{
  Cpu, set_reg, reg_sp, cpu_set_flags_nz, cpu_set_flags_nzcv_add, cpu_set_flags_nzcv_sub,
}
use lecerf.Decoder.Insn.{
  Insn, Opcode, op_adc_reg, op_add_imm3, op_add_imm8, op_add_reg, op_add_sp_imm, op_add_sp_sp,
  op_adr, op_and_reg, op_asr_imm, op_asr_reg, op_bic_reg, op_cmn_reg, op_cmp_imm, op_cmp_reg,
  op_eor_reg, op_lsl_imm, op_lsl_reg, op_lsr_imm, op_lsr_reg, op_mov_imm, op_mul, op_mvn_reg,
  op_orr_reg, op_rev, op_rev16, op_revsh, op_ror_reg, op_rsb_imm, op_sbc_reg, op_sub_imm3,
  op_sub_imm8, op_sub_reg, op_sub_sp_sp, op_sxtb, op_sxth, op_tst_reg, op_uxtb, op_uxth,
}
use lecerf.Executor.Cond.{asr32, rotate, literal_base, carry_in}

-- `c->r[i->rd] = r; cpu_set_flags_nz(c, r);`
abbrev pub put_nz : Insn → Cpu → ℕ → Cpu
put_nz i c r = cpu_set_flags_nz (set_reg c i.rd r) r

-- `a + b + (ci ? 1u : 0u)`
abbrev pub sum32 : ℕ → ℕ → Bool → ℕ
sum32 a b ci = (a + b + of_bool ci) % 2 ^ 32

-- `r = a + b + ci; c->r[i->rd] = r; cpu_set_flags_nzcv_add(c, a, b, r, ci);`
abbrev pub put_sum : Insn → Cpu → ℕ → ℕ → Bool → Cpu
put_sum i c a b ci = cpu_set_flags_nzcv_add (set_reg c i.rd (sum32 a b ci)) a b (sum32 a b ci) ci

-- `r = a - b; c->r[i->rd] = r; cpu_set_flags_nzcv_sub(c, a, b, r);`
abbrev pub put_difference : Insn → Cpu → ℕ → ℕ → Cpu
put_difference i c a b = cpu_set_flags_nzcv_sub (set_reg c i.rd (sub32 a b)) a b (sub32 a b)

-- MOV, ADD, SUB and CMP.
unfoldable pub arith_16 : Opcode → Insn → Cpu → Option Cpu
arith_16 op_mov_imm i c = some (put_nz i c i.imm)
arith_16 op_add_reg i c = some (put_sum i c (c.r i.rn) (c.r i.rm) false)
arith_16 op_sub_reg i c = some (put_difference i c (c.r i.rn) (c.r i.rm))
arith_16 op_add_imm3 i c = some (put_sum i c (c.r i.rn) i.imm false)
arith_16 op_add_imm8 i c = some (put_sum i c (c.r i.rn) i.imm false)
arith_16 op_sub_imm3 i c = some (put_difference i c (c.r i.rn) i.imm)
arith_16 op_sub_imm8 i c = some (put_difference i c (c.r i.rn) i.imm)
arith_16 op_cmp_imm i c = some (cpu_set_flags_nzcv_sub c (c.r i.rn) i.imm (sub32 (c.r i.rn) i.imm))
arith_16 op_cmp_reg i c =
    some (cpu_set_flags_nzcv_sub c (c.r i.rn) (c.r i.rm) (sub32 (c.r i.rn) (c.r i.rm)))
arith_16 _ i c = none

-- AND to MVN, the shifts by an immediate, MUL, TST, CMN, RSB, ADC and SBC.
unfoldable pub logic_16 : Opcode → Insn → Cpu → Option Cpu
logic_16 op_and_reg i c = some (put_nz i c (bit_and (c.r i.rn) (c.r i.rm)))
logic_16 op_eor_reg i c = some (put_nz i c (bit_xor (c.r i.rn) (c.r i.rm)))
logic_16 op_lsl_imm i c =
    some (put_nz i c (if i.imm == 0 then c.r i.rm else shl32 (c.r i.rm) i.imm))
logic_16 op_lsr_imm i c =
    let sh = if i.imm == 0 then 32 else i.imm in
    some (put_nz i c (if leb 32 sh then 0 else c.r i.rm >>> sh))
logic_16 op_mul i c = some (put_nz i c (mul32 (c.r i.rn) (c.r i.rm)))
logic_16 op_orr_reg i c = some (put_nz i c (bit_or (c.r i.rn) (c.r i.rm)))
logic_16 op_bic_reg i c = some (put_nz i c (bit_and (c.r i.rn) (not32 (c.r i.rm))))
logic_16 op_mvn_reg i c = some (put_nz i c (not32 (c.r i.rm)))
logic_16 op_tst_reg i c = some (cpu_set_flags_nz c (bit_and (c.r i.rn) (c.r i.rm)))
logic_16 op_cmn_reg i c =
    some (cpu_set_flags_nzcv_add c (c.r i.rn) (c.r i.rm) (add32 (c.r i.rn) (c.r i.rm)) false)
logic_16 op_rsb_imm i c = some (put_difference i c 0 (c.r i.rn))
logic_16 op_adc_reg i c = some (put_sum i c (c.r i.rn) (c.r i.rm) (carry_in c))
logic_16 op_sbc_reg i c = some (put_sum i c (c.r i.rn) (not32 (c.r i.rm)) (carry_in c))
logic_16 op_asr_imm i c =
    let sh = if i.imm == 0 then 32 else i.imm in
    some (put_nz i c (if leb 32 sh then asr32 (c.r i.rm) 31 else asr32 (c.r i.rm) sh))
logic_16 _ i c = none

-- The shifts by a register.
unfoldable pub shift_16 : Opcode → Insn → Cpu → Option Cpu
shift_16 op_lsl_reg i c =
    let sh = bit_and (c.r i.rm) 0xFF in
    some (put_nz i c (if leb 32 sh then 0 else shl32 (c.r i.rd) sh))
shift_16 op_lsr_reg i c =
    let sh = bit_and (c.r i.rm) 0xFF in some (put_nz i c (if leb 32 sh then 0 else c.r i.rd >>> sh))
shift_16 op_asr_reg i c =
    let sh = bit_and (c.r i.rm) 0xFF in
    some (put_nz i c (if leb 32 sh then asr32 (c.r i.rd) 31 else asr32 (c.r i.rd) sh))
shift_16 op_ror_reg i c =
    let sh = bit_and (c.r i.rm) 0x1F in
    some (put_nz i c (if sh == 0 then c.r i.rd else rotate (c.r i.rd) sh))
shift_16 _ i c = none

-- ADR and the sums with SP.
unfoldable pub address_16 : Opcode → Insn → Cpu → Option Cpu
address_16 op_adr i c = some (set_reg c i.rd (add32 (literal_base c) i.imm))
address_16 op_add_sp_imm i c = some (set_reg c i.rd (add32 (c.r reg_sp) i.imm))
address_16 op_add_sp_sp i c = some (set_reg c reg_sp (add32 (c.r reg_sp) i.imm))
address_16 op_sub_sp_sp i c = some (set_reg c reg_sp (sub32 (c.r reg_sp) i.imm))
address_16 _ i c = none

-- The words of REV, REV16 and REVSH.
unfoldable pub rev : ℕ → ℕ
rev v =
    bit_or
      (bit_or (bit_or (shl32 (bit_and v 0xFF) 24) (shl32 (bit_and v 0xFF00) 8))
        (bit_and (v >>> 8) 0xFF00))
      (bit_and (v >>> 24) 0xFF)

unfoldable pub rev16 : ℕ → ℕ
rev16 v =
    bit_or
      (bit_or (bit_or (shl32 (bit_and v 0xFF) 8) (bit_and (v >>> 8) 0xFF))
        (shl32 (bit_and v 0xFF0000) 8))
      (bit_and (v >>> 8) 0xFF0000)

unfoldable pub revsh : ℕ → ℕ
revsh v = sext16 (bit_or (shl32 (bit_and v 0xFF) 8) (bit_and (v >>> 8) 0xFF) % 65536)

-- Extension and byte reversal.
unfoldable pub extend_16 : Opcode → Insn → Cpu → Option Cpu
unfolding rev rev16 revsh
extend_16 op_sxth i c = some (set_reg c i.rd (sext16 (c.r i.rm % 65536)))
extend_16 op_sxtb i c = some (set_reg c i.rd (sext8 (c.r i.rm % 256)))
extend_16 op_uxth i c = some (set_reg c i.rd (bit_and (c.r i.rm) 0xFFFF))
extend_16 op_uxtb i c = some (set_reg c i.rd (bit_and (c.r i.rm) 0xFF))
extend_16 op_rev i c = some (set_reg c i.rd (rev (c.r i.rm)))
extend_16 op_rev16 i c = some (set_reg c i.rd (rev16 (c.r i.rm)))
extend_16 op_revsh i c = some (set_reg c i.rd (revsh (c.r i.rm)))
extend_16 _ i c = none
