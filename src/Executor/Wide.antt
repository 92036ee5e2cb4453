-- ===== src/Executor/Wide.antt =====
-- The 32-bit data processing of `execute`: modified immediates, plain immediates, shifted registers
-- and shifts by a register. `none` is an opcode of another group.
use lecerf.Base.{
  ℕ, bit_and, bit_or, bit_xor, Bool, false, ◌==◌, leb, if◌then◌else◌, ◌>>>◌, shl32, add32, sub32,
  not32, Option, none, some,
}
use lecerf.Cpu.{Cpu, set_reg, cpu_set_flags_nz, cpu_set_flags_nzcv_add, cpu_set_flags_nzcv_sub}
use lecerf.Decoder.Insn.{
  Insn, Opcode, op_t32_adc_imm, op_t32_adc_reg, op_t32_add_imm, op_t32_add_reg, op_t32_addw,
  op_t32_adr_t2, op_t32_adr_t3, op_t32_and_imm, op_t32_and_reg, op_t32_asr_r, op_t32_bic_imm,
  op_t32_bic_reg, op_t32_cmn_imm, op_t32_cmn_reg, op_t32_cmp_imm, op_t32_cmp_reg, op_t32_eor_imm,
  op_t32_eor_reg, op_t32_lsl_r, op_t32_lsr_r, op_t32_mov_imm, op_t32_mov_reg, op_t32_movt,
  op_t32_movw, op_t32_mvn_imm, op_t32_mvn_reg, op_t32_orn_imm, op_t32_orn_reg, op_t32_orr_imm,
  op_t32_orr_reg, op_t32_ror_r, op_t32_rsb_imm, op_t32_rsb_reg, op_t32_sbc_imm, op_t32_sbc_reg,
  op_t32_sub_imm, op_t32_sub_reg, op_t32_subw, op_t32_teq_imm, op_t32_teq_reg, op_t32_tst_imm,
  op_t32_tst_reg,
}
use lecerf.Executor.Cond.{asr32, rotate, literal_base, carry_in, t32_shift}
use lecerf.Executor.Alu.{put_nz, put_sum, put_difference, sum32}

-- The three ends of a case, where the flags are written only `if (i->set_flags)`.
abbrev pub put_logic : Insn → Cpu → ℕ → Cpu
put_logic i c r = if i.set_flags then put_nz i c r else set_reg c i.rd r

abbrev pub put_adds : Insn → Cpu → ℕ → ℕ → Bool → Cpu
put_adds i c a b ci = if i.set_flags then put_sum i c a b ci else set_reg c i.rd (sum32 a b ci)

abbrev pub put_subs : Insn → Cpu → ℕ → ℕ → Cpu
put_subs i c a b = if i.set_flags then put_difference i c a b else set_reg c i.rd (sub32 a b)

-- Modified immediates.
unfoldable pub modified_imm : Opcode → Insn → Cpu → Option Cpu
modified_imm op_t32_and_imm i c = some (put_logic i c (bit_and (c.r i.rn) i.imm))
modified_imm op_t32_bic_imm i c = some (put_logic i c (bit_and (c.r i.rn) (not32 i.imm)))
modified_imm op_t32_orr_imm i c = some (put_logic i c (bit_or (c.r i.rn) i.imm))
modified_imm op_t32_orn_imm i c = some (put_logic i c (bit_or (c.r i.rn) (not32 i.imm)))
modified_imm op_t32_eor_imm i c = some (put_logic i c (bit_xor (c.r i.rn) i.imm))
modified_imm op_t32_teq_imm i c = some (cpu_set_flags_nz c (bit_xor (c.r i.rn) i.imm))
modified_imm op_t32_tst_imm i c = some (cpu_set_flags_nz c (bit_and (c.r i.rn) i.imm))
modified_imm op_t32_add_imm i c = some (put_adds i c (c.r i.rn) i.imm false)
modified_imm op_t32_adc_imm i c = some (put_adds i c (c.r i.rn) i.imm (carry_in c))
modified_imm op_t32_sbc_imm i c = some (put_adds i c (c.r i.rn) (not32 i.imm) (carry_in c))
modified_imm op_t32_sub_imm i c = some (put_subs i c (c.r i.rn) i.imm)
modified_imm op_t32_rsb_imm i c = some (put_subs i c i.imm (c.r i.rn))
modified_imm op_t32_cmn_imm i c =
    some (cpu_set_flags_nzcv_add c (c.r i.rn) i.imm (add32 (c.r i.rn) i.imm) false)
modified_imm op_t32_cmp_imm i c =
    some (cpu_set_flags_nzcv_sub c (c.r i.rn) i.imm (sub32 (c.r i.rn) i.imm))
modified_imm op_t32_mov_imm i c = some (put_logic i c i.imm)
modified_imm op_t32_mvn_imm i c = some (put_logic i c (not32 i.imm))
modified_imm _ i c = none

-- Plain immediates.
unfoldable pub plain_imm : Opcode → Insn → Cpu → Option Cpu
plain_imm op_t32_addw i c = some (set_reg c i.rd (add32 (c.r i.rn) i.imm))
plain_imm op_t32_subw i c = some (set_reg c i.rd (sub32 (c.r i.rn) i.imm))
plain_imm op_t32_movw i c = some (set_reg c i.rd i.imm)
plain_imm op_t32_movt i c =
    some (set_reg c i.rd (bit_or (bit_and (c.r i.rd) 0x0000FFFF) (shl32 (bit_and i.imm 0xFFFF) 16)))
plain_imm op_t32_adr_t2 i c = some (set_reg c i.rd (sub32 (literal_base c) i.imm))
plain_imm op_t32_adr_t3 i c = some (set_reg c i.rd (add32 (literal_base c) i.imm))
plain_imm _ i c = none

-- `t32_shift(c->r[i->rm], i->shift_type, i->shift_n)`
abbrev pub shifted : Insn → Cpu → ℕ
shifted i c = t32_shift (c.r i.rm) i.shift_type i.shift_n

-- Shifted registers.
unfoldable pub shifted_reg : Opcode → Insn → Cpu → Option Cpu
shifted_reg op_t32_and_reg i c = some (put_logic i c (bit_and (c.r i.rn) (shifted i c)))
shifted_reg op_t32_bic_reg i c = some (put_logic i c (bit_and (c.r i.rn) (not32 (shifted i c))))
shifted_reg op_t32_orr_reg i c = some (put_logic i c (bit_or (c.r i.rn) (shifted i c)))
shifted_reg op_t32_orn_reg i c = some (put_logic i c (bit_or (c.r i.rn) (not32 (shifted i c))))
shifted_reg op_t32_eor_reg i c = some (put_logic i c (bit_xor (c.r i.rn) (shifted i c)))
shifted_reg op_t32_teq_reg i c = some (cpu_set_flags_nz c (bit_xor (c.r i.rn) (shifted i c)))
shifted_reg op_t32_tst_reg i c = some (cpu_set_flags_nz c (bit_and (c.r i.rn) (shifted i c)))
shifted_reg op_t32_mov_reg i c = some (put_logic i c (shifted i c))
shifted_reg op_t32_mvn_reg i c = some (put_logic i c (not32 (shifted i c)))
shifted_reg op_t32_add_reg i c = some (put_adds i c (c.r i.rn) (shifted i c) false)
shifted_reg op_t32_adc_reg i c = some (put_adds i c (c.r i.rn) (shifted i c) (carry_in c))
shifted_reg op_t32_sbc_reg i c = some (put_adds i c (c.r i.rn) (not32 (shifted i c)) (carry_in c))
shifted_reg op_t32_sub_reg i c = some (put_subs i c (c.r i.rn) (shifted i c))
shifted_reg op_t32_rsb_reg i c = some (put_subs i c (shifted i c) (c.r i.rn))
shifted_reg op_t32_cmn_reg i c =
    let a = c.r i.rn in let b = shifted i c in some (cpu_set_flags_nzcv_add c a b (add32 a b) false)
shifted_reg op_t32_cmp_reg i c =
    let a = c.r i.rn in let b = shifted i c in some (cpu_set_flags_nzcv_sub c a b (sub32 a b))
shifted_reg _ i c = none

-- Shifts by a register.
unfoldable pub shift_32 : Opcode → Insn → Cpu → Option Cpu
shift_32 op_t32_lsl_r i c =
    let sh = bit_and (c.r i.rm) 0xFF in
    some (put_logic i c (if leb 32 sh then 0 else shl32 (c.r i.rn) sh))
shift_32 op_t32_lsr_r i c =
    let sh = bit_and (c.r i.rm) 0xFF in
    some (put_logic i c (if leb 32 sh then 0 else c.r i.rn >>> sh))
shift_32 op_t32_asr_r i c =
    let sh = bit_and (c.r i.rm) 0xFF in
    some (put_logic i c (if leb 32 sh then asr32 (c.r i.rn) 31 else asr32 (c.r i.rn) sh))
shift_32 op_t32_ror_r i c =
    let sh = bit_and (c.r i.rm) 0x1F in
    some (put_logic i c (if sh == 0 then c.r i.rn else rotate (c.r i.rn) sh))
shift_32 _ i c = none
