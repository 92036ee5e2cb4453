-- ===== src/Executor/Kept.antt =====
-- What the data processing of `execute` leaves alone: the cycle count, the mode, the halt flag and
-- every register but the ones it writes.
pub mod Special
use lecerf.Base.{
  ℕ, ◌==◌, ◌&&◌, not, ltb, bit_and, ◌>>>◌, has, Bool, true, false, if◌then◌else◌, Option, none,
  some, ◌≡◌, refl, not32,
}
use lecerf.Cpu.{
  Cpu, Mode, reg_pc, reg_sp, set_reg, cpu_set_flags_nz, cpu_set_flags_nzcv_add,
  cpu_set_flags_nzcv_sub,
}
use lecerf.Exception.{is_thread}
use lecerf.Decoder.Insn.{
  Insn, Opcode, op_adc_reg, op_add_imm3, op_add_imm8, op_add_reg, op_add_sp_imm, op_add_sp_sp,
  op_adr, op_and_reg, op_asr_imm, op_asr_reg, op_bic_reg, op_cps, op_eor_reg, op_lsl_imm,
  op_lsl_reg, op_lsr_imm, op_lsr_reg, op_mov_imm, op_mul, op_mvn_reg, op_orr_reg, op_rev, op_rev16,
  op_revsh, op_ror_reg, op_rsb_imm, op_sbc_reg, op_sub_imm3, op_sub_imm8, op_sub_reg, op_sub_sp_sp,
  op_sxtb, op_sxth, op_t32_adc_imm, op_t32_adc_reg, op_t32_add_imm, op_t32_add_reg, op_t32_addw,
  op_t32_adr_t2, op_t32_adr_t3, op_t32_and_imm, op_t32_and_reg, op_t32_asr_r, op_t32_bfc,
  op_t32_bfi, op_t32_bic_imm, op_t32_bic_reg, op_t32_clz, op_t32_eor_imm, op_t32_eor_reg,
  op_t32_lsl_r, op_t32_lsr_r, op_t32_mla, op_t32_mls, op_t32_mov_imm, op_t32_mov_reg, op_t32_movt,
  op_t32_movw, op_t32_mrs, op_t32_msr, op_t32_mul, op_t32_mvn_imm, op_t32_mvn_reg, op_t32_orn_imm,
  op_t32_orn_reg, op_t32_orr_imm, op_t32_orr_reg, op_t32_rbit, op_t32_ror_r, op_t32_rsb_imm,
  op_t32_rsb_reg, op_t32_sbc_imm, op_t32_sbc_reg, op_t32_sbfx, op_t32_sdiv, op_t32_smlal,
  op_t32_smull, op_t32_sub_imm, op_t32_sub_reg, op_t32_subw, op_t32_ubfx, op_t32_udiv, op_t32_umlal,
  op_t32_umull, op_uxtb, op_uxth, op_vmov_f_r, op_vmov_s, op_vmrs,
}
use lecerf.Executor.Cond.{carry_in}
use lecerf.Executor.Alu.{arith_16, logic_16, shift_16, address_16, extend_16}
use lecerf.Executor.Wide.{
  modified_imm, plain_imm, shifted_reg, shift_32, shifted, put_logic, put_adds, put_subs,
}
use lecerf.Executor.Multiply.{multiply}
use lecerf.Executor.Bitfield.{bitfield}
use lecerf.Executor.System.{system, cps, msr, write_control}
use lecerf.Executor.Vfp.{Float, vfp, vfp_result, vfp_unary, vfp_move, set_u}

-- Register `k` is none that an instruction `i` of data processing writes: its `rd`, its `rs`, which
-- is the second result of a long product, and SP.
pub record IsOther (i : Insn) (k : ℕ) : Type 0 where
  pub not_rd : (k == i.rd) ≡ false
  pub not_rs : (k == i.rs) ≡ false
  pub not_sp : (k == reg_sp) ≡ false

-- The cycle count, the halt flag, the mode and register `k`.
abbrev pub running : ℕ → Cpu → ℕ × Bool × Mode × ℕ
running k c = (c.cycles, c.halted, c.mode, c.r k)

abbrev pub running_after : ℕ → Cpu → Option Cpu → ℕ × Bool × Mode × ℕ
running_after k c none = running k c
running_after k c (some c') = running k c'

-- Both branches of a test agree.
pub if-eq {ℓ κ} :
    {A : Type ℓ} {B : Type κ} (p : A → B) (b : Bool) {x y : A} {z : B}
    → p x ≡ z
    → p y ≡ z
    → p (if b then x else y) ≡ z
if-eq p true h k = h
if-eq p false h k = k

module _ (i : Insn) (k : ℕ) (o : IsOther i k) where
  -- A write of `rd`, of `rd` and `rs`, or of SP.
  pub rd_kept : (c : Cpu) (v : ℕ) → running k (set_reg c i.rd v) ≡ running k c
  rd_kept c v = rw o.not_rd refl

  long_kept : (c : Cpu) (v v' : ℕ) → running k (set_reg (set_reg c i.rd v) i.rs v') ≡ running k c
  long_kept c v v' = rw (o.not_rs, o.not_rd) refl

  pub sp_kept : (c : Cpu) (v : ℕ) → running k (set_reg c reg_sp v) ≡ running k c
  sp_kept c v = rw o.not_sp refl

  put_logic-running : (c : Cpu) (r : ℕ) → running k (put_logic i c r) ≡ running k c
  unfolding cpu_set_flags_nz
  put_logic-running c r = if-eq (running k) i.set_flags (rd_kept c _) (rd_kept c _)

  put_adds-running : (c : Cpu) (a b : ℕ) (ci : Bool) → running k (put_adds i c a b ci) ≡ running k c
  unfolding cpu_set_flags_nzcv_add
  put_adds-running c a b ci = if-eq (running k) i.set_flags (rd_kept c _) (rd_kept c _)

  put_subs-running : (c : Cpu) (a b : ℕ) → running k (put_subs i c a b) ≡ running k c
  unfolding cpu_set_flags_nzcv_sub
  put_subs-running c a b = if-eq (running k) i.set_flags (rd_kept c _) (rd_kept c _)

  pub arith_16-running : (op : Opcode) (c : Cpu) → running_after k c (arith_16 op i c) ≡ running k c
  unfolding arith_16 cpu_set_flags_nzcv_add cpu_set_flags_nzcv_sub cpu_set_flags_nz
  arith_16-running op_mov_imm c = rd_kept c _
  arith_16-running op_add_reg c = rd_kept c _
  arith_16-running op_sub_reg c = rd_kept c _
  arith_16-running op_add_imm3 c = rd_kept c _
  arith_16-running op_add_imm8 c = rd_kept c _
  arith_16-running op_sub_imm3 c = rd_kept c _
  arith_16-running op_sub_imm8 c = rd_kept c _
  arith_16-running _ c = refl

  pub logic_16-running : (op : Opcode) (c : Cpu) → running_after k c (logic_16 op i c) ≡ running k c
  unfolding logic_16 cpu_set_flags_nzcv_add cpu_set_flags_nzcv_sub cpu_set_flags_nz
  logic_16-running op_and_reg c = rd_kept c _
  logic_16-running op_eor_reg c = rd_kept c _
  logic_16-running op_lsl_imm c = rd_kept c _
  logic_16-running op_lsr_imm c = rd_kept c _
  logic_16-running op_mul c = rd_kept c _
  logic_16-running op_orr_reg c = rd_kept c _
  logic_16-running op_bic_reg c = rd_kept c _
  logic_16-running op_mvn_reg c = rd_kept c _
  logic_16-running op_rsb_imm c = rd_kept c _
  logic_16-running op_adc_reg c = rd_kept c _
  logic_16-running op_sbc_reg c = rd_kept c _
  logic_16-running op_asr_imm c = rd_kept c _
  logic_16-running _ c = refl

  pub shift_16-running : (op : Opcode) (c : Cpu) → running_after k c (shift_16 op i c) ≡ running k c
  unfolding shift_16 cpu_set_flags_nzcv_add cpu_set_flags_nzcv_sub cpu_set_flags_nz
  shift_16-running op_lsl_reg c = rd_kept c _
  shift_16-running op_lsr_reg c = rd_kept c _
  shift_16-running op_asr_reg c = rd_kept c _
  shift_16-running op_ror_reg c = rd_kept c _
  shift_16-running _ c = refl

  pub address_16-running :
      (op : Opcode) (c : Cpu) → running_after k c (address_16 op i c) ≡ running k c
  unfolding address_16 cpu_set_flags_nzcv_add cpu_set_flags_nzcv_sub cpu_set_flags_nz
  address_16-running op_adr c = rd_kept c _
  address_16-running op_add_sp_imm c = rd_kept c _
  address_16-running op_add_sp_sp c = sp_kept c _
  address_16-running op_sub_sp_sp c = sp_kept c _
  address_16-running _ c = refl

  pub extend_16-running :
      (op : Opcode) (c : Cpu) → running_after k c (extend_16 op i c) ≡ running k c
  unfolding extend_16
  extend_16-running op_sxth c = rd_kept c _
  extend_16-running op_sxtb c = rd_kept c _
  extend_16-running op_uxth c = rd_kept c _
  extend_16-running op_uxtb c = rd_kept c _
  extend_16-running op_rev c = rd_kept c _
  extend_16-running op_rev16 c = rd_kept c _
  extend_16-running op_revsh c = rd_kept c _
  extend_16-running _ c = refl

  pub modified_imm-running :
      (op : Opcode) (c : Cpu) → running_after k c (modified_imm op i c) ≡ running k c
  unfolding modified_imm cpu_set_flags_nzcv_add cpu_set_flags_nzcv_sub cpu_set_flags_nz
  modified_imm-running op_t32_and_imm c = put_logic-running c _
  modified_imm-running op_t32_bic_imm c = put_logic-running c _
  modified_imm-running op_t32_orr_imm c = put_logic-running c _
  modified_imm-running op_t32_orn_imm c = put_logic-running c _
  modified_imm-running op_t32_eor_imm c = put_logic-running c _
  modified_imm-running op_t32_add_imm c = put_adds-running c (c.r i.rn) i.imm false
  modified_imm-running op_t32_adc_imm c = put_adds-running c (c.r i.rn) i.imm (carry_in c)
  modified_imm-running op_t32_sbc_imm c = put_adds-running c (c.r i.rn) (not32 i.imm) (carry_in c)
  modified_imm-running op_t32_sub_imm c = put_subs-running c _ _
  modified_imm-running op_t32_rsb_imm c = put_subs-running c _ _
  modified_imm-running op_t32_mov_imm c = put_logic-running c _
  modified_imm-running op_t32_mvn_imm c = put_logic-running c _
  modified_imm-running _ c = refl

  pub plain_imm-running :
      (op : Opcode) (c : Cpu) → running_after k c (plain_imm op i c) ≡ running k c
  unfolding plain_imm
  plain_imm-running op_t32_addw c = rd_kept c _
  plain_imm-running op_t32_subw c = rd_kept c _
  plain_imm-running op_t32_movw c = rd_kept c _
  plain_imm-running op_t32_movt c = rd_kept c _
  plain_imm-running op_t32_adr_t2 c = rd_kept c _
  plain_imm-running op_t32_adr_t3 c = rd_kept c _
  plain_imm-running _ c = refl

  pub shifted_reg-running :
      (op : Opcode) (c : Cpu) → running_after k c (shifted_reg op i c) ≡ running k c
  unfolding shifted_reg cpu_set_flags_nzcv_add cpu_set_flags_nzcv_sub cpu_set_flags_nz
  shifted_reg-running op_t32_and_reg c = put_logic-running c _
  shifted_reg-running op_t32_bic_reg c = put_logic-running c _
  shifted_reg-running op_t32_orr_reg c = put_logic-running c _
  shifted_reg-running op_t32_orn_reg c = put_logic-running c _
  shifted_reg-running op_t32_eor_reg c = put_logic-running c _
  shifted_reg-running op_t32_mov_reg c = put_logic-running c _
  shifted_reg-running op_t32_mvn_reg c = put_logic-running c _
  shifted_reg-running op_t32_add_reg c = put_adds-running c (c.r i.rn) (shifted i c) false
  shifted_reg-running op_t32_adc_reg c = put_adds-running c (c.r i.rn) (shifted i c) (carry_in c)
  shifted_reg-running op_t32_sbc_reg c =
      put_adds-running c (c.r i.rn) (not32 (shifted i c)) (carry_in c)
  shifted_reg-running op_t32_sub_reg c = put_subs-running c _ _
  shifted_reg-running op_t32_rsb_reg c = put_subs-running c _ _
  shifted_reg-running _ c = refl

  pub shift_32-running : (op : Opcode) (c : Cpu) → running_after k c (shift_32 op i c) ≡ running k c
  unfolding shift_32 cpu_set_flags_nzcv_add cpu_set_flags_nzcv_sub cpu_set_flags_nz
  shift_32-running op_t32_lsl_r c = put_logic-running c _
  shift_32-running op_t32_lsr_r c = put_logic-running c _
  shift_32-running op_t32_asr_r c = put_logic-running c _
  shift_32-running op_t32_ror_r c = put_logic-running c _
  shift_32-running _ c = refl

  pub multiply-running : (op : Opcode) (c : Cpu) → running_after k c (multiply op i c) ≡ running k c
  unfolding multiply
  multiply-running op_t32_mul c = rd_kept c _
  multiply-running op_t32_mla c = rd_kept c _
  multiply-running op_t32_mls c = rd_kept c _
  multiply-running op_t32_umull c = long_kept c _ _
  multiply-running op_t32_smull c = long_kept c _ _
  multiply-running op_t32_umlal c = long_kept c _ _
  multiply-running op_t32_smlal c = long_kept c _ _
  multiply-running op_t32_udiv c = rd_kept c _
  multiply-running op_t32_sdiv c = rd_kept c _
  multiply-running _ c = refl

  pub bitfield-running : (op : Opcode) (c : Cpu) → running_after k c (bitfield op i c) ≡ running k c
  unfolding bitfield
  bitfield-running op_t32_bfi c = rd_kept c _
  bitfield-running op_t32_bfc c = rd_kept c _
  bitfield-running op_t32_ubfx c = rd_kept c _
  bitfield-running op_t32_sbfx c = rd_kept c _
  bitfield-running op_t32_clz c = rd_kept c _
  bitfield-running op_t32_rbit c = rd_kept c _
  bitfield-running _ c = refl
