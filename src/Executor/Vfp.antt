-- ===== src/Executor/Vfp.antt =====
-- The single-precision arithmetic of `execute` on bit patterns. `none` is an opcode of another
-- group. The operators of C on `float` and its builtins are a parameter.
use lecerf.Base.{ℕ, bit_and, bit_or, bit_xor, Bool, ◌==◌, if◌then◌else◌, update, Option, none, some}
use lecerf.Cpu.{Cpu, set_reg, reg_pc}
use lecerf.Decoder.Insn.{
  Insn, Opcode, op_vabs_s, op_vadd_s, op_vcmp_s, op_vcvt_f_i, op_vcvt_i_f, op_vdiv_s, op_vfma_s,
  op_vfms_s, op_vfnma_s, op_vfnms_s, op_vmla_s, op_vmls_s, op_vmov_f_r, op_vmov_imm_s, op_vmov_r_f,
  op_vmov_s, op_vmrs, op_vmsr, op_vmul_s, op_vneg_s, op_vnmla_s, op_vnmls_s, op_vnmul_s, op_vsqrt_s,
  op_vsub_s,
}

-- The arithmetic of `float`: `nan` is `0.0f / 0.0f`, `fma` and `sqrt` are `__builtin_fmaf` and
-- `__builtin_sqrtf`, `to_int` and `of_int` the conversions to and from `i32`.
pub record Float : Type 0 where
  pub add : ℕ → ℕ → ℕ
  pub sub : ℕ → ℕ → ℕ
  pub mul : ℕ → ℕ → ℕ
  pub div : ℕ → ℕ → ℕ
  pub neg : ℕ → ℕ
  pub fma : ℕ → ℕ → ℕ → ℕ
  pub sqrt : ℕ → ℕ
  pub nan : ℕ
  pub gt : ℕ → ℕ → Bool
  pub lt : ℕ → ℕ → Bool
  pub eq : ℕ → ℕ → Bool
  pub ge : ℕ → ℕ → Bool
  pub to_int : ℕ → ℕ
  pub of_int : ℕ → ℕ

-- `c->fpu.reg.u[k] = v`, with an index of the 32 registers.
abbrev pub set_u : Cpu → ℕ → ℕ → Cpu
set_u c k v = record c { fpu = record (c.fpu) { u = update c.fpu.u k v } }

module _ (f : Float) where
  open f use {add, sub, mul, div, neg, fma, sqrt, nan, gt, lt, eq, ge, to_int, of_int}

  -- The result of the arithmetic operations on the old `sd`, `sn` and `sm`.
  unfoldable pub vfp_result : Opcode → ℕ → ℕ → ℕ → Option ℕ
  vfp_result op_vadd_s d n m = some (add n m)
  vfp_result op_vsub_s d n m = some (sub n m)
  vfp_result op_vmul_s d n m = some (mul n m)
  vfp_result op_vdiv_s d n m = some (div n m)
  vfp_result op_vnmul_s d n m = some (neg (mul n m))
  vfp_result op_vmla_s d n m = some (add d (mul n m))
  vfp_result op_vmls_s d n m = some (sub d (mul n m))
  vfp_result op_vnmla_s d n m = some (sub (neg d) (mul n m))
  vfp_result op_vnmls_s d n m = some (add (neg d) (mul n m))
  vfp_result op_vfma_s d n m = some (fma n m d)
  vfp_result op_vfms_s d n m = some (fma (neg n) m d)
  vfp_result op_vfnma_s d n m = some (fma n m (neg d))
  vfp_result op_vfnms_s d n m = some (fma (neg n) m (neg d))
  vfp_result _ d n m = none

  -- The moves between VFP registers, the sign and the square root.
  unfoldable pub vfp_unary : Opcode → Insn → Cpu → Option Cpu
  vfp_unary op_vmov_s i c = some (set_u c i.sd (c.fpu.u i.sm))
  vfp_unary op_vmov_imm_s i c = some (set_u c i.sd i.imm)
  vfp_unary op_vabs_s i c = some (set_u c i.sd (bit_and (c.fpu.u i.sm) 0x7FFFFFFF))
  vfp_unary op_vneg_s i c = some (set_u c i.sd (bit_xor (c.fpu.u i.sm) 0x80000000))
  vfp_unary op_vsqrt_s i c =
      let v = c.fpu.u i.sm in some (set_u c i.sd (if ge v 0 then sqrt v else nan))
  vfp_unary _ i c = none

  -- The flags of a comparison, in the place of FPSCR.
  unfoldable pub vcmp_nzcv : ℕ → ℕ → ℕ
  vcmp_nzcv a b =
      if gt a b
      then 0x20000000
      else if lt a b
      then 0x80000000
      else if eq a b
      then 0x60000000
      else 0x30000000

  -- The moves to and from core registers and FPSCR, VCMP and the conversions.
  unfoldable pub vfp_move : Opcode → Insn → Cpu → Option Cpu
  unfolding vcmp_nzcv
  vfp_move op_vmov_r_f i c = some (set_u c i.sn (c.r i.rd))
  vfp_move op_vmov_f_r i c = some (set_reg c i.rd (c.fpu.u i.sn))
  vfp_move op_vmrs i c = some (
      if i.rd == reg_pc
      then record c { apsr = bit_or (bit_and c.apsr 0x07FFFFFF) (bit_and c.fpu.fpscr 0xF8000000) }
      else set_reg c i.rd c.fpu.fpscr)
  vfp_move op_vmsr i c = some (record c { fpu = record (c.fpu) { fpscr = c.r i.rd } })
  vfp_move op_vcmp_s i c =
      let b = if i.sm == 0 then 0 else c.fpu.u i.sm in
      some (record c {
        fpu = record (c.fpu) {
          fpscr = bit_or (bit_and c.fpu.fpscr 0x07FFFFFF) (vcmp_nzcv (c.fpu.u i.sd) b);
        };
      })
  vfp_move op_vcvt_f_i i c = some (set_u c i.sd (to_int (c.fpu.u i.sm)))
  vfp_move op_vcvt_i_f i c = some (set_u c i.sd (of_int (c.fpu.u i.sm)))
  vfp_move _ i c = none

  unfoldable pub vfp : Opcode → Insn → Cpu → Option Cpu
  unfolding vfp_result vfp_unary vfp_move
  vfp op i c = elim (vfp_result op (c.fpu.u i.sd) (c.fpu.u i.sn) (c.fpu.u i.sm)) [
    | some v ↦ some (set_u c i.sd v)
    | none ↦ elim (vfp_unary op i c) [ some c' ↦ some c' | none ↦ vfp_move op i c ]
  ]
