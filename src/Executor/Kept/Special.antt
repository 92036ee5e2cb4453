-- ===== src/Executor/Kept/Special.antt =====
-- What the special registers and the FPU leave alone in the data processing of `execute`.
use lecerf.Base.{
  ℕ, ◌==◌, ◌&&◌, not, ltb, bit_and, ◌>>>◌, has, Bool, if◌then◌else◌, Option, none, some, ◌≡◌, refl,
  not32,
}
use lecerf.Cpu.{Cpu, reg_pc, reg_sp, set_reg}
use lecerf.Exception.{is_thread}
use lecerf.Decoder.Insn.{
  Insn, Opcode, op_cps, op_t32_mrs, op_t32_msr, op_vmov_f_r, op_vmov_s, op_vmrs,
}
use lecerf.Executor.System.{system, cps, msr, write_control}
use lecerf.Executor.Vfp.{Float, vfp, vfp_result, vfp_unary, vfp_move, set_u}
use lecerf.Executor.Kept.{IsOther, running, running_after, if-eq, rd_kept, sp_kept}

module _ (i : Insn) (k : ℕ) (o : IsOther i k) where
  cps-running : (imm : ℕ) (c : Cpu) → running k (cps imm c) ≡ running k c
  unfolding cps
  cps-running imm c =
      if-eq (running k) (bit_and imm 1 == 0) (inner _ (bit_and (imm >>> 1) 1 == 0))
        (inner _ (bit_and (imm >>> 1) 1 == 0))
    where
      inner :
          (v : ℕ) (b : Bool) → running k (if b then c else record c { primask = v }) ≡ running k c
      inner v b = if-eq (running k) b refl refl

  write_control-running : (v : ℕ) (c : Cpu) → running k (write_control v c) ≡ running k c
  unfolding write_control
  write_control-running v c =
      if-eq (running k) (is_thread c.mode && not (bit_and c.control 2 == bit_and (bit_and v 3) 2))
        (if-eq (running k) (bit_and (bit_and v 3) 2 == 0) (rw o.not_sp refl) (rw o.not_sp refl))
        refl

  -- SP follows a banked stack pointer, or it does not.
  banked :
      (b : Bool) (c : Cpu) (v : ℕ) → running k (if b then set_reg c reg_sp v else c) ≡ running k c
  banked b c v = if-eq (running k) b (sp_kept i k o c v) refl

  msr-running : (sysm mask v : ℕ) (c : Cpu) → running k (msr sysm mask v c) ≡ running k c
  unfolding msr
  msr-running sysm mask v c =
      if-eq (running k) (ltb sysm 4) (if-eq (running k) (has mask 2) refl refl) (
        if-eq (running k) (sysm == 8)
          (banked _ (record c { msp = bit_and v (not32 3) }) (bit_and v (not32 3)))
          (if-eq (running k) (sysm == 9)
            (banked _ (record c { psp = bit_and v (not32 3) }) (bit_and v (not32 3)))
            (if-eq (running k) (sysm == 16) refl (
              if-eq (running k) (sysm == 17) refl (
                if-eq (running k) (sysm == 19) refl
                  (if-eq (running k) (sysm == 20) (write_control-running v c) refl))))))

  pub system-running : (op : Opcode) (c : Cpu) → running_after k c (system op i c) ≡ running k c
  unfolding system
  system-running op_t32_mrs c = rd_kept i k o c _
  system-running op_t32_msr c = msr-running i.imm i.rs (c.r i.rn) c
  system-running op_cps c = cps-running i.imm c
  system-running _ c = refl

  vfp_move-running :
      (f : Float) (op : Opcode) (c : Cpu) → running_after k c (vfp_move f op i c) ≡ running k c
  unfolding vfp_move
  vfp_move-running f op_vmov_f_r c = rd_kept i k o c _
  vfp_move-running f op_vmrs c =
      if-eq (running k) (i.rd == reg_pc) refl (rd_kept i k o c c.fpu.fpscr)
  vfp_move-running f _ c = refl

  vfp_unary-running :
      (f : Float) (op : Opcode) (c : Cpu) → running_after k c (vfp_unary f op i c) ≡ running k c
  unfolding vfp_unary
  vfp_unary-running f op_vmov_s c = refl
  vfp_unary-running f _ c = refl

  pub vfp-running :
      (f : Float) (op : Opcode) (c : Cpu) → running_after k c (vfp f op i c) ≡ running k c
  unfolding vfp
  vfp-running f op c =
      after (vfp_result f op (c.fpu.u i.sd) (c.fpu.u i.sn) (c.fpu.u i.sm)) (vfp_unary f op i c)
        (vfp_unary-running f op c)
    where
      after :
          (o : Option ℕ) (u : Option Cpu)
          → running_after k c u ≡ running k c
          → running_after k c (elim o [
            | some v ↦ some (set_u c i.sd v)
            | none ↦ elim u [ some c' ↦ some c' | none ↦ vfp_move f op i c ]
          ])
            ≡ running k c
      after (some v) u h = refl
      after none (some c') h = h
      after none none h = vfp_move-running f op c
