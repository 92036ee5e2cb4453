-- ===== src/Executor/CompareBranch.antt =====
-- A comparison and the conditional branch after it, both run by `execute`.
use lecerf.Base.{ℕ, bit_and, Bool, false, if◌then◌else◌, add32, IsU32, sub32, ◌≡◌, refl, ap, ◌∙◌}
use lecerf.Cpu.{Cpu, reg_pc, cpu_in_it, cpu_set_flags_nzcv_sub}
use lecerf.Exception.{Host}
use lecerf.Decoder.Insn.{Insn, op_b_cond, op_cmp_reg}
use lecerf.Executor.Cond.{cond_pass}
use lecerf.Executor.Alu.{arith_16, logic_16, shift_16, address_16, extend_16}
use lecerf.Executor.Wide.{modified_imm, plain_imm, shifted_reg, shift_32}
use lecerf.Executor.Multiply.{multiply}
use lecerf.Executor.Bitfield.{bitfield}
use lecerf.Executor.System.{system}
use lecerf.Executor.Vfp.{Float, vfp, vfp_result, vfp_unary, vfp_move}
use lecerf.Executor.Control.{branches}
use lecerf.Executor.{data_processing, retire_insn, execute}
use lecerf.Executor.Complete.{IsHost, execute-on_cpu, execute-on_branch}
use lecerf.Executor.Compare.{comparison, cond_pass-comparison}

-- The PC after a branch is taken or not.
abbrev branch_pc : Insn → ℕ → Bool → ℕ
branch_pc j pc taken = if taken then add32 (add32 pc 4) j.imm else add32 pc j.size

module _ {T S : Type 0} (h : Host T S) (f : Float) (law : IsHost h) where
  -- B<cond> outside an IT block.
  execute-b_cond :
      (j : Insn) (t : S)
      → cpu_in_it (h.get_cpu t) ≡ false
      → (h.get_cpu (execute h f (record j { op = op_b_cond }) t).1).r reg_pc
        ≡ branch_pc j ((h.get_cpu t).r reg_pc) (cond_pass (h.get_cpu t).apsr j.cond)
  unfolding data_processing arith_16 logic_16 shift_16 address_16 extend_16 modified_imm plain_imm
      shifted_reg shift_32 multiply bitfield system vfp vfp_result vfp_unary vfp_move branches
      retire_insn cpu_in_it
  execute-b_cond j t out =
      rw (execute-on_branch h f law (record j { op = op_b_cond }) t _ (h.get_cpu t) out refl refl)
        (ap (λ (c : Cpu). c.r reg_pc) (law.get-put _ t))

  -- Outside an IT block, CMP of two registers and then B<cond> go to the target of the branch
  -- exactly when the words of the registers compare as the condition says, and else past it.
  pub execute-cmp_branch :
      (i j : Insn) (s : S)
      → cpu_in_it (h.get_cpu s) ≡ false
      → IsU32 ((h.get_cpu s).r i.rn)
      → IsU32 ((h.get_cpu s).r i.rm)
      → let c = h.get_cpu s in
        let s' = (execute h f (record i { op = op_cmp_reg }) s).1 in
        (h.get_cpu (execute h f (record j { op = op_b_cond }) s').1).r reg_pc
        ≡ branch_pc j
            (add32 (c.r reg_pc) i.size)
            (comparison (c.r i.rn) (c.r i.rm) (bit_and j.cond 0xF))
  unfolding data_processing arith_16 logic_16 shift_16 address_16 extend_16 modified_imm plain_imm
      shifted_reg shift_32 multiply bitfield system vfp vfp_result vfp_unary vfp_move branches
      retire_insn cpu_in_it cpu_set_flags_nzcv_sub
  execute-cmp_branch i j s out hn hm =
      let c = h.get_cpu s in
      let a = c.r i.rn in
      let b = c.r i.rm in
      let flags = cpu_set_flags_nzcv_sub c a b (sub32 a b) in
      let c1 = retire_insn op_cmp_reg false c.apsr (add32 (c.r reg_pc) i.size) flags in
      let seen = law.get-put c1 s in
      rw (execute-on_cpu h f law (record i { op = op_cmp_reg }) s flags out refl) (
        execute-b_cond j (h.put_cpu c1 s) (ap cpu_in_it seen ∙ out)
        ∙ ap (λ (c' : Cpu). branch_pc j (c'.r reg_pc) (cond_pass c'.apsr j.cond)) seen
        ∙ ap (branch_pc j (add32 (c.r reg_pc) i.size)) (cond_pass-comparison c a b j.cond hn hm))
