-- ===== src/Codegen/Paths/Multiple.antt =====
-- The two paths of LDM and STM.
use lecerf.Base.{
  ℕ, false, ◌==◌, if◌then◌else◌, some, List, [], ◌++◌, length, length-append, Bool-cases, inl, inr,
  ==_of_ne, ◌≡◌, ◌≢◌, refl, arith,
}
use lecerf.Codegen.Emit.{Target}
use lecerf.Cpu.{reg_pc}
use lecerf.Codegen.Stack.{Sram, each, total, too_far, point_r11, commit_r10d}
use lecerf.Codegen.Multiple.{
  Transfer, start_address, transfer_slow, transfer_fast, base_back, transfer_fast_size,
  transfer_slow_size, base_back_size, regs, has_pc, transfer_fast_body, transfer_slow_body,
  slow_path, emit_ldm_stm,
}
use lecerf.Codegen.Paths.{length-each, IsTwoPaths, two_paths}

module _ (t : Target) (x : Transfer) where
  transfer_slow-length :
      (cnt k off : ℕ) → length (transfer_slow t x cnt k off) ≡ transfer_slow_size t x k
  transfer_slow-length cnt k off = elim (Bool-cases x.is_db) [
    | inl d ↦ rw d (elim (Bool-cases x.is_load) [
      | inl l ↦ rw l (elim (Bool-cases (k == reg_pc)) [ inl e ↦ rw e refl | inr e ↦ rw e refl ])
      | inr l ↦ rw l (elim (Bool-cases (k == reg_pc)) [ inl e ↦ rw e refl | inr e ↦ rw e refl ])
    ])
    | inr d ↦ rw d (elim (Bool-cases x.is_load) [
      | inl l ↦ rw l (elim (Bool-cases (k == reg_pc)) [ inl e ↦ rw e refl | inr e ↦ rw e refl ])
      | inr l ↦ rw l (elim (Bool-cases (k == reg_pc)) [ inl e ↦ rw e refl | inr e ↦ rw e refl ])
    ])
  ]

  transfer_fast-length :
      (cnt k off : ℕ) → length (transfer_fast t x cnt k off) ≡ transfer_fast_size t x k
  transfer_fast-length cnt k off = elim (Bool-cases x.is_load) [
    | inl l ↦ rw l (elim (Bool-cases (k == reg_pc)) [ inl e ↦ rw e refl | inr e ↦ rw e refl ])
    | inr l ↦ rw l (elim (Bool-cases (k == reg_pc)) [
      | inr e ↦ rw e refl
      | inl e ↦ rw e (elim (Bool-cases x.is_db) [ inl d ↦ rw d refl | inr d ↦ rw d refl ])
    ])
  ]

  base_back-length : (cnt : ℕ) → length (base_back t x cnt) ≡ base_back_size t x
  base_back-length cnt = elim (Bool-cases x.writeback) [
    | inr w ↦ rw w refl
    | inl w ↦ rw w (elim (Bool-cases x.is_db) [ inl d ↦ rw d refl | inr d ↦ rw d refl ])
  ]

  slow_path-length : (ks : List ℕ) → length (slow_path t x ks) ≡ transfer_slow_body t x ks
  slow_path-length ks =
      let cnt = length ks in
      let each_slow = each (transfer_slow t x cnt) 0 ks in
      let commit : List ℕ = if has_pc t x then commit_r10d t else [] in
      let end : length commit ≡ (if has_pc t x then 28 else 0) = elim (Bool-cases (has_pc t x)) [
        | inl e ↦ rw e refl
        | inr e ↦ rw e refl
      ] in
      omega (
        arith,
        length-append (each_slow ++ base_back t x cnt) commit,
        end,
        length-append each_slow (base_back t x cnt),
        base_back-length cnt,
        length-each (transfer_slow t x cnt) (transfer_slow_size t x) 0 ks
            (transfer_slow-length cnt),
      )

  -- Where LDM or STM of some register has a path in flat memory, both tests of the bounds jump to
  -- the path through the bus, and the path in flat memory ends with a jump over it.
  pub emit_ldm_stm-IsTwoPaths :
      (m : Sram)
      → length (regs t x) ≢ 0
      → too_far (transfer_fast_body t x (regs t x)) (transfer_slow_body t x (regs t x)) ≡ false
      → IsTwoPaths
          (emit_ldm_stm t x (some m))
          (length (start_address t x (length (regs t x))))
          (point_r11 m
            ++ each (transfer_fast t x (length (regs t x))) 0 (regs t x)
            ++ base_back t x (length (regs t x)))
          (slow_path t x (regs t x))
  unfolding emit_ldm_stm
  emit_ldm_stm-IsTwoPaths m some_register near =
      let ks = regs t x in
      let cnt = length ks in
      let fast = each (transfer_fast t x cnt) 0 ks in
      let fast_size : length fast ≡ total (transfer_fast_size t x) ks =
        length-each (transfer_fast t x cnt) (transfer_fast_size t x) 0 ks
          (transfer_fast-length cnt) in
      rw (emit_ldm_stm, ==_of_ne cnt 0 some_register, near)
        (two_paths (start_address t x cnt) (point_r11 m ++ fast ++ base_back t x cnt)
          (slow_path t x ks) m cnt (transfer_fast_body t x ks) (transfer_slow_body t x ks)
          (omega (arith, fast_size, length-append fast (base_back t x cnt), base_back-length cnt))
          (slow_path-length ks) near)
