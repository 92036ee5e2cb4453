-- ===== src/Codegen/Paths/Stack.antt =====
-- The two paths of PUSH and POP.
use lecerf.Base.{
  ℕ, zero, suc, ◌+◌, ◌*◌, ◌^◌, Bool, false, ◌==◌, if◌then◌else◌, has, some, List, [], ◌++◌, length,
  length-append, Bool-cases, inl, inr, ==_of_ne, ◌≡◌, ◌≢◌, refl, ap, ◌∙◌, arith,
}
use lecerf.Codegen.Emit.{Target, ld_eax, st_eax, sub_imm}
use native.Mathlib.Decide.{ℕ_discrete}
use lecerf.Cpu.{reg_sp, reg_pc}
use lecerf.Codegen.Stack.{
  Sram, listed, each, total, too_far, point_r11, pop_fast_body, pop_slow_size, pop_slow_body,
  push_slow, push_fast, emit_push_v, pop_slow, commit_r10d, load_fast, drop_words, pop_slow_path,
  emit_pop,
}
use lecerf.Codegen.Paths.{length-each, length-each_const, IsTwoPaths, two_paths}

abbrev load_fast_size : ℕ → ℕ
load_fast_size k = if k == reg_pc then 33 else 14

load_fast-length : (t : Target) (k off : ℕ) → length (load_fast t k off) ≡ load_fast_size k
load_fast-length t k off = elim (Bool-cases (k == reg_pc)) [ inl e ↦ rw e refl | inr e ↦ rw e refl ]

-- A list without the PC has only registers of the usual size.
total-no_pc :
    (c d n k reg_list : ℕ)
    → has reg_list (2 ^ 15) ≡ false
    → total (λ j. if j == reg_pc then d else c) (listed n k reg_list)
      ≡ length (listed n k reg_list) * c
unfolding total listed
total-no_pc c d zero k reg_list no_pc = omega arith
total-no_pc c d (suc n) k reg_list no_pc = elim (Bool-cases (has reg_list (2 ^ k))) [
  | inr out ↦ rw out (total-no_pc c d n (k + 1) reg_list no_pc)
  | inl into ↦ rw into (elim (ℕ_discrete k 15) [
    | yes pc ↦ absurd (cc (into, no_pc, ap (λ (j : ℕ). has reg_list (2 ^ j)) pc))
    | no low ↦
        let rest = total-no_pc c d n (k + 1) reg_list no_pc in
        rw (==_of_ne k reg_pc low) (omega (arith, rest))
  ])
]

pop_slow-length : (t : Target) (k off : ℕ) → length (pop_slow t k off) ≡ pop_slow_size k
pop_slow-length t k off = elim (Bool-cases (k == reg_pc)) [ inl e ↦ rw e refl | inr e ↦ rw e refl ]

pop_slow_path-length :
    (t : Target) (ks : List ℕ) (pc : Bool) → length (pop_slow_path t ks pc) ≡ pop_slow_body ks pc
pop_slow_path-length t ks pc =
    let slow = each (pop_slow t) 0 ks in
    let drop = drop_words t (length ks) in
    let commit : List ℕ = if pc then commit_r10d t else [] in
    let end : length commit ≡ (if pc then 28 else 0) = elim (Bool-cases pc) [
      | inl e ↦ rw e refl
      | inr e ↦ rw e refl
    ] in
    omega (
      arith,
      length-append (slow ++ drop) commit,
      end,
      length-append slow drop,
      length-each (pop_slow t) pop_slow_size 0 ks (pop_slow-length t),
    )

module _ (t : Target) (m : Sram) where
  -- Where PUSH of some register has a path in flat memory, both tests of the bounds jump to the path
  -- through the bus, and the path in flat memory ends with a jump over it.
  pub emit_push_v-IsTwoPaths :
      (reg_list : ℕ)
      → length (listed 15 0 reg_list) ≢ 0
      → too_far (23 + length (listed 15 0 reg_list) * 14) (length (listed 15 0 reg_list) * 58)
        ≡ false
      → IsTwoPaths
          (emit_push_v t (some m) reg_list)
          19
          (point_r11 m ++ each (push_fast t) 0 (listed 15 0 reg_list))
          (each (push_slow t) 0 (listed 15 0 reg_list))
  unfolding emit_push_v
  emit_push_v-IsTwoPaths reg_list some_register near =
      let ks = listed 15 0 reg_list in
      let cnt = length ks in
      let fast = each (push_fast t) 0 ks in
      let slow = each (push_slow t) 0 ks in
      let fast_size : length fast ≡ cnt * 14 =
        length-each_const (push_fast t) 14 0 ks (λ k off. refl) in
      let slow_size : length slow ≡ cnt * 58 =
        length-each_const (push_slow t) 58 0 ks (λ k off. refl) in
      rw (emit_push_v, ==_of_ne cnt 0 some_register, near)
        (two_paths (ld_eax t reg_sp ++ sub_imm (cnt * 4) ++ st_eax t reg_sp) (point_r11 m ++ fast)
          slow m cnt (23 + cnt * 14) (cnt * 58) (omega (arith, fast_size)) slow_size near)

  -- Where POP of some register and without PC has a path in flat memory, both tests of the bounds
  -- jump to the path through the bus, and the path in flat memory ends with a jump over it.
  pub emit_pop-IsTwoPaths :
      (reg_list : ℕ)
      → length (listed 16 0 reg_list) ≢ 0
      → has reg_list (2 ^ 15) ≡ false
      → too_far
          (pop_fast_body (length (listed 16 0 reg_list)) (has reg_list (2 ^ 15)))
          (pop_slow_body (listed 16 0 reg_list) (has reg_list (2 ^ 15)))
        ≡ false
      → IsTwoPaths
          (emit_pop t (some m) reg_list)
          7
          (point_r11 m
            ++ each (load_fast t) 0 (listed 16 0 reg_list)
            ++ drop_words t (length (listed 16 0 reg_list)))
          (pop_slow_path t (listed 16 0 reg_list) (has reg_list (2 ^ 15)))
  unfolding emit_pop
  emit_pop-IsTwoPaths reg_list some_register no_pc near =
      let ks = listed 16 0 reg_list in
      let cnt = length ks in
      let pc = has reg_list (2 ^ 15) in
      let fast = each (load_fast t) 0 ks in
      let fast_size : length fast ≡ cnt * 14 =
        length-each (load_fast t) load_fast_size 0 ks (load_fast-length t)
        ∙ total-no_pc 14 33 16 0 reg_list no_pc in
      let extra : ℕ = if pc then 26 else 0 in
      let none_more : extra ≡ 0 = rw no_pc refl in
      rw (emit_pop, ==_of_ne cnt 0 some_register, near)
        (two_paths (ld_eax t reg_sp) (point_r11 m ++ fast ++ drop_words t cnt)
          (pop_slow_path t ks pc) m cnt (pop_fast_body cnt pc) (pop_slow_body ks pc)
          (omega (arith, fast_size, none_more, length-append fast (drop_words t cnt)))
          (pop_slow_path-length t ks pc) near)
