-- ===== src/Codegen/Sizes.antt =====
-- How long the parts of the code of an instruction are.
use lecerf.Base.{
  ℕ, ◌+◌, ◌≤◌, Bool, true, false, ◌==◌, leb, if◌then◌else◌, List, [], ◌∷◌, ◌++◌, length, Bool-cases,
  inl, inr, ◌≡◌, refl, arith,
}
use lecerf.Decoder.Insn.{Insn}
use lecerf.Codegen.EmitStack.{emit_jcc_rel32}
use lecerf.Codegen.Emit.{Target, st_pc, jmp_short}
use lecerf.Codegen.Flags.{
  emit_flags_nzcv, emit_flags_nz, cond_test, cond_jcc, taken_pc, next_pc, emit_b_cond_fast,
}
use lecerf.Codegen.Memory.{emit_load_from_eax, emit_load, store_at_eax, emit_store}

pub length-if_le :
    (b : Bool) (xs ys : List ℕ) (n : ℕ)
    → length xs ≤ n
    → length ys ≤ n
    → length (if b then xs else ys) ≤ n
length-if_le true xs ys n h h' = h
length-if_le false xs ys n h h' = h'

length-emit_flags_nzcv : (t : Target) (s : Bool) → length (emit_flags_nzcv t s) ≤ 101
unfolding emit_flags_nzcv
length-emit_flags_nzcv t true = omega arith
length-emit_flags_nzcv t false = omega arith

length-emit_flags_nz : (t : Target) → length (emit_flags_nz t) ≤ 70
unfolding emit_flags_nz
length-emit_flags_nz t = omega arith

length-cond_test : (c : ℕ) → length (cond_test c) ≤ 9
unfolding cond_test
length-cond_test c = length-if_le (c == 0) _ _ 9 (omega arith) (
    length-if_le (c == 1) _ _ 9 (omega arith) (
      length-if_le (c == 2) _ _ 9 (omega arith) (
        length-if_le (c == 3) _ _ 9 (omega arith) (
          length-if_le (c == 4) _ _ 9 (omega arith) (
            length-if_le (c == 5) _ _ 9 (omega arith) (
              length-if_le (c == 6) _ _ 9 (omega arith) (
                length-if_le (c == 7) _ _ 9 (omega arith) (
                  length-if_le (c == 8) _ _ 9 (omega arith) (
                    length-if_le (c == 9) _ _ 9 (omega arith) (
                      length-if_le (c == 10) _ _ 9 (omega arith) (
                        length-if_le (c == 11) _ _ 9 (omega arith)
                          (length-if_le (c == 12) _ _ 9 (omega arith) (omega arith)))))))))))))

-- A case of one test.
length-if :
    (b : Bool) (xs ys : List ℕ)
    → length (if b then xs else ys) ≡ (if b then length xs else length ys)
length-if true xs ys = refl
length-if false xs ys = refl

length-tested :
    (xs : List ℕ) (t : Target) (i : Insn)
    → length (
        xs
        ++ emit_jcc_rel32 (cond_jcc i.cond) 13
        ++ st_pc t (next_pc i)
        ++ jmp_short 11
        ++ st_pc t (taken_pc i))
      ≡ length xs + 30
length-tested [] t i = refl
length-tested (x ∷ xs) t i = omega (arith, length-tested xs t i)

pub length-emit_b_cond_fast : (t : Target) (i : Insn) → length (emit_b_cond_fast t i) ≤ 49
unfolding emit_b_cond_fast
length-emit_b_cond_fast t i = length-if_le (i.cond == 0xE) _ _ 49 (omega arith) (
    length-if_le (i.cond == 0xF) _ _ 49 (omega arith) (elim (Bool-cases (leb 0x10 i.cond)) [
      | inl e ↦ rw e (elim (Bool-cases (leb 8 i.cond)) [
        | inl f ↦ rw f (omega arith)
        | inr f ↦ rw f (omega arith)
      ])
      | inr e ↦ rw e (elim (Bool-cases (leb 8 i.cond)) [
        | inl f ↦
            rw f (omega (arith, length-cond_test i.cond, length-tested (cond_test i.cond) t i))
        | inr f ↦
            rw f (omega (arith, length-cond_test i.cond, length-tested (cond_test i.cond) t i))
      ])
    ]))

pub length-emit_load_from_eax : (t : Target) (rd sz : ℕ) → length (emit_load_from_eax t rd sz) ≤ 60
unfolding emit_load_from_eax
length-emit_load_from_eax t rd sz = elim (Bool-cases (sz == 1)) [
  | inl e ↦ rw e (omega arith)
  | inr e ↦
      rw e (elim (Bool-cases (sz == 2)) [ inl f ↦ rw f (omega arith) | inr f ↦ rw f (omega arith) ])
]

pub length-emit_load : (t : Target) (rd rn imm sz : ℕ) → length (emit_load t rd rn imm sz) ≤ 72
unfolding emit_load
length-emit_load t rd rn imm sz = elim (Bool-cases (imm == 0)) [
  | inl e ↦ rw e (omega (arith, length-emit_load_from_eax t rd sz))
  | inr e ↦ rw e (omega (arith, length-emit_load_from_eax t rd sz))
]

length-store_at_eax : (t : Target) (rd sz : ℕ) → length (store_at_eax t rd sz) ≤ 52
length-store_at_eax t rd sz = elim (Bool-cases (sz == 1)) [
  | inl e ↦ rw e (omega arith)
  | inr e ↦
      rw e (elim (Bool-cases (sz == 2)) [ inl f ↦ rw f (omega arith) | inr f ↦ rw f (omega arith) ])
]

pub length-emit_store : (t : Target) (rd rn imm sz : ℕ) → length (emit_store t rd rn imm sz) ≤ 64
unfolding emit_store
length-emit_store t rd rn imm sz = elim (Bool-cases (imm == 0)) [
  | inl e ↦ rw e (omega (arith, length-store_at_eax t rd sz))
  | inr e ↦ rw e (omega (arith, length-store_at_eax t rd sz))
]
