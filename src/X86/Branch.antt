-- ===== src/X86/Branch.antt =====
-- The conditional branch of the code generator goes where the condition of the interpreter says.
use lecerf.Base.{
  ℕ, ◌+◌, ◌^◌, ◌<◌, bit_and, Bool, true, false, not, ◌==◌, ◌||◌, same, leb, if◌then◌else◌, ◌>>>◌,
  has, some, List, [], ◌++◌, IsU32, ◌≡◌, refl, arith, Bool-cases, inl, inr, ap, sym, ◌∙◌, ==_of_ne,
  leb_of_lt,
}
use mathlib.Core.List.{append_assoc}
use native.Mathlib.Decide.{ℕ_discrete}
use lecerf.Base.Tables.{all_below, all_below_sound}
use lecerf.Base.Bits.Laws.{has-two_pow, bit_and_mask}
use lecerf.Base.Bits.Shift.{bit-shift_right, bit-mod_in}
use lecerf.Cpu.{Cpu, set_reg, reg_pc}
use lecerf.Executor.Cond.{cond_table, cond_pass}
use lecerf.Decoder.Insn.{Insn}
use lecerf.Codegen.Emit.{Target, st_pc, ld_al_apsr_byte3, jmp_short}
use lecerf.Codegen.EmitStack.{shr_al, emit_jcc_rel32}
use lecerf.Codegen.Flags.{cond_test, cond_jcc, taken_pc, next_pc, emit_b_cond_fast}
use lecerf.X86.Reach.{run-add}
use lecerf.X86.Word.{IsLayout, word_of-w32, write32-reg}
use lecerf.X86.{Machine}
use lecerf.X86.Decode.{run}
use lecerf.X86.Condition.{top_byte, zero_after, from_tested, test_code, steps_of, run-test_code}

module _ (t : Target) (lay : IsLayout t) where
  -- The jump and the two writes of the PC behind it.
  jump_code : ℕ → ℕ → ℕ → List ℕ
  jump_code op fall goal = emit_jcc_rel32 op 13 ++ st_pc t fall ++ jmp_short 11 ++ st_pc t goal

  abbrev pc_set : Machine → ℕ → Machine
  pc_set x v = record x { cpu = set_reg x.cpu reg_pc v }

  run-jnz :
      (fall goal : ℕ) (x : Machine)
      → IsU32 fall
      → IsU32 goal
      → (n : ℕ) × (run t n (jump_code 0x85 fall goal) x
          ≡ some ([], pc_set x (if x.zf then fall else goal)))
  unfolding run jump_code
  run-jnz fall goal x hf hg = elim (Bool-cases x.zf) [
    | inl z ↦ (
      3,
      rw
          (
            run,
            jump_code,
            z,
            word_of-w32 (t.r_off + 60) (omega (arith, lay.behind, lay.fits)),
            word_of-w32 fall hf,
            write32-reg t lay 15 fall x.cpu (omega arith),
          )
          refl,
    )
    | inr z ↦ (
      2,
      rw
          (
            run,
            jump_code,
            z,
            word_of-w32 (t.r_off + 60) (omega (arith, lay.behind, lay.fits)),
            word_of-w32 goal hg,
            write32-reg t lay 15 goal x.cpu (omega arith),
          )
          refl,
    )
  ]

  run-jz :
      (fall goal : ℕ) (x : Machine)
      → IsU32 fall
      → IsU32 goal
      → (n : ℕ) × (run t n (jump_code 0x84 fall goal) x
          ≡ some ([], pc_set x (if x.zf then goal else fall)))
  unfolding run jump_code
  run-jz fall goal x hf hg = elim (Bool-cases x.zf) [
    | inr z ↦ (
      3,
      rw
          (
            run,
            jump_code,
            z,
            word_of-w32 (t.r_off + 60) (omega (arith, lay.behind, lay.fits)),
            word_of-w32 fall hf,
            write32-reg t lay 15 fall x.cpu (omega arith),
          )
          refl,
    )
    | inl z ↦ (
      2,
      rw
          (
            run,
            jump_code,
            z,
            word_of-w32 (t.r_off + 60) (omega (arith, lay.behind, lay.fits)),
            word_of-w32 goal hg,
            write32-reg t lay 15 goal x.cpu (omega arith),
          )
          refl,
    )
  ]

-- Whether the code of condition `c` jumps, on the byte `v`, and whether the condition holds.
jumps : ℕ → ℕ → Bool
unfolding zero_after
jumps c v = if cond_jcc c == 0x85 then not (zero_after c v) else zero_after c v

holds : ℕ → ℕ → Bool
holds c v = cond_table (has v 0x80) (has v 0x40) (has v 0x20) (has v 0x10) true c

same-eq : (a b : Bool) → same a b ≡ true → a ≡ b
same-eq true b h = sym h
same-eq false true h = absurd (cc h)
same-eq false false h = refl

jumps_table : all_below 14 (λ c. all_below 256 (λ v. same (jumps c v) (holds c v))) ≡ true
unfolding all_below jumps holds cond_table cond_jcc
jumps_table = refl

has-top_byte : (j apsr : ℕ) → j < 8 → has (top_byte apsr) (2 ^ j) ≡ has apsr (2 ^ (j + 24))
has-top_byte j apsr h =
    rw
      (
        has-two_pow j (top_byte apsr),
        has-two_pow (j + 24) apsr,
        bit-mod_in 8 j (apsr >>> 24) h,
        bit-shift_right 24 j apsr,
      )
      refl

jumps-cond_pass : (c apsr : ℕ) → c < 14 → jumps c (top_byte apsr) ≡ cond_pass apsr c
unfolding holds cond_pass
jumps-cond_pass c apsr h =
    let v = top_byte apsr in
    let row =
      all_below_sound 14 (λ k. all_below 256 (λ w. same (jumps k w) (holds k w))) c jumps_table h in
    let entry = all_below_sound 256 (λ w. same (jumps c w) (holds c w)) v row (omega arith) in
    let low : bit_and c 0xF ≡ c = omega (arith, bit_and_mask 4 c) in
    let agree : jumps c v ≡ holds c v = same-eq (jumps c v) (holds c v) entry in
    agree
    ∙ rw
        (
          low,
          has-top_byte 7 apsr (omega arith),
          has-top_byte 6 apsr (omega arith),
          has-top_byte 5 apsr (omega arith),
          has-top_byte 4 apsr (omega arith),
        )
        refl

regroup : (a b c d e f : List ℕ) → a ++ (b ++ c ++ d ++ e ++ f) ≡ a ++ b ++ (c ++ d ++ e ++ f)
regroup a b c d e f = simp append_assoc refl

two_jumps : all_below 14 (λ c. (cond_jcc c == 0x85) || (cond_jcc c == 0x84)) ≡ true
unfolding all_below cond_jcc
two_jumps = refl

if-not : (b : Bool) (m n : ℕ) → (if not b then m else n) ≡ (if b then n else m)
if-not true m n = refl
if-not false m n = refl

run-jump :
    (t : Target) (lay : IsLayout t) (c fall goal : ℕ) (x : Machine)
    → c < 14
    → IsU32 fall
    → IsU32 goal
    → (n : ℕ) × (run t n (jump_code t lay (cond_jcc c) fall goal) x
        ≡ some (
          [],
          pc_set t lay x (if (if cond_jcc c == 0x85 then not x.zf else x.zf) then goal else fall),
        ))
run-jump t lay c fall goal x h hf hg = elim (ℕ_discrete (cond_jcc c) 0x85) [
  | yes nz ↦ let (n, e) = run-jnz t lay fall goal x hf hg in (n, rw (nz, if-not x.zf goal fall) e)
  | no other ↦
      let (n, e) = run-jz t lay fall goal x hf hg in
      let either =
        all_below_sound 14 (λ k. (cond_jcc k == 0x85) || (cond_jcc k == 0x84)) c two_jumps h in
      let jz : cond_jcc c ≡ 0x84 = ground (arith, either, other) in (n, rw jz e)
]

-- A run of the code to its end, with the CPU that it leaves.
pub record Ends (t : Target) (code : List ℕ) (x : Machine) (c : Cpu) : Type 0 where
  pub steps : ℕ
  pub after : Machine
  pub ran : run t steps code x ≡ some ([], after)
  pub cpu_after : after.cpu ≡ c

-- With the flags behind the registers in the CPU, the native code of a conditional branch with a
-- condition below 14, run to its end on any machine, sets PC to the target where the condition of the
-- interpreter passes and to the next address where it does not, and changes nothing else of the CPU.
pub emit_b_cond_fast-cond_pass :
    (t : Target) (i : Insn) (x : Machine)
    → IsLayout t
    → i.cond < 14
    → Ends t
        (emit_b_cond_fast t i)
        x
        (set_reg x.cpu reg_pc (if cond_pass x.cpu.apsr i.cond then taken_pc i else next_pc i))
unfolding emit_b_cond_fast jump_code jumps
emit_b_cond_fast-cond_pass t i x lay h =
    let c = i.cond in
    let fall = next_pc i in
    let goal = taken_pc i in
    let jump = jump_code t lay (cond_jcc c) fall goal in
    let whole : emit_b_cond_fast t i ≡ test_code t c ++ jump =
      rw
        (
          emit_b_cond_fast,
          ==_of_ne c 0xE (λ e. absurd (omega (arith, e))),
          ==_of_ne c 0xF (λ e. absurd (omega (arith, e))),
          leb_of_lt 0x10 c (omega arith),
        )
        (regroup (ld_al_apsr_byte3 t ++ (if leb 0x8 c then shr_al 4 else [])) (cond_test c)
          (emit_jcc_rel32 (cond_jcc c) 13) (st_pc t fall) (jmp_short 11) (st_pc t goal)) in
    let hf : IsU32 fall = omega arith in
    let hg : IsU32 goal = omega arith in
    let (x1, first, zf, cpu) = from_tested _ _ _ _ (run-test_code t lay c jump x h) in
    let (n, second) = run-jump t lay c fall goal x1 h hf hg in
    let decide : (if cond_jcc c == 0x85 then not x1.zf else x1.zf) ≡ cond_pass x.cpu.apsr c =
      rw zf (jumps-cond_pass c x.cpu.apsr h) in
    let x2 : Machine =
      pc_set t lay x1 (if (if cond_jcc c == 0x85 then not x1.zf else x1.zf) then goal else fall) in
    record {
      steps = steps_of c + n;
      after = x2;
      ran = rw whole (run-add t (steps_of c) n _ jump x x1 first ∙ second);
      cpu_after =
          ap (λ b. set_reg x1.cpu reg_pc (if b then goal else fall)) decide
          ∙ ap (λ k. set_reg k reg_pc (if cond_pass x.cpu.apsr c then goal else fall)) cpu;
    }
