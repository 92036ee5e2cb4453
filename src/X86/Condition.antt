-- ===== src/X86/Condition.antt =====
-- The code before the jump of a conditional branch: it loads the byte of the flags and tests it.
use lecerf.Base.{
  ℕ, zero, suc, ◌+◌, ◌-◌, ◌*◌, ◌/◌, ◌%◌, ◌^◌, ◌<◌, bit_and, bit_xor, Bool, ◌==◌, leb, ltb,
  if◌then◌else◌, ◌>>>◌, Option, some, List, [], ◌++◌, ◌≡◌, refl, arith,
}
use lecerf.Base.Bits.Laws.{bit_and-le, bit_xor-lt}
use lecerf.Codegen.Emit.{Target, ld_al_apsr_byte3}
use lecerf.Codegen.EmitStack.{shr_al, test_al_imm8, and_al_imm8, cmp_al_imm8}
use lecerf.Codegen.Flags.{sign_test, cond_test}
use lecerf.X86.Word.{IsLayout, word_of-w32, read8-apsr, al_back, ah_back, al_kept}
use lecerf.X86.{Machine}
use lecerf.X86.Decode.{run}

-- The byte of APSR with the flags.
abbrev pub top_byte : ℕ → ℕ
top_byte apsr = (apsr >>> 24) % 2 ^ 8

-- Whether ZF is set after the test of condition `c` on the byte `v`.
unfoldable pub zero_after : ℕ → ℕ → Bool
zero_after c v =
    let low = (v >>> 4) % 2 ^ 8 in
    let sign = bit_xor low ((low >>> 3) % 2 ^ 8) in
    if ltb c 2
    then bit_and v 0x40 == 0
    else if ltb c 4
    then bit_and v 0x20 == 0
    else if ltb c 6
    then bit_and v 0x80 == 0
    else if ltb c 8
    then bit_and v 0x10 == 0
    else if ltb c 10
    then (bit_and low 0x06 + 2 ^ 8 - 2) % 2 ^ 8 == 0
    else if ltb c 12
    then bit_and sign 0x01 == 0
    else bit_and sign 0x05 == 0

-- The end of a run over some code: the rest of the code, the zero flag, and the CPU as it was.
pub data IsTested (z : Bool) (x : Machine) (rest : List ℕ)
    : Option (List ℕ × Machine) → Type 0 where
  tested : (x' : Machine) → x'.zf ≡ z → x'.cpu ≡ x.cpu → IsTested z x rest (some (rest, x'))

pub from_tested :
    (z : Bool) (x : Machine) (rest : List ℕ) (o : Option (List ℕ × Machine))
    → IsTested z x rest o
    → (x' : Machine) × (o ≡ some (rest, x')) × (x'.zf ≡ z) × (x'.cpu ≡ x.cpu)
from_tested z x rest _ (tested x' zf cpu) = (x', refl, zf, cpu)

-- The code before the jump, and the number of its instructions.
abbrev pub test_code : Target → ℕ → List ℕ
test_code t c = ld_al_apsr_byte3 t ++ (if leb 0x8 c then shr_al 4 else []) ++ cond_test c

unfoldable pub steps_of : ℕ → ℕ
steps_of c = if ltb c 8 then 2 else if ltb c 10 then 4 else 6

-- `N == V` as the code computes it, in the lowest bit.
abbrev sign_bits : ℕ → ℕ
sign_bits v = let low = (v >>> 4) % 2 ^ 8 in bit_xor low ((low >>> 3) % 2 ^ 8)

module _ (t : Target) (lay : IsLayout t) where
  bit-IsTested :
      (m : ℕ) (rest : List ℕ) (x : Machine)
      → IsTested
          (bit_and (top_byte x.cpu.apsr) m == 0)
          x
          rest
          (run t 2 (ld_al_apsr_byte3 t ++ test_al_imm8 m ++ rest) x)
  unfolding run
  bit-IsTested m rest x = rw (word_of-w32 (t.apsr_off + 3) (omega (arith, lay.fits))) (
      tested _
        (rw (read8-apsr t lay x.cpu, al_back (x.reg 0) (top_byte x.cpu.apsr) (omega arith)) refl)
        refl)

  pair-IsTested :
      (rest : List ℕ) (x : Machine)
      → IsTested
          ((bit_and ((top_byte x.cpu.apsr >>> 4) % 2 ^ 8) 0x06 + 2 ^ 8 - 2) % 2 ^ 8 == 0)
          x
          rest
          (run t 4
            (ld_al_apsr_byte3 t ++ shr_al 4 ++ and_al_imm8 0x06 ++ cmp_al_imm8 0x02 ++ rest)
            x)
  unfolding run
  pair-IsTested rest x =
      let v = top_byte x.cpu.apsr in
      let low = (v >>> 4) % 2 ^ 8 in
      let a1 = x.reg 0 / 2 ^ 8 * 2 ^ 8 + v in
      let a2 = a1 / 2 ^ 8 * 2 ^ 8 + low in
      rw (word_of-w32 (t.apsr_off + 3) (omega (arith, lay.fits))) (
        tested _
          (rw
            (
              read8-apsr t lay x.cpu,
              al_back (x.reg 0) v (omega arith),
              al_back a1 low (omega arith),
              al_back a2 (bit_and low 6) (omega (arith, bit_and-le low 6)),
            )
            refl)
          refl)

  sign-IsTested :
      (m : ℕ) (rest : List ℕ) (x : Machine)
      → IsTested
          (bit_and (sign_bits (top_byte x.cpu.apsr)) m == 0)
          x
          rest
          (run t 6 (ld_al_apsr_byte3 t ++ shr_al 4 ++ sign_test m ++ rest) x)
  unfolding run
  sign-IsTested m rest x =
      let v = top_byte x.cpu.apsr in
      let low = (v >>> 4) % 2 ^ 8 in
      let s = (low >>> 3) % 2 ^ 8 in
      let a1 = x.reg 0 / 2 ^ 8 * 2 ^ 8 + v in
      let a2 = a1 / 2 ^ 8 * 2 ^ 8 + low in
      let a3 = a2 / 2 ^ 16 * 2 ^ 16 + low * 2 ^ 8 + low in
      let a4 = a3 / 2 ^ 16 * 2 ^ 16 + s * 2 ^ 8 + low in
      rw (word_of-w32 (t.apsr_off + 3) (omega (arith, lay.fits))) (
        tested _
          (rw
            (
              read8-apsr t lay x.cpu,
              al_back (x.reg 0) v (omega arith),
              al_back a1 low (omega arith),
              ah_back a2 low low (omega arith) (omega arith),
              al_kept a2 low low (omega arith),
              ah_back a3 s low (omega arith) (omega arith),
              al_kept a3 s low (omega arith),
              al_back a4 (bit_xor low s) (bit_xor-lt 8 low s (omega arith) (omega arith)),
            )
            refl)
          refl)

  -- The zero flag after the test of each condition.
  pub run-test_code :
      (c : ℕ) (rest : List ℕ) (x : Machine)
      → c < 14
      → IsTested
          (zero_after c (top_byte x.cpu.apsr))
          x
          rest
          (run t (steps_of c) (test_code t c ++ rest) x)
  unfolding cond_test zero_after steps_of
  run-test_code zero rest x h = bit-IsTested 0x40 rest x
  run-test_code (suc zero) rest x h = bit-IsTested 0x40 rest x
  run-test_code (suc (suc zero)) rest x h = bit-IsTested 0x20 rest x
  run-test_code (suc (suc (suc zero))) rest x h = bit-IsTested 0x20 rest x
  run-test_code (suc (suc (suc (suc zero)))) rest x h = bit-IsTested 0x80 rest x
  run-test_code (suc (suc (suc (suc (suc zero))))) rest x h = bit-IsTested 0x80 rest x
  run-test_code (suc (suc (suc (suc (suc (suc zero)))))) rest x h = bit-IsTested 0x10 rest x
  run-test_code (suc (suc (suc (suc (suc (suc (suc zero))))))) rest x h = bit-IsTested 0x10 rest x
  run-test_code (suc (suc (suc (suc (suc (suc (suc (suc zero)))))))) rest x h = pair-IsTested rest x
  run-test_code (suc (suc (suc (suc (suc (suc (suc (suc (suc zero))))))))) rest x h =
      pair-IsTested rest x
  run-test_code (suc (suc (suc (suc (suc (suc (suc (suc (suc (suc zero)))))))))) rest x h =
      sign-IsTested 0x01 rest x
  run-test_code (suc (suc (suc (suc (suc (suc (suc (suc (suc (suc (suc zero))))))))))) rest x h =
      sign-IsTested 0x01 rest x
  run-test_code (suc (suc (suc (suc (suc (suc (suc (suc (suc (suc (suc (suc zero)))))))))))) rest x
        h =
      sign-IsTested 0x05 rest x
  run-test_code (suc (suc (suc (suc (suc (suc (suc (suc (suc (suc (suc (suc (suc zero)))))))))))))
        rest x h =
      sign-IsTested 0x05 rest x
  run-test_code
        (suc (suc (suc (suc (suc (suc (suc (suc (suc (suc (suc (suc (suc (suc c)))))))))))))) rest x
        h =
      absurd (omega arith)
