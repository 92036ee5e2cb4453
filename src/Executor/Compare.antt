-- ===== src/Executor/Compare.antt =====
-- The conditions of `cond_pass` after a comparison, against the order of unsigned and of signed
-- words.
use lecerf.Base.{
  ℕ, bit_and, Bool, true, not, ◌==◌, leb, ltb, if◌then◌else◌, has, sub32, IsU32, ◌≡◌, arith,
}
use lecerf.Base.Bits.{has-two_pow}
use lecerf.Cpu.{Cpu, apsr_n, apsr_z, apsr_c, apsr_v, cpu_set_flags_nzcv_sub}
use lecerf.Cpu.Flags.{IsNzcv, biased, sub_overflows, cpu_set_flags_nzcv_sub-IsNzcv}
use lecerf.Executor.Cond.{cond_pass, cond_table}

-- What each condition means after `a` was compared with `b`.
abbrev pub comparison : ℕ → ℕ → ℕ → Bool
comparison a b cond =
    if cond == 0x0
    then a == b
    else if cond == 0x1
    then not (a == b)
    else if cond == 0x2
    then leb b a
    else if cond == 0x3
    then ltb a b
    else if cond == 0x4
    then leb 0x80000000 (sub32 a b)
    else if cond == 0x5
    then ltb (sub32 a b) 0x80000000
    else if cond == 0x6
    then sub_overflows a b
    else if cond == 0x7
    then not (sub_overflows a b)
    else if cond == 0x8
    then ltb b a
    else if cond == 0x9
    then leb a b
    else if cond == 0xA
    then leb (biased b) (biased a)
    else if cond == 0xB
    then ltb (biased a) (biased b)
    else if cond == 0xC
    then ltb (biased b) (biased a)
    else if cond == 0xD
    then leb (biased a) (biased b)
    else true

table-comparison :
    (a b cond : ℕ)
    → IsU32 a
    → IsU32 b
    → cond_table
        (leb 0x80000000 (sub32 a b))
        (sub32 a b == 0)
        (leb b a)
        (sub_overflows a b)
        true
        cond
      ≡ comparison a b cond
unfolding cond_table
table-comparison a b cond ha hb = ground arith

-- The four flags after a subtraction.
record IsFlags (x : ℕ) (c v : Bool) (g : ℕ) : Type 0 where
  n_flag : has g apsr_n ≡ leb 0x80000000 x
  z_flag : has g apsr_z ≡ (x == 0)
  c_flag : has g apsr_c ≡ c
  v_flag : has g apsr_v ≡ v

of_IsNzcv : (apsr x : ℕ) (c v : Bool) (g : ℕ) → IsU32 x → IsNzcv apsr x c v g → IsFlags x c v g
of_IsNzcv apsr x c v g hx d = record {
  n_flag = ground (arith, has-two_pow 31 g, d);
  z_flag = ground (arith, has-two_pow 30 g, d);
  c_flag = ground (arith, has-two_pow 29 g, d);
  v_flag = ground (arith, has-two_pow 28 g, d);
}

-- After the flags of the comparison of two words are set, each of the conditions holds exactly when
-- the words compare in its way, unsigned or signed.
pub cond_pass-comparison :
    (c : Cpu) (a b cond : ℕ)
    → IsU32 a
    → IsU32 b
    → cond_pass (cpu_set_flags_nzcv_sub c a b (sub32 a b)).apsr cond
      ≡ comparison a b (bit_and cond 0xF)
unfolding cond_pass
cond_pass-comparison c a b cond ha hb =
    let g = (cpu_set_flags_nzcv_sub c a b (sub32 a b)).apsr in
    let d =
      of_IsNzcv c.apsr (sub32 a b) _ _ g (omega arith)
        (cpu_set_flags_nzcv_sub-IsNzcv c a b ha hb) in
    rw (d.n_flag, d.z_flag, d.c_flag, d.v_flag) (table-comparison a b (bit_and cond 0xF) ha hb)
