-- ===== src/Cpu/Apsr.antt =====
-- APSR after the flag functions of src/core/cpu.c, as a sum of its flags.
use lecerf.Base.{
  ℕ, ◌+◌, ◌-◌, ◌*◌, ◌%◌, ◌^◌, ◌<◌, bit_and, bit_xor, Bool, false, ◌==◌, leb, ◌>>>◌, not, ◌&&◌, same,
  add32, of_bool, min, not32, has, set_if, sub32, ◌≡◌, refl, arith, IsU32, ◌∙◌, ap,
}
use lecerf.Base.Bits.{bit, has-two_pow, set_if-lt}
use lecerf.Cpu.{
  Cpu, cpu_set_flags_nz, cpu_set_flags_nzcv_add, cpu_set_flags_nzcv_sub, nz, add_flags, sub_flags,
  apsr_n, apsr_z, apsr_c, apsr_v, nzcv_mask,
}
use lecerf.Cpu.Flags.{nz-IsNz, set-IsNzcv, overflow_test, sub_overflow_test, keep_28, keep_30}

-- Four flags above the 28 digits of a word that are no flags.
abbrev pub flagged : ℕ → Bool → Bool → Bool → Bool → ℕ
flagged apsr n z c v =
    apsr % 2 ^ 28 + (of_bool n * 8 + of_bool z * 4 + of_bool c * 2 + of_bool v) * 2 ^ 28

abbrev pub negative : ℕ → Bool
negative x = has x 0x80000000

nz-lt : (f x : ℕ) → f < 2 ^ 32 → nz f x < 2 ^ 32
unfolding nz
nz-lt f x h =
    set_if-lt 32 (set_if (negative x) apsr_n f) apsr_z (x == 0)
      (set_if-lt 32 f apsr_n (negative x) h (omega arith)) (omega arith)

nz-sum :
    (apsr x : ℕ)
    → nz (bit_and apsr (not32 0xC0000000)) x
      ≡ apsr % 2 ^ 30 + (of_bool (negative x) * 2 + of_bool (x == 0)) * 2 ^ 30
nz-sum apsr x =
    let f = bit_and apsr (not32 0xC0000000) in
    let keep : f ≡ apsr % 2 ^ 30 = keep_30 apsr in
    let low : f < 2 ^ 30 = omega (arith, keep) in
    let n = nz-IsNz f x low in
    let g = nz f x in
    let top : g < 2 ^ 32 = nz-lt f x (omega arith) in
    let sign : of_bool (negative x) ≡ bit x 31 = ground (arith, has-two_pow 31 x) in
    omega (arith, n.negative, n.is_zero, n.carry, n.overflow, n.rest, top, keep, sign)

set-sum :
    (apsr x : ℕ) (c v : Bool)
    → set_if v apsr_v (set_if c apsr_c (nz (bit_and apsr (not32 nzcv_mask)) x))
      ≡ flagged apsr (negative x) (x == 0) c v
set-sum apsr x c v =
    let f = bit_and apsr (not32 nzcv_mask) in
    let low : f < 2 ^ 32 = omega (arith, keep_28 apsr) in
    let g0 = nz f x in
    let n = set-IsNzcv apsr x c v in
    let top0 : g0 < 2 ^ 32 = nz-lt f x low in
    let top =
      set_if-lt 32 (set_if c apsr_c g0) apsr_v v (set_if-lt 32 g0 apsr_c c top0 (omega arith))
        (omega arith) in
    let sign : of_bool (negative x) ≡ bit x 31 = ground (arith, has-two_pow 31 x) in
    omega (arith, n.negative, n.is_zero, n.carry, n.overflow, n.rest, top, sign)

-- The overflow of a sum and of a difference, by the signs.
abbrev pub sum_overflows : ℕ → ℕ → Bool
sum_overflows a b = same (negative a) (negative b) && not (same (negative (add32 a b)) (negative a))

abbrev pub difference_overflows : ℕ → ℕ → Bool
difference_overflows a b =
    not (same (negative a) (negative b)) && not (same (negative (sub32 a b)) (negative a))

-- The signs of the C code, one digit for each.
sum_test :
    (a b x : ℕ)
    → a < 2
    → b < 2
    → x < 2
    → (min (1 - (a + b) % 2) ((a + x) % 2) == 1)
      ≡ (same (a == 1) (b == 1) && not (same (x == 1) (a == 1)))
sum_test a b x ha hb hx = ground arith

difference_test :
    (a b x : ℕ)
    → a < 2
    → b < 2
    → x < 2
    → (min ((a + b) % 2) ((a + x) % 2) == 1)
      ≡ (not (same (a == 1) (b == 1)) && not (same (x == 1) (a == 1)))
difference_test a b x ha hb hx = ground arith

pub cpu_set_flags_nz-sum :
    (c : Cpu) (x : ℕ)
    → (cpu_set_flags_nz c x).apsr
      ≡ c.apsr % 2 ^ 30 + (of_bool (negative x) * 2 + of_bool (x == 0)) * 2 ^ 30
unfolding cpu_set_flags_nz
cpu_set_flags_nz-sum c x = nz-sum c.apsr x

pub cpu_set_flags_nzcv_add-sum :
    (c : Cpu) (a b : ℕ)
    → IsU32 a
    → IsU32 b
    → (cpu_set_flags_nzcv_add c a b (add32 a b) false).apsr
      ≡ flagged c.apsr
          (negative (add32 a b))
          (add32 a b == 0)
          (leb (2 ^ 32) (a + b))
          (sum_overflows a b)
unfolding cpu_set_flags_nzcv_add add_flags
cpu_set_flags_nzcv_add-sum c a b ha hb =
    let x = add32 a b in
    let carry : not ((a + b + 0) >>> 32 == 0) ≡ leb (2 ^ 32) (a + b) = ground arith in
    let overflow : has (bit_and (not32 (bit_xor a b)) (bit_xor a x)) 0x80000000
        ≡ sum_overflows a b =
      overflow_test a b x ha hb (omega arith)
      ∙ sum_test (bit a 31) (bit b 31) (bit x 31) (omega arith) (omega arith) (omega arith)
      ∙ rw (has-two_pow 31 a, has-two_pow 31 b, has-two_pow 31 x) refl in
    set-sum c.apsr x (not ((a + b + 0) >>> 32 == 0))
      (has (bit_and (not32 (bit_xor a b)) (bit_xor a x)) 0x80000000)
    ∙ ap
        (λ (p : Bool).
          flagged c.apsr (negative x) (x == 0) p
            (has (bit_and (not32 (bit_xor a b)) (bit_xor a x)) 0x80000000))
        carry
    ∙ ap (flagged c.apsr (negative x) (x == 0) (leb (2 ^ 32) (a + b))) overflow

pub cpu_set_flags_nzcv_sub-sum :
    (c : Cpu) (a b : ℕ)
    → IsU32 a
    → IsU32 b
    → (cpu_set_flags_nzcv_sub c a b (sub32 a b)).apsr
      ≡ flagged c.apsr (negative (sub32 a b)) (sub32 a b == 0) (leb b a) (difference_overflows a b)
unfolding cpu_set_flags_nzcv_sub sub_flags
cpu_set_flags_nzcv_sub-sum c a b ha hb =
    let x = sub32 a b in
    let overflow : has (bit_and (bit_xor a b) (bit_xor a x)) 0x80000000 ≡ difference_overflows a b =
      sub_overflow_test a b x ha hb (omega arith)
      ∙ difference_test (bit a 31) (bit b 31) (bit x 31) (omega arith) (omega arith) (omega arith)
      ∙ rw (has-two_pow 31 a, has-two_pow 31 b, has-two_pow 31 x) refl in
    set-sum c.apsr x (leb b a) (has (bit_and (bit_xor a b) (bit_xor a x)) 0x80000000)
    ∙ ap (flagged c.apsr (negative x) (x == 0) (leb b a)) overflow
