-- ===== src/Cpu/Flags.antt =====
-- The flags that an addition or a subtraction of 32-bit words leaves in APSR, against the
-- arithmetic of unsigned and of signed numbers.
use lecerf.Base.{
  ℕ, ◌+◌, ◌-◌, ◌%◌, ◌^◌, ◌<◌, bit_and, bit_xor, Bool, ◌==◌, leb, ltb, ◌>>>◌, not, ◌&&◌,
  if◌then◌else◌, of_bool, max, min, not32, has, set_if, sub32, ◌≡◌, arith, IsU32, ◌∙◌, ap,
}
use lecerf.Base.Bits.{
  bit, bit-bit_and, bit-bit_xor, bit_xor-lt, has-two_pow, bit-set_if, bit_and_mask, mod-set_if,
}
use native.Mathlib.Nat.{mod-mod}
use lecerf.Cpu.{
  Cpu, cpu_set_flags_nzcv_add, cpu_set_flags_nzcv_sub, nz, apsr_n, apsr_z, apsr_c, apsr_v,
  nzcv_mask,
}

-- `x` read as a signed number, plus 2 ^ 31.
abbrev pub biased : ℕ → ℕ
biased x = (x + 0x80000000) % 0x100000000

-- The words that C keeps below the flags: `apsr & ~mask` for the two masks.
pub keep_28 : (x : ℕ) → bit_and x (not32 nzcv_mask) ≡ x % 2 ^ 28
keep_28 x = bit_and_mask 28 x

pub keep_30 : (x : ℕ) → bit_and x (not32 0xC0000000) ≡ x % 2 ^ 30
keep_30 x = bit_and_mask 30 x

-- What `nz` does to each digit.
bit-nz :
    (k f x : ℕ)
    → bit (nz f x) k
      ≡ max
          (max (bit f k) (if has x 0x80000000 then bit apsr_n k else 0))
          (if x == 0 then bit apsr_z k else 0)
unfolding nz
bit-nz k f x =
    rw (bit-set_if k (set_if (has x 0x80000000) apsr_n f) apsr_z (x == 0))
      (rw (bit-set_if k f apsr_n (has x 0x80000000)))

-- After clearing the flags, `nz` sets N to the sign of the result and Z exactly when it is 0.
pub record IsNz (f x : ℕ) (g : ℕ) : Type 0 where
  pub negative : bit g 31 ≡ bit x 31
  pub is_zero : bit g 30 ≡ of_bool (x == 0)
  pub carry : bit g 29 ≡ bit f 29
  pub overflow : bit g 28 ≡ bit f 28
  pub rest : g % 2 ^ 28 ≡ f % 2 ^ 28

pub nz-IsNz : (f x : ℕ) → f < 2 ^ 30 → IsNz f x (nz f x)
nz-IsNz f x h = record {
  negative = ground (arith, bit-nz 31 f x, has-two_pow 31 x);
  is_zero = ground (arith, bit-nz 30 f x);
  carry = ground (arith, bit-nz 29 f x);
  overflow = ground (arith, bit-nz 28 f x);
  rest =
      unfold nz in
      (mod-set_if 28 (set_if (has x 0x80000000) apsr_n f) 4 (x == 0)
        ∙ mod-set_if 28 f 8 (has x 0x80000000));
}

-- The five things that the flag functions say of the word `g` that replaces `apsr`.
pub record IsNzcv (apsr x : ℕ) (c v : Bool) (g : ℕ) : Type 0 where
  pub negative : bit g 31 ≡ bit x 31
  pub is_zero : bit g 30 ≡ of_bool (x == 0)
  pub carry : bit g 29 ≡ of_bool c
  pub overflow : bit g 28 ≡ of_bool v
  pub rest : g % 2 ^ 28 ≡ apsr % 2 ^ 28

pub set-IsNzcv :
    (apsr x : ℕ) (c v : Bool)
    → IsNzcv apsr x c v (set_if v apsr_v (set_if c apsr_c (nz (bit_and apsr (not32 nzcv_mask)) x)))
set-IsNzcv apsr x c v =
    let f = nz (bit_and apsr (not32 nzcv_mask)) x in
    let low : bit_and apsr (not32 nzcv_mask) < 2 ^ 28 = omega (arith, keep_28 apsr) in
    let n = nz-IsNz (bit_and apsr (not32 nzcv_mask)) x (omega arith) in
    let digit = λ (k : ℕ).
      bit-set_if k (set_if c apsr_c f) apsr_v v
      ∙ ap (λ (t : ℕ). max t (if v then bit apsr_v k else 0)) (bit-set_if k f apsr_c c) in
    record {
      negative = ground (arith, n, digit 31);
      is_zero = ground (arith, n, digit 30);
      carry = ground (arith, n, digit 29);
      overflow = ground (arith, n, digit 28);
      rest =
          mod-set_if 28 (set_if c apsr_c f) 1 v
          ∙ mod-set_if 28 f 2 c
          ∙ n.rest
          ∙ ap (λ (t : ℕ). t % 2 ^ 28) (keep_28 apsr)
          ∙ mod-mod apsr (2 ^ 28);
    }

-- The sum of two signed words and a carry leaves the range of a signed word.
abbrev pub add_overflows : ℕ → ℕ → Bool → Bool
add_overflows a b carry_in =
    let s = biased a + biased b + of_bool carry_in in not (leb 0x80000000 s && ltb s 0x180000000)

-- The difference of two signed words leaves the range of a signed word.
abbrev pub sub_overflows : ℕ → ℕ → Bool
sub_overflows a b =
    not (leb (biased b) (biased a + 0x80000000) && ltb (biased a) (biased b + 0x80000000))

pub overflow_test :
    (a b x : ℕ)
    → IsU32 a
    → IsU32 b
    → IsU32 x
    → has (bit_and (not32 (bit_xor a b)) (bit_xor a x)) 0x80000000
      ≡ (min (1 - (bit a 31 + bit b 31) % 2) ((bit a 31 + bit x 31) % 2) == 1)
overflow_test a b x ha hb hx = rw (has-two_pow 31 (bit_and (not32 (bit_xor a b)) (bit_xor a x))) (
    ap (λ (t : ℕ). t == 1)
      (omega (
        arith,
        bit-bit_and 31 (not32 (bit_xor a b)) (bit_xor a x),
        bit-bit_xor 31 a x,
        bit-bit_xor 31 a b,
        bit_xor-lt 32 a b ha hb,
      )))

pub sub_overflow_test :
    (a b x : ℕ)
    → IsU32 a
    → IsU32 b
    → IsU32 x
    → has (bit_and (bit_xor a b) (bit_xor a x)) 0x80000000
      ≡ (min ((bit a 31 + bit b 31) % 2) ((bit a 31 + bit x 31) % 2) == 1)
sub_overflow_test a b x ha hb hx = rw (has-two_pow 31 (bit_and (bit_xor a b) (bit_xor a x))) (
    ap (λ (t : ℕ). t == 1)
      (omega (
        arith,
        bit-bit_and 31 (bit_xor a b) (bit_xor a x),
        bit-bit_xor 31 a x,
        bit-bit_xor 31 a b,
      )))

add_overflow_digits :
    (a b : ℕ) (cin : Bool)
    → IsU32 a
    → IsU32 b
    → let x = (a + b + of_bool cin) % 2 ^ 32 in
      (min (1 - (bit a 31 + bit b 31) % 2) ((bit a 31 + bit x 31) % 2) == 1) ≡ add_overflows a b cin
add_overflow_digits a b cin ha hb = ground arith

sub_overflow_digits :
    (a b : ℕ)
    → IsU32 a
    → IsU32 b
    → let x = sub32 a b in
      (min ((bit a 31 + bit b 31) % 2) ((bit a 31 + bit x 31) % 2) == 1) ≡ sub_overflows a b
sub_overflow_digits a b ha hb = ground arith

-- After an addition of two words and a carry, APSR has N and Z of the wrapped sum, C exactly when
-- the unsigned sum leaves 32 bits, V exactly when the signed sum does, and its other bits unchanged.
pub cpu_set_flags_nzcv_add-IsNzcv :
    (c : Cpu) (a b : ℕ) (carry_in : Bool)
    → IsU32 a
    → IsU32 b
    → let x = (a + b + of_bool carry_in) % 2 ^ 32 in
      IsNzcv c.apsr x
        (leb (2 ^ 32) (a + b + of_bool carry_in))
        (add_overflows a b carry_in)
        (cpu_set_flags_nzcv_add c a b x carry_in).apsr
unfolding cpu_set_flags_nzcv_add
cpu_set_flags_nzcv_add-IsNzcv c a b carry_in ha hb =
    rw
      (
        ← add_overflow_digits a b carry_in ha hb,
        ← overflow_test a b ((a + b + of_bool carry_in) % 2 ^ 32) ha hb (omega arith),
        carry_test,
      )
      (set-IsNzcv c.apsr _ _ _)
  where
    carry_test :
        leb (2 ^ 32) (a + b + of_bool carry_in) ≡ not ((a + b + of_bool carry_in) >>> 32 == 0)
    carry_test = ground arith

-- After a subtraction of two words, APSR has N and Z of the wrapped difference, C exactly when no
-- borrow is needed, V exactly when the signed difference leaves 32 bits, and its other bits
-- unchanged.
pub cpu_set_flags_nzcv_sub-IsNzcv :
    (c : Cpu) (a b : ℕ)
    → IsU32 a
    → IsU32 b
    → IsNzcv c.apsr
        (sub32 a b)
        (leb b a)
        (sub_overflows a b)
        (cpu_set_flags_nzcv_sub c a b (sub32 a b)).apsr
unfolding cpu_set_flags_nzcv_sub
cpu_set_flags_nzcv_sub-IsNzcv c a b ha hb =
    rw (← sub_overflow_digits a b ha hb, ← sub_overflow_test a b (sub32 a b) ha hb (omega arith))
      (set-IsNzcv c.apsr _ _ _)
