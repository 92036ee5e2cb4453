-- ===== src/X86/Apsr.antt =====
-- The word that the native code of the flags stores is the one of the functions of src/core/cpu.c.
use lecerf.Base.{
  ℕ, ◌+◌, ◌-◌, ◌*◌, ◌/◌, ◌%◌, ◌^◌, ◌<◌, bit_and, bit_or, Bool, true, false, ◌==◌, leb, ltb, not,
  add32, sub32, if◌then◌else◌, of_bool, ◌≡◌, refl, arith, IsU32, ◌∙◌, ap, sym,
}
use lecerf.Base.Tables.{all_below, all_below_sound}
use lecerf.Base.Bits.Laws.{bit-bit_or, bit_ext, bit_or-lt, bit_and_mask}
use lecerf.Base.Bits.Shift.{bit_or-add}
use lecerf.Cpu.{Cpu, cpu_set_flags_nz, cpu_set_flags_nzcv_add, cpu_set_flags_nzcv_sub}
use lecerf.Cpu.Apsr.{
  flagged, negative, sum_overflows, difference_overflows, cpu_set_flags_nz-sum,
  cpu_set_flags_nzcv_add-sum, cpu_set_flags_nzcv_sub-sum,
}
use lecerf.X86.{Machine, flag_byte}
use lecerf.X86.Nzcv.{packed_nz, packed}

bit_or_comm : (a b : ℕ) → IsU32 a → IsU32 b → bit_or a b ≡ bit_or b a
bit_or_comm a b ha hb =
    bit_ext 32 (bit_or a b) (bit_or b a) (bit_or-lt 32 a b ha hb) (bit_or-lt 32 b a hb ha)
      (λ k h. omega (arith, bit-bit_or k a b, bit-bit_or k b a))

-- What is kept of APSR, and a multiple above it.
kept-or :
    (n apsr m : ℕ)
    → IsU32 (m * 2 ^ n)
    → n < 32
    → 2 ^ n < 2 ^ 32
    → 0 < 2 ^ n
    → bit_or (bit_and apsr (2 ^ n - 1)) (m * 2 ^ n) ≡ apsr % 2 ^ n + m * 2 ^ n
kept-or n apsr m h hn hp hz = rw (bit_and_mask n apsr) (
    bit_or_comm (apsr % 2 ^ n) (m * 2 ^ n) (omega arith) h
    ∙ bit_or-add n m (apsr % 2 ^ n) (omega arith)
    ∙ omega arith)

nz_table : all_below 256 (λ fb. packed_nz fb == fb / 64 * 2 ^ 30) ≡ true
unfolding all_below
nz_table = refl

-- The flags of the byte `fb` and the digit `v` as one number.
abbrev four : Bool → ℕ → ℕ → ℕ
four is_sub fb v = fb / 64 * 4 + (if is_sub then 1 - fb % 2 else fb % 2) * 2 + v

packed_table :
    (s : Bool)
    → all_below 256 (λ fb. all_below 2 (λ v. packed s fb v == four s fb v * 2 ^ 28)) ≡ true
unfolding all_below
packed_table true = refl
packed_table false = refl

of_equal : (m n : ℕ) → (m == n) ≡ true → m ≡ n
of_equal m n h = ground (arith, h)

packed-four : (s : Bool) (fb v : ℕ) → fb < 256 → v < 2 → packed s fb v ≡ four s fb v * 2 ^ 28
packed-four s fb v hf hv =
    let row =
      all_below_sound 256 (λ k. all_below 2 (λ w. packed s k w == four s k w * 2 ^ 28)) fb
        (packed_table s) hf in
    of_equal _ _ (all_below_sound 2 (λ w. packed s fb w == four s fb w * 2 ^ 28) v row hv)

byte_parts :
    (x : Machine)
    → (flag_byte x < 256)
      × (flag_byte x / 64 ≡ of_bool x.sf * 2 + of_bool x.zf)
      × (flag_byte x % 2 ≡ of_bool x.cf)
unfolding flag_byte
byte_parts x = (ground arith, ground arith, ground arith)

pub nz_word :
    (c : Cpu) (x : Machine) (r : ℕ)
    → x.sf ≡ negative r
    → x.zf ≡ (r == 0)
    → bit_or (bit_and c.apsr 0x3FFFFFFF) (packed_nz (flag_byte x)) ≡ (cpu_set_flags_nz c r).apsr
nz_word c x r hs hz =
    let fb = flag_byte x in
    let (small, top, low) = byte_parts x in
    let word : packed_nz fb ≡ fb / 64 * 2 ^ 30 =
      of_equal _ _ (all_below_sound 256 (λ k. packed_nz k == k / 64 * 2 ^ 30) fb nz_table small) in
    ap (bit_or (bit_and c.apsr 0x3FFFFFFF)) word
    ∙ kept-or 30 c.apsr (fb / 64) (omega arith) (omega arith) (omega arith) (omega arith)
    ∙ ap (λ (k : ℕ). c.apsr % 2 ^ 30 + k * 2 ^ 30) top
    ∙ rw (hs, hz) (sym (cpu_set_flags_nz-sum c r))

-- The word with all four flags.
four_word :
    (s : Bool) (c : Cpu) (x : Machine) (carry : Bool)
    → carry ≡ (if s then not x.cf else x.cf)
    → bit_or (bit_and c.apsr 0x0FFFFFFF) (packed s (flag_byte x) (of_bool x.of))
      ≡ flagged c.apsr x.sf x.zf carry x.of
four_word s c x carry hc =
    let fb = flag_byte x in
    let v = of_bool x.of in
    let (small, top, low) = byte_parts x in
    let digit : v < 2 = ground arith in
    let size : four s fb v < 16 = ground (arith, small, digit) in
    let parts : four s fb v ≡ of_bool x.sf * 8 + of_bool x.zf * 4 + of_bool carry * 2 + v =
      ground (arith, top, low, hc) in
    ap (bit_or (bit_and c.apsr 0x0FFFFFFF)) (packed-four s fb v small digit)
    ∙ kept-or 28 c.apsr (four s fb v) (omega (arith, size)) (omega arith) (omega arith)
        (omega arith)
    ∙ ap (λ (k : ℕ). c.apsr % 2 ^ 28 + k * 2 ^ 28) parts

-- The flags of `r` with a carry and an overflow.
pub sum_word :
    (c : Cpu) (x : Machine) (a b : ℕ)
    → IsU32 a
    → IsU32 b
    → x.sf ≡ negative (add32 a b)
    → x.zf ≡ (add32 a b == 0)
    → x.cf ≡ leb (2 ^ 32) (a + b)
    → x.of ≡ sum_overflows a b
    → bit_or (bit_and c.apsr 0x0FFFFFFF) (packed false (flag_byte x) (of_bool x.of))
      ≡ (cpu_set_flags_nzcv_add c a b (add32 a b) false).apsr
sum_word c x a b ha hb hs hz hc ho =
    four_word false c x x.cf refl
    ∙ rw (hs, hz, hc, ho) (sym (cpu_set_flags_nzcv_add-sum c a b ha hb))

pub difference_word :
    (c : Cpu) (x : Machine) (a b : ℕ)
    → IsU32 a
    → IsU32 b
    → x.sf ≡ negative (sub32 a b)
    → x.zf ≡ (sub32 a b == 0)
    → x.cf ≡ ltb a b
    → x.of ≡ difference_overflows a b
    → bit_or (bit_and c.apsr 0x0FFFFFFF) (packed true (flag_byte x) (of_bool x.of))
      ≡ (cpu_set_flags_nzcv_sub c a b (sub32 a b)).apsr
difference_word c x a b ha hb hs hz hc ho =
    let borrow : leb b a ≡ not x.cf = rw hc (ground arith) in
    four_word true c x (leb b a) borrow
    ∙ rw (hs, hz, ho) (sym (cpu_set_flags_nzcv_sub-sum c a b ha hb))
