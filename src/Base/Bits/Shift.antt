-- ===== src/Base/Bits/Shift.antt =====
-- Digits of shifted words and of masks.
use Prim.Native.Nat.{ℕ, zero, suc, ◌+◌, ◌-◌, ◌*◌, ◌/◌, ◌%◌, ◌^◌, ◌≤◌, ◌<◌, bit_or, bit_xor}
use mathlib.Core.Path.{◌≡◌, ap, ap₂, ◌∙◌, sym}
use native.Mathlib.Nat.{
  div-add-mod', div-div-eq-div-mul, div-eq_of_lt, mul_left_comm, pow-le-pow_right,
}
use native.Mathlib.Omega.{arith}
use lecerf.Base.Bits.Step.{bit_or_step, bit_xor_step, bit, bit-suc}
use lecerf.Base.Bits.Laws.{
  bit_or_zero, bit-bit_and, bit_and_mask, bit-complement, bit-zero, two_pow_suc, two_pow_pos,
  bit-lt,
}

-- `x >> j`.
pub bit-shift_right : (j k x : ℕ) → bit (x / 2 ^ j) k ≡ bit x (k + j)
bit-shift_right zero k x = ap (λ (t : ℕ). bit t k) (omega arith) ∙ ap (bit x) (omega arith)
bit-shift_right (suc j) k x =
    let halves : x / 2 ^ suc j ≡ x / 2 / 2 ^ j =
      ap (λ (t : ℕ). x / t) (two_pow_suc j) ∙ sym (div-div-eq-div-mul x 2 (2 ^ j)) in
    let index : k + suc j ≡ suc (k + j) = omega arith in
    rw (halves, index, bit-suc x (k + j)) (bit-shift_right j k (x / 2))

pub mul-two_pow_suc : (x j : ℕ) → x * 2 ^ suc j ≡ 2 * (x * 2 ^ j)
mul-two_pow_suc x j =
    omega (arith, ap (λ (t : ℕ). x * t) (two_pow_suc j), mul_left_comm x 2 (2 ^ j))

bit-double : (y k : ℕ) → bit (2 * y) (suc k) ≡ bit y k
bit-double y k = bit-suc (2 * y) k ∙ ap (λ (t : ℕ). bit t k) (omega arith)

-- `x << j`, before it is cut.
pub bit-shift_left_low : (j k x : ℕ) → k < j → bit (x * 2 ^ j) k ≡ 0
bit-shift_left_low zero k x h = absurd (omega arith)
bit-shift_left_low (suc j) zero x h = rw (mul-two_pow_suc x j) (omega arith)
bit-shift_left_low (suc j) (suc k) x h =
    rw (mul-two_pow_suc x j) (bit-double (x * 2 ^ j) k ∙ bit-shift_left_low j k x (omega arith))

pub bit-shift_left : (j k x : ℕ) → bit (x * 2 ^ j) (k + j) ≡ bit x k
bit-shift_left zero k x = ap (λ (t : ℕ). bit t (k + 0)) (omega arith) ∙ ap (bit x) (omega arith)
bit-shift_left (suc j) k x =
    let index : k + suc j ≡ suc (k + j) = omega arith in
    rw (mul-two_pow_suc x j, index) (bit-double (x * 2 ^ j) (k + j) ∙ bit-shift_left j k x)

-- A word has no digits above its width.
pub bit_above : (n k x : ℕ) → x < 2 ^ n → n ≤ k → bit x k ≡ 0
bit_above n k x h hk =
    ap (λ (t : ℕ). t % 2) (div-eq_of_lt (omega (arith, pow-le-pow_right {n = 2} (omega arith) hk)))

pub bit-mask_in : (w k : ℕ) → k < w → bit (2 ^ w - 1) k ≡ 1
bit-mask_in w k h =
    let same : 2 ^ w - 1 ≡ 2 ^ w - 1 - 0 = omega arith in
    ap (λ (t : ℕ). bit t k) same ∙ omega (arith, bit-complement w k 0 (two_pow_pos w) h, bit-zero k)

pub bit-mod_in : (n k x : ℕ) → k < n → bit (x % 2 ^ n) k ≡ bit x k
bit-mod_in n k x h =
    rw (← bit_and_mask n x)
      (omega (arith, bit-bit_and k x (2 ^ n - 1), bit-mask_in n k h, bit-lt x k))

-- `hi | lo` of disjoint words.
pub bit_or-add : (n a b : ℕ) → b < 2 ^ n → bit_or (a * 2 ^ n) b ≡ a * 2 ^ n + b
bit_or-add zero a b h =
    let none : b ≡ 0 = omega arith in ap (bit_or (a * 1)) none ∙ bit_or_zero (a * 1) ∙ omega arith
bit_or-add (suc n) a b h =
    let half : a * 2 ^ suc n / 2 ≡ a * 2 ^ n = omega (arith, mul-two_pow_suc a n) in
    let even : a * 2 ^ suc n % 2 ≡ 0 = omega (arith, mul-two_pow_suc a n) in
    omega (
      arith,
      bit_or_step (a * 2 ^ suc n) b,
      ap (λ (t : ℕ). bit_or t (b / 2)) half,
      bit_or-add n a (b / 2) (omega (arith, two_pow_suc n)),
      mul-two_pow_suc a n,
      even,
    )

pub bit_or-join : (n x b : ℕ) → x % 2 ^ n ≡ 0 → b < 2 ^ n → bit_or x b ≡ x + b
bit_or-join n x b hx hb =
    let whole : x ≡ x / 2 ^ n * 2 ^ n = omega (arith, div-add-mod' x (2 ^ n)) in
    ap (λ (t : ℕ). bit_or t b) whole
    ∙ bit_or-add n (x / 2 ^ n) b hb
    ∙ ap (λ (t : ℕ). t + b) (sym whole)

-- `x ^ y` where `y` has no digits below `n`.
pub bit_xor-add :
    (n a b c : ℕ) → b < 2 ^ n → bit_xor (a * 2 ^ n + b) (c * 2 ^ n) ≡ bit_xor a c * 2 ^ n + b
bit_xor-add zero a b c h =
    let left : a * 1 + b ≡ a = omega arith in
    let right : c * 1 ≡ c = omega arith in rw (left, right) (omega arith)
bit_xor-add (suc n) a b c h =
    let half : (a * 2 ^ suc n + b) / 2 ≡ a * 2 ^ n + b / 2 = omega (arith, mul-two_pow_suc a n) in
    let half' : c * 2 ^ suc n / 2 ≡ c * 2 ^ n = omega (arith, mul-two_pow_suc c n) in
    omega (
      arith,
      bit_xor_step (a * 2 ^ suc n + b) (c * 2 ^ suc n),
      ap₂ bit_xor half half',
      bit_xor-add n a (b / 2) c (omega (arith, two_pow_suc n)),
      mul-two_pow_suc a n,
      mul-two_pow_suc c n,
      mul-two_pow_suc (bit_xor a c) n,
    )
