-- ===== src/Base/Bits/Laws.antt =====
-- The digits of `&`, `|`, `^` and `~`, of powers of two and of sums of fields; two words with the
-- same digits are equal.
use Prim.Native.Nat.{ℕ, zero, suc, ◌+◌, ◌-◌, ◌*◌, ◌/◌, ◌%◌, ◌^◌, ◌≤◌, ◌<◌, min, max}
use Prim.Native.Nat.{bit_and, bit_or, bit_xor, bit_and-bitwise, bit_or-bitwise}
use Prim.Native.Nat.{bit_xor-bitwise}
use mathlib.Core.Bool.{Bool, true, false, not}
use mathlib.Core.Path.{◌≡◌, refl, ap, ◌∙◌, sym}
use mathlib.Core.Logic.{◌≢◌}
use native.Mathlib.Nat.{pow-suc, one-le-pow, div-add-mod, div-div-eq-div-mul, mul-mod_left}
use native.Mathlib.Omega.{arith}
use lecerf.Base.Tests.{◌==◌, if◌then◌else◌}
use lecerf.Base.Word.{has, set_if}
use lecerf.Base.Bits.Step.{bit, bit-suc, bit_and_step, bit_or_step, bit_xor_step}

pub bit-bit_and : (k a b : ℕ) → bit (bit_and a b) k ≡ min (bit a k) (bit b k)
bit-bit_and zero a b = omega (arith, bit_and_step a b)
bit-bit_and (suc k) a b =
    rw (bit-suc (bit_and a b), bit-suc a, bit-suc b, ← bit-bit_and k (a / 2) (b / 2))
      (ap (λ (t : ℕ). bit t k) (omega (arith, bit_and_step a b)))

pub bit-bit_or : (k a b : ℕ) → bit (bit_or a b) k ≡ max (bit a k) (bit b k)
bit-bit_or zero a b = omega (arith, bit_or_step a b)
bit-bit_or (suc k) a b =
    rw (bit-suc (bit_or a b), bit-suc a, bit-suc b, ← bit-bit_or k (a / 2) (b / 2))
      (ap (λ (t : ℕ). bit t k) (omega (arith, bit_or_step a b)))

pub bit-bit_xor : (k a b : ℕ) → bit (bit_xor a b) k ≡ (bit a k + bit b k) % 2
bit-bit_xor zero a b = omega (arith, bit_xor_step a b)
bit-bit_xor (suc k) a b =
    rw (bit-suc (bit_xor a b), bit-suc a, bit-suc b, ← bit-bit_xor k (a / 2) (b / 2))
      (ap (λ (t : ℕ). bit t k) (omega (arith, bit_xor_step a b)))

pub two_pow_suc : (k : ℕ) → 2 ^ suc k ≡ 2 * 2 ^ k
two_pow_suc k = rw (pow-suc 2 k) (omega arith)

mod-two_mul : (a m : ℕ) → a % (2 * m) ≡ a / 2 % m * 2 + a % 2
mod-two_mul a m = omega (
  arith,
  div-add-mod a (2 * m),
  div-add-mod (a / 2) m,
  ap (λ (t : ℕ). 2 * m * t) (div-div-eq-div-mul a 2 m),
)

pub mod-two_pow_suc : (a k : ℕ) → a % 2 ^ suc k ≡ a / 2 % 2 ^ k * 2 + a % 2
mod-two_pow_suc a k = rw (two_pow_suc k) (mod-two_mul a (2 ^ k))

pub two_pow_pos : (k : ℕ) → 1 ≤ 2 ^ k
two_pow_pos k = one-le-pow k 2 (omega arith)

-- `~x` of a word of `n` bits.
pub bit-complement : (n k x : ℕ) → x < 2 ^ n → k < n → bit (2 ^ n - 1 - x) k ≡ 1 - bit x k
bit-complement zero k x h hk = absurd (omega arith)
bit-complement (suc n) zero x h hk = omega (arith, two_pow_suc n)
bit-complement (suc n) (suc k) x h hk =
    rw
      (
        bit-suc (2 ^ suc n - 1 - x),
        bit-suc x,
        ← bit-complement n k (x / 2) (omega (arith, two_pow_suc n)) (omega arith),
      )
      (ap (λ (t : ℕ). bit t k) (omega (arith, two_pow_suc n)))

pub bit-zero : (k : ℕ) → bit 0 k ≡ 0
bit-zero zero = refl
bit-zero (suc k) = rw bit-suc (bit-zero k)

pub bit-one_suc : (k : ℕ) → bit 1 (suc k) ≡ 0
bit-one_suc k = rw bit-suc (bit-zero k)

pub bit-two_pow_self : (j : ℕ) → bit (2 ^ j) j ≡ 1
bit-two_pow_self zero = refl
bit-two_pow_self (suc j) =
    rw bit-suc (ap (λ (t : ℕ). bit t j) (omega (arith, two_pow_suc j)) ∙ bit-two_pow_self j)

pub bit-two_pow_ne : (j k : ℕ) → j ≢ k → bit (2 ^ j) k ≡ 0
bit-two_pow_ne zero zero h = absurd (h refl)
bit-two_pow_ne zero (suc k) h = bit-one_suc k
bit-two_pow_ne (suc j) zero h = omega (arith, two_pow_suc j)
bit-two_pow_ne (suc j) (suc k) h = rw bit-suc (
    ap (λ (t : ℕ). bit t k) (omega (arith, two_pow_suc j)) ∙ bit-two_pow_ne j k (λ e. h (ap suc e)))

pub bit-lt : (x k : ℕ) → bit x k < 2
bit-lt x k = omega arith

bit_and_zero_fuel : (n a : ℕ) → a ≤ n → bit_and a 0 ≡ 0
bit_and_zero_fuel n zero h = bit_and-bitwise 0 0
bit_and_zero_fuel zero (suc a) h = absurd (omega arith)
bit_and_zero_fuel (suc n) (suc a) h =
    omega (arith, bit_and_step (suc a) 0, bit_and_zero_fuel n (suc a / 2) (omega arith))

pub bit_and_zero : (a : ℕ) → bit_and a 0 ≡ 0
bit_and_zero a = bit_and_zero_fuel a a (omega arith)

-- `x & (1 << k)`.
pub bit_and-two_pow : (k x : ℕ) → bit_and x (2 ^ k) ≡ bit x k * 2 ^ k
bit_and-two_pow zero x = omega (arith, bit_and_step x 1, bit_and_zero (x / 2))
bit_and-two_pow (suc k) x = rw (bit-suc x k) (
    omega (
      arith,
      bit_and_step x (2 ^ suc k),
      ap (λ (t : ℕ). bit_and (x / 2) t) half_pow,
      bit_and-two_pow k (x / 2),
      ap (λ (t : ℕ). bit (x / 2) k * t) (two_pow_suc k),
      two_pow_suc k,
    ))
  where
    half_pow : 2 ^ suc k / 2 ≡ 2 ^ k
    half_pow = omega (arith, two_pow_suc k)

-- `x & ((1 << k) - 1)`.
pub bit_and_mask : (k a : ℕ) → bit_and a (2 ^ k - 1) ≡ a % 2 ^ k
bit_and_mask zero a = rw (bit_and_zero a) (omega arith)
bit_and_mask (suc k) a = omega (
  arith,
  bit_and_step a (2 ^ suc k - 1),
  ap (λ (t : ℕ). bit_and (a / 2) t) half_mask,
  bit_and_mask k (a / 2),
  two_pow_suc k,
  two_pow_pos k,
  mod-two_pow_suc a k,
)
  where
    half_mask : (2 ^ suc k - 1) / 2 ≡ 2 ^ k - 1
    half_mask = omega (arith, two_pow_suc k, two_pow_pos k)

pub bit_ext : (n a b : ℕ) → a < 2 ^ n → b < 2 ^ n → ((k : ℕ) → k < n → bit a k ≡ bit b k) → a ≡ b
bit_ext zero a b ha hb h = omega arith
bit_ext (suc n) a b ha hb h = omega (
  arith,
  h 0 (omega arith),
  bit_ext n (a / 2) (b / 2) (omega (arith, two_pow_suc n)) (omega (arith, two_pow_suc n))
      (λ k hk. sym (bit-suc a k) ∙ h (suc k) (omega arith) ∙ bit-suc b k),
)

pub bit_or-lt : (n a b : ℕ) → a < 2 ^ n → b < 2 ^ n → bit_or a b < 2 ^ n
bit_or-lt zero a b ha hb = omega (arith, zero_or)
  where
    zero_or : bit_or a b ≡ 0
    zero_or =
        let a_zero : a ≡ 0 = omega arith in
        let b_zero : b ≡ 0 = omega arith in rw (a_zero, b_zero) (bit_or-bitwise 0 0)
bit_or-lt (suc n) a b ha hb = omega (
  arith,
  two_pow_suc n,
  bit_or_step a b,
  bit_or-lt n (a / 2) (b / 2) (omega (arith, two_pow_suc n)) (omega (arith, two_pow_suc n)),
)

bit_and-le_fuel : (n a b : ℕ) → a ≤ n → bit_and a b ≤ a
bit_and-le_fuel n zero b h = omega (arith, bit_and-bitwise 0 b)
bit_and-le_fuel zero (suc a) b h = absurd (omega arith)
bit_and-le_fuel (suc n) (suc a) b h =
    omega (arith, bit_and_step (suc a) b, bit_and-le_fuel n (suc a / 2) (b / 2) (omega arith))

pub bit_and-le : (a b : ℕ) → bit_and a b ≤ a
bit_and-le a b = bit_and-le_fuel a a b (omega arith)

pub bit_xor-lt : (n a b : ℕ) → a < 2 ^ n → b < 2 ^ n → bit_xor a b < 2 ^ n
bit_xor-lt zero a b ha hb = omega (arith, zero_xor)
  where
    zero_xor : bit_xor a b ≡ 0
    zero_xor =
        let a_zero : a ≡ 0 = omega arith in
        let b_zero : b ≡ 0 = omega arith in rw (a_zero, b_zero) (bit_xor-bitwise 0 0)
bit_xor-lt (suc n) a b ha hb = omega (
  arith,
  two_pow_suc n,
  bit_xor_step a b,
  bit_xor-lt n (a / 2) (b / 2) (omega (arith, two_pow_suc n)) (omega (arith, two_pow_suc n)),
)

-- `(x & (1 << k)) != 0` tests digit `k`.
pub has-two_pow : (k x : ℕ) → has x (2 ^ k) ≡ (bit x k == 1)
has-two_pow k x = rw (bit_and-two_pow k x) (of_digit (bit x k) (two_pow_pos k) (bit-lt x k))
  where
    of_digit : (d : ℕ) → 1 ≤ 2 ^ k → d < 2 → not (d * 2 ^ k == 0) ≡ (d == 1)
    of_digit zero p h = ground arith
    of_digit (suc zero) p h = ground arith
    of_digit (suc (suc d)) p h = absurd (omega arith)

pub bit-set_if :
    (k f mask : ℕ) (t : Bool)
    → bit (set_if t mask f) k ≡ max (bit f k) (if t then bit mask k else 0)
bit-set_if k f mask true = bit-bit_or k f mask
bit-set_if k f mask false = omega arith

pub set_if-lt : (n f mask : ℕ) (t : Bool) → f < 2 ^ n → mask < 2 ^ n → set_if t mask f < 2 ^ n
set_if-lt n f mask true hf hm = bit_or-lt n f mask hf hm
set_if-lt n f mask false hf hm = hf

pub bit_or_zero : (a : ℕ) → bit_or a 0 ≡ a
bit_or_zero a = or_zero a a (omega arith)
  where
    or_zero : (n x : ℕ) → x ≤ n → bit_or x 0 ≡ x
    or_zero n zero h = bit_or-bitwise 0 0
    or_zero zero (suc x) h = absurd (omega arith)
    or_zero (suc n) (suc x) h =
        omega (arith, bit_or_step (suc x) 0, or_zero n (suc x / 2) (omega arith))

mod-bit_or : (k a b : ℕ) → bit_or a b % 2 ^ k ≡ bit_or (a % 2 ^ k) (b % 2 ^ k)
mod-bit_or zero a b = omega (arith, ones)
  where
    ones : bit_or (a % 1) (b % 1) ≡ 0
    ones =
        let a_zero : a % 1 ≡ 0 = omega arith in
        let b_zero : b % 1 ≡ 0 = omega arith in rw (a_zero, b_zero) (bit_or-bitwise 0 0)
mod-bit_or (suc k) a b = omega (
  arith,
  mod-two_pow_suc (bit_or a b) k,
  ap (λ (t : ℕ). t % 2 ^ k) half,
  bit_or_step a b,
  mod-bit_or k (a / 2) (b / 2),
  bit_or_step (a % 2 ^ suc k) (b % 2 ^ suc k),
  ap (λ (t : ℕ). bit_or t (b % 2 ^ suc k / 2)) half_a,
  ap (λ (t : ℕ). bit_or (a / 2 % 2 ^ k) t) half_b,
  mod-two_pow_suc a k,
  mod-two_pow_suc b k,
)
  where
    half : bit_or a b / 2 ≡ bit_or (a / 2) (b / 2)
    half = omega (arith, bit_or_step a b)

    half_a : a % 2 ^ suc k / 2 ≡ a / 2 % 2 ^ k
    half_a = omega (arith, mod-two_pow_suc a k)

    half_b : b % 2 ^ suc k / 2 ≡ b / 2 % 2 ^ k
    half_b = omega (arith, mod-two_pow_suc b k)

-- `f |= mask` leaves the digits below the mask alone.
pub mod-set_if : (k f m : ℕ) (t : Bool) → set_if t (m * 2 ^ k) f % 2 ^ k ≡ f % 2 ^ k
mod-set_if k f m true =
    rw (mod-bit_or k f (m * 2 ^ k), mul-mod_left m (2 ^ k), bit_or_zero (f % 2 ^ k))
mod-set_if k f m false = refl
