-- ===== src/Base/Bits/Step.antt =====
-- The native operations are a recursion on binary digits with fuel; one equation for the lowest
-- digit drops the fuel.
use Prim.Native.Nat.{
  ℕ, zero, suc, ◌+◌, ◌-◌, ◌*◌, ◌/◌, ◌%◌, ◌^◌, ◌≤◌, ◌<◌, min, max, digits, bitwise,
}
use Prim.Native.Nat.{
  bit_and, bit_or, bit_xor, bit_and-bitwise, bit_or-bitwise, bit_xor-bitwise, differ,
}
use mathlib.Core.Path.{◌≡◌, refl, ap, ◌∙◌, sym}
use native.Mathlib.Nat.{pow-suc, div-div-eq-div-mul}
use native.Mathlib.Omega.{arith}

-- The digit of weight `2 ^ k`.
abbrev pub bit : ℕ → ℕ → ℕ
bit x k = x / 2 ^ k % 2

pub bit-suc : (x k : ℕ) → bit x (suc k) ≡ bit (x / 2) k
bit-suc x k =
    ap (λ (t : ℕ). t % 2)
      (ap (λ (t : ℕ). x / t) (rw (pow-suc 2 k) (omega arith))
        ∙ sym (div-div-eq-div-mul x 2 (2 ^ k)))

module _ (z : ℕ → ℕ) (f : ℕ → ℕ → ℕ) where
  -- One more unit of fuel than the first operand needs changes nothing.
  one_more : (b a n : ℕ) → a < suc n → digits z f (suc n) a b ≡ digits z f n a b
  one_more b zero zero h = refl
  one_more b zero (suc n) h = refl
  one_more b (suc a) zero h = absurd (omega arith)
  one_more b (suc a) (suc n) h = rw (one_more (b / 2) (suc a / 2) n (omega arith))

  -- So does any number of them.
  some_more : (k b a n : ℕ) → a ≤ n → digits z f (k + n) a b ≡ digits z f n a b
  some_more zero b a n h = ap (λ (t : ℕ). digits z f t a b) (omega arith)
  some_more (suc k) b a n h =
      let next : suc k + n ≡ suc (k + n) = omega arith in
      ap (λ (t : ℕ). digits z f t a b) next
      ∙ one_more b a (k + n) (omega arith)
      ∙ some_more k b a n h

  lowest_digit :
      (a b : ℕ)
      → bitwise z f (suc a) b ≡ f (suc a % 2) (b % 2) + 2 * bitwise z f (suc a / 2) (b / 2)
  lowest_digit a b =
      let h = suc a / 2 in
      let split : a ≡ a - h + h = omega arith in
      let drop : digits z f a h (b / 2) ≡ digits z f h h (b / 2) =
        ap (λ (t : ℕ). digits z f t h (b / 2)) split
        ∙ some_more (a - h) (b / 2) h h (omega arith) in
      omega (arith, drop)

pub bit_and_step : (a b : ℕ) → bit_and a b ≡ min (a % 2) (b % 2) + 2 * bit_and (a / 2) (b / 2)
bit_and_step zero b = simp bit_and-bitwise (omega arith)
bit_and_step (suc a) b = simp bit_and-bitwise (lowest_digit (λ y. 0) min a b)

pub bit_or_step : (a b : ℕ) → bit_or a b ≡ max (a % 2) (b % 2) + 2 * bit_or (a / 2) (b / 2)
bit_or_step zero b = simp bit_or-bitwise (omega arith)
bit_or_step (suc a) b = simp bit_or-bitwise (lowest_digit (λ y. y) max a b)

differ_digits : (x y : ℕ) → differ (x % 2) (y % 2) ≡ (x % 2 + y % 2) % 2
differ_digits x y = of_digits (x % 2) (y % 2) (omega arith) (omega arith)
  where
    of_digits : (p q : ℕ) → p < 2 → q < 2 → differ p q ≡ (p + q) % 2
    of_digits zero zero hp hq = refl
    of_digits zero (suc zero) hp hq = refl
    of_digits zero (suc (suc q)) hp hq = absurd (omega arith)
    of_digits (suc zero) zero hp hq = refl
    of_digits (suc zero) (suc zero) hp hq = refl
    of_digits (suc zero) (suc (suc q)) hp hq = absurd (omega arith)
    of_digits (suc (suc p)) q hp hq = absurd (omega arith)

pub bit_xor_step : (a b : ℕ) → bit_xor a b ≡ (a % 2 + b % 2) % 2 + 2 * bit_xor (a / 2) (b / 2)
bit_xor_step zero b = simp bit_xor-bitwise (omega arith)
bit_xor_step (suc a) b = simp bit_xor-bitwise (
    lowest_digit (λ y. y) differ a b
    ∙ ap (λ (t : ℕ). t + 2 * bitwise (λ y. y) differ (suc a / 2) (b / 2)) (differ_digits (suc a) b))
