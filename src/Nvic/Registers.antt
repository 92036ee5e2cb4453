-- ===== src/Nvic/Registers.antt =====
-- What the operations on one line do to the digits of the three arrays.
use lecerf.Base.{
  ℕ, zero, suc, ◌-◌, ◌/◌, ◌%◌, ◌^◌, ◌<◌, min, bit_and, ◌==◌, if◌then◌else◌, not32, ◌≡◌, refl, sym,
  ◌∙◌, arith, ==_of_ne, ==_refl, ltb_of_lt, IsU32,
}
use lecerf.Base.Bits.{
  bit, bit-bit_and, bit-bit_or, bit-complement, bit-two_pow_self, bit-two_pow_ne, bit_and_mask,
  bit-lt, two_pow_pos, two_pow_suc, bit_or-lt,
}
use native.Mathlib.Decide.{ℕ_discrete}
use lecerf.Nvic.{
  Nvic, or_word, clear_word, line_word, line_mask, ready_word, nvic_set_pending, nvic_clear_pending,
  nvic_set_active,
}

-- Digit `j` of an array of words.
abbrev line : (ℕ → ℕ) → ℕ → ℕ
line f j = bit (f (j / 32)) (j % 32)

mask_31 : (irq : ℕ) → bit_and irq 31 ≡ irq % 32
mask_31 irq = bit_and_mask 5 irq

two_pow_lt : (k n : ℕ) → k < n → 2 ^ k < 2 ^ n
two_pow_lt k zero h = absurd (omega arith)
two_pow_lt zero (suc n) h = omega (arith, two_pow_suc n, two_pow_pos n)
two_pow_lt (suc k) (suc n) h =
    omega (arith, two_pow_suc n, two_pow_suc k, two_pow_lt k n (omega arith))

line_mask-lt : (irq : ℕ) → line_mask irq < 2 ^ 32
line_mask-lt irq = rw (mask_31 irq) (two_pow_lt (irq % 32) 32 (omega arith))

-- The mask of a line, digit by digit.
bit-line_mask : (irq k : ℕ) → bit (line_mask irq) k ≡ (if k == irq % 32 then 1 else 0)
bit-line_mask irq k = rw (mask_31 irq) (elim (ℕ_discrete k (irq % 32)) [
  | yes e ↦ rw e (ground (arith, bit-two_pow_self (irq % 32)))
  | no ne ↦ rw (==_of_ne k (irq % 32) ne) (bit-two_pow_ne (irq % 32) k (λ e. ne (sym e)))
])

line-or_word :
    (f : ℕ → ℕ) (irq j : ℕ)
    → line (or_word f (line_word irq) (line_mask irq)) j ≡ (if j == irq then 1 else line f j)
line-or_word f irq j = ground (
  arith,
  bit-bit_or (j % 32) (f (irq / 32)) (line_mask irq),
  bit-line_mask irq (j % 32),
  bit-lt (f (j / 32)) (j % 32),
)

line-clear_word :
    (f : ℕ → ℕ) (irq j : ℕ)
    → line (clear_word f (line_word irq) (line_mask irq)) j ≡ (if j == irq then 0 else line f j)
line-clear_word f irq j = ground (
  arith,
  bit-bit_and (j % 32) (f (irq / 32)) (not32 (line_mask irq)),
  bit-complement 32 (j % 32) (line_mask irq),
  bit-line_mask irq (j % 32),
  bit-lt (f (j / 32)) (j % 32),
  line_mask-lt irq,
)

-- `nvic_set_pending` marks a line of the controller pending and no other line, and changes neither
-- the other arrays nor the priorities.
nvic_set_pending_lem :
    (n : Nvic) (irq j : ℕ)
    → irq < 240
    → let n' = nvic_set_pending irq n in
      (line n'.pending j ≡ (if j == irq then 1 else line n.pending j))
      × (n'.enable ≡ n.enable)
      × (n'.active ≡ n.active)
      × (n'.prio ≡ n.prio)
unfolding nvic_set_pending
nvic_set_pending_lem n irq j h =
    rw (ltb_of_lt irq 240 h) (line-or_word n.pending irq j, refl, refl, refl)

-- The two calls with which the run loop takes a line.
abbrev taken : ℕ → Nvic → Nvic
taken irq n = nvic_set_active irq (nvic_clear_pending irq n)

-- The digit of `ready_word`, from the digits of the three arrays.
line-ready_word :
    (n : Nvic) (j : ℕ)
    → IsU32 (n.active (j / 32))
    → line (ready_word n) j ≡ min (min (line n.enable j) (line n.pending j)) (1 - line n.active j)
unfolding ready_word
line-ready_word n j h = omega (
  arith,
  bit-bit_and (j % 32) (bit_and (n.enable (j / 32)) (n.pending (j / 32)))
      (not32 (n.active (j / 32))),
  bit-bit_and (j % 32) (n.enable (j / 32)) (n.pending (j / 32)),
  bit-complement 32 (j % 32) (n.active (j / 32)) h (omega arith),
)

taken_arrays :
    (n : Nvic) (irq j : ℕ)
    → irq < 240
    → (line (taken irq n).enable j ≡ line n.enable j)
      × (line (taken irq n).pending j ≡ (if j == irq then 0 else line n.pending j))
      × (line (taken irq n).active j ≡ (if j == irq then 1 else line n.active j))
unfolding nvic_set_active nvic_clear_pending
taken_arrays n irq j h =
    rw (ltb_of_lt irq 240 h) (refl, line-clear_word n.pending irq j, line-or_word n.active irq j)

or_word-IsU32 :
    (f : ℕ → ℕ) (irq w : ℕ) → IsU32 (f w) → IsU32 (or_word f (line_word irq) (line_mask irq) w)
or_word-IsU32 f irq w h = elim (ℕ_discrete w (irq / 32)) [
  | yes e ↦
      rw (e, ==_refl (irq / 32))
        (bit_or-lt 32 (f (irq / 32)) (line_mask irq) (rw e at h) (line_mask-lt irq))
  | no ne ↦ rw (==_of_ne w (irq / 32) ne) h
]

taken-IsU32 :
    (n : Nvic) (irq w : ℕ) → irq < 240 → IsU32 (n.active w) → IsU32 ((taken irq n).active w)
unfolding nvic_set_active nvic_clear_pending
taken-IsU32 n irq w h hw = rw (ltb_of_lt irq 240 h) (or_word-IsU32 n.active irq w hw)

-- After the run loop has taken a line (cleared it as pending and set it active), that line is not
-- ready, and every other line is as ready as before.
taken-ready :
    (n : Nvic) (irq j : ℕ)
    → irq < 240
    → IsU32 (n.active (j / 32))
    → line (ready_word (taken irq n)) j ≡ (if j == irq then 0 else line (ready_word n) j)
taken-ready n irq j h hw =
    line-ready_word (taken irq n) j (taken-IsU32 n irq (j / 32) h hw)
    ∙ ground (arith, taken_arrays n irq j h, line-ready_word n j hw)
