-- ===== src/Nvic/Pick.antt =====
-- `nvic_pick` against a scan of the lines in order.
use lecerf.Base.{
  ℕ, zero, suc, ◌+◌, ◌-◌, ◌*◌, ◌/◌, ◌%◌, ◌^◌, ◌≤◌, ◌<◌, bit_and, Bool, ◌==◌, if◌then◌else◌, Option,
  some, ◌≡◌, ◌≢◌, refl, ap, ap₂, ◌∙◌, arith, ◌>>=◌, fun_ext, ==_of_ne,
}
use lecerf.Base.Bits.{bit_and_step, two_pow_suc, two_pow_pos}
use native.Mathlib.Decide.{ℕ_discrete}
use lecerf.Nvic.{Nvic, Best, ctz, consider, pick_bits}

-- `y & (y - 1)` of a number whose lowest set digit has the weight `2 ^ b`.
bit_and_self : (n a : ℕ) → a ≤ n → bit_and a a ≡ a
bit_and_self n zero h = refl
bit_and_self zero (suc a) h = absurd (omega arith)
bit_and_self (suc n) (suc a) h =
    omega (arith, bit_and_step (suc a) (suc a), bit_and_self n (suc a / 2) (omega arith))

-- A factor 2 out of `c * 2 ^ suc b`.
double : (c b : ℕ) → c * 2 ^ suc b ≡ 2 * (c * 2 ^ b)
double c b = omega (arith, ap (λ (t : ℕ). c * t) (two_pow_suc b))

drop_lowest : (b x : ℕ) → bit_and ((2 * x + 1) * 2 ^ b) ((2 * x + 1) * 2 ^ b - 1) ≡ 2 * x * 2 ^ b
drop_lowest zero x =
    let low : (2 * x + 1) * 1 ≡ 2 * x + 1 = omega arith in
    let less : 2 * x + 1 - 1 ≡ 2 * x = omega arith in
    rw (low, less)
      (omega (
        arith,
        bit_and_step (2 * x + 1) (2 * x),
        ap₂ bit_and halves_odd halves_even ∙ bit_and_self x x (omega arith),
      ))
  where
    halves_odd : (2 * x + 1) / 2 ≡ x
    halves_odd = omega arith

    halves_even : 2 * x / 2 ≡ x
    halves_even = omega arith
drop_lowest (suc b) x =
    let y = (2 * x + 1) * 2 ^ b in
    let y' = (2 * x + 1) * 2 ^ suc b in
    let e : y' ≡ 2 * y = double (2 * x + 1) b in
    let pos : 1 ≤ y = grind (arith, two_pow_pos b) in
    let half : y' / 2 ≡ y = omega (arith, e) in
    let half_less : (y' - 1) / 2 ≡ y - 1 = omega (arith, e, pos) in
    omega (
      arith,
      bit_and_step y' (y' - 1),
      ap₂ bit_and half half_less,
      drop_lowest b x,
      double (2 * x) b,
      e,
      pos,
    )

ctz_lem : (b fuel x : ℕ) → b ≤ fuel → ctz fuel ((2 * x + 1) * 2 ^ b) ≡ b
unfolding ctz
ctz_lem zero zero x h = refl
ctz_lem zero (suc fuel) x h = ground arith
ctz_lem (suc b) zero x h = absurd (omega arith)
ctz_lem (suc b) (suc fuel) x h =
    let half : (2 * x + 1) * 2 ^ suc b / 2 ≡ (2 * x + 1) * 2 ^ b =
      omega (arith, double (2 * x + 1) b) in
    let even : (2 * x + 1) * 2 ^ suc b % 2 ≡ 0 = omega (arith, double (2 * x + 1) b) in
    rw (half, even) (ap suc (ctz_lem b fuel x (omega arith)))

-- A line is considered if its digit is set.
unfoldable pub consider_if : Bool → Nvic → ℕ → Best → Option Best
consider_if t n irq best = if t then consider n irq best else some best

-- The lines of word `w` from digit `b` on, each tested in turn.
unfoldable pub scan_word : ℕ → Nvic → ℕ → ℕ → ℕ → Best → Option Best
scan_word zero n w b x best = some best
scan_word (suc left) n w b x best =
    consider_if (x % 2 == 1) n (w * 32 + b) best >>= scan_word left n w (b + 1) (x / 2)

pick_bits-zero : (fuel : ℕ) (n : Nvic) (w : ℕ) (best : Best) → pick_bits fuel n w 0 best ≡ some best
unfolding pick_bits
pick_bits-zero zero n w best = refl
pick_bits-zero (suc fuel) n w best = refl

pick_bits-suc :
    (fuel : ℕ) (n : Nvic) (w ready : ℕ) (best : Best)
    → ready ≢ 0
    → pick_bits (suc fuel) n w ready best
      ≡ (consider n (w * 32 + ctz 32 ready) best >>= pick_bits fuel n w (bit_and ready (ready - 1)))
unfolding pick_bits
pick_bits-suc fuel n w ready best h = rw (==_of_ne ready 0 h, pick_bits) refl

-- One round of the loop at a word whose lowest set digit is `b`.
pick_bits-odd :
    (fuel : ℕ) (n : Nvic) (w b y : ℕ) (best : Best)
    → b < 32
    → pick_bits (suc fuel) n w ((2 * y + 1) * 2 ^ b) best
      ≡ (consider n (w * 32 + b) best >>= pick_bits fuel n w (y * 2 ^ suc b))
pick_bits-odd fuel n w b y best h =
    pick_bits-suc fuel n w ((2 * y + 1) * 2 ^ b) best pos
    ∙ ap₂ (λ (k : ℕ) (r : ℕ). consider n (w * 32 + k) best >>= pick_bits fuel n w r)
        (ctz_lem b 32 y (omega arith)) (drop_lowest b y ∙ even)
  where
    pos : (2 * y + 1) * 2 ^ b ≢ 0
    pos = grind (arith, two_pow_pos b)

    even : 2 * y * 2 ^ b ≡ y * 2 ^ suc b
    even = omega (arith, double y b)

pub pick_bits-eq-scan :
    (left fuel b : ℕ) (n : Nvic) (w x : ℕ) (best : Best)
    → x < 2 ^ left
    → left ≤ fuel
    → b + left ≤ 32
    → pick_bits fuel n w (x * 2 ^ b) best ≡ scan_word left n w b x best
unfolding scan_word consider_if
pick_bits-eq-scan zero fuel b n w x best hx hf hb =
    let e : x * 2 ^ b ≡ 0 = grind arith in rw e (pick_bits-zero fuel n w best)
pick_bits-eq-scan (suc left) zero b n w x best hx hf hb = absurd (omega arith)
pick_bits-eq-scan (suc left) (suc fuel) b n w x best hx hf hb = elim (ℕ_discrete (x % 2) 1) [
  | yes odd ↦
      let x_odd : x ≡ 2 * (x / 2) + 1 = omega arith in
      let rest = λ (best' : Best).
        pick_bits-eq-scan left fuel (suc b) n w (x / 2) best' half (omega arith) (omega arith) in
      let next : suc b ≡ b + 1 = omega arith in
      rw odd (
        ap (λ (t : ℕ). pick_bits (suc fuel) n w (t * 2 ^ b) best) x_odd
        ∙ pick_bits-odd fuel n w b (x / 2) best (omega arith)
        ∙ ap (λ (k : Best → Option Best). consider n (w * 32 + b) best >>= k) (fun_ext rest)
        ∙ ap (λ (k : ℕ). consider n (w * 32 + b) best >>= scan_word left n w k (x / 2)) next)
  | no not_odd ↦
      let whole : x ≡ 2 * (x / 2) = omega arith in
      let x_even : x * 2 ^ b ≡ x / 2 * 2 ^ suc b =
        omega (arith, ap (λ (t : ℕ). t * 2 ^ b) whole, double (x / 2) b) in
      let next : suc b ≡ b + 1 = omega arith in
      rw (==_of_ne (x % 2) 1 not_odd, x_even)
        (pick_bits-eq-scan left (suc fuel) (suc b) n w (x / 2) best half (omega arith) (omega arith)
          ∙ ap (λ (k : ℕ). scan_word left n w k (x / 2) best) next)
]
  where
    half : x / 2 < 2 ^ left
    half = omega (arith, two_pow_suc left)
