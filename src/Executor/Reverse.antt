-- ===== src/Executor/Reverse.antt =====
-- RBIT, CLZ and REV, digit by digit.
use lecerf.Base.{
  ℕ, zero, suc, ◌+◌, ◌-◌, ◌*◌, ◌/◌, ◌%◌, ◌^◌, ◌<◌, ◌≤◌, min, bit_and, bit_or, Bool, true, false,
  ◌==◌, ltb, leb, ◌&&◌, ◌||◌, if◌then◌else◌, ◌>>>◌, shl32, IsU32, ◌≡◌, ◌≢◌, refl, ap, sym, ◌∙◌,
  arith, ==_of_ne,
}
use mathlib.Core.Path.{subst}
use native.Mathlib.Nat.{div-le_self, mul_assoc}
use lecerf.Base.Bits.{bit, bit_and-two_pow, bit-bit_and, bit-bit_or, bit-lt, bit_or-lt, bit_and-le}
use lecerf.Base.Bits.Shift.{bit-shift_right, bit_above, mul-two_pow_suc}
use lecerf.Base.Tables.{all_below, all_below_sound}
use lecerf.Executor.Insert.{bit-shl32, bit-shl32_low}
use lecerf.Executor.Bitfield.{swap, rbit, clz, clz_from}

-- The digit that comes to the place `j` when neighbouring groups of `g` digits are exchanged.
abbrev partner : ℕ → ℕ → ℕ
partner g j = if j / g % 2 == 0 then j + g else j - g

-- The masks of a step take the upper and the lower groups.
abbrev masks_right : ℕ → ℕ → ℕ → ℕ → Bool
masks_right high low g j =
    if j / g % 2 == 0
    then (bit high (j + g) == 1) && (ltb j g || (bit low (j - g) == 0))
    else (bit high (j + g) == 0) && (leb g j && (bit low (j - g) == 1))

bit-shl32_high : (g j v : ℕ) → g ≤ j → j < 32 → bit (shl32 v g) j ≡ bit v (j - g)
bit-shl32_high g j v h hj =
    let join : j - g + g ≡ j = omega arith in
    subst (λ (t : ℕ). bit (shl32 v g) t ≡ bit v (j - g)) join (bit-shl32 g (j - g) v (omega arith))

swap_low :
    (g j low v : ℕ)
    → g ≤ j
    → j < 32
    → bit (shl32 (bit_and v low) g) j ≡ min (bit v (j - g)) (bit low (j - g))
swap_low g j low v h hj = bit-shl32_high g j (bit_and v low) h hj ∙ bit-bit_and (j - g) v low

swap-partner :
    (high low g v j : ℕ)
    → j < 32
    → masks_right high low g j ≡ true
    → bit (swap high low g v) j ≡ bit v (partner g j)
swap-partner high low g v j hj ok =
    let whole = bit-bit_or j (bit_and v high / 2 ^ g) (shl32 (bit_and v low) g) in
    let upper = bit-shift_right g j (bit_and v high) ∙ bit-bit_and (j + g) v high in
    elim (j / g % 2 == 0)
        as (λ b.
          (if b
              then (bit high (j + g) == 1) && (ltb j g || (bit low (j - g) == 0))
              else (bit high (j + g) == 0) && (leb g j && (bit low (j - g) == 1)))
            ≡ true
          → bit (swap high low g v) j ≡ bit v (if b then j + g else j - g)) [
            | true ↦ λ e. ground (
              arith,
              whole,
              upper,
              bit-shl32_low g j (bit_and v low),
              swap_low g j low v,
              bit-lt v (j + g),
            )
            | false ↦ λ e. ground (arith, whole, upper, swap_low g j low v, bit-lt v (j - g))
          ]
      ok

swap-lt : (high low g v : ℕ) → IsU32 v → IsU32 (swap high low g v)
swap-lt high low g v h =
    bit_or-lt 32 (bit_and v high / 2 ^ g) (shl32 (bit_and v low) g)
      (omega (arith, bit_and-le v high, div-le_self (bit_and v high) (2 ^ g))) (omega arith)

-- The last step of RBIT.
halves-partner :
    (v j : ℕ) → IsU32 v → j < 32 → bit (bit_or (v >>> 16) (shl32 v 16)) j ≡ bit v (partner 16 j)
halves-partner v j hv hj =
    let whole = bit-bit_or j (v / 2 ^ 16) (shl32 v 16) in
    let upper = bit-shift_right 16 j v in
    elim (ltb j 16)
        as (λ b. ltb j 16 ≡ b → bit (bit_or (v >>> 16) (shl32 v 16)) j ≡ bit v (partner 16 j)) [
          | true ↦ λ e. ground (arith, whole, upper, bit-shl32_low 16 j v)
          | false ↦
              λ e. ground (arith, whole, upper, bit-shl32_high 16 j v, bit_above 32 (j + 16) v)
        ]
      refl

-- The places that the five steps take a digit from.
mirror : ℕ → ℕ
mirror j = partner 1 (partner 2 (partner 4 (partner 8 (partner 16 j))))

mirror_right : all_below 32 (λ j. mirror j == 31 - j) ≡ true
unfolding all_below mirror
mirror_right = refl

eq_of_test : (a b : ℕ) → (a == b) ≡ true → a ≡ b
eq_of_test a b h = ground arith

lt_of_test : (a b : ℕ) → ltb a b ≡ true → a < b
lt_of_test a b h = ground arith

mirror_lem : (j : ℕ) → j < 32 → mirror j ≡ 31 - j
mirror_lem j h =
    eq_of_test (mirror j) (31 - j) (all_below_sound 32 (λ i. mirror i == 31 - i) j mirror_right h)

partner-lt : (g j : ℕ) → all_below 32 (λ i. ltb (partner g i) 32) ≡ true → j < 32 → partner g j < 32
partner-lt g j ok h =
    lt_of_test (partner g j) 32 (all_below_sound 32 (λ i. ltb (partner g i) 32) j ok h)

-- A step of RBIT with masks that are right at every place.
swap_all :
    (high low g v j : ℕ)
    → all_below 32 (masks_right high low g) ≡ true
    → j < 32
    → bit (swap high low g v) j ≡ bit v (partner g j)
swap_all high low g v j ok hj =
    swap-partner high low g v j hj (all_below_sound 32 (masks_right high low g) j ok hj)

-- RBIT reverses the order of the 32 digits of a word.
pub bit-rbit : (v k : ℕ) → IsU32 v → k < 32 → bit (rbit v) k ≡ bit v (31 - k)
unfolding rbit mirror all_below
bit-rbit v k hv hk =
    let v1 = swap 0xAAAAAAAA 0x55555555 1 v in
    let v2 = swap 0xCCCCCCCC 0x33333333 2 v1 in
    let v3 = swap 0xF0F0F0F0 0x0F0F0F0F 4 v2 in
    let v4 = swap 0xFF00FF00 0x00FF00FF 8 v3 in
    let v4_lt = swap-lt 0xFF00FF00 0x00FF00FF 8 v3 (
      swap-lt 0xF0F0F0F0 0x0F0F0F0F 4 v2
        (swap-lt 0xCCCCCCCC 0x33333333 2 v1 (swap-lt 0xAAAAAAAA 0x55555555 1 v hv))) in
    let j4 = partner 16 k in
    let j3 = partner 8 j4 in
    let j2 = partner 4 j3 in
    let j1 = partner 2 j2 in
    let h4 = partner-lt 16 k refl hk in
    let h3 = partner-lt 8 j4 refl h4 in
    let h2 = partner-lt 4 j3 refl h3 in
    let h1 = partner-lt 2 j2 refl h2 in
    halves-partner v4 k v4_lt hk
    ∙ swap_all 0xFF00FF00 0x00FF00FF 8 v3 j4 refl h4
    ∙ swap_all 0xF0F0F0F0 0x0F0F0F0F 4 v2 j3 refl h3
    ∙ swap_all 0xCCCCCCCC 0x33333333 2 v1 j2 refl h2
    ∙ swap_all 0xAAAAAAAA 0x55555555 1 v j1 refl h1
    ∙ ap (bit v) (mirror_lem k hk)

-- `d` steps to the left bring the highest digit of `v` to the place 31.
record IsLeading (v d : ℕ) : Type 0 where
  pub highest : 2 ^ 31 ≤ v * 2 ^ d
  pub fits : v * 2 ^ d < 2 ^ 32

doubled : (v j : ℕ) → v * 2 ^ suc j ≡ 2 * v * 2 ^ j
doubled v j = mul-two_pow_suc v j ∙ sym (mul_assoc 2 v (2 ^ j))

shl32-one : (v j : ℕ) → v < 2 ^ 31 → shl32 v 1 * 2 ^ j ≡ v * 2 ^ suc j
shl32-one v j h =
    let next : shl32 v 1 ≡ 2 * v = omega arith in ap (λ (t : ℕ). t * 2 ^ j) next ∙ sym (doubled v j)

next_IsLeading : (v d : ℕ) → v < 2 ^ 31 → IsLeading (shl32 v 1) d → IsLeading v (suc d)
next_IsLeading v d h lead = record {
  highest = omega (arith, lead.highest, shl32-one v d h);
  fits = omega (arith, lead.fits, shl32-one v d h);
}

-- What the loop of CLZ has counted when it ends.
record IsCounted (v n r : ℕ) : Type 0 where
  steps : ℕ
  total : r ≡ n + steps
  leads : IsLeading v steps

clz_from-IsCounted :
    (fuel v n : ℕ) → fuel ≤ 32 → 2 ^ 32 ≤ v * 2 ^ fuel → IsU32 v → IsCounted v n (clz_from fuel v n)
unfolding clz_from
clz_from-IsCounted zero v n hf low hv = absurd (omega arith)
clz_from-IsCounted (suc fuel) v n hf low hv =
    elim (bit_and v 0x80000000 == 0)
        as (λ b.
          (bit_and v 0x80000000 == 0) ≡ b
          → IsCounted v n (if b then clz_from fuel (shl32 v 1) (n + 1) else n)) [
            | true ↦ λ e.
                let small : v < 2 ^ 31 = ground (arith, bit_and-two_pow 31 v) in
                let rest =
                  clz_from-IsCounted fuel (shl32 v 1) (n + 1) (omega arith)
                    (omega (arith, shl32-one v fuel small)) (omega arith) in
                record {
                  steps = suc rest.steps;
                  total = omega (arith, rest.total);
                  leads = next_IsLeading v rest.steps small rest.leads;
                }
            | false ↦ λ e.
                let large : 2 ^ 31 ≤ v = ground (arith, bit_and-two_pow 31 v) in
                record {
                  steps = 0;
                  total = omega arith;
                  leads = record { highest = omega arith; fits = omega arith };
                }
          ]
      refl

-- CLZ of a word other than 0 is the number of steps to the left that bring its highest digit to the
-- top, below 32; of 0 it is 32.
clz_lem : (v : ℕ) → IsU32 v → ((v ≡ 0) → clz v ≡ 32) × ((v ≢ 0) → IsLeading v (clz v))
unfolding clz
clz_lem v hv = ((λ z. ground arith), nonzero)
  where
    nonzero : (v ≢ 0) → IsLeading v (if v == 0 then 32 else clz_from 32 v 0)
    nonzero h =
        let found = clz_from-IsCounted 32 v 0 (omega arith) (omega (arith, pos)) hv in
        let here : clz_from 32 v 0 ≡ found.steps = omega (arith, found.total) in
        rw (==_of_ne v 0 h, here) found.leads
      where
        pos : 1 ≤ v
        pos = ground arith
