-- ===== src/Executor/Insert.antt =====
-- BFI and UBFX, digit by digit.
use lecerf.Base.{
  ℕ, ◌+◌, ◌-◌, ◌*◌, ◌/◌, ◌%◌, ◌^◌, ◌<◌, ◌≤◌, min, max, bit_and, true, false, leb, if◌then◌else◌,
  shl32, not32, ◌≡◌, refl, ap, sym, ◌∙◌, arith,
}
use lecerf.Base.Bits.{
  bit, bit-bit_and, bit-bit_or, bit_and_mask, bit-complement, bit-lt, bit_ext, two_pow_pos,
}
use lecerf.Base.Bits.Shift.{
  bit-shift_left, bit-shift_left_low, bit-shift_right, bit-mod_in, bit-mask_in, bit_above,
}
use mathlib.Core.Path.{subst}
use native.Mathlib.Nat.{mod-lt}
use lecerf.Executor.Bitfield.{width_mask, bfi, ubfx}

width_mask_lem : (w : ℕ) → w ≤ 32 → width_mask w ≡ 2 ^ w - 1
width_mask_lem w h =
    elim (leb 32 w) as (λ b. (leb 32 w ≡ b) → (if b then 0xFFFFFFFF else 2 ^ w - 1) ≡ 2 ^ w - 1) [
      | true ↦ λ e. ap (λ (t : ℕ). 2 ^ t - 1) {x = 32} {y = w} (ground arith)
      | false ↦ λ e. refl
    ]
      refl

-- The digits of `v << j`.
pub bit-shl32 : (j k v : ℕ) → k + j < 32 → bit (shl32 v j) (k + j) ≡ bit v k
bit-shl32 j k v h = bit-mod_in 32 (k + j) (v * 2 ^ j) h ∙ bit-shift_left j k v

pub bit-shl32_low : (j k v : ℕ) → k < j → k < 32 → bit (shl32 v j) k ≡ 0
bit-shl32_low j k v h hk = bit-mod_in 32 k (v * 2 ^ j) hk ∙ bit-shift_left_low j k v h

-- A digit of the word that BFI writes.
bit-bfi :
    (w lsb old src k : ℕ)
    → k < 32
    → let mask = width_mask w in
      bit (bfi w lsb old src) k
      ≡ max (min (bit old k) (1 - bit (shl32 mask lsb) k)) (bit (shl32 (bit_and src mask) lsb) k)
unfolding bfi
bit-bfi w lsb old src k hk =
    let mask = width_mask w in
    omega (
      arith,
      bit-bit_or k (bit_and old (not32 (shl32 mask lsb))) (shl32 (bit_and src mask) lsb),
      bit-bit_and k old (not32 (shl32 mask lsb)),
      bit-complement 32 k (shl32 mask lsb) (omega arith) hk,
    )

-- The word `r` is `old` with the lowest `w` digits of `src` at `lsb`.
pub record IsInserted (w lsb old src r : ℕ) : Type 0 where
  pub inside : (k : ℕ) → k < w → bit r (k + lsb) ≡ bit src k
  pub below : (k : ℕ) → k < lsb → bit r k ≡ bit old k
  pub above : (k : ℕ) → w + lsb ≤ k → k < 32 → bit r k ≡ bit old k

-- BFI of a field of `w` digits at `lsb` that fits the word copies the lowest `w` digits of the
-- source there and keeps every other digit of the destination.
pub bfi-IsInserted :
    (w lsb old src : ℕ) → w + lsb ≤ 32 → IsInserted w lsb old src (bfi w lsb old src)
bfi-IsInserted w lsb old src h = record { inside = inside; below = below; above = above }
  where
    mask : ℕ
    mask = width_mask w

    mask_is : mask ≡ 2 ^ w - 1
    mask_is = width_mask_lem w (omega arith)

    inside : (k : ℕ) → k < w → bit (bfi w lsb old src) (k + lsb) ≡ bit src k
    inside k hk = omega (
      arith,
      bit-bfi w lsb old src (k + lsb) (omega arith),
      bit-shl32 lsb k mask (omega arith),
      bit-shl32 lsb k (bit_and src mask) (omega arith),
      bit-bit_and k src mask,
      ap (λ (t : ℕ). bit t k) mask_is ∙ bit-mask_in w k hk,
      bit-lt src k,
      bit-lt old (k + lsb),
    )

    below : (k : ℕ) → k < lsb → bit (bfi w lsb old src) k ≡ bit old k
    below k hk = omega (
      arith,
      bit-bfi w lsb old src k (omega arith),
      bit-shl32_low lsb k mask hk (omega arith),
      bit-shl32_low lsb k (bit_and src mask) hk (omega arith),
      bit-lt old k,
    )

    past : (j : ℕ) → w ≤ j → j + lsb < 32 → bit (bfi w lsb old src) (j + lsb) ≡ bit old (j + lsb)
    past j hj hk = omega (
      arith,
      bit-bfi w lsb old src (j + lsb) hk,
      bit-shl32 lsb j mask hk,
      bit-shl32 lsb j (bit_and src mask) hk,
      bit-bit_and j src mask,
      bit_above w j mask (omega (arith, mask_is, two_pow_pos w)) hj,
      bit-lt old (j + lsb),
    )

    above : (k : ℕ) → w + lsb ≤ k → k < 32 → bit (bfi w lsb old src) k ≡ bit old k
    above k hk hk' =
        let join : k - lsb + lsb ≡ k = omega arith in
        subst (λ (t : ℕ). bit (bfi w lsb old src) t ≡ bit old t) join
          (past (k - lsb) (omega arith) (omega arith))

-- What UBFX takes out of a word.
pub ubfx_lem : (w lsb v : ℕ) → w ≤ 32 → ubfx w lsb v ≡ v / 2 ^ lsb % 2 ^ w
unfolding ubfx
ubfx_lem w lsb v h = ap (bit_and (v / 2 ^ lsb)) (width_mask_lem w h) ∙ bit_and_mask w (v / 2 ^ lsb)

-- UBFX of the field that BFI wrote gives back the lowest `w` digits of the source.
pub ubfx-bfi : (w lsb old src : ℕ) → w + lsb ≤ 32 → ubfx w lsb (bfi w lsb old src) ≡ src % 2 ^ w
ubfx-bfi w lsb old src h =
    let r = bfi w lsb old src in
    let d = bfi-IsInserted w lsb old src h in
    ubfx_lem w lsb r (omega arith)
    ∙ bit_ext w (r / 2 ^ lsb % 2 ^ w) (src % 2 ^ w) (mod-lt _ (two_pow_pos w))
        (mod-lt _ (two_pow_pos w))
        (λ k hk.
          bit-mod_in w k (r / 2 ^ lsb) hk
          ∙ bit-shift_right lsb k r
          ∙ d.inside k hk
          ∙ sym (bit-mod_in w k src hk))
