-- ===== src/Decoder/Thumb32/Link.antt =====
-- The displacement of BL.
use lecerf.Base.{
  ℕ, zero, suc, ◌+◌, ◌-◌, ◌*◌, ◌/◌, ◌%◌, ◌^◌, ◌<◌, bit_or, Bool, true, false, ◌==◌, ◌≡◌, refl, ◌∙◌,
  arith,
}
use lecerf.Base.Tables.{all_below, all_below_sound}
use lecerf.Base.Bits.{bit_and-two_pow, bit_and_mask}
use lecerf.Base.Bits.Shift.{bit_or-join, bit_xor-add}
use lecerf.Decoder.Insn.{Insn, Opcode, op_t32_bl}
use lecerf.Decoder.Expand.{sext}
use lecerf.Decoder.Thumb16.{matches, field}
use lecerf.Decoder.Thumb16.Branch.{twice_signed}
use lecerf.Decoder.Thumb32.{inverted, offset_25, is_branch_32, branch_32, groups_32, decode_thumb32}

-- The digit J of a digit I of the displacement and its sign.
abbrev pub j_of : ℕ → ℕ → ℕ
j_of i s = 1 - (i + s) % 2

-- The halfwords of BL with a displacement of `m` halfwords, a 24-bit two's complement number.
abbrev pub bl_first : ℕ → ℕ
bl_first m = 0xF000 + (m / 2 ^ 23 * 2 ^ 10 + m / 2 ^ 11 % 2 ^ 10)

abbrev pub bl_second : ℕ → ℕ
bl_second m =
    0xD000
    + (j_of (m / 2 ^ 22 % 2) (m / 2 ^ 23) * 2 ^ 13
        + (j_of (m / 2 ^ 21 % 2) (m / 2 ^ 23) * 2 ^ 11 + m % 2 ^ 11))

abbrev pub is_bl : Opcode → Bool
is_bl op_t32_bl = true
is_bl _ = false

inverted-j_of : (i s : ℕ) → i < 2 → s < 2 → inverted (j_of i s) s ≡ i
inverted-j_of zero zero hi hs = refl
inverted-j_of zero (suc zero) hi hs = refl
inverted-j_of (suc zero) zero hi hs = refl
inverted-j_of (suc zero) (suc zero) hi hs = refl
inverted-j_of zero (suc (suc s)) hi hs = absurd (omega arith)
inverted-j_of (suc zero) (suc (suc s)) hi hs = absurd (omega arith)
inverted-j_of (suc (suc i)) s hi hs = absurd (omega arith)

-- The sign extension of 25 digits.
sext_25 :
    (s low : ℕ) → s < 2 → low < 2 ^ 24 → sext (s * 2 ^ 24 + low) 25 ≡ (low + s * (2 ^ 32 - 2 ^ 24))
unfolding sext
sext_25 zero low hs h = omega (arith, bit_xor-add 24 0 low 1 h)
sext_25 (suc zero) low hs h = omega (arith, bit_xor-add 24 1 low 1 h)
sext_25 (suc (suc s)) low hs h = absurd (omega arith)

-- The digits of the offset, put together.
joined :
    (s i1 i2 a b : ℕ)
    → s < 2
    → i1 < 2
    → i2 < 2
    → a < 2 ^ 10
    → b < 2 ^ 11
    → bit_or
        (bit_or (bit_or (bit_or (s * 2 ^ 24) (i1 * 2 ^ 23)) (i2 * 2 ^ 22)) (a * 2 ^ 12))
        (b * 2)
      ≡ s * 2 ^ 24 + (i1 * 2 ^ 23 + i2 * 2 ^ 22 + a * 2 ^ 12 + b * 2)
joined s i1 i2 a b hs h1 h2 ha hb =
    let x1 = s * 2 ^ 24 + i1 * 2 ^ 23 in
    let x2 = x1 + i2 * 2 ^ 22 in
    let x3 = x2 + a * 2 ^ 12 in
    rw
      (
        bit_or-join 24 (s * 2 ^ 24) (i1 * 2 ^ 23) (omega arith) (omega arith),
        bit_or-join 23 x1 (i2 * 2 ^ 22) (omega arith) (omega arith),
        bit_or-join 22 x2 (a * 2 ^ 12) (omega arith) (omega arith),
        bit_or-join 12 x3 (b * 2) (omega arith) (omega arith),
      )
      (omega arith)

-- The first halfword of a branch.
first_right : all_below 2048 (λ x. matches (0xF000 + x) 0xF800 0xF000) ≡ true
unfolding all_below
first_right = refl

-- The fields of the two halfwords.
module _ (m : ℕ) (h : m < 2 ^ 24) where
  second_bounds : j_of (m / 2 ^ 22 % 2) (m / 2 ^ 23) < 2
  second_bounds = omega arith

  field_s : field (bl_first m) 10 1 ≡ m / 2 ^ 23
  field_s = omega (arith, bit_and_mask 1 (bl_first m / 2 ^ 10))

  field_imm10 : field (bl_first m) 0 0x3FF ≡ m / 2 ^ 11 % 2 ^ 10
  field_imm10 = omega (arith, bit_and_mask 10 (bl_first m / 2 ^ 0))

  field_j1 : field (bl_second m) 13 1 ≡ j_of (m / 2 ^ 22 % 2) (m / 2 ^ 23)
  field_j1 = omega (arith, bit_and_mask 1 (bl_second m / 2 ^ 13))

  field_j2 : field (bl_second m) 11 1 ≡ j_of (m / 2 ^ 21 % 2) (m / 2 ^ 23)
  field_j2 = omega (arith, bit_and_mask 1 (bl_second m / 2 ^ 11))

  field_imm11 : field (bl_second m) 0 0x7FF ≡ m % 2 ^ 11
  field_imm11 = omega (arith, bit_and_mask 11 (bl_second m / 2 ^ 0))

  field_op1 : (field (bl_second m) 14 3 == 3) ≡ true
  field_op1 = ground (arith, bit_and_mask 2 (bl_second m / 2 ^ 14))

  field_op12 : (field (bl_second m) 12 1 == 1) ≡ true
  field_op12 = ground (arith, bit_and_mask 1 (bl_second m / 2 ^ 12))

  first_matches : matches (bl_first m) 0xF800 0xF000 ≡ true
  first_matches =
      all_below_sound 2048 (λ x. matches (0xF000 + x) 0xF800 0xF000)
        (m / 2 ^ 23 * 2 ^ 10 + m / 2 ^ 11 % 2 ^ 10) first_right (omega arith)

  second_matches : matches (bl_second m) 0x8000 0x8000 ≡ true
  second_matches = ground (arith, bit_and-two_pow 15 (bl_second m))

  bl_is_branch : is_branch_32 (bl_first m) (bl_second m) ≡ true
  bl_is_branch =
      rw (first_matches, second_matches) (ground (arith, bit_and_mask 1 (bl_second m / 2 ^ 12)))

  offset_25-bl : offset_25 (bl_first m) (bl_second m) ≡ twice_signed (2 ^ 23) m
  unfolding offset_25
  offset_25-bl =
      let s = m / 2 ^ 23 in
      let low =
        m / 2 ^ 22 % 2 * 2 ^ 23
        + m / 2 ^ 21 % 2 * 2 ^ 22
        + m / 2 ^ 11 % 2 ^ 10 * 2 ^ 12
        + m % 2 ^ 11 * 2 in
      rw
        (
          field_s,
          field_imm10,
          field_j1,
          field_j2,
          field_imm11,
          inverted-j_of (m / 2 ^ 22 % 2) s (omega arith) (omega arith),
          inverted-j_of (m / 2 ^ 21 % 2) s (omega arith) (omega arith),
          joined s (m / 2 ^ 22 % 2) (m / 2 ^ 21 % 2) (m / 2 ^ 11 % 2 ^ 10) (m % 2 ^ 11)
              (omega arith) (omega arith) (omega arith) (omega arith) (omega arith),
        )
        (sext_25 s low (omega arith) (omega arith) ∙ ground arith)

-- For every displacement of `m` halfwords, a 24-bit two's complement number, the two halfwords of
-- BL decode to BL with twice the displacement.
pub decode_thumb32-bl :
    (m pc : ℕ) (out : Insn)
    → m < 2 ^ 24
    → let i = decode_thumb32 (bl_first m) (bl_second m) pc out in
      (is_bl i.op ≡ true) × (i.imm ≡ twice_signed (2 ^ 23) m)
unfolding decode_thumb32 groups_32 branch_32
decode_thumb32-bl m pc out h =
    rw (bl_is_branch m h, field_op1 m h, field_op12 m h) (refl, offset_25-bl m h)
