-- ===== src/Decoder/Thumb32/Unreached.antt =====
-- Encodings that an earlier test of `decode_thumb32` takes away from their own group.
use lecerf.Base.{ℕ, ◌+◌, ◌<◌, Bool, true, false, not, ◌==◌, ◌&&◌, ◌||◌, ◌>>>◌, ◌≡◌, refl, arith}
use lecerf.Base.Tables.{all_below, all_below_sound}
use lecerf.Base.Bits.{bit_and-two_pow, bit_and_mask}
use lecerf.Decoder.Insn.{Insn, Opcode, op_t32_ldrd_imm, op_undefined}
use lecerf.Decoder.Thumb16.{set_undef, matches, field}
use lecerf.Decoder.Thumb32.Data.{plain}
use lecerf.Decoder.Thumb32.{is_branch_32, groups_32, decode_thumb32}

-- The first halfwords of BFI and BFC, of UBFX and of SBFX.
abbrev pub is_bit_field : ℕ → Bool
is_bit_field w0 = matches w0 0xFBF0 0xF360 || (matches w0 0xFBF0 0xF3C0 || matches w0 0xFBF0 0xF340)

-- Such a word is one of the plain immediates with an unused code.
plain_first : ℕ → Bool
plain_first w0 =
    not (is_bit_field w0)
    || (not (matches w0 0xFA00 0xF000)
        && (matches w0 0xFA00 0xF200
            && (not (field w0 4 0x1F == 0x00)
                && (not (field w0 4 0x1F == 0x0A)
                    && (not (field w0 4 0x1F == 0x04) && not (field w0 4 0x1F == 0x0C))))))

plain_first_all : all_below 65536 plain_first ≡ true
unfolding all_below plain_first
plain_first_all = refl

-- A word below 2 ^ 15 is not of a branch.
not_branch : (w0 w1 : ℕ) → w1 < 0x8000 → is_branch_32 w0 w1 ≡ false
not_branch w0 w1 h = ground (arith, bit_and-two_pow 15 w1)

no_top_bit : (w1 : ℕ) → w1 < 0x8000 → (field w1 15 1 == 0) ≡ true
no_top_bit w1 h = ground (arith, bit_and_mask 1 (w1 >>> 15))

-- The parts of the test.
record IsPlainFirst (w0 : ℕ) : Type 0 where
  not_modified : matches w0 0xFA00 0xF000 ≡ false
  is_plain : matches w0 0xFA00 0xF200 ≡ true
  not_addw : (field w0 4 0x1F == 0x00) ≡ false
  not_subw : (field w0 4 0x1F == 0x0A) ≡ false
  not_movw : (field w0 4 0x1F == 0x04) ≡ false
  not_movt : (field w0 4 0x1F == 0x0C) ≡ false

bit_field-IsPlainFirst : (w0 : ℕ) → w0 < 65536 → is_bit_field w0 ≡ true → IsPlainFirst w0
unfolding plain_first
bit_field-IsPlainFirst w0 h e =
    let ok = all_below_sound 65536 plain_first w0 plain_first_all h in
    record {
      not_modified = ground (arith, ok);
      is_plain = ground (arith, ok);
      not_addw = ground (arith, ok);
      not_subw = ground (arith, ok);
      not_movw = ground (arith, ok);
      not_movt = ground (arith, ok);
    }

abbrev pub is_ldrd : Opcode → Bool
is_ldrd op_t32_ldrd_imm = true
is_ldrd _ = false

abbrev pub is_undefined : Opcode → Bool
is_undefined op_undefined = true
is_undefined _ = false

-- What becomes of three kinds of encodings.
pub record IsShadowed (pc : ℕ) (out : Insn) : Type 0 where
  pub bit_fields :
      (w0 w1 : ℕ)
      → w0 < 0x10000
      → w1 < 0x8000
      → is_bit_field w0 ≡ true
      → is_undefined (decode_thumb32 w0 w1 pc out).op ≡ true
  pub shifts :
      (n w1 : ℕ)
      → n < 32
      → (is_undefined (decode_thumb32 (0xFA20 + n) w1 pc out).op ≡ true)
        × (is_undefined (decode_thumb32 (0xFA60 + n) w1 pc out).op ≡ true)
  pub tables : (n w1 : ℕ) → n < 16 → is_ldrd (decode_thumb32 (0xE8D0 + n) w1 pc out).op ≡ true

shadowed_bit_field :
    (pc : ℕ) (out : Insn) (w0 w1 : ℕ)
    → w0 < 0x10000
    → w1 < 0x8000
    → is_bit_field w0 ≡ true
    → is_undefined (decode_thumb32 w0 w1 pc out).op ≡ true
unfolding decode_thumb32 groups_32 plain set_undef
shadowed_bit_field pc out w0 w1 h0 h1 e =
    let d = bit_field-IsPlainFirst w0 h0 e in
    rw
      (
        not_branch w0 w1 h1,
        d.not_modified,
        d.is_plain,
        no_top_bit w1 h1,
        d.not_addw,
        d.not_subw,
        d.not_movw,
        d.not_movt,
      )
      refl

-- BFI, BFC, UBFX and SBFX (the second halfword of each is below 2 ^ 15), and LSR and ROR by a
-- register, decode to no instruction, and TBB and TBH decode to LDRD.
pub decode_thumb32-IsShadowed : (pc : ℕ) (out : Insn) → IsShadowed pc out
unfolding decode_thumb32 groups_32 set_undef all_below
decode_thumb32-IsShadowed pc out = record {
  bit_fields = shadowed_bit_field pc out;
  shifts = λ n w1 h. (
    all_below_sound 32 (λ k. is_undefined (decode_thumb32 (0xFA20 + k) w1 pc out).op) n refl h,
    all_below_sound 32 (λ k. is_undefined (decode_thumb32 (0xFA60 + k) w1 pc out).op) n refl h,
  );
  tables = λ n w1 h.
      all_below_sound 16 (λ k. is_ldrd (decode_thumb32 (0xE8D0 + k) w1 pc out).op) n refl h;
}
