-- ===== src/Decoder/Thumb16/Branch.antt =====
-- The displacements of the two short branches.
use lecerf.Base.{
  ℕ, ◌+◌, ◌-◌, ◌*◌, ◌/◌, ◌%◌, ◌<◌, Bool, true, false, ◌==◌, ◌&&◌, if◌then◌else◌, ltb, ◌≡◌, refl, ap,
  ◌∙◌, arith,
}
use lecerf.Base.Tables.{all_below, all_below_sound}
use lecerf.Decoder.Insn.{Insn, Opcode, op_b_uncond, op_b_cond}
use lecerf.Decoder.Thumb16.{branch_offset, decode_thumb16, groups, branch, branch_cond, set_undef}

-- Twice the two's complement number of `bits` bits, as a 32-bit word.
abbrev pub twice_signed : ℕ → ℕ → ℕ
twice_signed half n = if ltb n half then 2 * n else 4294967296 - 2 * (2 * half - n)

abbrev pub is_b_uncond : Opcode → Bool
is_b_uncond op_b_uncond = true
is_b_uncond _ = false

abbrev pub is_b_cond : Opcode → Bool
is_b_cond op_b_cond = true
is_b_cond _ = false

-- Every B and every B<cond>, by evaluation of the decoder.
b_right : ℕ → Insn → ℕ → Bool
b_right pc out n =
    let i = decode_thumb16 (0xE000 + n) pc out in is_b_uncond i.op && (i.imm == twice_signed 1024 n)

b_cond_right : ℕ → Insn → ℕ → Bool
b_cond_right pc out x =
    let i = decode_thumb16 (0xD000 + x) pc out in
    is_b_cond i.op && ((i.cond == x / 256) && (i.imm == twice_signed 128 (x % 256)))

b_right_all : (pc : ℕ) (out : Insn) → all_below 2048 (b_right pc out) ≡ true
unfolding all_below b_right decode_thumb16 groups branch branch_offset set_undef
b_right_all pc out = refl

b_cond_right_all : (pc : ℕ) (out : Insn) → all_below 3584 (b_cond_right pc out) ≡ true
unfolding all_below b_cond_right decode_thumb16 groups branch_cond set_undef
b_cond_right_all pc out = refl

-- The word 0xE000 + n, n below 2048, decodes to B, and its offset is twice the 11-bit two's
-- complement number n.
pub decode_thumb16-b :
    (n pc : ℕ) (out : Insn)
    → n < 2048
    → (is_b_uncond (decode_thumb16 (0xE000 + n) pc out).op ≡ true)
      × ((decode_thumb16 (0xE000 + n) pc out).imm ≡ twice_signed 1024 n)
unfolding b_right
decode_thumb16-b n pc out h =
    let right = all_below_sound 2048 (b_right pc out) n (b_right_all pc out) h in
    (ground (arith, right), ground (arith, right))

-- The word 0xD000 + 256 * c + n, with a condition c below 14 and n below 256, decodes to B<cond>
-- with that condition, and its offset is twice the 8-bit two's complement number n.
pub decode_thumb16-b_cond :
    (c n pc : ℕ) (out : Insn)
    → c < 14
    → n < 256
    → (is_b_cond (decode_thumb16 (0xD000 + (256 * c + n)) pc out).op ≡ true)
      × ((decode_thumb16 (0xD000 + (256 * c + n)) pc out).cond ≡ c)
      × ((decode_thumb16 (0xD000 + (256 * c + n)) pc out).imm ≡ twice_signed 128 n)
unfolding b_cond_right
decode_thumb16-b_cond c n pc out hc hn =
    let x = 256 * c + n in
    let right =
      all_below_sound 3584 (b_cond_right pc out) x (b_cond_right_all pc out) (omega arith) in
    let quot : x / 256 ≡ c = omega arith in
    let rest : x % 256 ≡ n = omega arith in
    (
      ground (arith, right),
      ground (arith, right, quot),
      ground (arith, right) ∙ ap (twice_signed 128) rest,
    )
