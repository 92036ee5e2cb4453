-- ===== src/Decoder/Expand.antt =====
-- The immediates of src/core/decoder.c: `sext`, `ror32` and `thumb_expand_imm`.
use lecerf.Base.{
  ℕ, ◌-◌, ◌*◌, ◌^◌, bit_and, bit_or, bit_xor, ◌==◌, if◌then◌else◌, ◌>>>◌, shl32, sub32,
}

-- `sext`, as a 32-bit word.
unfoldable pub sext : ℕ → ℕ → ℕ
sext v n = let m = 2 ^ (n - 1) in sub32 (bit_xor v m) m

-- `ror32`
unfoldable pub ror32 : ℕ → ℕ → ℕ
ror32 v n = let n' = bit_and n 31 in if n' == 0 then v else bit_or (v >>> n') (shl32 v (32 - n'))

-- `thumb_expand_imm`
unfoldable pub thumb_expand_imm : ℕ → ℕ
unfolding ror32
thumb_expand_imm i12 =
    let imm8 = bit_and i12 0xFF in
    let imm3i = bit_and (i12 >>> 8) 0xF in
    if imm3i >>> 2 == 0
    then if bit_and imm3i 3 == 0
      then imm8
      else if bit_and imm3i 3 == 1
      then bit_or imm8 (imm8 * 2 ^ 16)
      else if bit_and imm3i 3 == 2
      then bit_or (imm8 * 2 ^ 8) (imm8 * 2 ^ 24)
      else bit_or (bit_or (bit_or imm8 (imm8 * 2 ^ 8)) (imm8 * 2 ^ 16)) (imm8 * 2 ^ 24)
    else ror32 (bit_or imm8 0x80) (bit_and (i12 >>> 7) 0x1F)
