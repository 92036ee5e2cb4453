-- ===== src/Tt/Checksum.antt =====
-- `snap_xor32`: the checksum over the bytes of a snapshot (src/core/tt.c).
pub mod Detects
use lecerf.Base.{ℕ, zero, suc, ◌+◌, ◌*◌, ◌^◌, ◌%◌, List, [], ◌∷◌, bit_xor, shl32}

-- `memcpy(&w, d + i, 4)` on a little-endian host.
abbrev pub le32 : ℕ → ℕ → ℕ → ℕ → ℕ
le32 b0 b1 b2 b3 = b0 + 256 * b1 + 65536 * b2 + 16777216 * b3

-- The second loop: at most three bytes are left, and `i` counts from a multiple of 4.
xor_tail : ℕ → List ℕ → ℕ → ℕ
xor_tail i [] a = a
xor_tail i (b ∷ bs) a = xor_tail (i + 1) bs (bit_xor a (shl32 b (i % 4 * 8)))

-- Both loops, from the accumulator `a`.
xor_words : List ℕ → ℕ → ℕ
unfolding xor_tail
xor_words (b0 ∷ b1 ∷ b2 ∷ b3 ∷ bs) a = xor_words bs (bit_xor a (le32 b0 b1 b2 b3))
xor_words bs a = xor_tail 0 bs a

-- `snap_xor32`
unfoldable pub snap_xor32 : List ℕ → ℕ
unfolding xor_words
snap_xor32 bs = xor_words bs 0
