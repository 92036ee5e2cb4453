-- ===== src/Tt/Checksum/Detects.antt =====
-- A damaged byte changes the checksum.
use lecerf.Base.{
  ℕ, zero, suc, ◌+◌, ◌*◌, ◌%◌, ◌<◌, List, [], ◌∷◌, bit_xor, shl32, length, set, get_or, IsU8, IsU32,
  ◌≡◌, ◌≢◌, sym, ap, ◌∙◌, arith,
}
use lecerf.Base.Bits.{bit, bit_ext, bit-bit_xor, bit-lt, bit_xor-lt}
use lecerf.Tt.Checksum.{le32, xor_tail, xor_words, snap_xor32}

-- Every byte is one.
abbrev pub AreBytes : List ℕ → Type 0
AreBytes bs = (i : ℕ) → i < length bs → IsU8 (get_or bs i 0)

bit-bit_xor_cancel : (a v w : ℕ) → bit_xor a v ≡ bit_xor a w → (k : ℕ) → bit v k ≡ bit w k
bit-bit_xor_cancel a v w e k = omega (
  arith,
  sym (bit-bit_xor k a v) ∙ ap (λ (t : ℕ). bit t k) e ∙ bit-bit_xor k a w,
  bit-lt v k,
  bit-lt w k,
  bit-lt a k,
)

bit-bit_xor_cancel_right : (a b v : ℕ) → bit_xor a v ≡ bit_xor b v → (k : ℕ) → bit a k ≡ bit b k
bit-bit_xor_cancel_right a b v e k = omega (
  arith,
  sym (bit-bit_xor k a v) ∙ ap (λ (t : ℕ). bit t k) e ∙ bit-bit_xor k b v,
  bit-lt v k,
  bit-lt a k,
  bit-lt b k,
)

bit_xor_left_cancel : (a v w : ℕ) → IsU32 v → IsU32 w → bit_xor a v ≡ bit_xor a w → v ≡ w
bit_xor_left_cancel a v w hv hw e = bit_ext 32 v w hv hw (λ k hk. bit-bit_xor_cancel a v w e k)

bit_xor_right_cancel : (a b v : ℕ) → IsU32 a → IsU32 b → bit_xor a v ≡ bit_xor b v → a ≡ b
bit_xor_right_cancel a b v ha hb e =
    bit_ext 32 a b ha hb (λ k hk. bit-bit_xor_cancel_right a b v e k)

xor_tail-injective :
    (i : ℕ) (bs : List ℕ) (a b : ℕ) → IsU32 a → IsU32 b → xor_tail i bs a ≡ xor_tail i bs b → a ≡ b
unfolding xor_tail
xor_tail-injective i [] a b ha hb e = e
xor_tail-injective i (v ∷ bs) a b ha hb e =
    let w = shl32 v (i % 4 * 8) in
    let hw : IsU32 w = omega arith in
    bit_xor_right_cancel a b w ha hb (
      xor_tail-injective (i + 1) bs (bit_xor a w) (bit_xor b w) (bit_xor-lt 32 a w ha hw)
        (bit_xor-lt 32 b w hb hw) e)

xor_words-injective :
    (bs : List ℕ) (a b : ℕ)
    → AreBytes bs
    → IsU32 a
    → IsU32 b
    → xor_words bs a ≡ xor_words bs b
    → a ≡ b
unfolding xor_words
xor_words-injective (b0 ∷ b1 ∷ b2 ∷ b3 ∷ bs) a b h ha hb e =
    let w = le32 b0 b1 b2 b3 in
    let hw : IsU32 w =
      omega (arith, h 0 (omega arith), h 1 (omega arith), h 2 (omega arith), h 3 (omega arith)) in
    bit_xor_right_cancel a b w ha hb (
      xor_words-injective bs (bit_xor a w) (bit_xor b w)
        (λ i hi. h (suc (suc (suc (suc i)))) (omega arith)) (bit_xor-lt 32 a w ha hw)
        (bit_xor-lt 32 b w hb hw) e)
xor_words-injective [] a b h ha hb e = e
xor_words-injective (b0 ∷ []) a b h ha hb e = xor_tail-injective 0 (b0 ∷ []) a b ha hb e
xor_words-injective (b0 ∷ b1 ∷ []) a b h ha hb e = xor_tail-injective 0 (b0 ∷ b1 ∷ []) a b ha hb e
xor_words-injective (b0 ∷ b1 ∷ b2 ∷ []) a b h ha hb e =
    xor_tail-injective 0 (b0 ∷ b1 ∷ b2 ∷ []) a b ha hb e

shl32-injective : (s v w : ℕ) → s < 4 → IsU8 v → IsU8 w → shl32 v (s * 8) ≡ shl32 w (s * 8) → v ≡ w
shl32-injective zero v w hs hv hw e = omega arith
shl32-injective (suc zero) v w hs hv hw e = omega arith
shl32-injective (suc (suc zero)) v w hs hv hw e = omega arith
shl32-injective (suc (suc (suc zero))) v w hs hv hw e = omega arith
shl32-injective (suc (suc (suc (suc s)))) v w hs hv hw e = absurd (omega arith)

xor_tail-set :
    (i : ℕ) (bs : List ℕ) (a k v : ℕ)
    → AreBytes bs
    → IsU32 a
    → k < length bs
    → IsU8 v
    → xor_tail i (set bs k v) a ≡ xor_tail i bs a
    → v ≡ get_or bs k 0
unfolding xor_tail
xor_tail-set i [] a k v h ha hk hv e = absurd (omega arith)
xor_tail-set i (b ∷ bs) a zero v h ha hk hv e =
    let s = i % 4 * 8 in
    let hs : IsU32 (shl32 b s) = omega arith in
    let hs' : IsU32 (shl32 v s) = omega arith in
    shl32-injective (i % 4) v b (omega arith) hv (h 0 (omega arith)) (
      bit_xor_left_cancel a (shl32 v s) (shl32 b s) hs' hs (
        xor_tail-injective (i + 1) bs (bit_xor a (shl32 v s)) (bit_xor a (shl32 b s))
          (bit_xor-lt 32 a (shl32 v s) ha hs') (bit_xor-lt 32 a (shl32 b s) ha hs) e))
xor_tail-set i (b ∷ bs) a (suc k) v h ha hk hv e =
    xor_tail-set (i + 1) bs (bit_xor a (shl32 b (i % 4 * 8))) k v (λ j hj. h (suc j) (omega arith))
      (bit_xor-lt 32 a (shl32 b (i % 4 * 8)) ha (omega arith)) (omega arith) hv e

-- Two different words before the same rest give different checksums.
word_of :
    (bs : List ℕ) (a w w' : ℕ)
    → AreBytes bs
    → IsU32 a
    → IsU32 w
    → IsU32 w'
    → xor_words bs (bit_xor a w) ≡ xor_words bs (bit_xor a w')
    → w ≡ w'
word_of bs a w w' h ha hw hw' e = bit_xor_left_cancel a w w' hw hw' (
    xor_words-injective bs (bit_xor a w) (bit_xor a w') h (bit_xor-lt 32 a w ha hw)
      (bit_xor-lt 32 a w' ha hw') e)

rest_AreBytes : (b0 b1 b2 b3 : ℕ) (bs : List ℕ) → AreBytes (b0 ∷ b1 ∷ b2 ∷ b3 ∷ bs) → AreBytes bs
rest_AreBytes b0 b1 b2 b3 bs h i hi = h (suc (suc (suc (suc i)))) (omega arith)

xor_words-set :
    (bs : List ℕ) (a k v : ℕ)
    → AreBytes bs
    → IsU32 a
    → k < length bs
    → IsU8 v
    → xor_words (set bs k v) a ≡ xor_words bs a
    → v ≡ get_or bs k 0
unfolding xor_words
xor_words-set (b0 ∷ b1 ∷ b2 ∷ b3 ∷ bs) a zero v h ha hk hv e =
    let h0 = h 0 (omega arith) in
    let h1 = h 1 (omega arith) in
    let h2 = h 2 (omega arith) in
    let h3 = h 3 (omega arith) in
    omega (
      arith,
      word_of bs a (le32 v b1 b2 b3) (le32 b0 b1 b2 b3) (rest_AreBytes b0 b1 b2 b3 bs h) ha
          (omega arith) (omega arith) e,
    )
xor_words-set (b0 ∷ b1 ∷ b2 ∷ b3 ∷ bs) a (suc zero) v h ha hk hv e =
    let h0 = h 0 (omega arith) in
    let h1 = h 1 (omega arith) in
    let h2 = h 2 (omega arith) in
    let h3 = h 3 (omega arith) in
    omega (
      arith,
      word_of bs a (le32 b0 v b2 b3) (le32 b0 b1 b2 b3) (rest_AreBytes b0 b1 b2 b3 bs h) ha
          (omega arith) (omega arith) e,
    )
xor_words-set (b0 ∷ b1 ∷ b2 ∷ b3 ∷ bs) a (suc (suc zero)) v h ha hk hv e =
    let h0 = h 0 (omega arith) in
    let h1 = h 1 (omega arith) in
    let h2 = h 2 (omega arith) in
    let h3 = h 3 (omega arith) in
    omega (
      arith,
      word_of bs a (le32 b0 b1 v b3) (le32 b0 b1 b2 b3) (rest_AreBytes b0 b1 b2 b3 bs h) ha
          (omega arith) (omega arith) e,
    )
xor_words-set (b0 ∷ b1 ∷ b2 ∷ b3 ∷ bs) a (suc (suc (suc zero))) v h ha hk hv e =
    let h0 = h 0 (omega arith) in
    let h1 = h 1 (omega arith) in
    let h2 = h 2 (omega arith) in
    let h3 = h 3 (omega arith) in
    omega (
      arith,
      word_of bs a (le32 b0 b1 b2 v) (le32 b0 b1 b2 b3) (rest_AreBytes b0 b1 b2 b3 bs h) ha
          (omega arith) (omega arith) e,
    )
xor_words-set (b0 ∷ b1 ∷ b2 ∷ b3 ∷ bs) a (suc (suc (suc (suc k)))) v h ha hk hv e =
    let h0 = h 0 (omega arith) in
    let h1 = h 1 (omega arith) in
    let h2 = h 2 (omega arith) in
    let h3 = h 3 (omega arith) in
    let w = le32 b0 b1 b2 b3 in
    xor_words-set bs (bit_xor a w) k v (rest_AreBytes b0 b1 b2 b3 bs h)
      (bit_xor-lt 32 a w ha (omega arith)) (omega arith) hv e
xor_words-set [] a k v h ha hk hv e = absurd (omega arith)
xor_words-set (b0 ∷ []) a zero v h ha hk hv e = xor_tail-set 0 (b0 ∷ []) a 0 v h ha hk hv e
xor_words-set (b0 ∷ []) a (suc k) v h ha hk hv e = absurd (omega arith)
xor_words-set (b0 ∷ b1 ∷ []) a zero v h ha hk hv e =
    xor_tail-set 0 (b0 ∷ b1 ∷ []) a 0 v h ha hk hv e
xor_words-set (b0 ∷ b1 ∷ []) a (suc zero) v h ha hk hv e =
    xor_tail-set 0 (b0 ∷ b1 ∷ []) a 1 v h ha hk hv e
xor_words-set (b0 ∷ b1 ∷ []) a (suc (suc k)) v h ha hk hv e = absurd (omega arith)
xor_words-set (b0 ∷ b1 ∷ b2 ∷ []) a zero v h ha hk hv e =
    xor_tail-set 0 (b0 ∷ b1 ∷ b2 ∷ []) a 0 v h ha hk hv e
xor_words-set (b0 ∷ b1 ∷ b2 ∷ []) a (suc zero) v h ha hk hv e =
    xor_tail-set 0 (b0 ∷ b1 ∷ b2 ∷ []) a 1 v h ha hk hv e
xor_words-set (b0 ∷ b1 ∷ b2 ∷ []) a (suc (suc zero)) v h ha hk hv e =
    xor_tail-set 0 (b0 ∷ b1 ∷ b2 ∷ []) a 2 v h ha hk hv e
xor_words-set (b0 ∷ b1 ∷ b2 ∷ []) a (suc (suc (suc k))) v h ha hk hv e = absurd (omega arith)

-- A change of one byte is detected: when byte `k` of a byte sequence is replaced by another byte,
-- `snap_xor32` gives another checksum.
pub snap_xor32-set :
    (bs : List ℕ) (k v : ℕ)
    → AreBytes bs
    → k < length bs
    → IsU8 v
    → v ≢ get_or bs k 0
    → snap_xor32 (set bs k v) ≢ snap_xor32 bs
unfolding snap_xor32
snap_xor32-set bs k v h hk hv ne e = ne (xor_words-set bs 0 k v h (omega arith) hk hv e)
