-- ===== src/Periph/Eth/Checksum.antt =====
-- The checksum of the echo reply, against the Internet checksum.
use lecerf.Base.{
  ℕ, zero, suc, ◌+◌, ◌-◌, ◌*◌, ◌/◌, ◌%◌, ◌^◌, ◌≤◌, ◌<◌, bit_and, ltb, if◌then◌else◌, update, not32,
  ◌≡◌, ◌≢◌, refl, arith, IsU8, ◌⊎◌, ltb_of_lt,
}
use lecerf.Base.Bits.{bit_and_mask}
use lecerf.Periph.Eth.{swap_bytes, fold_sum, fold_fuel, sum_words, checksum, turned, echo_reply}

mask_16 : (x : ℕ) → bit_and x 0xFFFF ≡ x % 65536
mask_16 x = bit_and_mask 16 x

-- A round of the folding loop.
fold_sum-suc :
    (fuel sum : ℕ)
    → fold_sum (suc fuel) sum
      ≡ (if ltb sum 65536 then sum else fold_sum fuel (sum % 65536 + sum / 65536))
unfolding fold_sum
fold_sum-suc fuel sum = ground (arith, mask_16 sum)

-- Of a 32-bit sum the loop leaves 16 bits, the same number modulo 65535, and 0 only of 0.
record IsFolded (sum folded : ℕ) : Type 0 where
  small : folded < 65536
  same : folded % 65535 ≡ sum % 65535
  zero_only : (folded ≢ 0) ⊎ (sum ≡ 0)

fold_sum-IsFolded : (sum : ℕ) → sum < 2 ^ 32 → IsFolded sum (fold_sum fold_fuel sum)
fold_sum-IsFolded sum h =
    let once = sum % 65536 + sum / 65536 in
    let twice = once % 65536 + once / 65536 in
    ground (arith, fold_sum-suc 2 sum, fold_sum-suc 1 once, fold_sum-suc 0 twice)

sum_words_congr :
    (fuel i n : ℕ) (f g : ℕ → ℕ)
    → ((j : ℕ) → i ≤ j → f j ≡ g j)
    → sum_words fuel i n f ≡ sum_words fuel i n g
unfolding sum_words
sum_words_congr zero i n f g h = refl
sum_words_congr (suc fuel) i n f g h =
    ground (arith, h i, h (i + 1), sum_words_congr fuel (i + 2) n f g (λ j hj. h j (omega arith)))

sum_words-le :
    (fuel i n : ℕ) (f : ℕ → ℕ) → ((j : ℕ) → IsU8 (f j)) → sum_words fuel i n f ≤ 65535 * fuel
unfolding sum_words
sum_words-le zero i n f h = omega arith
sum_words-le (suc fuel) i n f h = ground (arith, h i, h (i + 1), sum_words-le fuel (i + 2) n f h)

swap_bytes-IsU8 :
    (n x y : ℕ) (buf : ℕ → ℕ) → ((j : ℕ) → IsU8 (buf j)) → (j : ℕ) → IsU8 (swap_bytes n x y buf j)
unfolding swap_bytes
swap_bytes-IsU8 zero x y buf h j = h j
swap_bytes-IsU8 (suc n) x y buf h j =
    swap_bytes-IsU8 n (x + 1) (y + 1) (update (update buf x (buf y)) y (buf x))
      (λ k. ground (arith, h x, h y, h k)) j

turned-IsU8 : (buf : ℕ → ℕ) → ((j : ℕ) → IsU8 (buf j)) → (j : ℕ) → IsU8 (turned buf j)
unfolding turned
turned-IsU8 buf h j =
    ground (arith, swap_bytes-IsU8 4 26 30 (swap_bytes 6 0 6 buf) (swap_bytes-IsU8 6 0 6 buf h) j)

-- The first two words of the message, the second of which holds the checksum.
sum_words_split :
    (fuel n : ℕ) (f : ℕ → ℕ)
    → 42 ≤ n
    → sum_words (suc (suc fuel)) 34 n f
      ≡ f 34 * 256 + f 35 + (f 36 * 256 + f 37 + sum_words fuel 38 n f)
unfolding sum_words
sum_words_split fuel n f h = rw (ltb_of_lt 35 n (omega arith), ltb_of_lt 37 n (omega arith))

checksum_value :
    (n : ℕ) (t : ℕ → ℕ)
    → fold_sum fold_fuel (sum_words n 34 n t) < 65536
    → checksum n t ≡ 65535 - fold_sum fold_fuel (sum_words n 34 n t)
unfolding checksum
checksum_value n t h = omega (arith, mask_16 (not32 (fold_sum fold_fuel (sum_words n 34 n t))))

echo_outside : (n : ℕ) (buf : ℕ → ℕ) (j : ℕ) → 38 ≤ j → echo_reply n buf j ≡ turned buf j
unfolding echo_reply
echo_outside n buf j h = ground arith

echo_field :
    (n : ℕ) (buf : ℕ → ℕ)
    → (echo_reply n buf 34 ≡ turned buf 34)
      × (echo_reply n buf 35 ≡ turned buf 35)
      × (echo_reply n buf 36 ≡ checksum n (turned buf) / 256 % 256)
      × (echo_reply n buf 37 ≡ checksum n (turned buf) % 256)
unfolding echo_reply
echo_field n buf = (refl, refl, refl, refl)

turned_field : (buf : ℕ → ℕ) → (turned buf 36 ≡ 0) × (turned buf 37 ≡ 0)
unfolding turned
turned_field buf = (refl, refl)

-- The checksum field counts for what it adds.
sum_words-echo :
    (fuel n : ℕ) (buf : ℕ → ℕ)
    → 42 ≤ n
    → checksum n (turned buf) < 65536
    → sum_words (suc (suc fuel)) 34 n (echo_reply n buf)
      ≡ sum_words (suc (suc fuel)) 34 n (turned buf) + checksum n (turned buf)
sum_words-echo fuel n buf h hc = omega (
  arith,
  sum_words_split fuel n (echo_reply n buf) h,
  sum_words_split fuel n (turned buf) h,
  sum_words_congr fuel 38 n (echo_reply n buf) (turned buf) (λ j hj. echo_outside n buf j hj),
  echo_field n buf,
  turned_field buf,
)

-- The ICMP message of the answer passes the receiver's check: its big-endian words, the checksum
-- among them, add up to 0xFFFF in one's complement (of a frame of odd length, without its last
-- byte).
pub echo_reply_valid :
    (n : ℕ) (buf : ℕ → ℕ)
    → 42 ≤ n
    → n ≤ 1600
    → ((j : ℕ) → IsU8 (buf j))
    → fold_sum fold_fuel (sum_words n 34 n (echo_reply n buf)) ≡ 0xFFFF
echo_reply_valid zero buf h hn hb = absurd (omega arith)
echo_reply_valid (suc zero) buf h hn hb = absurd (omega arith)
echo_reply_valid (suc (suc k)) buf h hn hb =
    let n = suc (suc k) in
    let t = turned buf in
    let s = sum_words n 34 n t in
    let le : s ≤ 65535 * n = sum_words-le n 34 n t (turned-IsU8 buf hb) in
    let f = fold_sum-IsFolded s (omega arith) in
    let c = checksum_value n t f.small in
    let total = sum_words-echo k n buf h (omega (arith, c)) in
    let g = fold_sum-IsFolded (sum_words n 34 n (echo_reply n buf)) (omega (arith, c, total)) in
    ground (arith, f, g, c, total)
