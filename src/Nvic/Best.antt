-- ===== src/Nvic/Best.antt =====
-- `nvic_pick` returns the ready line of the most urgent priority, the lowest such line on a tie.
use lecerf.Base.{
  ℕ, zero, suc, ◌+◌, ◌*◌, ◌/◌, ◌%◌, ◌^◌, ◌≤◌, ◌<◌, ◌==◌, ltb, if◌then◌else◌, Option, none, some,
  get_or, length, get_elem?-eq-get_or, ◌≡◌, ◌≢◌, refl, sym, ap, ap₂, ◌∙◌, arith, ◌>>=◌, ==_of_ne,
  ltb_of_lt, ltb_of_le,
}
use lecerf.Base.Bits.{bit, two_pow_suc}
use native.Mathlib.Nat.{div-div-eq-div-mul}
use native.Mathlib.Numerals.{towards_suc}
use mathlib.Core.Path.{subst}
use native.Mathlib.Decide.{ℕ_discrete, dec_lt}
use lecerf.Nvic.{Nvic, Best, consider, ready_word, pick_bits, pick_words, nvic_pick}
use lecerf.Nvic.Pick.{consider_if, scan_word, pick_bits-eq-scan}

-- Line `irq` is enabled and pending and not active.
abbrev pub ready : Nvic → ℕ → ℕ
ready n irq = bit (ready_word n (irq / 32)) (irq % 32)

abbrev pub prio_of : Nvic → ℕ → ℕ
prio_of n irq = get_or n.prio irq 0

-- 240 priorities, and only the 240 lines can be ready.
pub record IsValid (n : Nvic) : Type 0 where
  pub priorities : length n.prio ≡ 240
  pub lines : (irq : ℕ) → 240 ≤ irq → irq < 256 → ready n irq ≡ 0
  pub words : (w : ℕ) → ready_word n w < 2 ^ 32

-- `i` is the first of the most urgent ready lines below `seen`, and its priority is `p`.
pub record IsMostUrgent (n : Nvic) (seen i p : ℕ) : Type 0 where
  pub below : i < seen
  pub is_ready : ready n i ≡ 1
  pub its_prio : prio_of n i ≡ p
  pub urgent : p < 0xFF
  pub least : (j : ℕ) → j < seen → ready n j ≡ 1 → p ≤ prio_of n j
  pub first : (j : ℕ) → j < i → ready n j ≡ 1 → p < prio_of n j

-- What the loops know after the lines below `seen`.
data IsBest (n : Nvic) (seen : ℕ) : Best → Type 0 where
  nobody :
      {p : ℕ}
      → p ≡ 0xFF
      → ((j : ℕ) → j < seen → ready n j ≡ 1 → 0xFF ≤ prio_of n j)
      → IsBest n seen (none, p)
  somebody : {i p : ℕ} → IsMostUrgent n seen i p → IsBest n seen (some i, p)

-- A property of the numbers below `k`, and of `k`.
extend : (P : ℕ → Type 0) (k : ℕ) → ((j : ℕ) → j < k → P j) → P k → (j : ℕ) → j < suc k → P j
extend P k h now j lt = elim (ℕ_discrete j k) [ yes e ↦ rw e now | no ne ↦ h j (omega arith) ]

-- The loops go on with some candidate that is the best of the lines below `seen`.
abbrev Goes : Nvic → ℕ → Option Best → Type 0
Goes n seen r = (best : Best) × (r ≡ some best) × IsBest n seen best

module _ (n : Nvic) (k : ℕ) where
  skip_line : (best : Best) → ready n k ≢ 1 → IsBest n k best → IsBest n (suc k) best
  skip_line (none, p) off (nobody e all) =
      nobody e (extend (λ j. ready n j ≡ 1 → 0xFF ≤ prio_of n j) k all (λ on. absurd (off on)))
  skip_line (some i, p) off (somebody top) = somebody (record {
    below = omega (arith, top.below);
    is_ready = top.is_ready;
    its_prio = top.its_prio;
    urgent = top.urgent;
    least = extend (λ j. ready n j ≡ 1 → p ≤ prio_of n j) k top.least (λ on. absurd (off on));
    first = top.first;
  })

  -- A line that is not more urgent than the candidate.
  keep_best : (best : Best) → best.1 ≤ prio_of n k → IsBest n k best → IsBest n (suc k) best
  keep_best (none, p) le (nobody e all) =
      nobody e (extend (λ j. ready n j ≡ 1 → 0xFF ≤ prio_of n j) k all (λ on. omega arith))
  keep_best (some i, p) le (somebody top) = somebody (record {
    below = omega (arith, top.below);
    is_ready = top.is_ready;
    its_prio = top.its_prio;
    urgent = top.urgent;
    least = extend (λ j. ready n j ≡ 1 → p ≤ prio_of n j) k top.least (λ on. le);
    first = top.first;
  })

  -- A more urgent line takes the candidate's place.
  replace_best :
      (best : Best)
      → ready n k ≡ 1
      → prio_of n k < best.1
      → IsBest n k best
      → IsMostUrgent n (suc k) k (prio_of n k)
  replace_best (none, p) on lt (nobody e all) = record {
    below = omega arith;
    is_ready = on;
    its_prio = refl;
    urgent = omega arith;
    least =
        extend (λ j. ready n j ≡ 1 → prio_of n k ≤ prio_of n j) k
          (λ j hj on'. omega (arith, all j hj on')) (λ on'. omega arith);
    first = λ j hj on'. omega (arith, all j hj on');
  }
  replace_best (some i, p) on lt (somebody top) = record {
    below = omega arith;
    is_ready = on;
    its_prio = refl;
    urgent = omega (arith, top.urgent);
    least =
        extend (λ j. ready n j ≡ 1 → prio_of n k ≤ prio_of n j) k
          (λ j hj on'. omega (arith, top.least j hj on')) (λ on'. omega arith);
    first = λ j hj on'. omega (arith, top.least j hj on');
  }

consider_lem :
    (n : Nvic) (k : ℕ) (best : Best)
    → k < length n.prio
    → consider n k best ≡ some (if ltb (prio_of n k) best.1 then (some k, prio_of n k) else best)
unfolding consider
consider_lem n k (b, p) h = ground (arith, get_elem?-eq-get_or n.prio k 0 h)

-- One line.
line_step :
    (n : Nvic) (k : ℕ) (best : Best)
    → IsValid n
    → k < 256
    → IsBest n k best
    → Goes n (suc k) (consider_if (ready n k == 1) n k best)
unfolding consider_if
line_step n k best v hk h = elim (ℕ_discrete (ready n k) 1) [
  | no off ↦ rw (==_of_ne (ready n k) 1 off) (best, refl, skip_line n k best off h)
  | yes on ↦
      let line : k < length n.prio = elim (dec_lt k 240) [
        | yes lt ↦ omega (arith, v.priorities)
        | no ge ↦ absurd (omega (arith, v.lines k (omega arith) hk))
      ] in
      elim (dec_lt (prio_of n k) best.1) [
        | yes lt ↦
            rw (on, consider_lem n k best line, ltb_of_lt (prio_of n k) best.1 lt)
              ((some k, prio_of n k), refl, somebody (replace_best n k best on lt h))
        | no ge ↦
            rw (on, consider_lem n k best line, ltb_of_le (prio_of n k) best.1 (omega arith))
              (best, refl, keep_best n k best (omega arith) h)
      ]
]

-- The rest of a chain after a step that succeeds.
Goes->>= :
    {n : Nvic} {seen seen' : ℕ} {r : Option Best} (f : Best → Option Best)
    → Goes n seen r
    → ((best : Best) → IsBest n seen best → Goes n seen' (f best))
    → Goes n seen' (r >>= f)
Goes->>= f (best, e, h) next = rw e (next best h)

shift : (x b : ℕ) → x / 2 ^ b / 2 ≡ x / 2 ^ (b + 1)
shift x b =
    let e : 2 ^ b * 2 ≡ 2 ^ (b + 1) = simp towards_suc (omega (arith, two_pow_suc b)) in
    div-div-eq-div-mul x (2 ^ b) 2 ∙ ap (λ (t : ℕ). x / t) e

-- The lines of one word, from digit `b` on.
scan_word_step :
    (n : Nvic) (left w b : ℕ) (best : Best)
    → IsValid n
    → w < 8
    → b + left ≡ 32
    → IsBest n (w * 32 + b) best
    → Goes n (w * 32 + 32) (scan_word left n w b (ready_word n w / 2 ^ b) best)
unfolding scan_word
scan_word_step n zero w b best v hw hb h = let e : b ≡ 32 = omega arith in (best, refl, rw e at h)
scan_word_step n (suc left) w b best v hw hb h =
    let k = w * 32 + b in
    let word : k / 32 ≡ w = omega arith in
    let digit : k % 32 ≡ b = omega arith in
    let same = ap₂ (λ (x y : ℕ). consider_if (bit (ready_word n x) y == 1) n k best) word digit in
    let next : w * 32 + (b + 1) ≡ suc k = omega arith in
    let rest = ready_word n w / 2 ^ b / 2 in
    Goes->>= (scan_word left n w (b + 1) rest)
      (subst (Goes n (suc k)) same (line_step n k best v (omega arith) h))
      (λ best' h'.
        rw (shift (ready_word n w) b)
          (scan_word_step n left w (b + 1) best' v hw (omega arith) (rw next h')))

-- One word.
word_step :
    (n : Nvic) (w : ℕ) (best : Best)
    → IsValid n
    → w < 8
    → IsBest n (w * 32) best
    → Goes n (w * 32 + 32) (pick_bits 32 n w (ready_word n w) best)
word_step n w best v hw h =
    let x = ready_word n w in
    let whole : x ≡ x * 2 ^ 0 = omega arith in
    let unit : x ≡ x / 2 ^ 0 = omega arith in
    let start : w * 32 + 0 ≡ w * 32 = omega arith in
    let path =
      ap (λ (t : ℕ). pick_bits 32 n w t best) whole
      ∙ pick_bits-eq-scan 32 32 0 n w x best (v.words w) (omega arith) (omega arith)
      ∙ ap (λ (t : ℕ). scan_word 32 n w 0 t best) unit in
    subst (Goes n (w * 32 + 32)) (sym path) (scan_word_step n 32 w 0 best v hw refl (rw start h))

-- The words from `w` on.
pick_words_step :
    (n : Nvic) (left w : ℕ) (best : Best)
    → IsValid n
    → w + left ≡ 8
    → IsBest n (w * 32) best
    → Goes n 256 (pick_words left n w best)
unfolding pick_words
pick_words_step n zero w best v hw h = let e : w ≡ 8 = omega arith in (best, refl, rw e at h)
pick_words_step n (suc left) w best v hw h =
    let next : w * 32 + 32 ≡ (w + 1) * 32 = omega arith in
    Goes->>= (pick_words left n (w + 1)) (word_step n w best v (omega arith) h)
      (λ best' h'. pick_words_step n left (w + 1) best' v (omega arith) (rw (← next) h'))

-- What `nvic_pick` returns.
pub data IsPicked (n : Nvic) : Option ℕ → Type 0 where
  none_urgent : ((j : ℕ) → j < 256 → ready n j ≡ 1 → 0xFF ≤ prio_of n j) → IsPicked n none
  picked : {i p : ℕ} → IsMostUrgent n 256 i p → IsPicked n (some i)

-- With only the 240 lines ready, `nvic_pick` stays inside the priorities, and returns the lowest
-- of the ready lines with the most urgent priority below 0xFF, or nothing where each ready line
-- has the priority 0xFF.
pub nvic_pick-IsPicked :
    (n : Nvic) → IsValid n → (r : Option ℕ) × (nvic_pick n ≡ some r) × IsPicked n r
unfolding nvic_pick
nvic_pick-IsPicked n v =
    of_best (pick_words_step n 8 0 (none, 0xFF) v refl (nobody refl (λ j lt. absurd (omega arith))))
  where
    of_best :
        {r : Option Best}
        → Goes n 256 r
        → (b : Option ℕ) × ((r >>= λ best. some best.0) ≡ some b) × IsPicked n b
    of_best ((none, p), e, nobody e' all) = (none, rw e, none_urgent all)
    of_best ((some i, p), e, somebody top) = (some i, rw e, picked top)
