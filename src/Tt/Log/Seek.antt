-- ===== src/Tt/Log/Seek.antt =====
-- The binary search is the lower bound of a sorted log.
use lecerf.Base.{
  ℕ, zero, suc, ◌+◌, ◌-◌, ◌/◌, ◌≤◌, ◌<◌, add32, sub32, List, length, ◌^◌, ltb_of_lt, ltb_of_le, ◌≡◌,
  arith,
}
use native.Mathlib.Decide.{dec_lt}
use lecerf.Tt.Log.{Event, EventLog, cycle_at, seek_loop, ev_log_seek}

-- Cycles never fall along the log.
abbrev pub IsSorted : List Event → Type 0
IsSorted buf = (i j : ℕ) → i ≤ j → j < length buf → cycle_at buf i ≤ cycle_at buf j

-- `k` is the lower bound of `cycle`: events before it are earlier, the others are not.
pub record IsLowerBound (buf : List Event) (cycle k : ℕ) : Type 0 where
  pub within : k ≤ length buf
  pub earlier : (j : ℕ) → j < k → cycle_at buf j < cycle
  pub later : (j : ℕ) → k ≤ j → j < length buf → cycle ≤ cycle_at buf j

seek_loop-IsLowerBound :
    (fuel : ℕ) (buf : List Event) (cycle lo hi : ℕ)
    → IsSorted buf
    → length buf < 2 ^ 31
    → hi ≤ length buf
    → lo ≤ hi
    → hi - lo ≤ fuel
    → ((j : ℕ) → j < lo → cycle_at buf j < cycle)
    → ((j : ℕ) → hi ≤ j → j < length buf → cycle ≤ cycle_at buf j)
    → IsLowerBound buf cycle (seek_loop fuel buf cycle lo hi)
unfolding seek_loop
seek_loop-IsLowerBound zero buf cycle lo hi srt small hn hl hf below above = record {
  within = omega arith;
  earlier = below;
  later = λ j p q. above j (omega arith) q;
}
seek_loop-IsLowerBound (suc fuel) buf cycle lo hi srt small hn hl hf below above =
    elim (dec_lt lo hi) [
      | no stop ↦ rw (ltb_of_le lo hi (omega arith)) (record {
        within = omega arith;
        earlier = below;
        later = λ j p q. above j (omega arith) q;
      })
      | yes go ↦
          let mid = lo + (hi - lo) / 2 in
          let middle : add32 lo (sub32 hi lo / 2) ≡ mid = omega arith in
          let next : add32 mid 1 ≡ mid + 1 = omega arith in
          rw (ltb_of_lt lo hi go, middle, next)
            (elim (dec_lt (cycle_at buf mid) cycle) [
              | yes early ↦ rw (ltb_of_lt (cycle_at buf mid) cycle early) (
                  seek_loop-IsLowerBound fuel buf cycle (mid + 1) hi srt small hn (omega arith)
                    (omega arith) (λ j p. omega (arith, srt j mid (omega arith) (omega arith)))
                    above)
              | no late ↦ rw (ltb_of_le (cycle_at buf mid) cycle (omega arith)) (
                  seek_loop-IsLowerBound fuel buf cycle lo mid srt small (omega arith) (omega arith)
                    (omega arith) below (λ j p q. omega (arith, srt mid j (omega arith) q)))
            ])
    ]

-- On a sorted log, `ev_log_seek` returns the index of the first event at the cycle or later: all
-- events before that index are earlier, and none from it on is.
pub ev_log_seek-IsLowerBound :
    (lg : EventLog) (cycle : ℕ)
    → IsSorted lg.buf
    → length lg.buf < 2 ^ 31
    → IsLowerBound lg.buf cycle (ev_log_seek lg cycle)
unfolding ev_log_seek
ev_log_seek-IsLowerBound lg cycle srt small =
    seek_loop-IsLowerBound (length lg.buf) lg.buf cycle 0 (length lg.buf) srt small (omega arith)
      (omega arith) (omega arith) (λ j p. absurd (omega arith)) (λ j p q. absurd (omega arith))
