-- ===== src/Tt/Index/Floor.antt =====
-- The search for the snapshot to start from finds the latest one that is not after the target.
use lecerf.Base.{
  ℕ, zero, suc, ◌+◌, ◌-◌, ◌/◌, ◌≤◌, ◌<◌, Option, none, some, List, length, leb_of_le, leb_of_lt,
  ltb_of_lt, ltb_of_le, ◌≡◌, refl, arith,
}
use native.Mathlib.Decide.{dec_lt, dec_le}
use lecerf.Tt.Index.{SnapEntry, entry_cycle, floor_loop, tt_bsearch_le}

-- Cycles never fall along the index.
abbrev pub IsOrdered : List SnapEntry → Type 0
IsOrdered a = (i j : ℕ) → i ≤ j → j < length a → entry_cycle a i ≤ entry_cycle a j

-- `none`: every entry is after the target; `some i`: entry `i` is not, and all later ones are.
pub data IsFloor (a : List SnapEntry) (target : ℕ) : Option ℕ → Type 0 where
  before_all : ((j : ℕ) → j < length a → target < entry_cycle a j) → IsFloor a target none
  last_not_after :
      (i : ℕ)
      → i < length a
      → entry_cycle a i ≤ target
      → ((j : ℕ) → i < j → j < length a → target < entry_cycle a j)
      → IsFloor a target (some i)

-- What the loop knows of `best`: it is the entry below `lo`.
data IsBest (a : List SnapEntry) (target : ℕ) : ℕ → Option ℕ → Type 0 where
  nothing_yet : IsBest a target 0 none
  below :
      (i lo : ℕ)
      → lo ≡ i + 1
      → i < length a
      → entry_cycle a i ≤ target
      → IsBest a target lo (some i)

best-IsFloor :
    (a : List SnapEntry) (target lo : ℕ) (best : Option ℕ)
    → IsBest a target lo best
    → ((j : ℕ) → lo ≤ j → j < length a → target < entry_cycle a j)
    → IsFloor a target best
best-IsFloor a target _ _ nothing_yet h = before_all (λ j p. h j (omega arith) p)
best-IsFloor a target _ _ (below i lo e p q) h = last_not_after i p q (λ j r s. h j (omega arith) s)

floor_loop-IsFloor :
    (fuel : ℕ) (a : List SnapEntry) (target lo top : ℕ) (best : Option ℕ)
    → IsOrdered a
    → lo ≤ top
    → top ≤ length a
    → top - lo ≤ fuel
    → IsBest a target lo best
    → ((j : ℕ) → top ≤ j → j < length a → target < entry_cycle a j)
    → IsFloor a target (floor_loop fuel a target lo top best)
unfolding floor_loop
floor_loop-IsFloor zero a target lo top best srt h1 h2 hf b above =
    best-IsFloor a target lo best b (λ j p q. above j (omega arith) q)
floor_loop-IsFloor (suc fuel) a target lo top best srt h1 h2 hf b above = elim (dec_lt lo top) [
  | no stop ↦
      rw (ltb_of_le lo top (omega arith))
        (best-IsFloor a target lo best b (λ j p q. above j (omega arith) q))
  | yes go ↦
      let mid = lo + (top - 1 - lo) / 2 in
      rw (ltb_of_lt lo top go) (elim (dec_le (entry_cycle a mid) target) [
        | yes early ↦ rw (leb_of_le (entry_cycle a mid) target early) (
            floor_loop-IsFloor fuel a target (mid + 1) top (some mid) srt (omega arith) h2
              (omega arith) (below mid (mid + 1) refl (omega arith) early) above)
        | no late ↦ rw (leb_of_lt (entry_cycle a mid) target (omega arith)) (
            floor_loop-IsFloor fuel a target lo mid best srt (omega arith) (omega arith)
              (omega arith) b (λ j p q. omega (arith, srt mid j p q)))
      ])
]

-- On an ordered index, `tt_bsearch_le` returns the last entry that is not after the target, and
-- nothing where every entry is after it.
pub tt_bsearch_le-IsFloor :
    (a : List SnapEntry) (target : ℕ) → IsOrdered a → IsFloor a target (tt_bsearch_le a target)
unfolding tt_bsearch_le
tt_bsearch_le-IsFloor a target srt =
    floor_loop-IsFloor (length a) a target 0 (length a) none srt (omega arith) (omega arith)
      (omega arith) nothing_yet (λ j p q. absurd (omega arith))
