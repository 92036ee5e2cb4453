-- ===== src/Tt/Index/Stride.antt =====
-- The snapshots of a session are a stride apart, and their index stays ordered.
use lecerf.Base.{
  ℕ, ◌+◌, ◌-◌, ◌^◌, ◌≤◌, ◌<◌, Bool, true, false, ltb, leb, List, [], ◌∷◌, ◌++◌, length, get_or,
  length-append, get_or-append_left, get_or-append_last, Bool-cases, Option-cases, inl, inr, ◌≡◌,
  refl, arith,
}
use native.Mathlib.Decide.{dec_lt}
use lecerf.Tt.Snapshot.{Board, Snapshot, snap_save}
use lecerf.Tt.Index.{SnapEntry, Tt, no_entry, entry_cycle, next_cycle, tt_on_cycle}

-- No more snapshots than the arrays hold, a snapshot for each entry, the entry of each snapshot,
-- the strides between them, and room below 2 ^ 63 for the cycle counters.
pub record IsSpaced (t : Tt) : Type 0 where
  pub fits : length t.idx ≤ t.max_snaps
  pub paired : length t.snaps ≡ length t.idx
  pub positive : 1 ≤ t.stride
  pub word : t.stride < 2 ^ 32
  pub indexed : (i : ℕ) → i < length t.idx → (get_or t.idx i no_entry).snap_idx ≡ i
  pub small : (i : ℕ) → i < length t.idx → entry_cycle t.idx i < 2 ^ 63
  pub spaced :
      (i j : ℕ) → i < j → j < length t.idx → entry_cycle t.idx i + t.stride ≤ entry_cycle t.idx j

after_last :
    (t : Tt) (i c : ℕ)
    → IsSpaced t
    → i < length t.idx
    → next_cycle t ≤ c
    → entry_cycle t.idx i + t.stride ≤ c
unfolding next_cycle
after_last t i c s h late =
    let last = length t.idx - 1 in
    let bound = s.small last (omega arith) in
    let next : next_cycle t ≡ entry_cycle t.idx last + t.stride = ground (arith, s.word, bound) in
    elim (dec_lt i last) [
      | yes before ↦ omega (arith, next, s.spaced i last before (omega arith), s.positive)
      | no there ↦ let same : i ≡ last = omega arith in rw same (omega (arith, next))
    ]

added-IsSpaced :
    (t : Tt) (b : Snapshot) (c : ℕ)
    → IsSpaced t
    → c < 2 ^ 63
    → next_cycle t ≤ c
    → length t.idx < t.max_snaps
    → IsSpaced (record t {
      snaps = t.snaps ++ b ∷ [];
      idx = t.idx ++ record { cycle = c; snap_idx = length t.idx } ∷ [];
    })
unfolding next_cycle
added-IsSpaced t b c s hc late room =
    let e : SnapEntry = record { cycle = c; snap_idx = length t.idx } in
    let n = length t.idx in
    let long = length-append t.idx (e ∷ []) in
    let at_end : get_or (t.idx ++ e ∷ []) n no_entry ≡ e = get_or-append_last t.idx e no_entry in
    let old : (i : ℕ) → i < n → get_or (t.idx ++ e ∷ []) i no_entry ≡ get_or t.idx i no_entry =
      λ i h. get_or-append_left t.idx (e ∷ []) i no_entry h in
    record {
      fits = omega (arith, long);
      paired = omega (arith, long, length-append t.snaps (b ∷ []), s.paired);
      positive = s.positive;
      word = s.word;
      indexed = λ i h. elim (dec_lt i n) [
        | yes low ↦ rw (old i low) (s.indexed i low)
        | no high ↦ let same : i ≡ n = omega (arith, long) in rw (same, at_end) refl
      ];
      small = λ i h. elim (dec_lt i n) [
        | yes low ↦ rw (entry_cycle, old i low) (s.small i low)
        | no high ↦ let same : i ≡ n = omega (arith, long) in rw (entry_cycle, same, at_end) hc
      ];
      spaced = λ i j h h'. elim (dec_lt j n) [
        | yes low ↦ rw (entry_cycle, old i (omega arith), old j low) (s.spaced i j h low)
        | no high ↦
            let same : j ≡ n = omega (arith, long) in
            rw (entry_cycle, same, at_end, old i (omega arith))
              (after_last t i c s (omega arith) late)
      ];
    }

-- `tt_on_cycle` keeps the store well-formed, for a cycle counter below 2 ^ 63: no more snapshots
-- than were asked for, one for each entry of the index, and successive entries at least a stride
-- apart.
pub tt_on_cycle-IsSpaced :
    {T N G : Type 0} (bytes_of : Snapshot → List ℕ) (replay : Bool) (m : Board T N G) (t : Tt)
    → m.cpu.cycles < 2 ^ 63
    → IsSpaced t
    → IsSpaced (tt_on_cycle bytes_of replay m t)
unfolding tt_on_cycle
tt_on_cycle-IsSpaced bytes_of true m t hc s = s
tt_on_cycle-IsSpaced bytes_of false m t hc s = elim (Bool-cases (ltb m.cpu.cycles (next_cycle t))) [
  | inl early ↦ rw early s
  | inr late ↦ rw late (elim (Bool-cases (leb t.max_snaps (length t.idx))) [
    | inl full ↦ rw full s
    | inr room ↦ rw room (elim (Option-cases (snap_save bytes_of m)) [
      | inl e ↦ rw e s
      | inr (b, e) ↦
          rw e (added-IsSpaced t b m.cpu.cycles s hc (ground (arith, late)) (ground (arith, room)))
    ])
  ])
]
