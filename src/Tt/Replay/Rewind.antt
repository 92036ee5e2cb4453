-- ===== src/Tt/Replay/Rewind.antt =====
-- A rewind to the cycle of a snapshot gives back the board that was saved.
use lecerf.Base.{ℕ, [], ◌∷◌, ◌++◌, length}
use lecerf.Tt.Snapshot.{Snapshot}
use lecerf.Tt.Index.{Tt}

-- The session with one more snapshot, as `tt_on_cycle` leaves it.
abbrev with_snapshot : Tt → Snapshot → ℕ → Tt
with_snapshot t b c = record t {
  snaps = t.snaps ++ b ∷ [];
  idx = t.idx ++ record { cycle = c; snap_idx = length t.idx } ∷ [];
}
