-- ===== src/Tt/Index.antt =====
-- The store of snapshots of `tt_t`, its index by cycle and the search in it (src/core/tt.c).
pub mod Floor
pub mod Stride
use lecerf.Base.{
  ℕ, zero, suc, ◌+◌, ◌-◌, ◌*◌, ◌/◌, ◌%◌, Bool, true, false, not, ◌==◌, ◌&&◌, ◌||◌, ltb, leb,
  if◌then◌else◌, u64, Option, none, some, List, [], ◌∷◌, ◌++◌, length, get_or,
}
use lecerf.Tt.Log.{EventLog, ev_log_init}
use lecerf.Tt.Snapshot.{Board, Snapshot, snap_save}

-- `snap_entry_t`
pub record SnapEntry : Type 0 where
  pub cycle : ℕ
  pub snap_idx : ℕ

-- `tt_t`; the lists are `snaps`, `idx` and `frames` up to `n_snaps` and `n_frames`.
pub record Tt : Type 0 where
  pub stride : ℕ
  pub max_snaps : ℕ
  pub snaps : List Snapshot
  pub idx : List SnapEntry
  pub log : EventLog
  pub frames : List (List ℕ)

abbrev pub no_entry : SnapEntry
no_entry = record { cycle = 0; snap_idx = 0 }

-- `idx[i].cycle`, with `i` below `n_snaps`.
abbrev pub entry_cycle : List SnapEntry → ℕ → ℕ
entry_cycle idx i = (get_or idx i no_entry).cycle

-- `tt_create`. `room` tells whether `calloc` gives the three arrays, and `alloc` what `malloc`
-- gives to the log.
unfoldable pub tt_create : Bool → (ℕ → Bool) → ℕ → ℕ → Option Tt
unfolding ev_log_init
tt_create room alloc stride max_snaps =
    if (stride == 0) || (max_snaps == 0) || not room
    then none
    else some (record {
      stride = stride;
      max_snaps = max_snaps;
      snaps = [];
      idx = [];
      log = ev_log_init alloc 16;
      frames = [];
    })

-- The cycle that the next snapshot waits for.
unfoldable pub next_cycle : Tt → ℕ
next_cycle t =
    let n = length t.idx in if n == 0 then t.stride else u64 (entry_cycle t.idx (n - 1) + t.stride)

-- `tt_on_cycle`, with `replay` for `g_replay_mode`.
unfoldable pub tt_on_cycle : {T N G : Type 0} → (Snapshot → List ℕ) → Bool → Board T N G → Tt → Tt
unfolding next_cycle
tt_on_cycle bytes_of replay m t =
    let saved = snap_save bytes_of m in
    if replay
    then t
    else if ltb m.cpu.cycles (next_cycle t)
    then t
    else if leb t.max_snaps (length t.idx)
    then t
    else elim saved [
      | none ↦ t
      | some b ↦ record t {
        snaps = t.snaps ++ b ∷ [];
        idx = t.idx ++ record { cycle = m.cpu.cycles; snap_idx = length t.idx } ∷ [];
      }
    ]

-- The loop of `tt_bsearch_le`. The source's `hi` is `top - 1`, which can be -1, and its `best` is
-- -1 for `none`. `top - lo` falls in each round.
floor_loop : ℕ → List SnapEntry → ℕ → ℕ → ℕ → Option ℕ → Option ℕ
floor_loop zero a target lo top best = best
floor_loop (suc fuel) a target lo top best =
    let mid = lo + (top - 1 - lo) / 2 in
    let upper = floor_loop fuel a target (mid + 1) top (some mid) in
    let lower = floor_loop fuel a target lo mid best in
    if ltb lo top then (if leb (entry_cycle a mid) target then upper else lower) else best

-- `tt_bsearch_le`
unfoldable pub tt_bsearch_le : List SnapEntry → ℕ → Option ℕ
unfolding floor_loop
tt_bsearch_le a target = floor_loop (length a) a target 0 (length a) none
