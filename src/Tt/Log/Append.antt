-- ===== src/Tt/Log/Append.antt =====
-- The log keeps its events in order and its bounds.
use lecerf.Base.{
  ℕ, ◌≤◌, Bool, true, ltb, if◌then◌else◌, [], ◌∷◌, ◌++◌, length, length-append, ◌≡◌, arith,
}
use lecerf.Tt.Log.{Event, EventLog, tt_log_max, grown, ev_log_append}

-- No more events than the capacity, and a capacity of 65536 at most.
pub record IsValid (lg : EventLog) : Type 0 where
  pub fits : length lg.buf ≤ lg.cap
  pub bounded : lg.cap ≤ tt_log_max

-- Appending keeps the bounds, on success and on failure.
ev_log_append-IsValid :
    (alloc : ℕ → Bool) (e : Event) (lg : EventLog)
    → IsValid lg
    → IsValid (ev_log_append alloc e lg).1
unfolding ev_log_append
ev_log_append-IsValid alloc e lg v = ground (arith, length-append lg.buf (e ∷ []))

-- With memory at hand, an append to a valid log succeeds exactly when it holds fewer than 65536
-- events; it then adds the event at the end, and otherwise it leaves the log alone.
pub ev_log_append_lem :
    (alloc : ℕ → Bool) (e : Event) (lg : EventLog)
    → IsValid lg
    → ((n : ℕ) → alloc n ≡ true)
    → let (done, lg') = ev_log_append alloc e lg in
      (done ≡ ltb (length lg.buf) tt_log_max)
      × (lg'.buf ≡ (if done then lg.buf ++ e ∷ [] else lg.buf))
      × (lg'.pos ≡ lg.pos)
unfolding ev_log_append
ev_log_append_lem alloc e lg v ok = ground (arith, ok (grown lg.cap))
