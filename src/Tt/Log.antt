-- ===== src/Tt/Log.antt =====
-- `ev_t` and `ev_log_t`: the growing log of events and the search in it.
pub mod Append
pub mod Seek
use lecerf.Base.{
  ℕ, zero, suc, ◌+◌, ◌-◌, ◌*◌, ◌/◌, ◌%◌, ◌^◌, Bool, true, false, not, ◌==◌, leb, ltb, if◌then◌else◌,
  u32, mul32, add32, sub32, List, [], ◌∷◌, ◌++◌, length, get_elem?, get_or,
}

-- `ev_t`, without its padding.
pub record Event : Type 0 where
  pub cycle : ℕ
  pub kind : ℕ
  pub payload : ℕ

abbrev pub event_uart_rx : ℕ
event_uart_rx = 1

abbrev pub event_irq_inject : ℕ
event_irq_inject = 2

abbrev pub event_eth_rx : ℕ
event_eth_rx = 3

abbrev pub tt_log_max : ℕ
tt_log_max = 65536

-- `ev_log_t`; the list is `buf[0 .. n)`, and `pos` the replay cursor.
pub record EventLog : Type 0 where
  pub buf : List Event
  pub cap : ℕ
  pub pos : ℕ

-- `alloc n` tells whether `malloc` or `realloc` gives room for `n` events.
-- `ev_log_init`
unfoldable pub ev_log_init : (ℕ → Bool) → ℕ → EventLog
ev_log_init alloc cap = record { buf = []; cap = if alloc cap then cap else 0; pos = 0 }

-- `ev_log_free`
unfoldable pub ev_log_free : EventLog → EventLog
ev_log_free lg = record { buf = []; cap = 0; pos = 0 }

-- The capacity that a full log asks for.
grown : ℕ → ℕ
grown cap =
    let nc = if cap == 0 then 64 else mul32 cap 2 in if ltb tt_log_max nc then tt_log_max else nc

-- The log with one more event at its end.
abbrev pub push_event : Event → EventLog → EventLog
push_event e lg = record lg { buf = lg.buf ++ e ∷ [] }

-- `ev_log_append`
unfoldable pub ev_log_append : (ℕ → Bool) → Event → EventLog → Bool × EventLog
unfolding grown
ev_log_append alloc e lg =
    let nc = grown lg.cap in
    if ltb (length lg.buf) lg.cap
    then (true, push_event e lg)
    else if leb nc lg.cap
    then (false, lg)
    else if alloc nc
    then (true, push_event e (record lg { cap = nc }))
    else (false, lg)

abbrev pub no_event : Event
no_event = record { cycle = 0; kind = 0; payload = 0 }

-- `lg->buf[mid].cycle`, with `mid` below `n`.
abbrev pub cycle_at : List Event → ℕ → ℕ
cycle_at buf mid = (get_or buf mid no_event).cycle

-- The loop of `ev_log_seek`; `hi - lo` falls in each round.
seek_loop : ℕ → List Event → ℕ → ℕ → ℕ → ℕ
seek_loop zero buf cycle lo hi = lo
seek_loop (suc fuel) buf cycle lo hi =
    let mid = add32 lo (sub32 hi lo / 2) in
    let upper = seek_loop fuel buf cycle (add32 mid 1) hi in
    let lower = seek_loop fuel buf cycle lo mid in
    if ltb lo hi then (if ltb (cycle_at buf mid) cycle then upper else lower) else lo

-- `ev_log_seek`: the index of the first event at `cycle` or later.
unfoldable pub ev_log_seek : EventLog → ℕ → ℕ
unfolding seek_loop
ev_log_seek lg cycle = seek_loop (length lg.buf) lg.buf cycle 0 (length lg.buf)
