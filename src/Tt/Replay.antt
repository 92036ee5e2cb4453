-- ===== src/Tt/Replay.antt =====
-- The way back to a cycle of src/core/tt.c, with `run_until_cycle` of src/core/run.c: a snapshot is
-- restored, and the run goes on from it while the events of the log are injected at their cycles.
pub mod Rewind
use lecerf.Base.{
  ℕ, zero, suc, ◌+◌, ◌-◌, Bool, true, false, not, ◌==◌, ◌||◌, leb, ltb, if◌then◌else◌, bit_and,
  Option, none, some, List, [], ◌∷◌, drop, get_elem?,
}
use lecerf.Periph.Eth.{EthHost, eth_inject_rx}
use lecerf.Periph.Uart.{uart_inject_rx}
use lecerf.Nvic.{nvic_set_pending}
use lecerf.Run.{RunCtx, run_steps_full_gc}
use lecerf.Tt.Log.{Event, EventLog, ev_log_seek, event_uart_rx, event_irq_inject, event_eth_rx}
use lecerf.Tt.Snapshot.{Board, Snapshot, snap_restore}
use lecerf.Tt.Index.{SnapEntry, Tt, tt_bsearch_le}

-- How a replay can end: in the source's result, at a read or a copy out of bounds, or not within
-- its fuel.
pub data Outcome (A : Type 0) : Type 0 where
  done : A → Outcome A
  out_of_bounds : Outcome A
  out_of_fuel : Outcome A

-- The rest of a computation after one that can fail.
abbrev pub and_then : {A B : Type 0} → Outcome A → (A → Outcome B) → Outcome B
and_then (done x) f = f x
and_then out_of_bounds f = out_of_bounds
and_then out_of_fuel f = out_of_fuel

-- The run loop on a board whose block cache is the attached one, and the network device's accesses.
pub record Replayer (T N G : Type 0) : Type 0 where
  pub ctx : RunCtx T (Board T N G) N G
  pub eth : EthHost (Board T N G)
  pub bytes_of : Snapshot → List ℕ
  pub forget : G → G

module _ {T N G : Type 0} (rp : Replayer T N G) where
  open rp use {ctx, eth, bytes_of, forget}

  -- `tt_inject_event`; `frames` are those of `g_tt`, or `none` for a null pointer.
  unfoldable pub tt_inject_event : Option (List (List ℕ)) → Event → Board T N G → Board T N G
  tt_inject_event frames e m =
      let p = m.periph in
      if e.kind == event_uart_rx
      then record m { periph = record p { uart = uart_inject_rx (bit_and e.payload 0xFF) p.uart } }
      else if e.kind == event_irq_inject
      then record m { periph = record p { nv = nvic_set_pending e.payload p.nv } }
      else if e.kind == event_eth_rx
      then elim frames [
        | none ↦ m
        | some fs ↦ elim (get_elem? fs e.payload) [
          | none ↦ m
          | some [] ↦ m
          | some (x ∷ xs) ↦ eth_inject_rx eth (x ∷ xs) m
        ]
      ]
      else m

  -- The inner loop of `run_until_cycle`, on the events from `*log_pos` on: those that are due are
  -- injected.
  inject_due : Option (List (List ℕ)) → List Event → Board T N G → List Event × Board T N G
  unfolding tt_inject_event
  inject_due frames [] m = ([], m)
  inject_due frames (e ∷ es) m =
      let rest = inject_due frames es (tt_inject_event frames e m) in
      if leb e.cycle m.cpu.cycles then rest else (e ∷ es, m)

  -- The cycle that a round runs to.
  stop_at : List Event → ℕ → ℕ
  stop_at [] target = target
  stop_at (e ∷ es) target = if ltb e.cycle target then e.cycle else target

  -- `run_steps_full_g`, which takes the devices and the block cache of the board.
  unfoldable pub run_steps_full_g : ℕ → Board T N G → Option (Board T N G)
  run_steps_full_g max_steps m = elim (run_steps_full_gc ctx max_steps m.jit m) [
    | none ↦ none
    | some (i, g, dc, m') ↦ some (record m' { jit = g; dcache = dc })
  ]

  -- The outer loop of `run_until_cycle`; `stop_at` is not before the cycle of the board, as each
  -- event that is left is later.
  until_loop : ℕ → Option (List (List ℕ)) → ℕ → List Event → Board T N G → Outcome (Board T N G)
  unfolding inject_due stop_at run_steps_full_g
  until_loop zero frames target es m = if ltb m.cpu.cycles target then out_of_fuel else done m
  until_loop (suc fuel) frames target es m =
      let (es', m1) = inject_due frames es m in
      let gap = stop_at es' target - m1.cpu.cycles in
      let next = until_loop fuel frames target es' in
      if ltb m.cpu.cycles target
      then if gap == 0 then done m1 else elim (run_steps_full_g gap m1) [
        | none ↦ out_of_bounds
        | some m2 ↦ if m2.cpu.cycles == m1.cpu.cycles then done m2 else next m2
      ]
      else done m

  -- `run_until_cycle`, on a fuel of one round for each cycle up to the target. Where runs take the
  -- cycle counter back more rounds may be needed: the result is then `out_of_fuel`.
  unfoldable pub run_until_cycle :
      Option (List (List ℕ)) → ℕ → List Event → Board T N G → Outcome (Board T N G)
  unfolding until_loop
  run_until_cycle frames target es m = until_loop (target - m.cpu.cycles) frames target es m

  -- The result `true` of a function that ends in a run.
  abbrev arrived : Outcome (Board T N G) → Outcome (Bool × Board T N G)
  arrived o = and_then o (λ m. done (true, m))

  -- `tt_replay`, of a log or of none.
  unfoldable pub tt_replay :
      Option (List (List ℕ))
      → Snapshot
      → Option EventLog
      → ℕ
      → Board T N G
      → Outcome (Bool × Board T N G)
  unfolding run_until_cycle
  tt_replay frames s lg target m = elim (snap_restore bytes_of forget s m) [
    | none ↦ out_of_bounds
    | some (ok, m1) ↦
        let c = m1.cpu.cycles in
        let es : List Event = elim lg [ none ↦ [] | some l ↦ drop (ev_log_seek l c) l.buf ] in
        if not ok || ltb target c
        then done (false, m1)
        else arrived (run_until_cycle frames target es m1)
  ]

  -- `tt_rewind`
  unfoldable pub tt_rewind :
      Option (List (List ℕ)) → Tt → ℕ → Board T N G → Outcome (Bool × Board T N G)
  unfolding run_until_cycle
  tt_rewind frames t target m = elim (tt_bsearch_le t.idx target) [
    | none ↦ done (false, m)
    | some i ↦ elim (get_elem? t.idx i) [
      | none ↦ out_of_bounds
      | some e ↦ elim (get_elem? t.snaps e.snap_idx) [
        | none ↦ out_of_bounds
        | some b ↦ elim (snap_restore bytes_of forget b m) [
          | none ↦ out_of_bounds
          | some (ok, m1) ↦
              let c = m1.cpu.cycles in
              let es = drop (ev_log_seek t.log c) t.log.buf in
              if not ok
              then done (false, m1)
              else if ltb c target
              then arrived (run_until_cycle frames target es m1)
              else done (true, m1)
        ]
      ]
    ]
  ]

  -- `tt_step_back`
  unfoldable pub tt_step_back :
      Option (List (List ℕ)) → Tt → ℕ → Board T N G → Outcome (Bool × Board T N G)
  unfolding tt_rewind
  tt_step_back frames t n m =
      if ltb m.cpu.cycles n then done (false, m) else tt_rewind frames t (m.cpu.cycles - n) m
