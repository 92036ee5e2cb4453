-- ===== src/Tests/Replay.antt =====
-- The event log, the snapshots and their index at concrete inputs.
use lecerf.Base.{
  ℕ, zero, suc, ◌%◌, ◌^◌, ◌<◌, true, false, none, some, List, [], ◌∷◌, set, get_or, ◌≡◌, ◌≢◌, refl,
  arith,
}
use lecerf.Cpu.{cpu_reset, m4}
use lecerf.Bus.{Region, flat, bus_find_flat, first, is_flat}
use lecerf.Nvic.{nvic_attach}
use lecerf.Periph.Systick.{systick_attach}
use lecerf.Periph.Scb.{scb_attach}
use lecerf.Periph.Mpu.{mpu_attach}
use lecerf.Periph.Dwt.{dwt_attach}
use lecerf.Periph.Stm32.{stm32_attach}
use lecerf.Periph.Eth.{eth_attach}
use lecerf.Periph.Uart.{Uart}
use lecerf.Tt.Log.{Event, EventLog, ev_log_seek}
use lecerf.Tt.Log.Append.{IsValid}
use lecerf.Tt.Log.Seek.{IsSorted, IsLowerBound, ev_log_seek-IsLowerBound}
use lecerf.Tt.Checksum.Detects.{AreBytes}
use lecerf.Tt.Snapshot.{
  Board, Snapshot, snap_save, snap_restore, snapshot_of, sum_of, sram_base_addr,
}
use lecerf.Tt.Snapshot.RoundTrip.{IsRestored, snap_restore-snap_save, snap_restore-damaged}
use lecerf.Tt.Index.{SnapEntry, Tt, entry_cycle, tt_bsearch_le, tt_on_cycle}
use lecerf.Tt.Index.Floor.{IsOrdered, IsFloor, tt_bsearch_le-IsFloor}
use lecerf.Tt.Index.Stride.{IsSpaced, tt_on_cycle-IsSpaced}

-- A full log of one event.
abbrev event : Event
event = record { cycle = 5; kind = 1; payload = 65 }

abbrev pub log : EventLog
log = record { buf = event ∷ []; cap = 1; pos = 0 }

pub log-IsValid : IsValid log
log-IsValid = record { fits = omega arith; bounded = omega arith }

log-IsSorted : IsSorted log.buf
log-IsSorted zero zero le lt = omega arith
log-IsSorted (suc i) zero le lt = absurd (omega arith)
log-IsSorted i (suc j) le lt = absurd (omega arith)

ev_log_seek-IsLowerBound_example : IsLowerBound log.buf 4 (ev_log_seek log 4)
ev_log_seek-IsLowerBound_example = ev_log_seek-IsLowerBound log 4 log-IsSorted (omega arith)

abbrev pub ram : Region (Unit {0})
ram = record { base = 0x20000000; size = 0x40000; kind = flat; writable = true; buf = λ j. j % 256 }

abbrev uart : Uart
uart = record { replay_mode = false; rx_q = λ j. 0; rx_head = 0; rx_tail = 0 }

abbrev pub board : Board (Unit {0}) (Unit {0}) (Unit {0})
board = record {
  cpu = record (cpu_reset m4) { cycles = 12 };
  bus = record { regs = ram ∷ [] };
  periph = record {
    st = systick_attach;
    nv = nvic_attach;
    scb = scb_attach;
    mpu = mpu_attach;
    dwt = dwt_attach;
    stm32 = stm32_attach;
    eth = eth_attach;
    uart = uart;
  };
  dcache = λ j. none;
  jit = none;
}

-- A layout that keeps the cycle, the version and the checksum.
abbrev pub layout : Snapshot → List ℕ
layout b = b.cycle % 256 ∷ b.version % 256 ∷ b.checksum % 256 ∷ []

pub ram_found : bus_find_flat board.bus sram_base_addr ≡ some (0, ram)
unfolding bus_find_flat first is_flat
ram_found = refl

abbrev pub saved : Snapshot
saved = record (snapshot_of board ram) { checksum = sum_of layout (snapshot_of board ram) }

pub saved_lem : snap_save layout board ≡ some saved
unfolding snap_save bus_find_flat first is_flat
saved_lem = refl

snap_restore-snap_save_example :
    (m'' : Board (Unit {0}) (Unit {0}) (Unit {0})) × (snap_restore layout (λ g. g) saved board
      ≡ some (true, m''))
    × IsRestored board m'' ram 0
snap_restore-snap_save_example =
    snap_restore-snap_save layout (λ g. g) board board saved 0 0 ram ram ram_found ram_found
      (omega arith) saved_lem

-- The snapshot with another cycle and the old checksum.
abbrev damaged : Snapshot
damaged = record saved { cycle = 13 }

layout-AreBytes : AreBytes (layout (record saved { checksum = 0 }))
unfolding snapshot_of
layout-AreBytes zero h = omega arith
layout-AreBytes (suc zero) h = omega arith
layout-AreBytes (suc (suc zero)) h = omega arith
layout-AreBytes (suc (suc (suc i))) h = absurd (omega arith)

other_cycle : ◌≢◌ {A = ℕ} 13 (get_or (layout (record saved { checksum = 0 })) 0 0)
unfolding snapshot_of
other_cycle e = absurd (omega (arith, e))

damage :
    layout (record damaged { checksum = 0 }) ≡ set (layout (record saved { checksum = 0 })) 0 13
unfolding snapshot_of
damage = refl

snap_restore-damaged_example : snap_restore layout (λ g. g) damaged board ≡ some (false, board)
snap_restore-damaged_example =
    snap_restore-damaged layout (λ g. g) board board saved damaged 0 ram 0 13 ram_found saved_lem
      refl layout-AreBytes (omega arith) (omega arith) other_cycle damage

-- A session with a stride of 10 that has one snapshot.
abbrev index : List SnapEntry
index = record { cycle = 10; snap_idx = 0 } ∷ []

index-IsOrdered : IsOrdered index
index-IsOrdered zero zero le lt = omega arith
index-IsOrdered (suc i) zero le lt = absurd (omega arith)
index-IsOrdered i (suc j) le lt = absurd (omega arith)

tt_bsearch_le-IsFloor_example : IsFloor index 12 (tt_bsearch_le index 12)
tt_bsearch_le-IsFloor_example = tt_bsearch_le-IsFloor index 12 index-IsOrdered

abbrev pub session : Tt
session = record {
  stride = 2;
  max_snaps = 3;
  snaps = saved ∷ [];
  idx = index;
  log = log;
  frames = [];
}

pub session-IsSpaced : IsSpaced session
session-IsSpaced = record {
  fits = omega arith;
  paired = refl;
  positive = omega arith;
  word = omega arith;
  indexed = only_zero;
  small = only_small;
  spaced = λ i j h h'. absurd (omega arith);
}
  where
    only_zero : (i : ℕ) → i < 1 → (get_or index i (record { cycle = 0; snap_idx = 0 })).snap_idx ≡ i
    only_zero zero h = refl
    only_zero (suc i) h = absurd (omega arith)

    only_small : (i : ℕ) → i < 1 → entry_cycle index i < 2 ^ 63
    only_small zero h = omega arith
    only_small (suc i) h = absurd (omega arith)

tt_on_cycle-IsSpaced_example : IsSpaced (tt_on_cycle layout false board session)
tt_on_cycle-IsSpaced_example =
    tt_on_cycle-IsSpaced layout false board session (omega arith) session-IsSpaced
