-- ===== src/Tests/Rewind.antt =====
-- The way back to a cycle at concrete inputs.

use lecerf.Base.{◌+◌, true, false, none, some, [], ◌∷◌, ◌≡◌, refl, arith}
use lecerf.Tt.Snapshot.{Board}
use lecerf.Tt.Index.{Tt}
use lecerf.Tt.Record.Replayed.{frame_in, recorded, received, IsRecorded, recorded-IsRecorded}
use lecerf.Tt.Replay.{Replayer}
use lecerf.Tests.Replay.{log-IsValid, layout, session}
use lecerf.Tests.Running.{branch_insn}

abbrev Machine : Type 0
Machine = Board (Unit {0}) (Unit {0}) (Unit {0})

-- An instruction that takes a cycle and stops the run; a network device on a bus without memory.
abbrev replayer : Replayer (Unit {0}) (Unit {0}) (Unit {0})
replayer = record {
  ctx = record {
    host = record {
      mmio = record {
        bus_of = λ m. m.bus;
        put_bus = λ b m. record m { bus = b };
        dev_read = λ t off n m. (0, m);
        dev_write = λ t off v n m. m;
      };
      get_cpu = λ m. m.cpu;
      put_cpu = λ c m. record m { cpu = c };
      get_nvic = λ m. none;
      put_nvic = λ n m. m;
    };
    engine = record {
      get_cpu = λ m. m.cpu;
      put_cpu = λ c m. record m { cpu = c };
      decode = λ pc m. (branch_insn, m);
      execute = λ i m. (false, record m { cpu = record (m.cpu) { cycles = m.cpu.cycles + 1 } });
      codegen_emit = λ is g m. (none, g, m);
      run_native = λ f m. (false, m);
      forget = λ g. g;
    };
    get_st = λ m. none;
    put_st = λ t m. m;
    get_scb = λ m. none;
    put_scb = λ b m. m;
    get_dwt = λ m. none;
    put_dwt = λ d m. m;
  };
  eth = record {
    read_byte = λ a m. (0, m);
    write_byte = λ a v m. m;
    get_eth = λ m. m.periph.eth;
    put_eth = λ e m. record m { periph = record (m.periph) { eth = e } };
  };
  bytes_of = layout;
  forget = λ g. g;
}

recorded-IsRecorded_example :
    (t' : Tt) × (recorded (λ n. true) 9 (frame_in 1 (2 ∷ [])) session ≡ some t')
    × IsRecorded replayer session t' 9 (received replayer (frame_in 1 (2 ∷ [])))
recorded-IsRecorded_example =
    recorded-IsRecorded replayer (λ n. true) 9 (frame_in 1 (2 ∷ [])) session log-IsValid (λ n. refl)
      (omega arith) (omega arith)
