-- ===== src/Tests/Running.antt =====
-- The run loop at concrete inputs.
use lecerf.Base.{◌+◌, true, false, none, []}
use lecerf.Cpu.{Cpu, cpu_reset, m4}
use lecerf.Decoder.Insn.{Insn, op_b_uncond}
use lecerf.Periph.Systick.{Systick}
use lecerf.Periph.Scb.{Scb}
use lecerf.Run.{RunCtx, run_steps_full_gc}
use lecerf.Run.Steps.{without, IsRun, run_steps_full_gc-IsRun}

-- PendSV waits, and the timer has three cycles left.
abbrev timer : Systick
timer = record { csr = 3; rvr = 9; cvr = 3; count_flag = false; irq_pending = false }

abbrev scb : Scb
scb = record { vtor = 0; aircr = 0; ccr = 0; pendsv_pending = true; systick_pending_manual = false }

-- Every instruction is a branch to itself that takes a cycle.
abbrev pub branch_insn : Insn
branch_insn = record {
  op = op_b_uncond;
  pc = 0;
  size = 2;
  rd = 0;
  rn = 0;
  rm = 0;
  rs = 0;
  imm = 0;
  raw = 0;
  cond = 0;
  reg_list = 0;
  set_flags = false;
  writeback = false;
  add = false;
  index = false;
  shift_type = 0;
  shift_n = 0;
  it_mask = 0;
  it_first = 0;
  sd = 0;
  sn = 0;
  sm = 0;
}

-- A CPU on an empty bus, without devices.
abbrev bare : RunCtx (Unit {0}) Cpu (Unit {0}) (Unit {0})
bare = record {
  host = record {
    mmio = record {
      bus_of = λ s. record { regs = [] };
      put_bus = λ b s. s;
      dev_read = λ t off n s. (0, s);
      dev_write = λ t off v n s. s;
    };
    get_cpu = λ s. s;
    put_cpu = λ c s. c;
    get_nvic = λ s. none;
    put_nvic = λ n s. s;
  };
  engine = record {
    get_cpu = λ s. s;
    put_cpu = λ c s. c;
    decode = λ pc s. (branch_insn, s);
    execute = λ i s. (true, record s { cycles = s.cycles + 1 });
    codegen_emit = λ is g s. (none, g, s);
    run_native = λ f s. (false, s);
    forget = λ g. g;
  };
  get_st = λ s. none;
  put_st = λ t s. s;
  get_scb = λ s. none;
  put_scb = λ b s. s;
  get_dwt = λ s. none;
  put_dwt = λ d s. s;
}

run_steps_full_gc-IsRun_example : IsRun 5 (run_steps_full_gc bare 5 none (cpu_reset m4))
run_steps_full_gc-IsRun_example = run_steps_full_gc-IsRun bare 5 none (cpu_reset m4) without
