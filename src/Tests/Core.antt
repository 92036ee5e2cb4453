-- ===== src/Tests/Core.antt =====
-- The CPU, the decoder, the block cache, the bus and the interrupt controller at concrete inputs.
use lecerf.Base.{
  ℕ, ◌+◌, ◌-◌, ◌*◌, ◌/◌, ◌%◌, ◌^◌, ◌≤◌, ◌<◌, Bool, true, false, ◌==◌, ◌||◌, ltb, bit_and, Option,
  none, some, [], ◌∷◌, update, replicate, length-replicate, ◌≡◌, ◌≢◌, refl, arith, inl,
}
use lecerf.Base.Bits.{bit, bit_and-le}
use lecerf.Base.Tables.{all_below, all_below_sound}
use lecerf.Cpu.{
  Cpu, m4, cpu_reset, cpu_set_flags_nzcv_add, cpu_set_flags_nzcv_sub, cpu_in_it, cpu_it_cond,
}
use lecerf.Cpu.Flags.{IsNzcv, cpu_set_flags_nzcv_add-IsNzcv, cpu_set_flags_nzcv_sub-IsNzcv}
use lecerf.Decoder.Insn.{Insn, op_b_uncond, op_undefined}
use lecerf.Jit.{Jit, Engine, jit_init, jit_run, jit_run_chained}
use lecerf.Jit.Cache.{IsCache, jit_run-IsCache}
use lecerf.Jit.Chain.{jit_run_chained-le}
use lecerf.Bus.{Bus, Region, flat, Mmio, covers, find_region, first, bus_read, bus_write}
use lecerf.Bus.Memory.{IsFlat, bus_read-bus_write, bus_read-bus_write_ne}
use lecerf.Nvic.{Nvic, nvic_pick, ready_word}
use lecerf.Nvic.Best.{IsValid, IsPicked, ready, nvic_pick-IsPicked}
use lecerf.Cpu.ItState.{advance_times, it_length, advance_times_lem}

abbrev pub cpu : Cpu
cpu = cpu_reset m4

cpu_set_flags_nzcv_add-IsNzcv_example :
    IsNzcv cpu.apsr 0x80000000 false true
      (cpu_set_flags_nzcv_add cpu 0x7FFFFFFF 1 0x80000000 false).apsr
cpu_set_flags_nzcv_add-IsNzcv_example =
    cpu_set_flags_nzcv_add-IsNzcv cpu 0x7FFFFFFF 1 false (omega arith) (omega arith)

cpu_set_flags_nzcv_sub-IsNzcv_example :
    IsNzcv cpu.apsr 0x7FFFFFFF true true (cpu_set_flags_nzcv_sub cpu 0x80000000 1 0x7FFFFFFF).apsr
cpu_set_flags_nzcv_sub-IsNzcv_example =
    cpu_set_flags_nzcv_sub-IsNzcv cpu 0x80000000 1 (omega arith) (omega arith)

-- ITTE NE: condition 1, mask 1010.
abbrev in_block : Cpu
in_block = record cpu { itstate = 0x1A }

long_enough : 1 < it_length 0x1A
unfolding it_length
long_enough = omega arith

advance_times_lem_example :
    (cpu_in_it (advance_times 1 in_block) ≡ true)
    × (cpu_it_cond (advance_times 1 in_block)
        ≡ in_block.itstate / 32 * 2 + bit in_block.itstate (4 - 1))
    × (cpu_in_it (advance_times (it_length in_block.itstate) in_block) ≡ false)
advance_times_lem_example = advance_times_lem in_block 1 (omega arith) long_enough

abbrev pub insn : Insn
insn = record {
  op = op_undefined;
  pc = 0;
  size = 2;
  rd = 0;
  rn = 0;
  rm = 0;
  rs = 0;
  imm = 0;
  raw = 0;
  cond = 0;
  reg_list = 0;
  set_flags = false;
  writeback = false;
  add = false;
  index = false;
  shift_type = 0;
  shift_n = 0;
  it_mask = 0;
  it_first = 0;
  sd = 0;
  sn = 0;
  sm = 0;
}

-- An engine whose every instruction is a branch that takes a cycle and stays where it is.
abbrev engine : Engine Cpu (Unit {0}) (Unit {0})
engine = record {
  get_cpu = λ c. c;
  put_cpu = λ c s. c;
  decode = λ pc s. (record insn { op = op_b_uncond }, s);
  execute = λ i c. (true, record c { cycles = c.cycles + 1 });
  codegen_emit = λ is g s. (none, g, s);
  run_native = λ f s. (false, s);
  forget = λ g. g;
}

-- An empty cache in which every address is about to be hot.
abbrev hot_jit : Jit (Unit {0}) (Unit {0})
hot_jit = record (jit_init tt) { counters = λ h. 15 }

hot_jit-IsCache : IsCache hot_jit
unfolding jit_init
hot_jit-IsCache = record {
  fits = omega arith;
  short = λ i h. absurd (omega arith);
  named = λ h i e. absurd (cc e);
}

jit_run-IsCache_example :
    ((jit_run engine hot_jit cpu).0 ≤ 32) × IsCache (jit_run engine hot_jit cpu).1
jit_run-IsCache_example = jit_run-IsCache engine hot_jit cpu hot_jit-IsCache

jit_run_chained-le_example :
    ((jit_run_chained engine (λ c. false) 40 hot_jit cpu).0 ≤ 40)
    × IsCache (jit_run_chained engine (λ c. false) 40 hot_jit cpu).1
jit_run_chained-le_example = jit_run_chained-le engine (λ c. false) 40 hot_jit cpu hot_jit-IsCache

-- Two regions of RAM, and a bus that is the whole state.
abbrev low_ram : Region (Unit {0})
low_ram = record { base = 0x1000; size = 0x100; kind = flat; writable = true; buf = λ j. 0 }

abbrev high_ram : Region (Unit {0})
high_ram = record { base = 0x2000; size = 0x100; kind = flat; writable = true; buf = λ j. 7 }

abbrev bus : Bus (Unit {0})
bus = record { regs = low_ram ∷ high_ram ∷ [] }

abbrev mmio_of_bus : Mmio (Unit {0}) (Bus (Unit {0}))
mmio_of_bus = record {
  bus_of = λ s. s;
  put_bus = λ b s. b;
  dev_read = λ t off n s. (0, s);
  dev_write = λ t off v n s. s;
}

find_low : find_region bus 0x1010 ≡ some (0, low_ram)
unfolding find_region covers first
find_low = refl

find_high : find_region bus 0x2010 ≡ some (1, high_ram)
unfolding find_region covers first
find_high = refl

low_word : IsFlat mmio_of_bus (λ b s. refl) bus 0x1010 4 0 low_ram
low_word = record { found = find_low; is_ram = refl; fits = omega arith }

high_word : IsFlat mmio_of_bus (λ b s. refl) bus 0x2010 4 1 high_ram
high_word = record { found = find_high; is_ram = refl; fits = omega arith }

bus_read-bus_write_example :
    let (done, s') = bus_write mmio_of_bus 0x1010 4 0x12345678 bus in
    (done ≡ true) × (bus_read mmio_of_bus 0x1010 4 s' ≡ (some (0x12345678 % 256 ^ 4), s'))
bus_read-bus_write_example =
    bus_read-bus_write mmio_of_bus (λ b s. refl) bus 0x1010 4 0x12345678 0 low_ram low_word refl

bus_read-bus_write_ne_example :
    (bus_read mmio_of_bus 0x2010 4 (bus_write mmio_of_bus 0x1010 4 9 bus).1).0
    ≡ (bus_read mmio_of_bus 0x2010 4 bus).0
bus_read-bus_write_ne_example =
    bus_read-bus_write_ne mmio_of_bus (λ b s. refl) bus 0x1010 4 9 0 low_ram 0x2010 4 1 high_ram
      low_word refl high_word (inl one_ne_zero) (omega arith) (omega arith)
  where
    one_ne_zero : ◌≢◌ {A = ℕ} 1 0
    one_ne_zero e = absurd (omega (arith, e))

-- Lines 3 and 5 are enabled and pending.
abbrev nvic : Nvic
nvic = record {
  enable = update (λ j. 0) 0 0x28;
  pending = update (λ j. 0) 0 0x28;
  active = λ j. 0;
  prio = replicate 240 0x40;
}

no_line : ℕ → Bool
unfolding ready_word
no_line irq = ltb irq 240 || (ready nvic irq == 0)

no_line_all : all_below 256 no_line ≡ true
unfolding all_below no_line ready_word
no_line_all = refl

nvic-IsValid : IsValid nvic
unfolding ready_word no_line
nvic-IsValid = record {
  priorities = length-replicate 240 0x40;
  lines = λ irq h h'. ground (arith, all_below_sound 256 no_line irq no_line_all h');
  words = λ w. omega (
    arith,
    bit_and-le (bit_and (nvic.enable w) (nvic.pending w)) 0xFFFFFFFF,
    bit_and-le (nvic.enable w) (nvic.pending w),
    small w,
  );
}
  where
    small : (w : ℕ) → nvic.enable w ≤ 0x28
    small w = ground arith

nvic_pick-IsPicked_example : (r : Option ℕ) × (nvic_pick nvic ≡ some r) × IsPicked nvic r
nvic_pick-IsPicked_example = nvic_pick-IsPicked nvic nvic-IsValid
