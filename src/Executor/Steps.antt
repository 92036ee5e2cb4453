-- ===== src/Executor/Steps.antt =====
-- The steps of `execute` that use the bus: loads and stores of registers, and how a case ends.
use lecerf.Base.{ℕ, Bool, if◌then◌else◌, none, some}
use lecerf.Cpu.{Cpu}
use lecerf.Bus.{bus_read, bus_write}
use lecerf.Exception.{Host, M}

-- `break` with the `next_pc` of the moment, or `return true`. The failure of a step is
-- `c->halted = true; return false;`.
pub data Ending : Type 0 where
  break : ℕ → Ending
  done : Ending

module _ {T S : Type 0} (h : Host T S) where
  open h use {mmio, get_cpu, put_cpu}

  -- The CPU of the moment.
  abbrev pub cpu : M S Cpu
  cpu s = (some (get_cpu s), s)

  abbrev pub modify : (Cpu → Cpu) → M S (Unit {0})
  modify f s = (some tt, put_cpu (f (get_cpu s)) s)

  abbrev pub finish : {A : Type 0} → A → M S A
  finish a s = (some a, s)

  abbrev pub fail : M S Ending
  fail s = (none, s)

  -- `if (!bus_read(bus, a, size, &v)) { c->halted = true; return false; }`
  unfoldable pub load : ℕ → ℕ → M S ℕ
  load size a s = bus_read mmio a size s

  -- `if (!bus_write(bus, a, size, v)) { c->halted = true; return false; }`
  unfoldable pub store : ℕ → ℕ → ℕ → M S (Unit {0})
  store size a v s = let (ok, s') = bus_write mmio a size v s in (if ok then some tt else none, s')

  -- A step of a function that returns `false` when it fails.
  abbrev pub checked : (S → Bool × S) → M S Ending
  checked f s = let (ok, s') = f s in (if ok then some Ending.done else none, s')
