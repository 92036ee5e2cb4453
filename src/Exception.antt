-- ===== src/Exception.antt =====
-- Faults, exception entry and exception return of src/core/nvic.c, over the CPU, the bus and the
-- interrupt controller of one board.
use lecerf.Base.{
  ℕ, ◌-◌, ◌*◌, bit_and, bit_or, Bool, true, false, ◌==◌, ◌&&◌, leb, ltb, if◌then◌else◌, add32,
  sub32, not32, has, Option, none, some, shl32, update,
}
use lecerf.Cpu.{Cpu, Mode, thread, handler, reg_sp, reg_lr, reg_pc}
use lecerf.Bus.{Mmio, bus_read, bus_write}
use lecerf.Nvic.{Nvic, nvic_clear_active}

-- The state of a board: what the bus reaches, the CPU, and the controller of the run context
-- (`none` for a null pointer).
pub record Host (T S : Type 0) : Type 0 where
  pub mmio : Mmio T S
  pub get_cpu : S → Cpu
  pub put_cpu : Cpu → S → S
  pub get_nvic : S → Option Nvic
  pub put_nvic : Nvic → S → S

-- The numbers of the exceptions.
abbrev pub exc_hard_fault : ℕ
exc_hard_fault = 3

abbrev pub exc_mem_fault : ℕ
exc_mem_fault = 4

abbrev pub exc_bus_fault : ℕ
exc_bus_fault = 5

abbrev pub exc_usage_fault : ℕ
exc_usage_fault = 6

abbrev pub exc_svc : ℕ
exc_svc = 11

abbrev pub exc_pendsv : ℕ
exc_pendsv = 14

abbrev pub exc_systick : ℕ
exc_systick = 15

abbrev pub exc_irq0 : ℕ
exc_irq0 = 16

abbrev pub is_thread : Mode → Bool
is_thread thread = true
is_thread handler = false

-- `CONTROL.SPSEL` in thread mode.
abbrev pub uses_psp : Cpu → Bool
uses_psp c = is_thread c.mode && has c.control 2

-- The word that is stacked for xPSR.
abbrev pub xpsr_of : Cpu → ℕ → ℕ
xpsr_of c exc =
    bit_or (bit_or (bit_and c.apsr 0xF8000000) (bit_and c.epsr 0x0600FC00)) (bit_and exc 0x1FF)

-- A step that can fail and leaves a state either way.
abbrev pub M : Type 0 → Type 0 → Type 0
M S A = S → Option A × S

infixl 5 ◌>>=◌ ◌>>◌
abbrev pub ◌>>=◌ : {S A B : Type 0} → M S A → (A → M S B) → M S B
◌>>=◌ m f s = let (r, s') = m s in elim r [ none ↦ (none, s') | some a ↦ f a s' ]

abbrev pub ◌>>◌ : {S B : Type 0} → M S (Unit {0}) → M S B → M S B
m >> k = m >>= λ _. k

-- The Boolean result of a C function for a step.
abbrev pub succeeds : {S A : Type 0} → Option A × S → Bool × S
succeeds (none, s) = (false, s)
succeeds (some a, s) = (true, s)

module _ {T S : Type 0} (h : Host T S) where
  open h use {mmio, get_cpu, put_cpu, get_nvic, put_nvic}

  -- `if (!bus_write(b, a, 4, v)) return false;`, with `v` from the CPU of the moment.
  write_word : ℕ → (Cpu → ℕ) → M S (Unit {0})
  write_word a v s =
      let (done, s') = bus_write mmio a 4 (v (get_cpu s)) s in (if done then some tt else none, s')

  -- `if (!bus_read(b, a, 4, &v)) return false;`
  read_word : ℕ → M S ℕ
  read_word a s = bus_read mmio a 4 s

  set_cpu : (Cpu → Cpu) → M S (Unit {0})
  set_cpu f s = (some tt, put_cpu (f (get_cpu s)) s)

  -- The stack pointer in use goes to MSP or PSP.
  sync_sp : Bool → Cpu → Cpu
  sync_sp psp c = if psp then record c { psp = c.r reg_sp } else record c { msp = c.r reg_sp }

  push_frame : ℕ → ℕ → M S (Unit {0})
  push_frame p xpsr = do
    write_word (add32 p 0x00) (λ c. c.r 0)
    write_word (add32 p 0x04) (λ c. c.r 1)
    write_word (add32 p 0x08) (λ c. c.r 2)
    write_word (add32 p 0x0C) (λ c. c.r 3)
    write_word (add32 p 0x10) (λ c. c.r 12)
    write_word (add32 p 0x14) (λ c. c.r reg_lr)
    write_word (add32 p 0x18) (λ c. c.r reg_pc)
    write_word (add32 p 0x1C) (λ c. xpsr)

  -- The CPU in the handler, but for the address of the handler.
  in_handler : Bool → ℕ → Cpu → Cpu
  in_handler psp sp c =
      let c' = if psp then record c { psp = sp } else record c { msp = sp } in
      record c' {
        mode = handler;
        r = update (update c'.r reg_sp c'.msp) reg_lr (if psp then 0xFFFFFFFD else 0xFFFFFFF9);
      }

  -- The jump to the handler.
  at_vector : ℕ → ℕ → Cpu → Cpu
  at_vector exc vector c = record c {
    r = update c.r reg_pc (bit_and vector (not32 1));
    ipsr = exc;
    itstate = 0;
  }

  enter : ℕ → M S (Unit {0})
  unfolding write_word read_word set_cpu sync_sp push_frame in_handler at_vector
  enter exc s =
      let c = get_cpu s in
      let psp = uses_psp c in
      let sp = sub32 (c.r reg_sp) 32 in
      (do
        set_cpu (sync_sp psp)
        push_frame sp (xpsr_of c exc)
        set_cpu (in_handler psp sp)
        vector ← read_word (4 * exc)
        set_cpu (at_vector exc vector))
        s

  -- `exc_enter`, of an exception number that fits a byte.
  unfoldable pub exc_enter : ℕ → S → Bool × S
  unfolding enter
  exc_enter exc s = succeeds (enter exc s)

  -- `ipsr` names an external interrupt: its active bit is cleared.
  retire : S → S
  retire s =
      let ipsr = (get_cpu s).ipsr in
      elim (get_nvic s) [
        | none ↦ s
        | some n ↦
            if leb exc_irq0 ipsr && ltb ipsr 0x100
            then put_nvic (nvic_clear_active (ipsr - exc_irq0) n) s
            else s
      ]

  -- The stack pointers and the mode after the frame at `sp` is dropped.
  unstack : Bool → Bool → ℕ → Cpu → Cpu
  unstack to_psp to_handler sp c =
      let top = add32 sp 32 in
      let c' = if to_psp then record c { psp = top } else record c { msp = top } in
      if to_handler
      then record c' { mode = handler; r = update c'.r reg_sp c'.msp; itstate = 0 }
      else if to_psp
      then record c' {
        mode = thread;
        control = bit_or c'.control 2;
        r = update c'.r reg_sp c'.psp;
        itstate = 0;
      }
      else record c' {
        mode = thread;
        control = bit_and c'.control (not32 2);
        r = update c'.r reg_sp c'.msp;
        itstate = 0;
      }

  -- The registers from the frame.
  restore_regs : ℕ → ℕ → ℕ → ℕ → ℕ → ℕ → ℕ → ℕ → Cpu → Cpu
  restore_regs r0 r1 r2 r3 r12 lr pc xpsr c = record c {
    r =
        update
          (update (update (update (update (update (update c.r 0 r0) 1 r1) 2 r2) 3 r3) 12 r12) reg_lr
            lr)
          reg_pc (bit_and pc (not32 1));
    apsr = bit_and xpsr 0xF8000000;
    ipsr = bit_and xpsr 0x1FF;
  }

  leave : ℕ → M S (Unit {0})
  unfolding read_word set_cpu retire unstack restore_regs
  leave exc_return_val s =
      let s' = retire s in
      let to_psp = bit_and exc_return_val 0xF == 0xD in
      let to_handler = bit_and exc_return_val 0xF == 0x1 in
      let sp = if to_psp then (get_cpu s').psp else (get_cpu s').msp in
      (do
        r0 ← read_word (add32 sp 0x00)
        r1 ← read_word (add32 sp 0x04)
        r2 ← read_word (add32 sp 0x08)
        r3 ← read_word (add32 sp 0x0C)
        r12 ← read_word (add32 sp 0x10)
        lr ← read_word (add32 sp 0x14)
        pc ← read_word (add32 sp 0x18)
        xpsr ← read_word (add32 sp 0x1C)
        set_cpu (restore_regs r0 r1 r2 r3 r12 lr pc xpsr)
        set_cpu (unstack to_psp to_handler sp))
        s'

  -- `exc_return_ctx`, and `exc_return`, which takes the controller from a global.
  unfoldable pub exc_return : ℕ → S → Bool × S
  unfolding leave
  exc_return exc_return_val s = succeeds (leave exc_return_val s)

  -- The status registers that a fault sets.
  note_fault : ℕ → ℕ → ℕ → Cpu → Cpu
  note_fault fault fault_addr status c =
      if fault == exc_mem_fault
      then record c {
        cfsr = bit_or c.cfsr (bit_and status 0xFF);
        mmfar = if has status 0x80 then fault_addr else c.mmfar;
      }
      else if fault == exc_bus_fault
      then record c {
        cfsr = bit_or c.cfsr (shl32 (bit_and status 0xFF) 8);
        bfar = if has status 0x80 then fault_addr else c.bfar;
      }
      else if fault == exc_usage_fault
      then record c { cfsr = bit_or c.cfsr (shl32 (bit_and status 0xFFFF) 16) }
      else c

  -- `raise_fault`. The result of `exc_enter` is dropped.
  unfoldable pub raise_fault : ℕ → ℕ → ℕ → S → S
  unfolding note_fault exc_enter
  raise_fault fault fault_addr status s =
      let c = note_fault fault fault_addr status (get_cpu s) in
      if is_thread c.mode
      then (exc_enter fault (put_cpu c s)).1
      else (exc_enter exc_hard_fault (put_cpu (record c { hfsr = bit_or c.hfsr 0x40000000 }) s)).1
