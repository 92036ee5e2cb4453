-- ===== src/Periph/Scb.antt =====
-- include/periph/scb.h and src/periph/scb.c: the system control block. Its fault registers are
-- fields of the CPU that `scb_cpu` finds, if it finds one.
use lecerf.Base.{ℕ, bit_and, Bool, true, false, ◌==◌, if◌then◌else◌, has, not32, Option, none, some}
use lecerf.Cpu.{Cpu}

-- `scb_t`, but for the back-pointer to the CPU.
pub record Scb : Type 0 where
  pub vtor : ℕ
  pub aircr : ℕ
  pub ccr : ℕ
  pub pendsv_pending : Bool
  pub systick_pending_manual : Bool

-- `*s = (scb_t){0}` of `scb_attach`
unfoldable pub scb_attach : Scb
scb_attach = record {
  vtor = 0;
  aircr = 0;
  ccr = 0;
  pendsv_pending = false;
  systick_pending_manual = false;
}

-- `c ? c->field : 0`
abbrev field_of : (Cpu → ℕ) → Option Cpu → ℕ
field_of f none = 0
field_of f (some c) = f c

-- `scb_read`
unfoldable pub scb_read : ℕ → Option Cpu → Scb → ℕ
scb_read off c s =
    if off == 0x00
    then 0x410FC231
    else if off == 0x04
    then (if s.pendsv_pending then 0x10000000 else 0)
    else if off == 0x08
    then s.vtor
    else if off == 0x0C
    then s.aircr
    else if off == 0x14
    then s.ccr
    else if off == 0x28
    then field_of (λ c. c.cfsr) c
    else if off == 0x2C
    then field_of (λ c. c.hfsr) c
    else if off == 0x34
    then field_of (λ c. c.mmfar) c
    else if off == 0x38
    then field_of (λ c. c.bfar) c
    else 0

-- The four tests of a write to ICSR, in order.
icsr_write : ℕ → Scb → Scb
icsr_write val s =
    let pend = if has val 0x10000000 then true else s.pendsv_pending in
    let tick = if has val 0x4000000 then true else s.systick_pending_manual in
    record s {
      pendsv_pending = if has val 0x8000000 then false else pend;
      systick_pending_manual = if has val 0x2000000 then false else tick;
    }

-- `scb_write`
unfoldable pub scb_write : ℕ → ℕ → Option Cpu → Scb → Option Cpu × Scb
unfolding icsr_write
scb_write off val c s =
    if off == 0x04
    then (c, icsr_write val s)
    else if off == 0x08
    then (c, record s { vtor = bit_and val 0xFFFFFF80 })
    else if off == 0x0C
    then (c, record s { aircr = val })
    else if off == 0x14
    then (c, record s { ccr = val })
    else if off == 0x28
    then (clear (λ c. record c { cfsr = bit_and c.cfsr (not32 val) }) c, s)
    else if off == 0x2C
    then (clear (λ c. record c { hfsr = bit_and c.hfsr (not32 val) }) c, s)
    else (c, s)
  where
    clear : (Cpu → Cpu) → Option Cpu → Option Cpu
    clear f none = none
    clear f (some c) = some (f c)
