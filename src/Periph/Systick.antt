-- ===== src/Periph/Systick.antt =====
-- include/periph/systick.h and src/periph/systick.c: the timer that counts down and reloads.
pub mod Tick
use lecerf.Base.{
  ℕ, zero, suc, ◌+◌, ◌-◌, ◌%◌, ◌^◌, bit_and, bit_or, Bool, true, false, ◌==◌, leb, ltb,
  if◌then◌else◌, has, not,
}

-- `systick_t`
pub record Systick : Type 0 where
  pub csr : ℕ
  pub rvr : ℕ
  pub cvr : ℕ
  pub count_flag : Bool
  pub irq_pending : Bool

-- `*t = (systick_t){0}` of `systick_attach`
unfoldable pub systick_attach : Systick
systick_attach = record { csr = 0; rvr = 0; cvr = 0; count_flag = false; irq_pending = false }

-- `st_read`: a read of CSR reports and clears COUNTFLAG.
unfoldable pub st_read : ℕ → Systick → ℕ × Systick
st_read off t =
    if off == 0x00
    then (if t.count_flag
        then (bit_or t.csr 0x10000, record t { count_flag = false })
        else (t.csr, t))
    else if off == 0x04
    then (t.rvr, t)
    else if off == 0x08
    then (bit_and t.cvr 0x00FFFFFF, t)
    else (0, t)

-- `st_write`
unfoldable pub st_write : ℕ → ℕ → Systick → Systick
st_write off val t =
    if off == 0x00
    then record t { csr = bit_and val 0x07 }
    else if off == 0x04
    then record t { rvr = bit_and val 0x00FFFFFF }
    else if off == 0x08
    then record t { cvr = 0; count_flag = false }
    else t

-- The counter reached 0: the flag is set, and the interrupt where CSR enables it.
expire : Systick → Systick
expire t = record t { count_flag = true; irq_pending = if has t.csr 2 then true else t.irq_pending }

-- The loop of `systick_tick`, with the cycles left and the counter; each round takes `cvr`, at
-- least 1, from the cycles, so fuel for each cycle is enough.
tick_loop : ℕ → ℕ → ℕ → Systick → Systick
unfolding expire
tick_loop zero cycles cvr t = record t { cvr = cvr }
tick_loop (suc fuel) cycles cvr t =
    let rest = tick_loop fuel (cycles - cvr) t.rvr (expire t) in
    if cycles == 0
    then record t { cvr = cvr }
    else if cvr == 0
    then record t { cvr = cvr }
    else if leb cvr cycles
    then (if t.rvr == 0 then record (expire t) { cvr = t.rvr } else rest)
    else record t { cvr = cvr - cycles }

-- The counter that a tick starts from: a counter of 0 is loaded first.
abbrev pub loaded : Systick → ℕ
loaded t = if t.cvr == 0 then t.rvr else t.cvr

-- `systick_tick`
unfoldable pub systick_tick : ℕ → Systick → Systick
unfolding tick_loop
systick_tick cycles t = if not (has t.csr 1) then t else tick_loop cycles cycles (loaded t) t
