-- ===== src/Tt/Record.antt =====
-- The hooks of src/core/tt.c that record what comes from outside, with their callers of
-- src/core/nvic.c and src/periph/uart.c. The variants that take a `run_ctx_t` differ from those
-- that read globals in where the session and the replay flag come from.
pub mod Replayed
use lecerf.Base.{
  ℕ, Bool, true, false, ◌==◌, ◌||◌, leb, if◌then◌else◌, u8, Option, none, some, List, [], ◌∷◌, ◌++◌,
  length, take,
}
use lecerf.Nvic.{Nvic, nvic_set_pending}
use lecerf.Tt.Log.{Event, EventLog, ev_log_append, event_uart_rx, event_irq_inject, event_eth_rx}
use lecerf.Tt.Index.{Tt}

abbrev pub tt_eth_max : ℕ
tt_eth_max = 256

abbrev pub tt_eth_mtu : ℕ
tt_eth_mtu = 1600

module _ (alloc : ℕ → Bool) where
  -- One event more, as far as the log takes it.
  unfoldable pub append_event : Event → Tt → Bool × Tt
  append_event e t = let (ok, lg) = ev_log_append alloc e t.log in (ok, record t { log = lg })

  -- `tt_record_irq`; the session is `none` for a null pointer.
  unfoldable pub tt_record_irq : Bool → ℕ → ℕ → Option Tt → Option Tt
  unfolding append_event
  tt_record_irq replay cycle irq none = none
  tt_record_irq replay cycle irq (some t) =
      let e : Event = record { cycle = cycle; kind = event_irq_inject; payload = irq } in
      if replay then some t else some (append_event e t).1

  -- `tt_record_uart_rx`
  unfoldable pub tt_record_uart_rx : Bool → ℕ → ℕ → Option Tt → Option Tt
  unfolding append_event
  tt_record_uart_rx replay cycle byte none = none
  tt_record_uart_rx replay cycle byte (some t) =
      let e : Event = record { cycle = cycle; kind = event_uart_rx; payload = byte } in
      if replay then some t else some (append_event e t).1

  -- `tt_record_eth_rx`, of a frame that is given by its bytes. The result is the number of the
  -- frame, or `none` for 0xFFFFFFFF.
  unfoldable pub tt_record_eth_rx : Bool → ℕ → List ℕ → Option Tt → Option ℕ × Option Tt
  unfolding append_event
  tt_record_eth_rx replay cycle fr none = (none, none)
  tt_record_eth_rx replay cycle fr (some t) =
      let id = length t.frames in
      let e : Event = record { cycle = cycle; kind = event_eth_rx; payload = id } in
      let t1 : Tt = record t { frames = t.frames ++ take tt_eth_mtu fr ∷ [] } in
      let (ok, t2) = append_event e t1 in
      if replay || (length fr == 0) || leb tt_eth_max id
      then (none, some t)
      else if ok
      then (some id, some t2)
      else (none, some (record t2 { frames = t.frames }))

  -- `nvic_set_pending_ext`
  unfoldable pub nvic_set_pending_ext : Bool → ℕ → ℕ → Nvic → Option Tt → Nvic × Option Tt
  unfolding tt_record_irq
  nvic_set_pending_ext replay irq cycle n t =
      (nvic_set_pending irq n, tt_record_irq replay cycle (u8 irq) t)

  -- `uart_record_rx`
  unfoldable pub uart_record_rx : Bool → ℕ → ℕ → Option Tt → Option Tt
  unfolding tt_record_uart_rx
  uart_record_rx replay byte cycle t = tt_record_uart_rx replay cycle byte t
