-- ===== src/Periph/Uart.antt =====
-- include/periph/uart.h and src/periph/uart.c: a transmitter, and in replay mode a receive queue.
-- The sink and stdout are outside: a write returns the byte that it hands to them, if any.
pub mod Fifo
use lecerf.Base.{
  ℕ, ◌+◌, ◌-◌, ◌%◌, ◌^◌, bit_and, Bool, true, false, not, ◌==◌, ◌&&◌, if◌then◌else◌, update, u8,
  Option, none, some,
}

-- `uart_t`; `rx_q` has 64 places, and the two indices are bytes.
pub record Uart : Type 0 where
  pub replay_mode : Bool
  pub rx_q : ℕ → ℕ
  pub rx_head : ℕ
  pub rx_tail : ℕ

-- `u->replay_mode && u->rx_head != u->rx_tail`
rx_ready : Uart → Bool
rx_ready u = u.replay_mode && not (u.rx_head == u.rx_tail)

-- `uart_read`
unfoldable pub uart_read : ℕ → Uart → ℕ × Uart
unfolding rx_ready
uart_read off u =
    if off == 0x00
    then (if rx_ready u
        then (u.rx_q (bit_and u.rx_head 63), record u { rx_head = u8 (u.rx_head + 1) })
        else (0, u))
    else if off == 0x04
    then (if rx_ready u then 0x21 else 0x1, u)
    else (0, u)

-- `uart_write`: the byte that goes to the sink.
unfoldable pub uart_write : ℕ → ℕ → Uart → Option ℕ
uart_write off val u =
    if off == 0x00 then (if u.replay_mode then none else some (bit_and val 0xFF)) else none

-- `uart_inject_rx`
unfoldable pub uart_inject_rx : ℕ → Uart → Uart
uart_inject_rx byte u = record u {
  rx_q = update u.rx_q (bit_and u.rx_tail 63) byte;
  rx_tail = u8 (u.rx_tail + 1);
}
