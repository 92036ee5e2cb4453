-- ===== src/Tests/Devices.antt =====
-- The peripherals at concrete inputs.
use lecerf.Base.{
  ℕ, ◌+◌, ◌*◌, ◌%◌, ◌^◌, ◌<◌, true, false, ◌&&◌, ◌||◌, has, some, List, [], ◌∷◌, ◌++◌, update, ◌≡◌,
  ◌≢◌, ◌≤◌, refl, arith, ==_of_ne,
}
use native.Mathlib.Decide.{ℕ_discrete}
use mathlib.Core.Path.{subst}
use lecerf.Periph.Systick.{Systick, systick_tick, loaded}
use lecerf.Periph.Systick.Tick.{count_after, fires, systick_tick-add, systick_tick_lem}
use lecerf.Periph.Uart.{Uart, uart_read, uart_inject_rx}
use lecerf.Periph.Uart.Fifo.{IsValid, waiting, count, pop, uart_inject_rx_lem, uart_read_refines}
use lecerf.Periph.Mpu.{Mpu, mpu_check}
use lecerf.Periph.Mpu.Check.{Holds, EndBelow, extent, mpu_check_miss}
use lecerf.Periph.Stm32.{Stm32, a, odr}
use lecerf.Periph.Eth.{echo_reply, fold_sum, fold_fuel, sum_words}
use lecerf.Periph.Eth.Checksum.{echo_reply_valid}

-- On, with the interrupt, three cycles before the end.
abbrev timer : Systick
timer = record { csr = 3; rvr = 9; cvr = 3; count_flag = false; irq_pending = false }

systick_tick-add_example : systick_tick (5 + 7) timer ≡ systick_tick 7 (systick_tick 5 timer)
systick_tick-add_example = systick_tick-add 5 7 timer

systick_tick_lem_example : systick_tick 12 timer ≡ record timer {
  cvr = count_after timer.rvr (loaded timer) 12;
  count_flag = timer.count_flag || fires (loaded timer) 12;
  irq_pending = timer.irq_pending || fires (loaded timer) 12 && has timer.csr 2;
}
systick_tick_lem_example = systick_tick_lem 12 timer refl

-- One byte waits at the end of the byte range of the indices.
abbrev uart : Uart
uart = record { replay_mode = true; rx_q = λ j. 65; rx_head = 255; rx_tail = 0 }

uart_count : count uart ≡ 1
unfolding count
uart_count = refl

uart-IsValid : IsValid uart
uart-IsValid = record {
  head_byte = omega arith;
  tail_byte = omega arith;
  room = omega (arith, uart_count);
}

uart_inject_rx_lem_example :
    IsValid (uart_inject_rx 66 uart) × (waiting (uart_inject_rx 66 uart) ≡ waiting uart ++ 66 ∷ [])
uart_inject_rx_lem_example = uart_inject_rx_lem 66 uart uart-IsValid (omega (arith, uart_count))

uart_read_refines_example :
    IsValid (uart_read 0 uart).1
    × ◌≡◌ {A = ℕ × List ℕ} ((uart_read 0 uart).0, waiting (uart_read 0 uart).1) (pop (waiting uart))
uart_read_refines_example = uart_read_refines uart uart-IsValid refl

-- Region 2 holds 32 bytes that all may read; privileged code has the rest.
abbrev mpu : Mpu
mpu = record {
  ctrl = 5;
  rnr = 0;
  r =
      update (λ j. record { base = 0; rasr = 0; enabled = false }) 2
        (record { base = 0x2000; rasr = 0x06000008; enabled = true });
}

disabled : (j : ℕ) → j ≢ 2 → (mpu.r j).enabled ≡ false
disabled j ne = rw (==_of_ne j 2 ne) refl

mpu-EndBelow : EndBelow mpu 8
mpu-EndBelow i h on = elim (ℕ_discrete i 2) [
  | yes e ↦ rw e (omega arith)
  | no ne ↦ absurd (cc (on, disabled i ne))
]

-- Region 2 ends before 0x3000.
outside : (j : ℕ) → j < 8 → ¬ Holds 0x3000 4 (mpu.r j)
outside j h held = elim (ℕ_discrete j 2) [
  | yes e ↦ absurd (omega (arith, to_2 e))
  | no ne ↦ absurd (cc (held.on, disabled j ne))
]
  where
    to_2 : j ≡ 2 → 0x3000 + 4 ≤ 0x2000 + 32
    to_2 e = subst (λ (i : ℕ). 0x3000 + 4 ≤ (mpu.r i).base + extent (mpu.r i)) e held.to

mpu_check_miss_example : mpu_check mpu 0x3000 4 false true ≡ some (has mpu.ctrl 4 && true)
mpu_check_miss_example =
    mpu_check_miss mpu 0x3000 4 false true refl (omega arith) mpu-EndBelow outside

-- A frame of 60 bytes.
abbrev frame : ℕ → ℕ
frame j = (j * 7 + 3) % 256

echo_reply_valid_example : fold_sum fold_fuel (sum_words 60 34 60 (echo_reply 60 frame)) ≡ 0xFFFF
echo_reply_valid_example = echo_reply_valid 60 frame (omega arith) (omega arith) (λ j. omega arith)

-- PA5 is high, and the word asks for its reset.
abbrev gpio : Stm32
gpio = record { odr_a = 0x20; odr_b = 0; odr_c = 0; quiet = true }

port_small : odr a gpio < 2 ^ 16
unfolding odr
port_small = omega arith
