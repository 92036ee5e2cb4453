-- ===== src/Periph/Stm32.antt =====
-- include/periph/stm32.h and src/periph/stm32.c: clocks, three GPIO ports and two transmitters of
-- the STM32F103. What is printed about a port is outside.
pub mod Gpio
use lecerf.Base.{
  ℕ, ◌/◌, ◌-◌, ◌^◌, bit_and, bit_or, Bool, false, ◌==◌, if◌then◌else◌, not32, ◌>>>◌, Option, none,
  some,
}

-- `stm32_t`
pub record Stm32 : Type 0 where
  pub odr_a : ℕ
  pub odr_b : ℕ
  pub odr_c : ℕ
  pub quiet : Bool

-- The tag of a `gpio_ctx_t`.
pub data Port : Type 0 where
  a b c : Port

-- `*s = (stm32_t){0}` of `stm32_attach`
unfoldable pub stm32_attach : Stm32
stm32_attach = record { odr_a = 0; odr_b = 0; odr_c = 0; quiet = false }

-- `rcc_read`: the ready bits of CR.
unfoldable pub rcc_read : ℕ → ℕ
rcc_read off = if off == 0x00 then 0x2020083 else 0

unfoldable pub odr : Port → Stm32 → ℕ
odr a s = s.odr_a
odr b s = s.odr_b
odr c s = s.odr_c

unfoldable pub put_odr : Port → ℕ → Stm32 → Stm32
put_odr a v s = record s { odr_a = v }
put_odr b v s = record s { odr_b = v }
put_odr c v s = record s { odr_c = v }

-- `gpio_read`
unfoldable pub gpio_read : Port → ℕ → Stm32 → ℕ
unfolding odr
gpio_read p off s = if off == 0x0C then 0 else if off == 0x10 then odr p s else 0

-- `gpio_write`. The test for BSRR asks for offset 0x10, which the test for ODR above has taken.
unfoldable pub gpio_write : Port → ℕ → ℕ → Stm32 → Stm32
unfolding odr put_odr
gpio_write p off v s =
    if off == 0x10
    then put_odr p v s
    else if off == 0x10
    then put_odr p
        (bit_and (bit_or (odr p s) (bit_and v 0xFFFF)) (not32 (bit_and (v >>> 16) 0xFFFF))) s
    else if off == 0x14
    then put_odr p (bit_and (odr p s) (not32 (bit_and v 0xFFFF))) s
    else s

-- `usart_read`
unfoldable pub usart_read : ℕ → ℕ
usart_read off = if off == 0x00 then 0xC0 else 0

-- `usart_write`: the byte that goes to stdout.
unfoldable pub usart_write : ℕ → ℕ → Option ℕ
usart_write off v = if off == 0x04 then some (bit_and v 0xFF) else none
