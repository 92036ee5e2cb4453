-- ===== src/Periph/Stm32/Gpio.antt =====
-- What writes to the output registers of a port do to the three ports.
use lecerf.Base.{ℕ, ◌/◌, ◌%◌, ◌^◌, ◌<◌, ◌≤◌, bit_and, bit_or, not32, ◌≡◌, ◌≢◌, refl, arith}
use lecerf.Base.Bits.{bit_and-le, bit_or-lt}
use lecerf.Periph.Stm32.{Stm32, Port, a, b, c, odr, put_odr, gpio_write}

odr-gpio_write : (p : Port) (v : ℕ) (s : Stm32) → odr p (gpio_write p 0x10 v s) ≡ v
unfolding gpio_write odr put_odr
odr-gpio_write a v s = refl
odr-gpio_write b v s = refl
odr-gpio_write c v s = refl

-- Offset 0x10 does not set and reset: where the upper half of the word names a line to reset and
-- the register has 16 bits, the register is not the old one with the lower half set and the upper
-- half reset.
gpio_write-ne_bsrr :
    (p : Port) (v : ℕ) (s : Stm32)
    → odr p s < 2 ^ 16
    → 2 ^ 16 ≤ v
    → odr p (gpio_write p 0x10 v s)
      ≢ bit_and (bit_or (odr p s) (v % 65536)) (not32 (v / 65536 % 65536))
gpio_write-ne_bsrr p v s small high e = omega (
  arith,
  odr-gpio_write p v s,
  e,
  bit_and-le (bit_or (odr p s) (v % 65536)) (not32 (v / 65536 % 65536)),
  bit_or-lt 16 (odr p s) (v % 65536) small (omega arith),
)
