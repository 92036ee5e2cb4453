-- ===== src/Base/Word.antt =====
-- `u8`, `u16`, `u32` and `u64` of include/core/types.h: a value is a plain number, and each
-- operation writes out its wrap-around.
use Prim.Native.Nat.{ℕ, ◌+◌, ◌-◌, ◌*◌, ◌/◌, ◌%◌, ◌^◌, ◌<◌, bit_and, bit_or}
use mathlib.Core.Bool.{Bool, not}
use lecerf.Base.Tests.{◌==◌, ltb, if◌then◌else◌}

abbrev pub u8 : ℕ → ℕ
u8 n = n % 256

abbrev pub u16 : ℕ → ℕ
u16 n = n % 65536

abbrev pub u32 : ℕ → ℕ
u32 n = n % 4294967296

abbrev pub u64 : ℕ → ℕ
u64 n = n % 18446744073709551616

abbrev pub add32 : ℕ → ℕ → ℕ
add32 a b = (a + b) % 4294967296

-- `-` on ℕ stops at 0, so the modulus is added first.
abbrev pub sub32 : ℕ → ℕ → ℕ
sub32 a b = (a + 4294967296 - b) % 4294967296

abbrev pub mul32 : ℕ → ℕ → ℕ
mul32 a b = a * b % 4294967296

-- `~a` of a 32-bit word.
abbrev pub not32 : ℕ → ℕ
not32 a = 4294967295 - a

infixl 75 ◌>>>◌
abbrev pub ◌>>>◌ : ℕ → ℕ → ℕ
x >>> k = x / 2 ^ k

-- `v << k` of a 32-bit word.
abbrev pub shl32 : ℕ → ℕ → ℕ
shl32 v k = v * 2 ^ k % 4294967296

-- `(x & mask) != 0`.
abbrev pub has : ℕ → ℕ → Bool
has x mask = not (bit_and x mask == 0)

-- The value of an 8-bit (16-bit) two's complement number as a 32-bit word: `(u32)(i32)(i8)v`.
abbrev pub sext8 : ℕ → ℕ
sext8 v = if ltb v 128 then v else v + 4294967040

abbrev pub sext16 : ℕ → ℕ
sext16 v = if ltb v 32768 then v else v + 4294901760

abbrev pub IsU8 : ℕ → Type 0
IsU8 n = n < 256

abbrev pub IsU32 : ℕ → Type 0
IsU32 n = n < 4294967296

-- `if (t) f |= mask;`
abbrev pub set_if : Bool → ℕ → ℕ → ℕ
set_if t mask f = if t then bit_or f mask else f
