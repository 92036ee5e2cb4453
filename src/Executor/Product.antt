-- ===== src/Executor/Product.antt =====
-- The long multiplications, against the product of numbers and of sign-extended numbers modulo
-- 2 ^ 64.
use lecerf.Base.{
  ℕ, ◌+◌, ◌-◌, ◌*◌, ◌%◌, ◌^◌, ◌<◌, ◌≤◌, Bool, true, false, ltb, if◌then◌else◌, IsU32, Option, none,
  some, ◌≡◌, ◌≢◌, refl, ap, ap₂, sym, ◌∙◌, arith,
}
use lecerf.Base.Bits.{bit_and_mask}
use lecerf.Base.Bits.Shift.{bit_or-add}
use native.Mathlib.Nat.{mul-sub, mul-le-mul, mul_comm, add-mod-mod}
use lecerf.Cpu.{Cpu}
use lecerf.Decoder.Insn.{Insn, op_t32_smlal, op_t32_smull, op_t32_umlal, op_t32_umull}
use lecerf.Executor.Multiply.{multiply, signed_product, put_long, accumulator}

-- The value of a signed word as a 64-bit two's complement number: `(i64)(i32)x`.
abbrev pub sext64 : ℕ → ℕ
sext64 x = if ltb x 0x80000000 then x else x + 0xFFFFFFFF00000000

-- The product of a number and of a negative one, both wrapped.
mixed_signs :
    (a v : ℕ) → v ≤ 2 ^ 32 → a ≤ 2 ^ 32 → a * (2 ^ 64 - v) % 2 ^ 64 ≡ (2 ^ 64 - a * v) % 2 ^ 64
mixed_signs a v hv ha = omega (
  arith,
  mul-sub a (2 ^ 64) v,
  mul-le-mul {n₁ = a} {m₁ = v} {n₂ = a} {m₂ = 2 ^ 64} (omega arith) (omega arith),
  mul-le-mul {n₁ = a} {m₁ = v} {n₂ = 2 ^ 32} {m₂ = 2 ^ 32} ha hv,
)

both_negative :
    (u v : ℕ) → u ≤ 2 ^ 32 → v ≤ 2 ^ 32 → (2 ^ 64 - u) * (2 ^ 64 - v) % 2 ^ 64 ≡ u * v % 2 ^ 64
both_negative u v hu hv = omega (
  arith,
  mul-sub (2 ^ 64 - u) (2 ^ 64) v,
  mul_comm (2 ^ 64 - u) v,
  mul-sub v (2 ^ 64) u,
  mul_comm v u,
  mul-le-mul {n₁ = v} {m₁ = u} {n₂ = v} {m₂ = 2 ^ 64} (omega arith) (omega arith),
  mul-le-mul {n₁ = 2 ^ 64 - u} {m₁ = v} {n₂ = 2 ^ 64 - u} {m₂ = 2 ^ 64} (omega arith) (omega arith),
  mul-le-mul {n₁ = u} {m₁ = v} {n₂ = 2 ^ 32} {m₂ = 2 ^ 32} hu hv,
)

-- The signed product of two words is the product of their sign-extended values modulo 2 ^ 64.
signed_product_lem :
    (a b : ℕ) → IsU32 a → IsU32 b → signed_product a b ≡ sext64 a * sext64 b % 2 ^ 64
signed_product_lem a b ha hb = go (ltb a 0x80000000) (ltb b 0x80000000) refl refl
  where
    below : (x : ℕ) → IsU32 x → x + 0xFFFFFFFF00000000 ≡ 2 ^ 64 - (2 ^ 32 - x)
    below x h = omega arith

    half : (x : ℕ) → ltb x 0x80000000 ≡ false → 2 ^ 32 - x ≤ 2 ^ 31
    half x e = ground arith

    small :
        ltb a 0x80000000 ≡ false
        → ltb b 0x80000000 ≡ false
        → (2 ^ 32 - a) * (2 ^ 32 - b) ≡ (2 ^ 32 - a) * (2 ^ 32 - b) % 2 ^ 64
    small e e' = omega (
      arith,
      mul-le-mul {n₁ = 2 ^ 32 - a} {m₁ = 2 ^ 32 - b} {n₂ = 2 ^ 31} {m₂ = 2 ^ 31} (half a e)
          (half b e'),
    )

    go :
        (s t : Bool)
        → ltb a 0x80000000 ≡ s
        → ltb b 0x80000000 ≡ t
        → signed_product a b ≡ sext64 a * sext64 b % 2 ^ 64
    go true true e e' =
        rw (e, e')
          (omega (
            arith,
            mul-le-mul {n₁ = a} {m₁ = b} {n₂ = 2 ^ 32 - 1} {m₂ = 2 ^ 32} (omega arith)
                (omega arith),
          ))
    go true false e e' =
        rw (e, e', below b hb) (sym (mixed_signs a (2 ^ 32 - b) (omega arith) (omega arith)))
    go false true e e' =
        rw (e, e', below a ha, mul_comm (2 ^ 32 - a) b, mul_comm (2 ^ 64 - (2 ^ 32 - a)) b)
          (sym (mixed_signs b (2 ^ 32 - a) (omega arith) (omega arith)))
    go false false e e' =
        rw (e, e', below a ha, below b hb)
          (small e e' ∙ sym (both_negative (2 ^ 32 - a) (2 ^ 32 - b) (omega arith) (omega arith)))

-- The 64-bit number in RdHi and RdLo.
abbrev pub long_value : Insn → Cpu → ℕ
long_value i c = c.r i.rs * 2 ^ 32 + c.r i.rd

-- That number after an instruction.
abbrev pub long_after : Insn → Option Cpu → Option ℕ
long_after i none = none
long_after i (some c) = some (long_value i c)

put_long_lem :
    (i : Insn) (c : Cpu) (p : ℕ) → i.rd ≢ i.rs → p < 2 ^ 64 → long_value i (put_long i c p) ≡ p
put_long_lem i c p ne h = ground (arith, bit_and_mask 32 p)

-- The four long multiplications on the 64-bit number of RdHi and RdLo.
pub record IsLongProduct (i : Insn) (c : Cpu) : Type 0 where
  pub umull : long_after i (multiply op_t32_umull i c) ≡ some (c.r i.rn * c.r i.rm)
  pub umlal :
      long_after i (multiply op_t32_umlal i c)
      ≡ some ((long_value i c + c.r i.rn * c.r i.rm) % 2 ^ 64)
  pub smull :
      long_after i (multiply op_t32_smull i c)
      ≡ some (sext64 (c.r i.rn) * sext64 (c.r i.rm) % 2 ^ 64)
  pub smlal :
      long_after i (multiply op_t32_smlal i c)
      ≡ some ((long_value i c + sext64 (c.r i.rn) * sext64 (c.r i.rm)) % 2 ^ 64)

-- With two different destination registers and words in the registers, UMULL and SMULL leave the
-- product and UMLAL and SMLAL the sum of the product and the old value, modulo 2 ^ 64 and signed as
-- their names say.
pub multiply-IsLongProduct :
    (i : Insn) (c : Cpu) → i.rd ≢ i.rs → ((k : ℕ) → IsU32 (c.r k)) → IsLongProduct i c
unfolding multiply
multiply-IsLongProduct i c ne words = record {
  umull = ap some (put_long_lem i c (c.r i.rn * c.r i.rm) ne product);
  umlal = ap some (
      put_long_lem i c _ ne (omega arith) ∙ ap (λ (t : ℕ). (t + c.r i.rn * c.r i.rm) % 2 ^ 64) old);
  smull = ap some (put_long_lem i c _ ne (omega (arith, signed)) ∙ signed);
  smlal = ap some (
      put_long_lem i c _ ne (omega arith)
      ∙ ap₂ (λ (t p : ℕ). (t + p) % 2 ^ 64) old signed
      ∙ add-mod-mod (long_value i c) (sext64 (c.r i.rn) * sext64 (c.r i.rm)) (2 ^ 64));
}
  where
    product : c.r i.rn * c.r i.rm < 2 ^ 64
    product = omega (
      arith,
      words i.rn,
      words i.rm,
      mul-le-mul {n₁ = c.r i.rn} {m₁ = c.r i.rm} {n₂ = 2 ^ 32 - 1} {m₂ = 2 ^ 32}
          (omega (arith, words i.rn)) (omega (arith, words i.rm)),
    )

    old : accumulator i c ≡ long_value i c
    old = bit_or-add 32 (c.r i.rs) (c.r i.rd) (words i.rd)

    signed : signed_product (c.r i.rn) (c.r i.rm) ≡ sext64 (c.r i.rn) * sext64 (c.r i.rm) % 2 ^ 64
    signed = signed_product_lem (c.r i.rn) (c.r i.rm) (words i.rn) (words i.rm)
