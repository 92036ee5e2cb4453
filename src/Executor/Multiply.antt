-- ===== src/Executor/Multiply.antt =====
-- The multiplications and divisions of `execute`. `none` is an opcode of another group.
-- A product of signed words is a 64-bit two's complement number.
use lecerf.Base.{
  ℕ, ◌+◌, ◌-◌, ◌*◌, ◌/◌, ◌%◌, ◌^◌, bit_and, bit_or, ◌==◌, ◌&&◌, ltb, same, if◌then◌else◌, ◌>>>◌,
  add32, sub32, mul32, u64, Option, none, some,
}
use lecerf.Cpu.{Cpu, set_reg}
use lecerf.Decoder.Insn.{
  Insn, Opcode, op_t32_mla, op_t32_mls, op_t32_mul, op_t32_sdiv, op_t32_smlal, op_t32_smull,
  op_t32_udiv, op_t32_umlal, op_t32_umull,
}

-- The absolute value of a signed word.
abbrev pub magnitude : ℕ → ℕ
magnitude x = if ltb x 0x80000000 then x else 0x100000000 - x

-- `(i64)(i32)a * (i64)(i32)b`
abbrev pub signed_product : ℕ → ℕ → ℕ
signed_product a b =
    let p = magnitude a * magnitude b in
    if same (ltb a 0x80000000) (ltb b 0x80000000) then p else u64 (18446744073709551616 - p)

-- `(i32)a / (i32)b`, which rounds towards zero; b is not 0.
abbrev pub signed_quotient : ℕ → ℕ → ℕ
signed_quotient a b =
    let q = magnitude a / magnitude b in
    if same (ltb a 0x80000000) (ltb b 0x80000000) then q % 0x100000000 else sub32 0 q

-- `((u64)c->r[i->rs] << 32) | c->r[i->rd]`
abbrev pub accumulator : Insn → Cpu → ℕ
accumulator i c = bit_or (c.r i.rs * 2 ^ 32) (c.r i.rd)

-- The two halves of a 64-bit number, RdLo before RdHi.
abbrev pub put_long : Insn → Cpu → ℕ → Cpu
put_long i c p = set_reg (set_reg c i.rd (bit_and p 0xFFFFFFFF)) i.rs (p >>> 32)

unfoldable pub multiply : Opcode → Insn → Cpu → Option Cpu
multiply op_t32_mul i c = some (set_reg c i.rd (mul32 (c.r i.rn) (c.r i.rm)))
multiply op_t32_mla i c = some (set_reg c i.rd (add32 (mul32 (c.r i.rn) (c.r i.rm)) (c.r i.rs)))
multiply op_t32_mls i c = some (set_reg c i.rd (sub32 (c.r i.rs) (mul32 (c.r i.rn) (c.r i.rm))))
multiply op_t32_umull i c = some (put_long i c (c.r i.rn * c.r i.rm))
multiply op_t32_smull i c = some (put_long i c (signed_product (c.r i.rn) (c.r i.rm)))
multiply op_t32_umlal i c = some (put_long i c (u64 (accumulator i c + c.r i.rn * c.r i.rm)))
multiply op_t32_smlal i c =
    some (put_long i c (u64 (accumulator i c + signed_product (c.r i.rn) (c.r i.rm))))
multiply op_t32_udiv i c = some (set_reg c i.rd (if c.r i.rm == 0 then 0 else c.r i.rn / c.r i.rm))
multiply op_t32_sdiv i c = some (
    set_reg c i.rd (
      if c.r i.rm == 0
      then 0
      else if (c.r i.rm == 0xFFFFFFFF) && (c.r i.rn == 0x80000000)
      then 0x80000000
      else signed_quotient (c.r i.rn) (c.r i.rm)))
multiply _ i c = none
