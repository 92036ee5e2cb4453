-- ===== src/Executor/Bitfield.antt =====
-- The bit fields of `execute`, CLZ and RBIT. `none` is an opcode of another group.
use lecerf.Base.{
  ℕ, zero, suc, ◌+◌, ◌-◌, ◌^◌, bit_and, bit_or, bit_xor, ◌==◌, leb, if◌then◌else◌, ◌>>>◌, shl32,
  add32, sub32, not32, Option, none, some,
}
use lecerf.Cpu.{Cpu, set_reg}
use lecerf.Decoder.Insn.{
  Insn, Opcode, op_t32_bfc, op_t32_bfi, op_t32_clz, op_t32_rbit, op_t32_sbfx, op_t32_ubfx,
}

-- `i->imm & 0x1F` and `(i->imm >> 8) & 0x1F`
abbrev pub field_lsb : Insn → ℕ
field_lsb i = bit_and i.imm 0x1F

abbrev pub field_top : Insn → ℕ
field_top i = bit_and (i.imm >>> 8) 0x1F

-- `width >= 32 ? 0xFFFFFFFFu : ((1u << width) - 1u)`
abbrev pub width_mask : ℕ → ℕ
width_mask width = if leb 32 width then 0xFFFFFFFF else 2 ^ width - 1

-- `msb - lsb + 1`, of the words of BFI and BFC.
abbrev pub insert_width : Insn → ℕ
insert_width i = add32 (sub32 (field_top i) (field_lsb i)) 1

-- The results of BFI, BFC, UBFX and SBFX.
unfoldable pub bfi : ℕ → ℕ → ℕ → ℕ → ℕ
bfi width lsb old src =
    let mask = width_mask width in
    bit_or (bit_and old (not32 (shl32 mask lsb))) (shl32 (bit_and src mask) lsb)

unfoldable pub bfc : ℕ → ℕ → ℕ → ℕ
bfc width lsb old = bit_and old (not32 (shl32 (width_mask width) lsb))

unfoldable pub ubfx : ℕ → ℕ → ℕ → ℕ
ubfx width lsb v = bit_and (v >>> lsb) (width_mask width)

unfoldable pub sbfx : ℕ → ℕ → ℕ → ℕ
sbfx width lsb v =
    let val = bit_and (v >>> lsb) (width_mask width) in
    let sign = 2 ^ (width - 1) in sub32 (bit_xor val sign) sign

-- The loop of CLZ, on fuel: a word other than 0 leaves it within 32 rounds.
unfoldable pub clz_from : ℕ → ℕ → ℕ → ℕ
clz_from zero v n = n
clz_from (suc fuel) v n =
    let rest = clz_from fuel (shl32 v 1) (n + 1) in if bit_and v 0x80000000 == 0 then rest else n

unfoldable pub clz : ℕ → ℕ
unfolding clz_from
clz v = if v == 0 then 32 else clz_from 32 v 0

-- A step of RBIT: neighbouring groups of `2 ^ k` digits are exchanged.
abbrev pub swap : ℕ → ℕ → ℕ → ℕ → ℕ
swap high low k v = bit_or (bit_and v high >>> k) (shl32 (bit_and v low) k)

unfoldable pub rbit : ℕ → ℕ
rbit v =
    let v1 = swap 0xAAAAAAAA 0x55555555 1 v in
    let v2 = swap 0xCCCCCCCC 0x33333333 2 v1 in
    let v3 = swap 0xF0F0F0F0 0x0F0F0F0F 4 v2 in
    let v4 = swap 0xFF00FF00 0x00FF00FF 8 v3 in bit_or (v4 >>> 16) (shl32 v4 16)

unfoldable pub bitfield : Opcode → Insn → Cpu → Option Cpu
unfolding bfi bfc ubfx sbfx clz rbit
bitfield op_t32_bfi i c =
    some (set_reg c i.rd (bfi (insert_width i) (field_lsb i) (c.r i.rd) (c.r i.rn)))
bitfield op_t32_bfc i c = some (set_reg c i.rd (bfc (insert_width i) (field_lsb i) (c.r i.rd)))
bitfield op_t32_ubfx i c = some (set_reg c i.rd (ubfx (field_top i + 1) (field_lsb i) (c.r i.rn)))
bitfield op_t32_sbfx i c = some (set_reg c i.rd (sbfx (field_top i + 1) (field_lsb i) (c.r i.rn)))
bitfield op_t32_clz i c = some (set_reg c i.rd (clz (c.r i.rm)))
bitfield op_t32_rbit i c = some (set_reg c i.rd (rbit (c.r i.rm)))
bitfield _ i c = none
