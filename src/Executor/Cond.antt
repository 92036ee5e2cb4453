-- ===== src/Executor/Cond.antt =====
-- `cond_pass`, `t32_shift` and `op_is_flagsetter` of src/core/executor.c, and what its cases share.
use lecerf.Base.{
  ℕ, ◌-◌, bit_and, bit_or, Bool, true, false, not, ◌==◌, ◌&&◌, ◌||◌, same, leb, ltb, if◌then◌else◌,
  ◌>>>◌, shl32, add32, not32, has,
}
use lecerf.Cpu.{Cpu, apsr_n, apsr_z, apsr_c, apsr_v, reg_pc}
use lecerf.Decoder.Insn.{
  Opcode, op_cmn_reg, op_cmp_imm, op_cmp_reg, op_cmp_reg_t2, op_t32_cmn_imm, op_t32_cmn_reg,
  op_t32_cmp_imm, op_t32_cmp_reg, op_t32_teq_imm, op_t32_teq_reg, op_t32_tst_imm, op_t32_tst_reg,
  op_tst_reg,
}

-- The conditions 0x0 to 0xD on the four flags; `other` is the result of the rest.
unfoldable pub cond_table : Bool → Bool → Bool → Bool → Bool → ℕ → Bool
cond_table n z c v other cond =
    if cond == 0x0
    then z
    else if cond == 0x1
    then not z
    else if cond == 0x2
    then c
    else if cond == 0x3
    then not c
    else if cond == 0x4
    then n
    else if cond == 0x5
    then not n
    else if cond == 0x6
    then v
    else if cond == 0x7
    then not v
    else if cond == 0x8
    then c && not z
    else if cond == 0x9
    then not c || z
    else if cond == 0xA
    then same n v
    else if cond == 0xB
    then not (same n v)
    else if cond == 0xC
    then not z && same n v
    else if cond == 0xD
    then z || not (same n v)
    else other

-- `cond_pass`
unfoldable pub cond_pass : ℕ → ℕ → Bool
unfolding cond_table
cond_pass apsr cond =
    cond_table (has apsr apsr_n) (has apsr apsr_z) (has apsr apsr_c) (has apsr apsr_v) true
      (bit_and cond 0xF)

-- `v >> n` of a signed word, n below 32.
abbrev pub asr32 : ℕ → ℕ → ℕ
asr32 v n = if ltb v 0x80000000 then v >>> n else not32 (not32 v >>> n)

-- `(v >> n) | (v << (32 - n))`, n from 1 to 31.
abbrev pub rotate : ℕ → ℕ → ℕ
rotate v n = bit_or (v >>> n) (shl32 v (32 - n))

-- `t32_shift`
unfoldable pub t32_shift : ℕ → ℕ → ℕ → ℕ
t32_shift v type n =
    if (n == 0) && (type == 0)
    then v
    else if bit_and type 3 == 0
    then if leb 32 n then 0 else shl32 v n
    else if bit_and type 3 == 1
    then if leb 32 n then 0 else v >>> n
    else if bit_and type 3 == 2
    then if leb 32 n then asr32 v 31 else asr32 v n
    else if n == 0
    then v
    else rotate v n

-- `op_is_flagsetter`
unfoldable pub op_is_flagsetter : Opcode → Bool
op_is_flagsetter op_cmp_imm = true
op_is_flagsetter op_cmp_reg = true
op_is_flagsetter op_cmp_reg_t2 = true
op_is_flagsetter op_cmn_reg = true
op_is_flagsetter op_tst_reg = true
op_is_flagsetter op_t32_cmp_imm = true
op_is_flagsetter op_t32_cmp_reg = true
op_is_flagsetter op_t32_cmn_imm = true
op_is_flagsetter op_t32_cmn_reg = true
op_is_flagsetter op_t32_tst_imm = true
op_is_flagsetter op_t32_tst_reg = true
op_is_flagsetter op_t32_teq_imm = true
op_is_flagsetter op_t32_teq_reg = true
op_is_flagsetter _ = false

-- `c->r[REG_PC] + 4`
abbrev pub pc_plus_4 : Cpu → ℕ
pc_plus_4 c = add32 (c.r reg_pc) 4

-- `(k == REG_PC) ? (c->r[REG_PC] + 4) : c->r[k]`
abbrev pub reg_or_pc : Cpu → ℕ → ℕ
reg_or_pc c k = if k == reg_pc then pc_plus_4 c else c.r k

-- `(c->r[REG_PC] + 4) & ~3u`
abbrev pub literal_base : Cpu → ℕ
literal_base c = bit_and (pc_plus_4 c) (not32 3)

-- `(c->apsr & APSR_C) != 0`
abbrev pub carry_in : Cpu → Bool
carry_in c = has c.apsr apsr_c
