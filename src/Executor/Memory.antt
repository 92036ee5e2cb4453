-- ===== src/Executor/Memory.antt =====
-- The loads and stores of `execute`, of core and of VFP registers. `none` is an opcode of another
-- group.
use lecerf.Base.{
  ℕ, ◌%◌, bit_and, ◌==◌, if◌then◌else◌, add32, sub32, shl32, sext8, sext16, Option, none, some,
}
use lecerf.Cpu.{Cpu, set_reg, reg_sp, reg_pc}
use lecerf.Exception.{Host, M, ◌>>=◌, ◌>>◌}
use lecerf.Decoder.Insn.{
  Insn, Opcode, op_ldr_imm, op_ldr_lit, op_ldr_reg, op_ldr_sp, op_ldrb_imm, op_ldrb_reg,
  op_ldrh_imm, op_ldrh_reg, op_ldrsb_reg, op_ldrsh_reg, op_str_imm, op_str_reg, op_str_sp,
  op_strb_imm, op_strb_reg, op_strh_imm, op_strh_reg, op_t32_ldr_imm, op_t32_ldr_lit,
  op_t32_ldr_reg, op_t32_ldrb_imm, op_t32_ldrd_imm, op_t32_ldrh_imm, op_t32_ldrsb_imm,
  op_t32_ldrsh_imm, op_t32_str_imm, op_t32_str_reg, op_t32_strb_imm, op_t32_strd_imm,
  op_t32_strh_imm, op_vldr_s, op_vstr_s,
}
use lecerf.Executor.Cond.{literal_base}
use lecerf.Executor.Vfp.{set_u}
use lecerf.Executor.Steps.{cpu, modify, load, store}

-- A load into `rd` from an address, of a size, with what is kept of the word; and a store.
pub data Access : Type 0 where
  loads : ℕ → ℕ → (ℕ → ℕ) → Access
  stores : ℕ → ℕ → ℕ → Access

-- The 16-bit loads and stores.
unfoldable pub access_16 : Opcode → Insn → Cpu → Option Access
access_16 op_ldr_lit i c = some (loads (add32 (literal_base c) i.imm) 4 (λ v. v))
access_16 op_ldr_imm i c = some (loads (add32 (c.r i.rn) i.imm) 4 (λ v. v))
access_16 op_str_imm i c = some (stores (add32 (c.r i.rn) i.imm) 4 (c.r i.rd))
access_16 op_ldrb_imm i c = some (loads (add32 (c.r i.rn) i.imm) 1 (λ v. bit_and v 0xFF))
access_16 op_strb_imm i c = some (stores (add32 (c.r i.rn) i.imm) 1 (bit_and (c.r i.rd) 0xFF))
access_16 op_ldrh_imm i c = some (loads (add32 (c.r i.rn) i.imm) 2 (λ v. bit_and v 0xFFFF))
access_16 op_strh_imm i c = some (stores (add32 (c.r i.rn) i.imm) 2 (bit_and (c.r i.rd) 0xFFFF))
access_16 op_ldr_reg i c = some (loads (add32 (c.r i.rn) (c.r i.rm)) 4 (λ v. v))
access_16 op_str_reg i c = some (stores (add32 (c.r i.rn) (c.r i.rm)) 4 (c.r i.rd))
access_16 op_ldrb_reg i c = some (loads (add32 (c.r i.rn) (c.r i.rm)) 1 (λ v. bit_and v 0xFF))
access_16 op_strb_reg i c = some (stores (add32 (c.r i.rn) (c.r i.rm)) 1 (bit_and (c.r i.rd) 0xFF))
access_16 op_ldrh_reg i c = some (loads (add32 (c.r i.rn) (c.r i.rm)) 2 (λ v. bit_and v 0xFFFF))
access_16 op_strh_reg i c =
    some (stores (add32 (c.r i.rn) (c.r i.rm)) 2 (bit_and (c.r i.rd) 0xFFFF))
access_16 op_ldrsb_reg i c = some (loads (add32 (c.r i.rn) (c.r i.rm)) 1 (λ v. sext8 (v % 256)))
access_16 op_ldrsh_reg i c = some (loads (add32 (c.r i.rn) (c.r i.rm)) 2 (λ v. sext16 (v % 65536)))
access_16 op_ldr_sp i c = some (loads (add32 (c.r reg_sp) i.imm) 4 (λ v. v))
access_16 op_str_sp i c = some (stores (add32 (c.r reg_sp) i.imm) 4 (c.r i.rd))
access_16 _ i c = none

-- `i->add ? base + off : base - off`
abbrev pub offset : Insn → ℕ → ℕ
offset i base = if i.add then add32 base i.imm else sub32 base i.imm

-- `i->index ? a : base`
abbrev pub effective : Insn → ℕ → ℕ
effective i base = if i.index then offset i base else base

-- The 32-bit loads and stores without write-back.
unfoldable pub access_32 : Opcode → Insn → Cpu → Option Access
access_32 op_t32_ldr_lit i c = some (loads (offset i (literal_base c)) 4 (λ v. v))
access_32 op_t32_ldr_reg i c =
    some (loads (add32 (c.r i.rn) (shl32 (c.r i.rm) i.shift_n)) 4 (λ v. v))
access_32 op_t32_str_reg i c =
    some (stores (add32 (c.r i.rn) (shl32 (c.r i.rm) i.shift_n)) 4 (c.r i.rd))
access_32 _ i c = none

-- The 32-bit loads and stores of an immediate offset, which can write the base back.
unfoldable pub access_indexed : Opcode → Insn → Cpu → Option Access
access_indexed op_t32_ldr_imm i c = some (loads (effective i (c.r i.rn)) 4 (λ v. v))
access_indexed op_t32_ldrh_imm i c = some (loads (effective i (c.r i.rn)) 2 (λ v. v))
access_indexed op_t32_ldrb_imm i c = some (loads (effective i (c.r i.rn)) 1 (λ v. v))
access_indexed op_t32_ldrsb_imm i c = some (loads (effective i (c.r i.rn)) 1 (λ v. sext8 (v % 256)))
access_indexed op_t32_ldrsh_imm i c =
    some (loads (effective i (c.r i.rn)) 2 (λ v. sext16 (v % 65536)))
access_indexed op_t32_str_imm i c = some (stores (effective i (c.r i.rn)) 4 (c.r i.rd))
access_indexed op_t32_strh_imm i c = some (stores (effective i (c.r i.rn)) 2 (c.r i.rd))
access_indexed op_t32_strb_imm i c = some (stores (effective i (c.r i.rn)) 1 (c.r i.rd))
access_indexed _ i c = none

module _ {T S : Type 0} (h : Host T S) where
  -- `if (i->writeback) c->r[i->rn] = a;`
  unfoldable pub write_back : Insn → ℕ → M S (Unit {0})
  write_back i a = modify h (λ c. if i.writeback then set_reg c i.rn a else c)

  unfoldable pub run_access : Insn → Access → M S (Unit {0})
  run_access i (loads a size keep) = do v ← load h size a; modify h (λ c. set_reg c i.rd (keep v))
  run_access i (stores a size v) = store h size a v

  -- LDRD and STRD: both words are loaded before a register is written.
  unfoldable pub load_double : Insn → ℕ → M S (Unit {0})
  unfolding write_back
  load_double i base = do
    v0 ← load h 4 (effective i base)
    v1 ← load h 4 (add32 (effective i base) 4)
    modify h (λ c. set_reg (set_reg c i.rd v0) i.rs v1)
    write_back i (offset i base)

  unfoldable pub store_double : Insn → ℕ → M S (Unit {0})
  unfolding write_back
  store_double i base = do
    c ← cpu h
    store h 4 (effective i base) (c.r i.rd)
    c' ← cpu h
    store h 4 (add32 (effective i base) 4) (c'.r i.rs)
    write_back i (offset i base)

  -- VLDR and VSTR; only the load aligns the PC.
  unfoldable pub load_vfp : Insn → Cpu → M S (Unit {0})
  load_vfp i c = do
    v ← load h 4 (offset i (if i.rn == reg_pc then literal_base c else c.r i.rn))
    modify h (λ c'. set_u c' i.sd v)

  unfoldable pub store_vfp : Insn → Cpu → M S (Unit {0})
  store_vfp i c = store h 4 (offset i (c.r i.rn)) (c.fpu.u i.sd)

  -- The cases that none of the three tables holds.
  unfoldable pub other_access : Opcode → Insn → Cpu → Option (M S (Unit {0}))
  unfolding load_double store_double load_vfp store_vfp
  other_access op_t32_ldrd_imm i c = some (load_double i (c.r i.rn))
  other_access op_t32_strd_imm i c = some (store_double i (c.r i.rn))
  other_access op_vldr_s i c = some (load_vfp i c)
  other_access op_vstr_s i c = some (store_vfp i c)
  other_access _ i c = none

  unfoldable pub memory : Opcode → Insn → Cpu → Option (M S (Unit {0}))
  unfolding access_16 access_32 access_indexed run_access write_back other_access
  memory op i c = elim (access_16 op i c) [
    | some a ↦ some (run_access i a)
    | none ↦ elim (access_32 op i c) [
      | some a ↦ some (run_access i a)
      | none ↦ elim (access_indexed op i c) [
        | some a ↦ some (run_access i a >> write_back i (offset i (c.r i.rn)))
        | none ↦ other_access op i c
      ]
    ]
  ]
