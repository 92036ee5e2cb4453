-- ===== src/Codegen/Block.antt =====
-- `insn_native_ok` and `codegen_emit` of src/core/codegen.c.
use lecerf.Base.{
  ℕ, ◌+◌, ◌*◌, ◌^◌, Bool, true, false, not, ◌&&◌, ltb, if◌then◌else◌, has, Option, none, some, List,
  [], ◌∷◌, ◌++◌, length,
}
use lecerf.Bus.{Bus, bus_find_flat}
use lecerf.Decoder.Insn.{
  Insn, Opcode, op_b_cond, op_b_uncond, op_pop, op_t32_b_cond, op_t32_bl, op_t32_ldm,
  op_t32_ldr_imm, op_t32_ldrb_imm, op_t32_ldrd_imm, op_t32_ldrh_imm, op_t32_str_imm,
  op_t32_strb_imm, op_t32_strd_imm, op_t32_strh_imm,
}
use lecerf.Codegen.Emit.{Target, st_pc, emit_clear_fail}
use lecerf.Codegen.Flags.{next_pc}
use lecerf.Codegen.Memory.{emit_prologue, emit_epilogue_check}
use lecerf.Codegen.Stack.{Sram}
use lecerf.Codegen.Op.{codegen_supports, emit_ops}

-- The simple form of a load or a store: an offset that is added before, and no write-back.
abbrev simple_form : Insn → Bool
simple_form i = i.add && i.index && not i.writeback

-- The cases of `insn_native_ok` on the opcode.
native_op : Insn → Opcode → Bool
native_op i op_t32_ldr_imm = simple_form i
native_op i op_t32_str_imm = simple_form i
native_op i op_t32_ldrb_imm = simple_form i
native_op i op_t32_strb_imm = simple_form i
native_op i op_t32_ldrh_imm = simple_form i
native_op i op_t32_strh_imm = simple_form i
native_op i op_t32_ldrd_imm = simple_form i
native_op i op_t32_strd_imm = simple_form i
native_op i op_pop = not (has i.reg_list (2 ^ 15))
native_op i op_t32_ldm = not (has i.reg_list (2 ^ 15))
native_op i _ = true

-- `insn_native_ok`
unfoldable pub insn_native_ok : Insn → Bool
unfolding native_op
insn_native_ok i = native_op i i.op

-- `wrote_pc` of the last opcode.
unfoldable pub writes_pc : Opcode → Bool
writes_pc op_b_cond = true
writes_pc op_t32_b_cond = true
writes_pc op_b_uncond = true
writes_pc op_t32_bl = true
writes_pc _ = false

-- A test of every instruction.
unfoldable pub all_insns : (Insn → Bool) → List Insn → Bool
all_insns f [] = true
all_insns f (i ∷ is) = f i && all_insns f is

-- The PC after the block, where its last instruction did not write it.
unfoldable pub trailing_pc : Target → List Insn → List ℕ
unfolding writes_pc
trailing_pc t [] = []
trailing_pc t (i ∷ []) = if writes_pc i.op then [] else st_pc t (next_pc i)
trailing_pc t (i ∷ j ∷ is) = trailing_pc t (j ∷ is)

-- `codegen_t`; the list is `buffer[0 .. used)`.
pub record Codegen : Type 0 where
  pub buffer : List ℕ
  pub capacity : ℕ

abbrev cg_buffer_size : ℕ
cg_buffer_size = 2097152

-- `codegen_init`, where the memory is given.
unfoldable pub codegen_init : Codegen
codegen_init = record { buffer = []; capacity = cg_buffer_size }

-- `emit_b`: a byte that does not fit is dropped.
unfoldable pub emit_b : ℕ → Codegen → Codegen
emit_b b cg =
    if ltb (length cg.buffer) cg.capacity then record cg { buffer = cg.buffer ++ b ∷ [] } else cg

unfoldable pub emit_all : List ℕ → Codegen → Codegen
unfolding emit_b
emit_all [] cg = cg
emit_all (b ∷ bs) cg = emit_all bs (emit_b b cg)

-- The bytes of a thunk.
unfoldable pub thunk_code : Target → Option Sram → List Insn → List ℕ
unfolding emit_prologue emit_ops trailing_pc emit_epilogue_check
thunk_code t sram ins =
    emit_prologue
    ++ emit_clear_fail
    ++ emit_ops t sram ins
    ++ trailing_pc t ins
    ++ emit_epilogue_check t

-- `bus_find_flat(b, 0x20000000u)`, with the address of its buffer.
unfoldable pub sram_of : {T : Type 0} → Target → Option (Bus T) → Option Sram
unfolding bus_find_flat
sram_of t none = none
sram_of t (some b) = elim (bus_find_flat b 0x20000000) [
  | none ↦ none
  | some (i, r) ↦ some (record { base = r.base; size = r.size; buf = t.buf_at i })
]

-- `codegen_emit`: the offset of the thunk in the buffer, or `none` for a null pointer. A block has
-- one instruction at least.
unfoldable pub codegen_emit :
    {T : Type 0} → Target → Option (Bus T) → List Insn → Codegen → Option ℕ × Codegen
unfolding codegen_supports insn_native_ok all_insns thunk_code sram_of emit_all
codegen_emit t b ins cg =
    if not (all_insns (λ i. codegen_supports i.op) ins)
    then (none, cg)
    else if not (all_insns insn_native_ok ins)
    then (none, cg)
    else if ltb cg.capacity (length cg.buffer + length ins * 160 + 64)
    then (none, cg)
    else (some (length cg.buffer), emit_all (thunk_code t (sram_of t b) ins) cg)
