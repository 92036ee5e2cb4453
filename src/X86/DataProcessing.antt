-- ===== src/X86/DataProcessing.antt =====
-- The native code of data processing against `execute`: register by register and flag by flag.
use lecerf.Base.{
  ℕ, ◌<◌, bit_and, bit_or, bit_xor, Bool, true, false, ◌==◌, add32, sub32, Option, some, List, ◌++◌,
  IsU32, ◌≡◌, arith, Bool-cases, inl, inr,
}
use lecerf.Base.Bits.Laws.{bit_and-le, bit_or-lt, bit_xor-lt}
use lecerf.Cpu.{Cpu, set_reg, cpu_set_flags_nz, cpu_set_flags_nzcv_add, cpu_set_flags_nzcv_sub}
use lecerf.Decoder.Insn.{
  Insn, Opcode, op_add_imm3, op_add_imm8, op_add_reg, op_and_reg, op_cmn_reg, op_cmp_imm,
  op_cmp_reg, op_eor_reg, op_mov_imm, op_orr_reg, op_sub_imm3, op_sub_imm8, op_sub_reg,
  op_t32_add_imm, op_t32_addw, op_t32_and_imm, op_t32_cmn_imm, op_t32_cmp_imm, op_t32_eor_imm,
  op_t32_mov_imm, op_t32_movw, op_t32_orr_imm, op_t32_sub_imm, op_t32_subw, op_tst_reg,
}
use lecerf.Executor.Alu.{arith_16, logic_16, shift_16, address_16, extend_16}
use lecerf.Executor.Wide.{modified_imm, plain_imm}
use lecerf.Executor.Vfp.{Float}
use lecerf.Executor.{data_processing}
use lecerf.Codegen.Emit.{
  Target, ld_eax, mov_eax_imm, op_add_ec, op_sub_ec, op_and_ec, op_or_ec, op_xor_ec, add_imm,
  sub_imm, and_imm, or_imm, xor_imm, test_eax_eax,
}
use lecerf.Codegen.Stack.{Sram}
use lecerf.Codegen.Op.{operands, op_code}
use lecerf.X86.Word.{IsLayout}
use lecerf.X86.Code.{Does, HasCpu}
use lecerf.X86.Ops.{
  plain_end, sum_end, difference_end, logic_end, sum_flags, difference_flags, logic_flags_end,
  adds_end, subs_end, logics_end,
}
use lecerf.X86.Pieces.{
  IsOperands, op_add_ec-does, op_sub_ec-does, op_and_ec-does, op_or_ec-does, op_xor_ec-does,
  add_imm-does, sub_imm-does, and_imm-does, or_imm-does, xor_imm-does, tested_move-does,
  plain_move-does,
}

-- The data processing whose native code is compared: MOV, ADD, SUB, CMP, CMN, AND, ORR, EOR and TST.
unfoldable pub is_native_alu : Opcode → Bool
is_native_alu op_add_reg = true
is_native_alu op_sub_reg = true
is_native_alu op_add_imm3 = true
is_native_alu op_add_imm8 = true
is_native_alu op_sub_imm3 = true
is_native_alu op_sub_imm8 = true
is_native_alu op_cmp_imm = true
is_native_alu op_t32_cmp_imm = true
is_native_alu op_cmp_reg = true
is_native_alu op_cmn_reg = true
is_native_alu op_t32_cmn_imm = true
is_native_alu op_and_reg = true
is_native_alu op_orr_reg = true
is_native_alu op_eor_reg = true
is_native_alu op_tst_reg = true
is_native_alu op_t32_add_imm = true
is_native_alu op_t32_sub_imm = true
is_native_alu op_t32_and_imm = true
is_native_alu op_t32_orr_imm = true
is_native_alu op_t32_eor_imm = true
is_native_alu op_t32_addw = true
is_native_alu op_t32_subw = true
is_native_alu op_mov_imm = true
is_native_alu op_t32_movw = true
is_native_alu op_t32_mov_imm = true
is_native_alu _ = false

-- The code ends with the CPU that the interpreter makes of `c`, and its registers hold words.
pub data Computes (t : Target) (code : List ℕ) (c : Cpu) : Option Cpu → Type 0 where
  computes :
      (c' : Cpu)
      → Does t (HasCpu c) code (HasCpu c')
      → ((k : ℕ) → k < 16 → IsU32 (c'.r k))
      → Computes t code c (some c')

put_words :
    (i : Insn) (c : Cpu) (v : ℕ)
    → IsOperands i c
    → IsU32 v
    → (k : ℕ) → k < 16
    → IsU32 ((set_reg c i.rd v).r k)
put_words i c v w h k hk = elim (Bool-cases (k == i.rd)) [
  | inl e ↦ rw e h
  | inr e ↦ rw e (w.words k hk)
]

module _ (t : Target) (lay : IsLayout t) (sram : Option Sram) (f : Float) where
  -- The native code of one of these instructions, run from its first byte to its last on each machine
  -- with the CPU `c`, ends with exactly the CPU that `execute` computes from `c`: the same register
  -- written, the same flags, and nothing else changed.
  pub op_code-data_processing :
      (op : Opcode) (i : Insn) (c : Cpu)
      → is_native_alu op ≡ true
      → IsOperands i c
      → Computes t (op_code t sram i op) c (data_processing f op i c)
  unfolding op_code is_native_alu data_processing arith_16 logic_16 shift_16 address_16 extend_16
      modified_imm plain_imm cpu_set_flags_nz cpu_set_flags_nzcv_add cpu_set_flags_nzcv_sub
  op_code-data_processing op_add_reg i c a w =
      computes _
        (sum_end t lay i c (c.r i.rn) (c.r i.rm) (operands t sram i ++ op_add_ec) w.rd
          (w.words i.rn w.rn) (w.words i.rm w.rm) (op_add_ec-does t lay sram i c w))
        (λ k h. put_words i c _ w (omega arith) k h)
  op_code-data_processing op_sub_reg i c a w =
      computes _
        (difference_end t lay i c (c.r i.rn) (c.r i.rm) (operands t sram i ++ op_sub_ec) w.rd
          (w.words i.rn w.rn) (w.words i.rm w.rm) (op_sub_ec-does t lay sram i c w))
        (λ k h. put_words i c _ w (omega arith) k h)
  op_code-data_processing op_add_imm3 i c a w =
      computes _
        (sum_end t lay i c (c.r i.rn) i.imm (ld_eax t i.rn ++ add_imm i.imm) w.rd
          (w.words i.rn w.rn) w.imm (add_imm-does t lay sram i c w))
        (λ k h. put_words i c _ w (omega arith) k h)
  op_code-data_processing op_add_imm8 i c a w =
      computes _
        (sum_end t lay i c (c.r i.rn) i.imm (ld_eax t i.rn ++ add_imm i.imm) w.rd
          (w.words i.rn w.rn) w.imm (add_imm-does t lay sram i c w))
        (λ k h. put_words i c _ w (omega arith) k h)
  op_code-data_processing op_sub_imm3 i c a w =
      computes _
        (difference_end t lay i c (c.r i.rn) i.imm (ld_eax t i.rn ++ sub_imm i.imm) w.rd
          (w.words i.rn w.rn) w.imm (sub_imm-does t lay sram i c w))
        (λ k h. put_words i c _ w (omega arith) k h)
  op_code-data_processing op_sub_imm8 i c a w =
      computes _
        (difference_end t lay i c (c.r i.rn) i.imm (ld_eax t i.rn ++ sub_imm i.imm) w.rd
          (w.words i.rn w.rn) w.imm (sub_imm-does t lay sram i c w))
        (λ k h. put_words i c _ w (omega arith) k h)
  op_code-data_processing op_cmp_imm i c a w =
      computes _
        (difference_flags t lay i c (c.r i.rn) i.imm (ld_eax t i.rn ++ sub_imm i.imm)
          (w.words i.rn w.rn) w.imm (sub_imm-does t lay sram i c w))
        w.words
  op_code-data_processing op_t32_cmp_imm i c a w =
      computes _
        (difference_flags t lay i c (c.r i.rn) i.imm (ld_eax t i.rn ++ sub_imm i.imm)
          (w.words i.rn w.rn) w.imm (sub_imm-does t lay sram i c w))
        w.words
  op_code-data_processing op_cmp_reg i c a w =
      computes _
        (difference_flags t lay i c (c.r i.rn) (c.r i.rm) (operands t sram i ++ op_sub_ec)
          (w.words i.rn w.rn) (w.words i.rm w.rm) (op_sub_ec-does t lay sram i c w))
        w.words
  op_code-data_processing op_cmn_reg i c a w =
      computes _
        (sum_flags t lay i c (c.r i.rn) (c.r i.rm) (operands t sram i ++ op_add_ec)
          (w.words i.rn w.rn) (w.words i.rm w.rm) (op_add_ec-does t lay sram i c w))
        w.words
  op_code-data_processing op_t32_cmn_imm i c a w =
      computes _
        (sum_flags t lay i c (c.r i.rn) i.imm (ld_eax t i.rn ++ add_imm i.imm) (w.words i.rn w.rn)
          w.imm (add_imm-does t lay sram i c w))
        w.words
  op_code-data_processing op_and_reg i c a w =
      computes _
        (logic_end t lay i c (bit_and (c.r i.rn) (c.r i.rm)) (operands t sram i ++ op_and_ec) w.rd
          (op_and_ec-does t lay sram i c w))
        (λ k h.
          put_words i c _ w (omega (arith, bit_and-le (c.r i.rn) (c.r i.rm), w.words i.rn w.rn)) k
            h)
  op_code-data_processing op_orr_reg i c a w =
      computes _
        (logic_end t lay i c (bit_or (c.r i.rn) (c.r i.rm)) (operands t sram i ++ op_or_ec) w.rd
          (op_or_ec-does t lay sram i c w))
        (λ k h.
          put_words i c _ w
            (bit_or-lt 32 (c.r i.rn) (c.r i.rm) (w.words i.rn w.rn) (w.words i.rm w.rm)) k h)
  op_code-data_processing op_eor_reg i c a w =
      computes _
        (logic_end t lay i c (bit_xor (c.r i.rn) (c.r i.rm)) (operands t sram i ++ op_xor_ec) w.rd
          (op_xor_ec-does t lay sram i c w))
        (λ k h.
          put_words i c _ w
            (bit_xor-lt 32 (c.r i.rn) (c.r i.rm) (w.words i.rn w.rn) (w.words i.rm w.rm)) k h)
  op_code-data_processing op_tst_reg i c a w =
      computes _
        (logic_flags_end t lay i c (bit_and (c.r i.rn) (c.r i.rm)) (operands t sram i ++ op_and_ec)
          (op_and_ec-does t lay sram i c w))
        w.words
  op_code-data_processing op_t32_add_imm i c a w =
      computes _
        (adds_end t lay i c (c.r i.rn) i.imm (ld_eax t i.rn ++ add_imm i.imm) w.rd
          (w.words i.rn w.rn) w.imm (add_imm-does t lay sram i c w))
        (elim (Bool-cases i.set_flags) [
          | inl e ↦ rw e (λ k h. put_words i c _ w (omega arith) k h)
          | inr e ↦ rw e (λ k h. put_words i c _ w (omega arith) k h)
        ])
  op_code-data_processing op_t32_sub_imm i c a w =
      computes _
        (subs_end t lay i c (c.r i.rn) i.imm (ld_eax t i.rn ++ sub_imm i.imm) w.rd
          (w.words i.rn w.rn) w.imm (sub_imm-does t lay sram i c w))
        (elim (Bool-cases i.set_flags) [
          | inl e ↦ rw e (λ k h. put_words i c _ w (omega arith) k h)
          | inr e ↦ rw e (λ k h. put_words i c _ w (omega arith) k h)
        ])
  op_code-data_processing op_t32_and_imm i c a w =
      computes _
        (logics_end t lay i c (bit_and (c.r i.rn) i.imm) (ld_eax t i.rn ++ and_imm i.imm) w.rd
          (and_imm-does t lay sram i c w))
        (elim (Bool-cases i.set_flags) [
          | inl e ↦ rw e (λ k h.
              put_words i c _ w (omega (arith, bit_and-le (c.r i.rn) i.imm, w.words i.rn w.rn)) k h)
          | inr e ↦ rw e (λ k h.
              put_words i c _ w (omega (arith, bit_and-le (c.r i.rn) i.imm, w.words i.rn w.rn)) k h)
        ])
  op_code-data_processing op_t32_orr_imm i c a w =
      computes _
        (logics_end t lay i c (bit_or (c.r i.rn) i.imm) (ld_eax t i.rn ++ or_imm i.imm) w.rd
          (or_imm-does t lay sram i c w))
        (elim (Bool-cases i.set_flags) [
          | inl e ↦ rw e (λ k h.
              put_words i c _ w (bit_or-lt 32 (c.r i.rn) i.imm (w.words i.rn w.rn) w.imm) k h)
          | inr e ↦ rw e (λ k h.
              put_words i c _ w (bit_or-lt 32 (c.r i.rn) i.imm (w.words i.rn w.rn) w.imm) k h)
        ])
  op_code-data_processing op_t32_eor_imm i c a w =
      computes _
        (logics_end t lay i c (bit_xor (c.r i.rn) i.imm) (ld_eax t i.rn ++ xor_imm i.imm) w.rd
          (xor_imm-does t lay sram i c w))
        (elim (Bool-cases i.set_flags) [
          | inl e ↦ rw e (λ k h.
              put_words i c _ w (bit_xor-lt 32 (c.r i.rn) i.imm (w.words i.rn w.rn) w.imm) k h)
          | inr e ↦ rw e (λ k h.
              put_words i c _ w (bit_xor-lt 32 (c.r i.rn) i.imm (w.words i.rn w.rn) w.imm) k h)
        ])
  op_code-data_processing op_t32_addw i c a w =
      computes _
        (plain_end t lay i c (add32 (c.r i.rn) i.imm) _ _ (ld_eax t i.rn ++ add_imm i.imm) w.rd
          (add_imm-does t lay sram i c w))
        (λ k h. put_words i c _ w (omega arith) k h)
  op_code-data_processing op_t32_subw i c a w =
      computes _
        (plain_end t lay i c (sub32 (c.r i.rn) i.imm) _ _ (ld_eax t i.rn ++ sub_imm i.imm) w.rd
          (sub_imm-does t lay sram i c w))
        (λ k h. put_words i c _ w (omega arith) k h)
  op_code-data_processing op_mov_imm i c a w =
      computes _
        (logic_end t lay i c i.imm (mov_eax_imm i.imm ++ test_eax_eax) w.rd
          (tested_move-does t lay sram i c w))
        (λ k h. put_words i c _ w (w.imm) k h)
  op_code-data_processing op_t32_movw i c a w =
      computes _ (plain_move-does t lay sram i c w) (λ k h. put_words i c _ w (w.imm) k h)
  op_code-data_processing op_t32_mov_imm i c a w =
      computes _
        (elim (Bool-cases i.set_flags) [
          | inl e ↦ rw e (
              logic_end t lay i c i.imm (mov_eax_imm i.imm ++ test_eax_eax) w.rd
                (tested_move-does t lay sram i c w))
          | inr e ↦ rw e (plain_move-does t lay sram i c w)
        ])
        (elim (Bool-cases i.set_flags) [
          | inl e ↦ rw e (λ k h. put_words i c _ w (w.imm) k h)
          | inr e ↦ rw e (λ k h. put_words i c _ w (w.imm) k h)
        ])
  op_code-data_processing _ i c a w = absurd (cc a)
