-- ===== src/X86/Block.antt =====
-- Blocks of data processing: the native code of a block and its instructions one after another.
use lecerf.Base.{ℕ, ◌<◌, true, Option, some, ◌>>=◌, List, [], ◌∷◌, ◌++◌, IsU32, ◌≡◌}
use lecerf.Cpu.{Cpu}
use lecerf.Decoder.Insn.{Insn}
use lecerf.Executor.Vfp.{Float}
use lecerf.Executor.{data_processing}
use lecerf.Codegen.Emit.{Target}
use lecerf.Codegen.Stack.{Sram}
use lecerf.Codegen.Op.{op_code, emit_op, emit_ops}
use lecerf.X86.Word.{IsLayout}
use lecerf.X86.Reach.{reached}
use lecerf.X86.Decode.{run}
use lecerf.X86.Code.{HasCpu, does-append}
use lecerf.X86.DataProcessing.{is_native_alu, Computes, computes, op_code-data_processing}

Computes-append :
    (t : Target) (code code' : List ℕ) (c : Cpu) (o : Option Cpu) (g : Cpu → Option Cpu)
    → Computes t code c o
    → ((c1 : Cpu) → ((k : ℕ) → k < 16 → IsU32 (c1.r k)) → Computes t code' c1 (g c1))
    → Computes t (code ++ code') c (o >>= g)
Computes-append t code code' c _ g (computes c1 one words1) second = after _ (second c1 words1)
  where
    after : (o : Option Cpu) → Computes t code' c1 o → Computes t (code ++ code') c o
    after _ (computes c2 more words2) =
        computes c2 (does-append t _ (HasCpu c1) _ code code' one more) words2

-- The cases of `execute` for a block of instructions, one after another.
pub results : Float → List Insn → Cpu → Option Cpu
results f [] c = some c
results f (i ∷ is) c = data_processing f i.op i c >>= results f is

-- Instructions that the theorem on one of them is about.
pub data AreNativeAlu : List Insn → Type 0 where
  done : AreNativeAlu []
  next :
      (i : Insn) (is : List Insn)
      → is_native_alu i.op ≡ true
      → i.rd < 16
      → i.rn < 16
      → i.rm < 16
      → IsU32 i.imm
      → AreNativeAlu is
      → AreNativeAlu (i ∷ is)

module _ (t : Target) (lay : IsLayout t) (sram : Option Sram) (f : Float) where
  -- With the flags behind the registers in the CPU, words in the registers, operands below 16 and
  -- immediates of 32 bits, the native code of a block of data processing, run to its end on each machine with the CPU `c`, leaves exactly the CPU
  -- that the cases of `execute` compute one after another (without the advance of PC and of the cycle
  -- counter between them), and words in the registers.
  pub emit_ops-results :
      (is : List Insn) (c : Cpu)
      → AreNativeAlu is
      → ((k : ℕ) → k < 16 → IsU32 (c.r k))
      → Computes t (emit_ops t sram is) c (results f is c)
  unfolding emit_ops emit_op results run
  emit_ops-results _ c done words = computes c (λ rest x h. (0, reached x h)) words
  emit_ops-results _ c (next i is a rd rn rm imm rest) words =
      Computes-append t (op_code t sram i i.op) (emit_ops t sram is) c _ (results f is)
        (op_code-data_processing t lay sram f i.op i c a
          (record { rd = rd; rn = rn; rm = rm; imm = imm; words = words }))
        (λ c1 words1. emit_ops-results is c1 rest words1)
