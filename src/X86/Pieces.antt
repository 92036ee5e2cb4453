-- ===== src/X86/Pieces.antt =====
-- The operands of data processing in eax and ecx, and the operation on them.
use lecerf.Base.{ℕ, ◌<◌, bit_and, bit_or, bit_xor, List, ◌++◌, IsU32, refl, ◌∙◌, Option}
use lecerf.Cpu.{Cpu, set_reg}
use lecerf.Decoder.Insn.{Insn}
use lecerf.Codegen.Emit.{
  Target, ld_eax, st_eax, mov_eax_imm, op_add_ec, op_sub_ec, op_and_ec, op_or_ec, op_xor_ec,
  add_imm, sub_imm, and_imm, or_imm, xor_imm, test_eax_eax,
}
use lecerf.Codegen.Stack.{Sram}
use lecerf.Codegen.Op.{operands}
use lecerf.X86.{Machine}
use lecerf.X86.Decode.{run}
use lecerf.X86.Word.{IsLayout}
use lecerf.X86.Reach.{Reaches}
use lecerf.X86.Alu.{
  IsReady, run-add_imm, run-sub_imm, run-op_add_ec, run-op_sub_ec, run-op_and_ec, run-op_or_ec,
  run-op_xor_ec, run-and_imm, run-or_imm, run-xor_imm, run-mov_eax_imm, run-test_eax_eax,
}
use lecerf.X86.Code.{Does, does-append, HasCpu, IsEax, Reaches-map, store-does, load-does, loads-do}
use lecerf.X86.Ops.{IsSum, IsDifference, IsLogic}

-- Register numbers below 16, an immediate of 32 bits, and words in the registers.
pub record IsOperands (i : Insn) (c : Cpu) : Type 0 where
  pub rd : i.rd < 16
  pub rn : i.rn < 16
  pub rm : i.rm < 16
  pub imm : IsU32 i.imm
  pub words : (k : ℕ) → k < 16 → IsU32 (c.r k)

module _ (t : Target) (lay : IsLayout t) (sram : Option Sram) (i : Insn) (c : Cpu)
    (w : IsOperands i c) where
  -- Both operands in registers, and then an operation on them.
  on_registers :
      (Q : Machine → Type 0) (op : List ℕ)
      → ((rest : List ℕ) (x : Machine)
          → IsReady (c.r i.rn) (c.r i.rm) c x
          → Reaches Q rest (run t 1 (op ++ rest) x))
      → Does t (HasCpu c) (operands t sram i ++ op) Q
  on_registers Q op one =
      does-append t _ (IsReady (c.r i.rn) (c.r i.rm) c) _ (operands t sram i) op
        (loads-do t lay i.rn i.rm c w.rn w.rm) (λ rest x h. (1, one rest x h))

  -- A register and an immediate.
  on_immediate :
      (Q : Machine → Type 0) (op : List ℕ)
      → ((rest : List ℕ) (x : Machine)
          → IsEax (c.r i.rn) c x
          → Reaches Q rest (run t 1 (op ++ rest) x))
      → Does t (HasCpu c) (ld_eax t i.rn ++ op) Q
  on_immediate Q op one =
      does-append t _ (IsEax (c.r i.rn) c) _ (ld_eax t i.rn) op (load-does t lay i.rn c w.rn)
        (λ rest x h. (1, one rest x h))

  pub op_add_ec-does :
      Does t (HasCpu c) (operands t sram i ++ op_add_ec) (IsSum (c.r i.rn) (c.r i.rm) c)
  op_add_ec-does = on_registers _ op_add_ec (run-op_add_ec t lay (c.r i.rn) (c.r i.rm) c)

  pub op_sub_ec-does :
      Does t (HasCpu c) (operands t sram i ++ op_sub_ec) (IsDifference (c.r i.rn) (c.r i.rm) c)
  op_sub_ec-does = on_registers _ op_sub_ec (run-op_sub_ec t lay (c.r i.rn) (c.r i.rm) c)

  pub op_and_ec-does :
      Does t (HasCpu c) (operands t sram i ++ op_and_ec) (IsLogic (bit_and (c.r i.rn) (c.r i.rm)) c)
  op_and_ec-does = on_registers _ op_and_ec (run-op_and_ec t lay (c.r i.rn) (c.r i.rm) c)

  pub op_or_ec-does :
      Does t (HasCpu c) (operands t sram i ++ op_or_ec) (IsLogic (bit_or (c.r i.rn) (c.r i.rm)) c)
  op_or_ec-does = on_registers _ op_or_ec (run-op_or_ec t lay (c.r i.rn) (c.r i.rm) c)

  pub op_xor_ec-does :
      Does t (HasCpu c) (operands t sram i ++ op_xor_ec) (IsLogic (bit_xor (c.r i.rn) (c.r i.rm)) c)
  op_xor_ec-does = on_registers _ op_xor_ec (run-op_xor_ec t lay (c.r i.rn) (c.r i.rm) c)

  pub add_imm-does : Does t (HasCpu c) (ld_eax t i.rn ++ add_imm i.imm) (IsSum (c.r i.rn) i.imm c)
  add_imm-does =
      on_immediate _ (add_imm i.imm)
        (λ rest x h. run-add_imm t lay (c.r i.rn) i.imm c rest x w.imm h.word h.cpu_kept)

  pub sub_imm-does :
      Does t (HasCpu c) (ld_eax t i.rn ++ sub_imm i.imm) (IsDifference (c.r i.rn) i.imm c)
  sub_imm-does =
      on_immediate _ (sub_imm i.imm)
        (λ rest x h. run-sub_imm t lay (c.r i.rn) i.imm c rest x w.imm h.word h.cpu_kept)

  pub and_imm-does :
      Does t (HasCpu c) (ld_eax t i.rn ++ and_imm i.imm) (IsLogic (bit_and (c.r i.rn) i.imm) c)
  and_imm-does =
      on_immediate _ (and_imm i.imm)
        (λ rest x h. run-and_imm t lay (c.r i.rn) i.imm c rest x w.imm h.word h.cpu_kept)

  pub or_imm-does :
      Does t (HasCpu c) (ld_eax t i.rn ++ or_imm i.imm) (IsLogic (bit_or (c.r i.rn) i.imm) c)
  or_imm-does =
      on_immediate _ (or_imm i.imm)
        (λ rest x h. run-or_imm t lay (c.r i.rn) i.imm c rest x w.imm h.word h.cpu_kept)

  pub xor_imm-does :
      Does t (HasCpu c) (ld_eax t i.rn ++ xor_imm i.imm) (IsLogic (bit_xor (c.r i.rn) i.imm) c)
  xor_imm-does =
      on_immediate _ (xor_imm i.imm)
        (λ rest x h. run-xor_imm t lay (c.r i.rn) i.imm c rest x w.imm h.word h.cpu_kept)

  -- The move of an immediate, and with the test of its flags.
  move-does : Does t (HasCpu c) (mov_eax_imm i.imm) (IsEax i.imm c)
  move-does rest x h = (
    1,
    Reaches-map _ _ rest _ (λ x' k. record { word = k.first; cpu_kept = k.cpu_kept ∙ h })
        (run-mov_eax_imm t lay i.imm rest x w.imm),
  )

  pub tested_move-does : Does t (HasCpu c) (mov_eax_imm i.imm ++ test_eax_eax) (IsLogic i.imm c)
  tested_move-does =
      does-append t _ (IsEax i.imm c) _ (mov_eax_imm i.imm) test_eax_eax move-does (λ rest x h. (
        1,
        run-test_eax_eax t lay i.imm (x.reg 1) c rest x w.imm
            (record { first = h.word; second = refl; cpu_kept = h.cpu_kept }),
      ))

  -- The move and the store.
  pub plain_move-does :
      Does t (HasCpu c) (mov_eax_imm i.imm ++ st_eax t i.rd) (HasCpu (set_reg c i.rd i.imm))
  plain_move-does =
      does-append t _ (IsEax i.imm c) _ (mov_eax_imm i.imm) (st_eax t i.rd) move-does
        (store-does t lay i.rd i.imm c w.rd)
