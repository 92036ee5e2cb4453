-- ===== src/Tests/Native.antt =====
-- The code generator at concrete inputs.
use lecerf.Base.{
  ℕ, ◌+◌, ◌*◌, ◌^◌, ◌<◌, true, false, not, ◌==◌, if◌then◌else◌, has, Option, none, some, [], ◌∷◌,
  ◌++◌, length, IsU32, ◌≡◌, ◌≢◌, ◌≤◌, refl, arith,
}
use lecerf.Cpu.{Cpu, set_reg, reg_pc}
use lecerf.Bus.{Bus}
use lecerf.Decoder.Insn.{Insn, op_add_imm8, op_b_cond, op_cmp_imm}
use lecerf.Executor.Cond.{cond_pass}
use lecerf.Codegen.Emit.{Target}
use lecerf.Codegen.Flags.{taken_pc, next_pc, emit_b_cond_fast}
use lecerf.Codegen.Stack.{
  Sram, listed, each, total, too_far, point_r11, pop_fast_body, pop_slow_body, push_slow, push_fast,
  emit_push_v, load_fast, drop_words, pop_slow_path, emit_pop,
}
use lecerf.Codegen.Multiple.{
  Transfer, start_address, transfer_fast, base_back, regs, transfer_fast_body, transfer_slow_body,
  slow_path, emit_ldm_stm,
}
use lecerf.Codegen.Op.{emit_ops}
use lecerf.Codegen.Block.{all_insns, Codegen, codegen_init, sram_of, codegen_emit}
use lecerf.Codegen.OpSizes.{is_multiple}
use lecerf.Codegen.Fits.{IsEmitted, codegen_emit-IsEmitted, codegen_emit-le}
use lecerf.Codegen.Paths.{IsTwoPaths}
use lecerf.Codegen.Paths.Stack.{emit_push_v-IsTwoPaths, emit_pop-IsTwoPaths}
use lecerf.Codegen.Paths.Multiple.{emit_ldm_stm-IsTwoPaths}
use lecerf.Tests.Core.{cpu, insn}
use lecerf.Tests.Execution.{floats}
use lecerf.X86.{Machine}
use lecerf.X86.Word.{IsLayout}
use lecerf.X86.Branch.{Ends, emit_b_cond_fast-cond_pass}
use lecerf.X86.DataProcessing.{is_native_alu, Computes}
use lecerf.X86.Block.{results, AreNativeAlu, next, done, emit_ops-results}

abbrev host_target : Target
host_target = record {
  r_off = 0;
  apsr_off = 72;
  halt_off = 120;
  bus_read_at = 0x140001000;
  bus_write_at = 0x140002000;
  buf_at = λ i. 0x7F0000000000;
}

target-IsLayout : IsLayout host_target
target-IsLayout = record { behind = omega arith; fits = omega arith }

-- `ADDS r0, #7`, `CMP r0, #12` and `BEQ` by 8 bytes.
abbrev adds : Insn
adds = record insn { op = op_add_imm8; imm = 7 }

abbrev cmp : Insn
cmp = record insn { op = op_cmp_imm; imm = 12 }

abbrev beq : Insn
beq = record insn { op = op_b_cond; cond = 0; imm = 8 }

-- r0 = 5 and the registers of the host all 0.
abbrev given : Cpu
given = record cpu { r = λ j. if j == 0 then 5 else 0 }

start_words : (k : ℕ) → k < 16 → IsU32 (given.r k)
start_words k h = ground arith

abbrev host : Machine
host = record {
  reg = λ j. 0;
  sf = false;
  zf = false;
  af = false;
  pf = false;
  cf = false;
  of = false;
  cpu = given;
}

block_alu : AreNativeAlu (adds ∷ cmp ∷ [])
unfolding is_native_alu
block_alu =
    next adds (cmp ∷ []) refl (omega arith) (omega arith) (omega arith) (omega arith)
      (next cmp [] refl (omega arith) (omega arith) (omega arith) (omega arith) done)

emit_ops-results_example :
    Computes host_target
      (emit_ops host_target none (adds ∷ cmp ∷ []))
      given
      (results floats (adds ∷ cmp ∷ []) given)
emit_ops-results_example =
    emit_ops-results host_target target-IsLayout none floats (adds ∷ cmp ∷ []) given block_alu
      start_words

emit_b_cond_fast-cond_pass_example :
    Ends host_target
      (emit_b_cond_fast host_target beq)
      host
      (set_reg given reg_pc (if cond_pass given.apsr 0 then taken_pc beq else next_pc beq))
emit_b_cond_fast-cond_pass_example =
    emit_b_cond_fast-cond_pass host_target beq host target-IsLayout (omega arith)

abbrev no_bus : Option (Bus (Unit {0}))
no_bus = none

block_single : all_insns (λ j. not (is_multiple j.op)) (adds ∷ cmp ∷ []) ≡ true
unfolding all_insns is_multiple
block_single = refl

codegen_emit-IsEmitted_example :
    IsEmitted host_target
      (sram_of host_target no_bus)
      (adds ∷ cmp ∷ [])
      codegen_init
      (codegen_emit host_target no_bus (adds ∷ cmp ∷ []) codegen_init)
codegen_emit-IsEmitted_example =
    codegen_emit-IsEmitted host_target no_bus adds (cmp ∷ []) codegen_init block_single

-- A buffer of four bytes.
abbrev small : Codegen
small = record { buffer = []; capacity = 4 }

codegen_emit-le_example :
    length (codegen_emit host_target no_bus (adds ∷ []) small).1.buffer
    ≤ (codegen_emit host_target no_bus (adds ∷ []) small).1.capacity
codegen_emit-le_example = codegen_emit-le host_target no_bus (adds ∷ []) small (omega arith)

abbrev sram : Sram
sram = record { base = 0x20000000; size = 0x10000; buf = 0x7F0000000000 }

-- `STM r4, {r0, r1}`
abbrev stored : Transfer
stored = record {
  rn = 4;
  reg_list = 3;
  is_load = false;
  is_db = false;
  writeback = false;
  insn_pc = 0;
}

two_registers : length (regs host_target stored) ≢ 0
unfolding listed
two_registers e = absurd (omega (arith, e))

stm_near :
    too_far
      (transfer_fast_body host_target stored (regs host_target stored))
      (transfer_slow_body host_target stored (regs host_target stored))
    ≡ false
unfolding listed total
stm_near = refl

emit_ldm_stm-IsTwoPaths_example :
    IsTwoPaths
      (emit_ldm_stm host_target stored (some sram))
      (length (start_address host_target stored (length (regs host_target stored))))
      (point_r11 sram
        ++ each
            (transfer_fast host_target stored (length (regs host_target stored)))
            0
            (regs host_target stored)
        ++ base_back host_target stored (length (regs host_target stored)))
      (slow_path host_target stored (regs host_target stored))
emit_ldm_stm-IsTwoPaths_example =
    emit_ldm_stm-IsTwoPaths host_target stored sram two_registers stm_near

one_pushed : length (listed 15 0 3) ≢ 0
unfolding listed
one_pushed e = absurd (omega (arith, e))

push_near : too_far (23 + length (listed 15 0 3) * 14) (length (listed 15 0 3) * 58) ≡ false
unfolding listed
push_near = refl

emit_push_v-IsTwoPaths_example :
    IsTwoPaths
      (emit_push_v host_target (some sram) 3)
      19
      (point_r11 sram ++ each (push_fast host_target) 0 (listed 15 0 3))
      (each (push_slow host_target) 0 (listed 15 0 3))
emit_push_v-IsTwoPaths_example = emit_push_v-IsTwoPaths host_target sram 3 one_pushed push_near

one_popped : length (listed 16 0 3) ≢ 0
unfolding listed
one_popped e = absurd (omega (arith, e))

pop_near :
    too_far
      (pop_fast_body (length (listed 16 0 3)) (has 3 (2 ^ 15)))
      (pop_slow_body (listed 16 0 3) (has 3 (2 ^ 15)))
    ≡ false
unfolding listed total
pop_near = refl

emit_pop-IsTwoPaths_example :
    IsTwoPaths
      (emit_pop host_target (some sram) 3)
      7
      (point_r11 sram
        ++ each (load_fast host_target) 0 (listed 16 0 3)
        ++ drop_words host_target (length (listed 16 0 3)))
      (pop_slow_path host_target (listed 16 0 3) (has 3 (2 ^ 15)))
emit_pop-IsTwoPaths_example = emit_pop-IsTwoPaths host_target sram 3 one_popped refl pop_near
