-- ===== src/Tests/Execution.antt =====
-- The executor at concrete inputs: a board of a CPU alone.
use lecerf.Base.{
  ℕ, true, false, ◌==◌, ltb, if◌then◌else◌, none, some, [], IsU32, add32, sub32, ◌≡◌, refl, arith,
}
use lecerf.Base.Bits.{bit}
use lecerf.Cpu.{Cpu, cpu_reset, cpu_in_it, reg_pc, cpu_set_flags_nzcv_sub}
use lecerf.Exception.{Host}
use lecerf.Decoder.Insn.{Insn, op_b_cond, op_cmp_reg, op_mov_imm}
use lecerf.Executor.Vfp.{Float}
use lecerf.Executor.Cond.{cond_pass}
use lecerf.Executor.Bitfield.{bfi, ubfx, rbit}
use lecerf.Executor.Alu.{arith_16, put_nz}
use lecerf.Executor.{data_processing, execute}
use lecerf.Executor.Complete.{IsHost, IsComplete, execute-IsComplete}
use lecerf.Executor.Compare.{cond_pass-comparison}
use lecerf.Executor.CompareBranch.{execute-cmp_branch}
use lecerf.Executor.Insert.{IsInserted, bfi-IsInserted, ubfx-bfi}
use lecerf.Executor.Reverse.{bit-rbit}
use lecerf.Executor.Product.{IsLongProduct, multiply-IsLongProduct}
use lecerf.Tests.Core.{cpu, insn}

abbrev board : Host (Unit {0}) Cpu
board = record {
  mmio = record {
    bus_of = λ c. record { regs = [] };
    put_bus = λ b c. c;
    dev_read = λ t off size c. (0, c);
    dev_write = λ t off v size c. c;
  };
  get_cpu = λ c. c;
  put_cpu = λ c s. c;
  get_nvic = λ c. none;
  put_nvic = λ n c. c;
}

board_law : IsHost board
board_law = record { get-put = λ c s. refl; put-put = λ c c' s. refl }

-- Bit patterns that are added as numbers.
abbrev pub floats : Float
floats = record {
  add = add32;
  sub = sub32;
  mul = λ a b. 0;
  div = λ a b. 0;
  neg = λ a. a;
  fma = λ a b c. 0;
  sqrt = λ a. a;
  nan = 0x7FC00000;
  gt = λ a b. ltb b a;
  lt = ltb;
  eq = λ a b. a == b;
  ge = λ a b. true;
  to_int = λ a. a;
  of_int = λ a. a;
}

-- r0 = 5, r1 = 0xFFFFFFFF and PC = 0x100.
abbrev start : Cpu
start = record cpu {
  r = λ j. if j == 0 then 5 else if j == 1 then 0xFFFFFFFF else if j == reg_pc then 0x100 else 0;
}

start_words : (k : ℕ) → IsU32 (start.r k)
start_words k = ground arith

-- `MOVS r0, #7`
abbrev movs : Insn
movs = record insn { op = op_mov_imm; imm = 7 }

movs_result : data_processing floats op_mov_imm movs start ≡ some (put_nz movs start 7)
unfolding data_processing arith_16
movs_result = refl

execute-IsComplete_example :
    (c'' : Cpu) × (execute board floats movs start ≡ (true, board.put_cpu c'' start))
    × IsComplete movs start c''
execute-IsComplete_example =
    execute-IsComplete board floats board_law movs start (put_nz movs start 7) movs_result

-- 5 < 0xFFFFFFFF without sign, and not with it.
cond_pass-comparison_example :
    cond_pass (cpu_set_flags_nzcv_sub start 5 0xFFFFFFFF 6).apsr 0xB ≡ false
cond_pass-comparison_example =
    cond_pass-comparison start 5 0xFFFFFFFF 0xB (omega arith) (omega arith)

-- `CMP r0, r1` and `BLO` by 8 bytes.
abbrev cmp : Insn
cmp = record insn { rm = 1 }

abbrev blo : Insn
blo = record insn { cond = 3; imm = 8 }

start_free : cpu_in_it start ≡ false
unfolding cpu_in_it cpu_reset
start_free = refl

execute-cmp_branch_example :
    let s' = (execute board floats (record cmp { op = op_cmp_reg }) start).1 in
    (execute board floats (record blo { op = op_b_cond }) s').1.r reg_pc ≡ 0x10E
execute-cmp_branch_example =
    execute-cmp_branch board floats board_law cmp blo start start_free (start_words 0)
      (start_words 1)

bfi-IsInserted_example : IsInserted 8 4 0xFFFFFFFF 0x5A (bfi 8 4 0xFFFFFFFF 0x5A)
bfi-IsInserted_example = bfi-IsInserted 8 4 0xFFFFFFFF 0x5A (omega arith)

ubfx-bfi_example : ubfx 8 4 (bfi 8 4 0xFFFFFFFF 0x15A) ≡ 0x5A
ubfx-bfi_example = ubfx-bfi 8 4 0xFFFFFFFF 0x15A (omega arith)

bit-rbit_example : bit (rbit 0x80000001) 4 ≡ bit 0x80000001 27
bit-rbit_example = bit-rbit 0x80000001 4 (omega arith) (omega arith)

abbrev word : ℕ
word = 0x12345

-- RdLo = r2, RdHi = r3, of r1 and r1.
abbrev long : Insn
long = record insn { rd = 2; rs = 3; rn = 1; rm = 1 }

multiply-IsLongProduct_example : IsLongProduct long start
multiply-IsLongProduct_example =
    multiply-IsLongProduct long start (λ e. absurd (omega arith)) start_words
