-- ===== src/Decoder/Thumb32/Range.antt =====
-- The fields of the branches and the data processing of the 32-bit decoder are in range.
use lecerf.Base.{ℕ, ◌<◌, ◌>>>◌, ◌≡◌, arith}
use lecerf.Base.Bits.{bit_and_mask}
use lecerf.Decoder.Insn.{Insn, Opcode}
use lecerf.Decoder.Thumb16.{field}
use lecerf.Decoder.Thumb32.Data.{
  modified, plain, register, shift_reg, multiply, multiply_long, bit_field, one_register,
}
use lecerf.Decoder.Thumb32.{branch_32}

-- The register numbers, the condition and the register list of an instruction are in range, and it
-- has its address and its size.
pub record IsInstruction (pc size : ℕ) (i : Insn) : Type 0 where
  pub at_pc : i.pc ≡ pc
  pub of_size : i.size ≡ size
  pub rd_lt : i.rd < 16
  pub rn_lt : i.rn < 16
  pub rm_lt : i.rm < 16
  pub rs_lt : i.rs < 16
  pub cond_lt : i.cond < 16
  pub list_lt : i.reg_list < 65536

-- The fields of two halfwords that hold registers and masks, and the size of the second.
pub record IsPair (w0 w1 : ℕ) : Type 0 where
  pub n0 : field w0 0 0xF < 16
  pub n6 : field w0 6 0xF < 16
  pub m0 : field w1 0 0xF < 16
  pub m8 : field w1 8 0xF < 16
  pub m12 : field w1 12 0xF < 16
  pub m10 : field w1 10 3 < 16
  pub half : w1 < 65536

nibble : (v k : ℕ) → field v k 0xF < 16
nibble v k = omega (arith, bit_and_mask 4 (v >>> k))

pub pair : (w0 w1 : ℕ) → w1 < 65536 → IsPair w0 w1
pair w0 w1 h = record {
  n0 = nibble w0 0;
  n6 = nibble w0 6;
  m0 = nibble w1 0;
  m8 = nibble w1 8;
  m12 = nibble w1 12;
  m10 = omega (arith, bit_and_mask 2 (w1 >>> 10));
  half = h;
}

module _ (w0 w1 pc : ℕ) (b : IsPair w0 w1) where
  pub branch_32-IsInstruction :
      (i : Insn) → IsInstruction pc 4 i → IsInstruction pc 4 (branch_32 w0 w1 i)
  unfolding branch_32
  branch_32-IsInstruction i d = record {
    at_pc = ground arith;
    of_size = ground arith;
    rd_lt = ground arith;
    rn_lt = ground arith;
    rm_lt = ground arith;
    rs_lt = ground arith;
    cond_lt = ground arith;
    list_lt = ground arith;
  }

  pub modified-IsInstruction :
      (i : Insn) → IsInstruction pc 4 i → IsInstruction pc 4 (modified w0 w1 i)
  unfolding modified
  modified-IsInstruction i d = record {
    at_pc = ground arith;
    of_size = ground arith;
    rd_lt = ground arith;
    rn_lt = ground arith;
    rm_lt = ground arith;
    rs_lt = ground arith;
    cond_lt = ground arith;
    list_lt = ground arith;
  }

  pub plain-IsInstruction : (i : Insn) → IsInstruction pc 4 i → IsInstruction pc 4 (plain w0 w1 i)
  unfolding plain
  plain-IsInstruction i d = record {
    at_pc = ground arith;
    of_size = ground arith;
    rd_lt = ground arith;
    rn_lt = ground arith;
    rm_lt = ground arith;
    rs_lt = ground arith;
    cond_lt = ground arith;
    list_lt = ground arith;
  }

  pub register-IsInstruction :
      (i : Insn) → IsInstruction pc 4 i → IsInstruction pc 4 (register w0 w1 i)
  unfolding register
  register-IsInstruction i d = record {
    at_pc = ground arith;
    of_size = ground arith;
    rd_lt = ground arith;
    rn_lt = ground arith;
    rm_lt = ground arith;
    rs_lt = ground arith;
    cond_lt = ground arith;
    list_lt = ground arith;
  }

  pub shift_reg-IsInstruction :
      (i : Insn) → IsInstruction pc 4 i → IsInstruction pc 4 (shift_reg w0 w1 i)
  unfolding shift_reg
  shift_reg-IsInstruction i d = record {
    at_pc = ground arith;
    of_size = ground arith;
    rd_lt = ground arith;
    rn_lt = ground arith;
    rm_lt = ground arith;
    rs_lt = ground arith;
    cond_lt = ground arith;
    list_lt = ground arith;
  }

  pub multiply-IsInstruction :
      (i : Insn) → IsInstruction pc 4 i → IsInstruction pc 4 (multiply w0 w1 i)
  unfolding multiply
  multiply-IsInstruction i d = record {
    at_pc = ground arith;
    of_size = ground arith;
    rd_lt = ground arith;
    rn_lt = ground arith;
    rm_lt = ground arith;
    rs_lt = ground arith;
    cond_lt = ground arith;
    list_lt = ground arith;
  }

  pub multiply_long-IsInstruction :
      (i : Insn) → IsInstruction pc 4 i → IsInstruction pc 4 (multiply_long w0 w1 i)
  unfolding multiply_long
  multiply_long-IsInstruction i d = record {
    at_pc = ground arith;
    of_size = ground arith;
    rd_lt = ground arith;
    rn_lt = ground arith;
    rm_lt = ground arith;
    rs_lt = ground arith;
    cond_lt = ground arith;
    list_lt = ground arith;
  }

  pub bit_field-IsInstruction :
      (op : Opcode) (i : Insn) → IsInstruction pc 4 i → IsInstruction pc 4 (bit_field op w0 w1 i)
  unfolding bit_field
  bit_field-IsInstruction op i d = record {
    at_pc = ground arith;
    of_size = ground arith;
    rd_lt = ground arith;
    rn_lt = ground arith;
    rm_lt = ground arith;
    rs_lt = ground arith;
    cond_lt = ground arith;
    list_lt = ground arith;
  }

  pub one_register-IsInstruction :
      (op : Opcode) (i : Insn) → IsInstruction pc 4 i → IsInstruction pc 4 (one_register op w0 w1 i)
  unfolding one_register
  one_register-IsInstruction op i d = record {
    at_pc = ground arith;
    of_size = ground arith;
    rd_lt = ground arith;
    rn_lt = ground arith;
    rm_lt = ground arith;
    rs_lt = ground arith;
    cond_lt = ground arith;
    list_lt = ground arith;
  }
