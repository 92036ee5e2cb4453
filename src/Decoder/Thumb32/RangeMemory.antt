-- ===== src/Decoder/Thumb32/RangeMemory.antt =====
-- The fields of the loads, the stores and the VFP instructions of the 32-bit decoder are in range.
use lecerf.Base.{ℕ, arith}
use lecerf.Decoder.Insn.{Insn}
use lecerf.Decoder.Thumb32.Range.{IsInstruction, IsPair}
use lecerf.Decoder.Thumb32.Memory.{load_store, dual, multiple_32, table_branch}
use lecerf.Decoder.Thumb32.Vfp.{vfp_multiple, vfp_single, vfp_move, vfp_data}

module _ (w0 w1 pc : ℕ) (b : IsPair w0 w1) where
  pub load_store-IsInstruction :
      (i : Insn) → IsInstruction pc 4 i → IsInstruction pc 4 (load_store w0 w1 i)
  unfolding load_store
  load_store-IsInstruction i d = record {
    at_pc = ground arith;
    of_size = ground arith;
    rd_lt = ground arith;
    rn_lt = ground arith;
    rm_lt = ground arith;
    rs_lt = ground arith;
    cond_lt = ground arith;
    list_lt = ground arith;
  }

  pub dual-IsInstruction : (i : Insn) → IsInstruction pc 4 i → IsInstruction pc 4 (dual w0 w1 i)
  unfolding dual
  dual-IsInstruction i d = record {
    at_pc = ground arith;
    of_size = ground arith;
    rd_lt = ground arith;
    rn_lt = ground arith;
    rm_lt = ground arith;
    rs_lt = ground arith;
    cond_lt = ground arith;
    list_lt = ground arith;
  }

  pub multiple_32-IsInstruction :
      (i : Insn) → IsInstruction pc 4 i → IsInstruction pc 4 (multiple_32 w0 w1 i)
  unfolding multiple_32
  multiple_32-IsInstruction i d = record {
    at_pc = ground arith;
    of_size = ground arith;
    rd_lt = ground arith;
    rn_lt = ground arith;
    rm_lt = ground arith;
    rs_lt = ground arith;
    cond_lt = ground arith;
    list_lt = ground arith;
  }

  pub table_branch-IsInstruction :
      (i : Insn) → IsInstruction pc 4 i → IsInstruction pc 4 (table_branch w0 w1 i)
  unfolding table_branch
  table_branch-IsInstruction i d = record {
    at_pc = ground arith;
    of_size = ground arith;
    rd_lt = ground arith;
    rn_lt = ground arith;
    rm_lt = ground arith;
    rs_lt = ground arith;
    cond_lt = ground arith;
    list_lt = ground arith;
  }

  pub vfp_multiple-IsInstruction :
      (i : Insn) → IsInstruction pc 4 i → IsInstruction pc 4 (vfp_multiple w0 w1 i)
  unfolding vfp_multiple
  vfp_multiple-IsInstruction i d = record {
    at_pc = ground arith;
    of_size = ground arith;
    rd_lt = ground arith;
    rn_lt = ground arith;
    rm_lt = ground arith;
    rs_lt = ground arith;
    cond_lt = ground arith;
    list_lt = ground arith;
  }

  pub vfp_single-IsInstruction :
      (i : Insn) → IsInstruction pc 4 i → IsInstruction pc 4 (vfp_single w0 w1 i)
  unfolding vfp_single
  vfp_single-IsInstruction i d = record {
    at_pc = ground arith;
    of_size = ground arith;
    rd_lt = ground arith;
    rn_lt = ground arith;
    rm_lt = ground arith;
    rs_lt = ground arith;
    cond_lt = ground arith;
    list_lt = ground arith;
  }

  pub vfp_move-IsInstruction :
      (i : Insn) → IsInstruction pc 4 i → IsInstruction pc 4 (vfp_move w0 w1 i)
  unfolding vfp_move
  vfp_move-IsInstruction i d = record {
    at_pc = ground arith;
    of_size = ground arith;
    rd_lt = ground arith;
    rn_lt = ground arith;
    rm_lt = ground arith;
    rs_lt = ground arith;
    cond_lt = ground arith;
    list_lt = ground arith;
  }

  pub vfp_data-IsInstruction :
      (i : Insn) → IsInstruction pc 4 i → IsInstruction pc 4 (vfp_data w0 w1 i)
  unfolding vfp_data
  vfp_data-IsInstruction i d = record {
    at_pc = ground arith;
    of_size = ground arith;
    rd_lt = ground arith;
    rn_lt = ground arith;
    rm_lt = ground arith;
    rs_lt = ground arith;
    cond_lt = ground arith;
    list_lt = ground arith;
  }
