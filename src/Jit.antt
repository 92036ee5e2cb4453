-- ===== src/Jit.antt =====
-- include/core/jit.h and src/core/jit.c: the cache of decoded blocks, its index by address, and the
-- chained execution of blocks.
pub mod Cache
pub mod Chain
use lecerf.Base.{
  ℕ, zero, suc, ◌+◌, ◌-◌, ◌*◌, ◌/◌, ◌^◌, ◌%◌, bit_and, Bool, true, false, not, ◌==◌, ◌&&◌, ◌||◌,
  ltb, leb, if◌then◌else◌, ◌>>>◌, add32, u32, u64, update, Option, none, some, List, [], ◌∷◌,
  length,
}
use lecerf.Cpu.{Cpu, reg_pc}
use lecerf.Decoder.Insn.{
  Insn, Opcode, op_b_cond, op_b_uncond, op_bx, op_blx_reg, op_t32_bl, op_t32_b_cond, op_cbz,
  op_cbnz, op_pop, op_t32_ldm, op_udf, op_svc, op_bkpt, op_t32_tbb, op_t32_tbh,
}

abbrev pub jit_max_blocks : ℕ
jit_max_blocks = 1024

abbrev pub jit_max_block_len : ℕ
jit_max_block_len = 32

abbrev pub jit_hot_threshold : ℕ
jit_hot_threshold = 16

-- `jit_block_t`, with a compiled thunk of type `N`; the list is `ins[0 .. n_ins)`.
pub record Block (N : Type 0) : Type 0 where
  pub pc_start : ℕ
  pub pc_end : ℕ
  pub ins : List Insn
  pub native : Option N

-- A value of `lookup_idx`: -1, -2, or the index of a block.
pub data Slot : Type 0 where
  free : Slot
  counting : Slot
  at : ℕ → Slot

-- `jit_t`, with a code generator of type `G`.
pub record Jit (N G : Type 0) : Type 0 where
  pub blocks : ℕ → Block N
  pub n_blocks : ℕ
  pub lookup_pc : ℕ → ℕ
  pub lookup_idx : ℕ → Slot
  pub jit_steps : ℕ
  pub native_steps : ℕ
  pub interp_steps : ℕ
  pub counters : ℕ → ℕ
  pub cg : G

-- What the cache calls: the CPU in the board's state `S`, the decoder, the executor, and the code
-- generator with its thunks.
pub record Engine (S N G : Type 0) : Type 0 where
  pub get_cpu : S → Cpu
  pub put_cpu : Cpu → S → S
  pub decode : ℕ → S → Insn × S
  pub execute : Insn → S → Bool × S
  pub codegen_emit : List Insn → G → S → Option N × G × S
  pub run_native : N → S → Bool × S
  pub forget : G → G

-- `is_terminator`
unfoldable pub is_terminator : Opcode → Bool
is_terminator op_b_cond = true
is_terminator op_b_uncond = true
is_terminator op_bx = true
is_terminator op_blx_reg = true
is_terminator op_t32_bl = true
is_terminator op_t32_b_cond = true
is_terminator op_cbz = true
is_terminator op_cbnz = true
is_terminator op_pop = true
is_terminator op_t32_ldm = true
is_terminator op_udf = true
is_terminator op_svc = true
is_terminator op_bkpt = true
is_terminator op_t32_tbb = true
is_terminator op_t32_tbh = true
is_terminator _ = false

-- `(pc >> 1) & (JIT_MAX_BLOCKS - 1)`
abbrev pub hash : ℕ → ℕ
hash pc = bit_and (pc >>> 1) 1023

module _ {N G : Type 0} where
  -- `jit_init`, with the state `cg` that `codegen_init` leaves.
  unfoldable pub jit_init : G → Jit N G
  jit_init cg = record {
    blocks = λ i. record { pc_start = 0; pc_end = 0; ins = []; native = none };
    n_blocks = 0;
    lookup_pc = λ h. 0;
    lookup_idx = λ h. free;
    jit_steps = 0;
    native_steps = 0;
    interp_steps = 0;
    counters = λ h. 0;
    cg = cg;
  }

  -- `lookup`; `none` is the result -1.
  unfoldable pub lookup : Jit N G → ℕ → Option ℕ
  lookup j pc = elim (j.lookup_idx (hash pc)) [
    | free ↦ none
    | counting ↦ none
    | at i ↦ if j.lookup_pc (hash pc) == pc then some i else none
  ]

  -- `install`, also with the mark -2 of `jit_run`.
  unfoldable pub install : Jit N G → ℕ → Slot → Jit N G
  install j pc slot = record j {
    lookup_pc = update j.lookup_pc (hash pc) pc;
    lookup_idx = update j.lookup_idx (hash pc) slot;
  }

  -- `jit_reset_counters`
  unfoldable pub jit_reset_counters : Jit N G → Jit N G
  jit_reset_counters j = record j { counters = λ h. 0 }

  -- `jit_flush`, with `forget` for `cg.used = 0`. The blocks stay, but no slot names them.
  unfoldable pub jit_flush : (G → G) → Jit N G → Jit N G
  jit_flush forget j = record j {
    n_blocks = 0;
    jit_steps = 0;
    native_steps = 0;
    interp_steps = 0;
    cg = forget j.cg;
    lookup_idx = λ h. free;
    lookup_pc = λ h. 0;
    counters = λ h. 0;
  }

module _ {S N G : Type 0} (eng : Engine S N G) where
  open eng use {get_cpu, put_cpu, decode, execute, codegen_emit, run_native, forget}

  -- The loop of `compile_block`, with room for `room` more instructions: the instructions, the
  -- address after them, and the state.
  decode_block : ℕ → ℕ → S → List Insn × ℕ × S
  unfolding is_terminator
  decode_block zero cur s = ([], cur, s)
  decode_block (suc room) cur s =
      let (ins, s') = decode cur s in
      let i = record ins { pc = cur } in
      let next = add32 cur ins.size in
      let (rest, end, s'') = decode_block room next s' in
      if is_terminator ins.op then (i ∷ [], next, s') else (i ∷ rest, end, s'')

  -- `compile_block`: the block, the cache with it, and the state.
  unfoldable pub compile_block : Jit N G → ℕ → S → Block N × Jit N G × S
  unfolding install jit_flush decode_block
  compile_block j pc s =
      let j' = if leb jit_max_blocks j.n_blocks then jit_flush forget j else j in
      let (ins, end, s') = decode_block jit_max_block_len pc s in
      let (native, cg, s'') = codegen_emit ins j'.cg s' in
      let bk : Block N = record { pc_start = pc; pc_end = end; ins = ins; native = native } in
      let k = j'.n_blocks in
      (
        bk,
        install (record j' { blocks = update j'.blocks k bk; n_blocks = k + 1; cg = cg }) pc (at k),
        s'',
      )

  set_pc : ℕ → S → S
  set_pc pc s = let c = get_cpu s in put_cpu (record c { r = update c.r reg_pc pc }) s

  -- The interpreter's loop over a block: the number of instructions that ran, and the state.
  interpret : List Insn → S → ℕ × S
  unfolding is_terminator set_pc
  interpret [] s = (0, s)
  interpret (i ∷ is) s =
      let (done, s') = execute i (set_pc i.pc s) in
      let (steps, s'') = interpret is s' in
      if (get_cpu s).halted
      then (0, s)
      else if done
      then (if is_terminator i.op then (1, s') else (suc steps, s''))
      else (0, s')

  -- The part of `jit_run` that has a block.
  run_block : Block N → Jit N G → S → ℕ × Jit N G × S
  unfolding interpret
  run_block bk j s = elim (bk.native) [
    | none ↦ interpreted j s
    | some f ↦
        let (done, s') = run_native f s in
        let n = length bk.ins in
        if done && ltb 0 n
        then (
          n,
          record j { native_steps = u64 (j.native_steps + n); jit_steps = u64 (j.jit_steps + n) },
          s',
        )
        else interpreted j s'
  ]
    where
      interpreted : Jit N G → S → ℕ × Jit N G × S
      interpreted j s =
          let (steps, s') = interpret bk.ins s in
          (steps, record j { jit_steps = u64 (j.jit_steps + steps) }, s')

  -- One more hit of a slot that has no block.
  count_hit : Jit N G → ℕ → Jit N G
  unfolding install
  count_hit j pc =
      let h = hash pc in
      let j' = install j pc counting in
      record j' { counters = update j'.counters h (u32 (j'.counters h + 1)) }

  -- `jit_run`: `*out_steps`, which is positive where the result is true, the cache and the state.
  unfoldable pub jit_run : Jit N G → S → ℕ × Jit N G × S
  unfolding lookup compile_block run_block count_hit
  jit_run j s =
      let pc = (get_cpu s).r reg_pc in
      elim (lookup j pc) [
        | some i ↦ run_block (j.blocks i) j s
        | none ↦
            let j' = count_hit j pc in
            let (bk, j'', s') = compile_block j' pc s in
            if ltb (j'.counters (hash pc)) jit_hot_threshold
            then (0, j', s)
            else run_block bk j'' s'
      ]

  -- The loop of `jit_run_chained`, with the steps so far. A round that goes on has run a step, so
  -- fuel for each step is enough.
  unfoldable pub chain : ℕ → (S → Bool) → ℕ → ℕ → Jit N G → S → ℕ × Jit N G × S
  unfolding jit_run
  chain zero stop max_steps total j s = (total, j, s)
  chain (suc fuel) stop max_steps total j s =
      let (steps, j', s') = jit_run j s in
      let rest = chain fuel stop max_steps (total + steps) j' s' in
      if (get_cpu s).halted || leb max_steps total
      then (total, j, s)
      else if ltb (max_steps - total) jit_max_block_len
      then (total, j, s)
      else if stop s
      then (total, j, s)
      else if steps == 0
      then (total, j', s')
      else rest

  -- `jit_run_chained`; `stop` is the flag that the caller points to, and false for a null pointer.
  unfoldable pub jit_run_chained : (S → Bool) → ℕ → Jit N G → S → ℕ × Jit N G × S
  unfolding chain
  jit_run_chained stop max_steps j s = chain max_steps stop max_steps 0 j s
