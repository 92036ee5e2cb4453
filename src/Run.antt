-- ===== src/Run.antt =====
-- The context-threaded run loop of src/core/run.c: the decode cache, the budget of a chain, the
-- dispatch of exceptions and the loop.
pub mod Budget
pub mod Steps
use lecerf.Base.{
  ℕ, zero, suc, ◌+◌, ◌-◌, bit_and, Bool, true, false, not, ◌==◌, ◌&&◌, ◌||◌, ltb, leb,
  if◌then◌else◌, ◌>>>◌, has, u32, update, Option, none, some,
}
use lecerf.Cpu.{Cpu, reg_pc}
use lecerf.Exception.{Host, exc_enter, exc_systick, exc_pendsv, exc_irq0, is_thread}
use lecerf.Nvic.{Nvic, nvic_pick, nvic_clear_pending, nvic_set_active}
use lecerf.Periph.Systick.{Systick, systick_tick}
use lecerf.Periph.Scb.{Scb}
use lecerf.Periph.Dwt.{Dwt, dwt_tick, dwt_batch}
use lecerf.Decoder.Insn.{Insn}
use lecerf.Jit.{Jit, Engine, jit_run_chained, jit_max_block_len}
use lecerf.Tt.Snapshot.{DcacheEntry}

-- The timer's bound on a chain: `none` where it asks for no interrupt.
systick_cap : Systick → Option ℕ
systick_cap st =
    let cvr = if st.cvr == 0 then st.rvr else st.cvr in
    if not (has st.csr 1) || not (has st.csr 2) || (cvr == 0) then none else some cvr

-- `cap` where it is less than `x`.
abbrev capped : Option ℕ → ℕ → ℕ
capped none x = x
capped (some cap) x = if ltb cap x then cap else x

pendsv_cap : Option Scb → Option ℕ
pendsv_cap none = none
pendsv_cap (some scb) = if scb.pendsv_pending then some jit_max_block_len else none

timer_cap : Option Systick → Option ℕ
unfolding systick_cap
timer_cap none = none
timer_cap (some st) = systick_cap st

-- `irq_safe_budget`
unfoldable pub irq_safe_budget : Option Systick → Option Scb → ℕ → ℕ
unfolding pendsv_cap timer_cap
irq_safe_budget st scb remaining = capped (timer_cap st) (capped (pendsv_cap scb) remaining)

-- `run_ctx_t`, as accesses to one state. A missing device is a null pointer.
pub record RunCtx (T S N G : Type 0) : Type 0 where
  pub host : Host T S
  pub engine : Engine S N G
  pub get_st : S → Option Systick
  pub put_st : Systick → S → S
  pub get_scb : S → Option Scb
  pub put_scb : Scb → S → S
  pub get_dwt : S → Option Dwt
  pub put_dwt : Dwt → S → S

-- `g_dcache`
abbrev pub Dcache : Type 0
Dcache = ℕ → Option DcacheEntry

module _ {T S N G : Type 0} (ctx : RunCtx T S N G) where
  open ctx use {host, engine, get_st, put_st, get_scb, put_scb, get_dwt, put_dwt}

  -- `cache_decode`: the instruction, the cache and the state.
  unfoldable pub cache_decode : ℕ → Dcache → S → Insn × Dcache × S
  cache_decode pc dc s =
      let idx = bit_and (pc >>> 1) 4095 in
      let (ins, s') = engine.decode pc s in
      let miss : Insn × Dcache × S =
        (ins, update dc idx (some (record { tag = pc; ins = ins })), s') in
      elim (dc idx) [ none ↦ miss | some e ↦ if e.tag == pc then (e.ins, dc, s) else miss ]

  -- `scb && scb->pendsv_pending`
  pendsv : S → Bool
  pendsv s = elim (get_scb s) [ none ↦ false | some scb ↦ scb.pendsv_pending ]

  -- The timers after a chain of `steps` instructions, or after one instruction.
  tick_with : (Systick → Systick) → (Dwt → Dwt) → S → S
  tick_with f g s =
      let s' : S = elim (get_st s) [ none ↦ s | some st ↦ put_st (f st) s ] in
      elim (get_dwt s') [ none ↦ s' | some dwt ↦ put_dwt (g dwt) s' ]

  -- The third test of the dispatch; `none` is a read of a priority out of bounds.
  take_irq : S → Option S
  take_irq s = elim (host.get_nvic s) [
    | none ↦ some s
    | some n ↦ elim (nvic_pick n) [
      | none ↦ none
      | some none ↦ some s
      | some (some irq) ↦
          let n' = nvic_set_active irq (nvic_clear_pending irq n) in
          some (exc_enter host (exc_irq0 + irq) (host.put_nvic n' s)).1
    ]
  ]

  take_pendsv : S → Option S
  unfolding take_irq
  take_pendsv s = elim (get_scb s) [
    | none ↦ take_irq s
    | some scb ↦
        if scb.pendsv_pending
        then some (exc_enter host exc_pendsv (put_scb (record scb { pendsv_pending = false }) s)).1
        else take_irq s
  ]

  -- `check_irqs_gc`: the first of SysTick, PendSV and the lines is entered.
  unfoldable pub check_irqs : S → Option S
  unfolding take_pendsv
  check_irqs s =
      let c = host.get_cpu s in
      if is_thread c.mode && not (has c.primask 1) && (c.basepri == 0)
      then elim (get_st s) [
        | none ↦ take_pendsv s
        | some st ↦
            if st.irq_pending
            then some (exc_enter host exc_systick (put_st (record st { irq_pending = false }) s)).1
            else take_pendsv s
      ]
      else some s

  -- The chain of a round, where there is a block cache.
  unfoldable pub try_chain : ℕ → Option (Jit N G) → S → ℕ × Option (Jit N G) × S
  unfolding pendsv irq_safe_budget
  try_chain remaining none s = (0, none, s)
  try_chain remaining (some g) s =
      let budget = irq_safe_budget (get_st s) (get_scb s) remaining in
      let (n, g', s') = jit_run_chained engine pendsv budget g s in (n, some g', s')

  -- The loop of `run_steps_full_gc` from step `i` on. Each round takes at least one step, so fuel
  -- for each step is enough. `none` is a read of a priority out of bounds.
  unfoldable pub run_loop :
      ℕ → ℕ → ℕ → Option (Jit N G) → Dcache → S → Option (ℕ × Option (Jit N G) × Dcache × S)
  unfolding try_chain tick_with check_irqs cache_decode
  run_loop zero max_steps i g dc s = some (i, g, dc, s)
  run_loop (suc fuel) max_steps i g dc s =
      let c = host.get_cpu s in
      let chained = try_chain (max_steps - i) g s in
      let n = chained.0 in
      let s1 = tick_with (systick_tick (u32 n)) (dwt_batch n) chained.2 in
      let fetched = cache_decode ((host.get_cpu chained.2).r reg_pc) dc chained.2 in
      let ran = engine.execute fetched.0 fetched.2 in
      let s2 = tick_with (systick_tick 1) dwt_tick ran.1 in
      let on_chain = run_loop fuel max_steps (i + n) chained.1 dc in
      let on_step = run_loop fuel max_steps (i + 1) chained.1 fetched.1 in
      if leb max_steps i || c.halted
      then some (i, g, dc, s)
      else if ltb 0 n
      then elim (check_irqs s1) [ none ↦ none | some s' ↦ on_chain s' ]
      else if ran.0
      then elim (check_irqs s2) [ none ↦ none | some s' ↦ on_step s' ]
      else some (i, chained.1, fetched.1, ran.1)

  -- `run_steps_full_gc`, with an empty decode cache at its start.
  unfoldable pub run_steps_full_gc :
      ℕ → Option (Jit N G) → S → Option (ℕ × Option (Jit N G) × Dcache × S)
  unfolding run_loop
  run_steps_full_gc max_steps g s = run_loop max_steps max_steps 0 g (λ idx. none) s
