-- ===== src/Run/Steps.antt =====
-- A run takes no more steps than it was asked for.
use lecerf.Base.{
  ℕ, zero, suc, ◌+◌, ◌-◌, ◌≤◌, ◌<◌, ◌||◌, ltb, leb, Option, none, some, u32, arith, Bool-cases,
  Option-cases, inl, inr,
}
use lecerf.Cpu.{reg_pc}
use lecerf.Periph.Systick.{Systick, systick_tick}
use lecerf.Periph.Dwt.{dwt_tick, dwt_batch}
use lecerf.Periph.Scb.{Scb}
use lecerf.Jit.{Jit}
use lecerf.Jit.Cache.{IsCache}
use lecerf.Jit.Chain.{jit_run_chained-le}
use lecerf.Run.{
  RunCtx, Dcache, irq_safe_budget, timer_cap, pendsv_cap, capped, try_chain, tick_with, check_irqs,
  cache_decode, pendsv, run_loop, run_steps_full_gc,
}

capped-le : (o : Option ℕ) (x : ℕ) → capped o x ≤ x
capped-le none x = omega arith
capped-le (some cap) x = ground arith

irq_safe_budget-le :
    (st : Option Systick) (scb : Option Scb) (remaining : ℕ)
    → irq_safe_budget st scb remaining ≤ remaining
unfolding irq_safe_budget
irq_safe_budget-le st scb remaining = omega (
  arith,
  capped-le (timer_cap st) (capped (pendsv_cap scb) remaining),
  capped-le (pendsv_cap scb) remaining,
)

-- There is no block cache, or a correct one.
pub data HasCache {N G : Type 0} : Option (Jit N G) → Type 0 where
  without : HasCache none
  with_cache : {j : Jit N G} → IsCache j → HasCache (some j)

-- A run that came to its end: its steps and its block cache are right.
pub data IsRun {N G S : Type 0} (max_steps : ℕ)
    : Option (ℕ × Option (Jit N G) × Dcache × S) → Type 0 where
  stuck : IsRun max_steps none
  ended :
      {i : ℕ} {g : Option (Jit N G)} {dc : Dcache} {s : S}
      → i ≤ max_steps
      → HasCache g
      → IsRun max_steps (some (i, g, dc, s))

module _ {T S N G : Type 0} (ctx : RunCtx T S N G) where
  open ctx use {host, engine, get_st, get_scb}

  try_chain-le :
      (remaining : ℕ) (g : Option (Jit N G)) (s : S)
      → HasCache g
      → ((try_chain ctx remaining g s).0 ≤ remaining) × HasCache (try_chain ctx remaining g s).1
  unfolding try_chain
  try_chain-le remaining _ s without = (omega arith, without)
  try_chain-le remaining (some j) s (with_cache c) =
      let budget = irq_safe_budget (get_st s) (get_scb s) remaining in
      let ran = jit_run_chained-le engine (pendsv ctx) budget j s c in
      (omega (arith, ran.0, irq_safe_budget-le (get_st s) (get_scb s) remaining), with_cache ran.1)

  run_loop-IsRun :
      (fuel max_steps i : ℕ) (g : Option (Jit N G)) (dc : Dcache) (s : S)
      → HasCache g
      → i ≤ max_steps
      → IsRun max_steps (run_loop ctx fuel max_steps i g dc s)
  unfolding run_loop
  run_loop-IsRun zero max_steps i g dc s c h = ended h c
  run_loop-IsRun (suc fuel) max_steps i g dc s c h =
      let chained = try_chain ctx (max_steps - i) g s in
      let n = chained.0 in
      let right = try_chain-le (max_steps - i) g s c in
      let s1 = tick_with ctx (systick_tick (u32 n)) (dwt_batch n) chained.2 in
      let fetched = cache_decode ctx ((host.get_cpu chained.2).r reg_pc) dc chained.2 in
      let ran = engine.execute fetched.0 fetched.2 in
      let s2 = tick_with ctx (systick_tick 1) dwt_tick ran.1 in
      elim (Bool-cases (leb max_steps i || (host.get_cpu s).halted)) [
        | inl stop ↦ rw stop (ended h c)
        | inr go ↦
            let more : i < max_steps = ground (arith, go) in
            rw go (elim (Bool-cases (ltb 0 n)) [
              | inl some_ran ↦ rw some_ran (elim (Option-cases (check_irqs ctx s1)) [
                | inl e ↦ rw e stuck
                | inr (s', e) ↦ rw e (
                    run_loop-IsRun fuel max_steps (i + n) chained.1 dc s' right.1
                      (omega (arith, right.0)))
              ])
              | inr none_ran ↦ rw none_ran (elim (Bool-cases (ran.0)) [
                | inl done ↦ rw done (elim (Option-cases (check_irqs ctx s2)) [
                  | inl e ↦ rw e stuck
                  | inr (s', e) ↦ rw e (
                      run_loop-IsRun fuel max_steps (i + 1) chained.1 fetched.1 s' right.1
                        (omega arith))
                ])
                | inr failed ↦ rw failed (ended h right.1)
              ])
            ])
      ]

  -- From a correct block cache, or without one, `run_steps_full_gc` counts no more steps than it
  -- was asked for and leaves the cache correct, unless the arbitration reads a priority out of
  -- bounds.
  pub run_steps_full_gc-IsRun :
      (max_steps : ℕ) (g : Option (Jit N G)) (s : S)
      → HasCache g
      → IsRun max_steps (run_steps_full_gc ctx max_steps g s)
  unfolding run_steps_full_gc
  run_steps_full_gc-IsRun max_steps g s c =
      run_loop-IsRun max_steps max_steps 0 g (λ idx. none) s c (omega arith)
