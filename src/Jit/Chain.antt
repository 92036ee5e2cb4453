-- ===== src/Jit/Chain.antt =====
-- A chain of blocks never runs past its budget.
use lecerf.Base.{
  ℕ, zero, suc, ◌+◌, ◌-◌, ◌≤◌, Bool, true, false, ◌==◌, ◌||◌, ltb, leb, leb_of_le, ◌≡◌, refl, arith,
  Bool-cases, inl, inr,
}
use lecerf.Jit.{Jit, Engine, jit_run, chain, jit_run_chained}
use lecerf.Jit.Cache.{IsCache, jit_run-IsCache}

within_lem :
    (max_steps total steps : ℕ)
    → ltb (max_steps - total) 32 ≡ false
    → steps ≤ 32
    → total ≤ max_steps
    → total + steps ≤ max_steps
within_lem max_steps total steps wide h h' = ground arith

some_ran_lem :
    (max_steps total steps fuel : ℕ)
    → (steps == 0) ≡ false
    → max_steps ≤ total + suc fuel
    → max_steps ≤ total + steps + fuel
some_ran_lem max_steps total steps fuel e h = ground arith

zero_plus : (m : ℕ) → zero + suc m ≡ suc m
zero_plus m = omega arith

suc_plus : (n m : ℕ) → suc n + m ≡ suc (n + m)
suc_plus n m = omega arith

or_true : (b : Bool) → (b || true) ≡ true
or_true true = refl
or_true false = refl

module _ {S N G : Type 0} (eng : Engine S N G) where
  open eng use {get_cpu}

  chain-IsCache :
      (fuel : ℕ) (stop : S → Bool) (max_steps total : ℕ) (j : Jit N G) (s : S)
      → IsCache j
      → total ≤ max_steps
      → ((chain eng fuel stop max_steps total j s).0 ≤ max_steps)
        × IsCache (chain eng fuel stop max_steps total j s).1
  unfolding chain
  chain-IsCache zero stop max_steps total j s c h = (h, c)
  chain-IsCache (suc fuel) stop max_steps total j s c h =
      let ran = jit_run-IsCache eng j s c in
      elim (Bool-cases ((get_cpu s).halted || leb max_steps total)) [
        | inl e ↦ rw e (h, c)
        | inr e ↦ rw e (elim (Bool-cases (ltb (max_steps - total) 32)) [
          | inl tight ↦ rw tight (h, c)
          | inr wide ↦ rw wide (elim (Bool-cases (stop s)) [
            | inl halt ↦ rw halt (h, c)
            | inr go ↦ rw go (elim (Bool-cases ((jit_run eng j s).0 == 0)) [
              | inl none_ran ↦ rw none_ran (h, ran.1)
              | inr some_ran ↦ rw some_ran (
                  chain-IsCache fuel stop max_steps (total + (jit_run eng j s).0)
                    (jit_run eng j s).1 (jit_run eng j s).2 ran.1
                    (within_lem max_steps total (jit_run eng j s).0 wide ran.0 h))
            ])
          ])
        ])
      ]

  -- From a correct cache, `jit_run_chained` never runs more instructions than its budget, and the
  -- cache stays correct.
  pub jit_run_chained-le :
      (stop : S → Bool) (max_steps : ℕ) (j : Jit N G) (s : S)
      → IsCache j
      → ((jit_run_chained eng stop max_steps j s).0 ≤ max_steps)
        × IsCache (jit_run_chained eng stop max_steps j s).1
  unfolding jit_run_chained
  jit_run_chained-le stop max_steps j s c =
      chain-IsCache max_steps stop max_steps 0 j s c (omega arith)

  -- More fuel changes nothing once there is fuel for each step of the budget.
  chain-more :
      (fuel more : ℕ) (stop : S → Bool) (max_steps total : ℕ) (j : Jit N G) (s : S)
      → max_steps ≤ total + fuel
      → chain eng (fuel + more) stop max_steps total j s ≡ chain eng fuel stop max_steps total j s
  unfolding chain
  chain-more zero zero stop max_steps total j s h = refl
  chain-more zero (suc more) stop max_steps total j s h =
      rw (zero_plus more, leb_of_le max_steps total (omega arith), or_true) refl
  chain-more (suc fuel) more stop max_steps total j s h =
      let n = (jit_run eng j s).0 in
      rw (suc_plus fuel more) (elim (Bool-cases ((get_cpu s).halted || leb max_steps total)) [
        | inl e ↦ rw e refl
        | inr e ↦ rw e (elim (Bool-cases (ltb (max_steps - total) 32)) [
          | inl tight ↦ rw tight refl
          | inr wide ↦ rw wide (elim (Bool-cases (stop s)) [
            | inl halt ↦ rw halt refl
            | inr go ↦ rw go (elim (Bool-cases (n == 0)) [
              | inl none_ran ↦ rw none_ran refl
              | inr some_ran ↦ rw some_ran (
                  chain-more fuel more stop max_steps (total + n) (jit_run eng j s).1
                    (jit_run eng j s).2 (some_ran_lem max_steps total n fuel some_ran h))
            ])
          ])
        ])
      ])

  -- The loop of `jit_run_chained` ends by its own tests: with any fuel beyond the budget it gives
  -- the same result.
  jit_run_chained-fuel :
      (more : ℕ) (stop : S → Bool) (max_steps : ℕ) (j : Jit N G) (s : S)
      → chain eng (max_steps + more) stop max_steps 0 j s ≡ jit_run_chained eng stop max_steps j s
  unfolding jit_run_chained
  jit_run_chained-fuel more stop max_steps j s =
      chain-more max_steps more stop max_steps 0 j s (omega arith)
