-- ===== src/Run/Budget.antt =====
-- The budget of a chain and the number of steps of a run.
use lecerf.Base.{ℕ, ◌≤◌, true, has, some, ◌≡◌, ◌≢◌, arith}
use lecerf.Periph.Systick.{Systick, loaded}
use lecerf.Periph.Scb.{Scb}
use lecerf.Run.{irq_safe_budget, systick_cap, pendsv_cap, timer_cap}

-- What the budget of a chain keeps: it is within the steps that are left, it is at most a block
-- where PendSV waits, and the timer cannot count past its end where it would ask for an interrupt.
record IsSafe (st : Systick) (scb : Scb) (remaining budget : ℕ) : Type 0 where
  pub within : budget ≤ remaining
  pub pendsv_soon : scb.pendsv_pending ≡ true → budget ≤ 32
  pub tick_soon : has st.csr 1 ≡ true → has st.csr 2 ≡ true → loaded st ≢ 0 → budget ≤ loaded st

-- With a timer and a system control block, the budget of a chain is within the steps left, at most
-- 32 where PendSV waits, and at most the timer's count where the timer runs and asks for an
-- interrupt and its count, or else its reload value, is not 0.
irq_safe_budget-IsSafe :
    (st : Systick) (scb : Scb) (remaining : ℕ)
    → IsSafe st scb remaining (irq_safe_budget (some st) (some scb) remaining)
unfolding irq_safe_budget pendsv_cap timer_cap systick_cap
irq_safe_budget-IsSafe st scb remaining = record {
  within = ground arith;
  pendsv_soon = λ e. ground (arith, e);
  tick_soon = λ on int counts. ground (arith, on, int, counts);
}
