-- ===== src/Periph/Systick/Tick.antt =====
-- `systick_tick` in closed form; a batch of cycles is as good as the cycles one by one.
use lecerf.Base.{
  ℕ, zero, suc, ◌+◌, ◌-◌, ◌%◌, ◌≤◌, ◌<◌, Bool, true, false, ◌==◌, leb, ltb, ◌&&◌, ◌||◌, not,
  if◌then◌else◌, has, ◌≡◌, sym, ap, ap₂, ==_of_ne, ◌∙◌, arith, Bool-cases, inl, inr,
}
use native.Mathlib.Decide.{dec_lt, dec_le}
use native.Mathlib.Nat.{mod-eq_of_lt, mod-eq-sub-mod, mod-add-mod, mod-lt}
use lecerf.Periph.Systick.{Systick, expire, tick_loop, loaded, systick_tick}

-- The counter after `n` cycles that start at counter `c` with reload value `rvr`.
pub count_after : ℕ → ℕ → ℕ → ℕ
count_after rvr c n =
    if c == 0 then 0 else if ltb n c then c - n else if rvr == 0 then 0 else rvr - (n - c) % rvr

-- Whether the counter reaches 0 within `n` cycles.
pub fires : ℕ → ℕ → Bool
fires c n = not (c == 0) && leb c n

-- The timer after `n` cycles that start at counter `c`.
pub ticked : ℕ → ℕ → Systick → Systick
unfolding expire
ticked c n t = record (if fires c n then expire t else t) { cvr = count_after t.rvr c n }

tick_loop-eq-ticked : (fuel n c : ℕ) (t : Systick) → n ≤ fuel → tick_loop fuel n c t ≡ ticked c n t
unfolding tick_loop ticked fires count_after
tick_loop-eq-ticked zero n c t h = ground arith
tick_loop-eq-ticked (suc fuel) n c t h = ground (
  arith,
  tick_loop-eq-ticked fuel (n - c) t.rvr (expire t),
  mod-eq_of_lt {n = n - c} {m = t.rvr},
  mod-eq-sub-mod {n = n - c} {m = t.rvr},
)

wraps_on : (rvr m b : ℕ) → 0 < rvr → m < rvr → rvr - m ≤ b → (m + b) % rvr ≡ (b - (rvr - m)) % rvr
wraps_on rvr m b h hm hb =
    let less : m + b - rvr ≡ b - (rvr - m) = omega arith in
    mod-eq-sub-mod {n = m + b} {m = rvr} (omega arith) ∙ ap (λ (t : ℕ). t % rvr) less

-- Where the counter stands after it was reloaded and `m` more cycles went by.
count_from_reload :
    (rvr m b : ℕ) → 0 < rvr → m < rvr → count_after rvr (rvr - m) b ≡ rvr - (m + b) % rvr
unfolding count_after
count_from_reload rvr m b h hm =
    ground (arith, wraps_on rvr m b, mod-eq_of_lt {n = m + b} {m = rvr})

count_late : (rvr c n : ℕ) → 0 < rvr → 0 < c → c ≤ n → count_after rvr c n ≡ rvr - (n - c) % rvr
unfolding count_after
count_late rvr c n h hc hn = ground arith

-- The counter that the next call starts from.
abbrev reloaded : ℕ → ℕ → ℕ
reloaded rvr c = if c == 0 then rvr else c

count_late-add :
    (rvr c a b : ℕ)
    → 0 < rvr
    → 0 < c
    → c ≤ a
    → count_after rvr c (a + b) ≡ count_after rvr (reloaded rvr (count_after rvr c a)) b
count_late-add rvr c a b h hc hn =
    let m = (a - c) % rvr in
    let lt : m < rvr = mod-lt (a - c) h in
    let split : a + b - c ≡ a - c + b = omega arith in
    rw (
      count_late rvr c (a + b) h hc (omega arith),
      count_late rvr c a h hc hn,
      ==_of_ne (rvr - m) 0 (omega arith),
      count_from_reload rvr m b h lt,
      split,
      mod-add-mod (a - c) rvr b,
    )

count_after-add :
    (rvr c a b : ℕ)
    → (c ≡ 0 → rvr ≡ 0)
    → count_after rvr c (a + b) ≡ count_after rvr (reloaded rvr (count_after rvr c a)) b
unfolding count_after
count_after-add rvr c a b load = elim (dec_lt 0 rvr) [
  | yes h ↦ elim (dec_lt 0 c) [
    | yes hc ↦ elim (dec_le c a) [
      | yes hn ↦ count_late-add rvr c a b h hc hn
      | no early ↦ ground arith
    ]
    | no zeroth ↦ ground arith
  ]
  | no stopped ↦ ground arith
]

fires-add :
    (rvr c a b : ℕ)
    → (c ≡ 0 → rvr ≡ 0)
    → fires c (a + b) ≡ fires c a || fires (reloaded rvr (count_after rvr c a)) b
unfolding fires count_after
fires-add rvr c a b h = ground arith

ticked-add :
    (c a b : ℕ) (t : Systick)
    → (c ≡ 0 → t.rvr ≡ 0)
    → ticked c (a + b) t ≡ ticked (reloaded t.rvr (count_after t.rvr c a)) b (ticked c a t)
unfolding ticked
ticked-add c a b t h = ground (arith, count_after-add t.rvr c a b h, fires-add t.rvr c a b h)

systick_tick-eq-ticked :
    (n : ℕ) (t : Systick) → has t.csr 1 ≡ true → systick_tick n t ≡ ticked (loaded t) n t
unfolding systick_tick
systick_tick-eq-ticked n t on = rw on (tick_loop-eq-ticked n n (loaded t) t (omega arith))

ticked_keeps :
    (c n : ℕ) (t : Systick)
    → ((ticked c n t).csr ≡ t.csr)
      × ((ticked c n t).rvr ≡ t.rvr)
      × ((ticked c n t).cvr ≡ count_after t.rvr c n)
unfolding ticked
ticked_keeps c n t = ground arith

systick_tick_off : (n : ℕ) (t : Systick) → has t.csr 1 ≡ false → systick_tick n t ≡ t
unfolding systick_tick
systick_tick_off n t off = rw off

-- The timer after a batch of `a + b` cycles is the timer after `a` cycles and then `b` more: the
-- counter, COUNTFLAG and the pending interrupt do not depend on how the cycles are batched.
pub systick_tick-add :
    (a b : ℕ) (t : Systick) → systick_tick (a + b) t ≡ systick_tick b (systick_tick a t)
systick_tick-add a b t = elim (Bool-cases (has t.csr 1)) [
  | inl on ↦
      let t' = ticked (loaded t) a t in
      let k = ticked_keeps (loaded t) a t in
      let on' : has t'.csr 1 ≡ true = ap (λ (x : ℕ). has x 1) k.0 ∙ on in
      systick_tick-eq-ticked (a + b) t on
      ∙ ticked-add (loaded t) a b t (ground arith)
      ∙ ap₂ (λ (r x : ℕ). ticked (reloaded r x) b t') (sym k.1) (sym k.2)
      ∙ sym (systick_tick-eq-ticked b t' on')
      ∙ ap (systick_tick b) (sym (systick_tick-eq-ticked a t on))
  | inr off ↦
      rw (systick_tick_off (a + b) t off, systick_tick_off a t off, systick_tick_off b t off)
]

-- An enabled timer with a counter or a reload value sets COUNTFLAG, and the pending interrupt
-- where CSR enables it, exactly when the cycles reach its counter; the counter then goes round
-- from the reload value.
pub systick_tick_lem :
    (n : ℕ) (t : Systick)
    → has t.csr 1 ≡ true
    → systick_tick n t ≡ record t {
      cvr = count_after t.rvr (loaded t) n;
      count_flag = t.count_flag || fires (loaded t) n;
      irq_pending = t.irq_pending || fires (loaded t) n && has t.csr 2;
    }
unfolding ticked
systick_tick_lem n t on = systick_tick-eq-ticked n t on ∙ ground arith
