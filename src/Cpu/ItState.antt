-- ===== src/Cpu/ItState.antt =====
-- ITSTATE counts the instructions of an IT block down. Every value of the byte is checked.
use lecerf.Base.{
  ℕ, zero, suc, ◌+◌, ◌-◌, ◌*◌, ◌/◌, ◌≤◌, ◌<◌, bit_and, Bool, true, false, ◌==◌, ◌&&◌, not,
  if◌then◌else◌, has, ◌≡◌, refl, arith, IsU8, ltb, ap,
}
use lecerf.Base.Bits.{bit}
use lecerf.Base.Tables.{all_below, all_below_sound}
use lecerf.Cpu.{Cpu, cpu_in_it, cpu_it_cond, it_next, cpu_it_advance}

-- The length of the block that a mask announces: its lowest set digit ends the block.
unfoldable pub it_length : ℕ → ℕ
it_length it =
    if has it 1
    then 4
    else if has it 2
    then 3
    else if has it 4
    then 2
    else if has it 8
    then 1
    else 0

pub advance_times : ℕ → Cpu → Cpu
advance_times zero c = c
advance_times (suc k) c = cpu_it_advance (advance_times k c)

it_times : ℕ → ℕ → ℕ
it_times zero it = it
it_times (suc k) it = it_next (it_times k it)

itstate-advance_times : (k : ℕ) (c : Cpu) → (advance_times k c).itstate ≡ it_times k c.itstate
unfolding advance_times it_times cpu_it_advance
itstate-advance_times zero c = refl
itstate-advance_times (suc k) c = ap it_next (itstate-advance_times k c)

-- The test of one byte: its block after `k` advances, and at its end.
inside_test : ℕ → ℕ → Bool
inside_test it k =
    let now = it_times k it in
    if ltb k (it_length it)
    then has now 0x0F && (bit_and (now / 16) 0xF == it / 32 * 2 + bit it (4 - k))
    else true

inside_table : all_below 256 (λ it. all_below 4 (inside_test it)) ≡ true
unfolding all_below inside_test it_times it_next it_length
inside_table = refl

end_table : all_below 256 (λ it. not (has (it_times (it_length it) it) 0x0F)) ≡ true
unfolding all_below it_times it_next it_length
end_table = refl

it_length-le : (it : ℕ) → it_length it ≤ 4
unfolding it_length
it_length-le it = ground arith

-- Started with a byte in ITSTATE, the block lasts for exactly as many instructions as its mask
-- announces, and instruction `k` of it runs under the upper three digits of the first condition
-- with digit `4 - k` of ITSTATE below them.
pub advance_times_lem :
    (c : Cpu) (k : ℕ)
    → IsU8 c.itstate
    → k < it_length c.itstate
    → (cpu_in_it (advance_times k c) ≡ true)
      × (cpu_it_cond (advance_times k c) ≡ c.itstate / 32 * 2 + bit c.itstate (4 - k))
      × (cpu_in_it (advance_times (it_length c.itstate) c) ≡ false)
unfolding cpu_in_it cpu_it_cond inside_test
advance_times_lem c k hi hk =
    let it = c.itstate in
    ground (
      arith,
      it_length-le it,
      itstate-advance_times k c,
      itstate-advance_times (it_length it) c,
      all_below_sound 4 (inside_test it) k,
      all_below_sound 256 (λ x. all_below 4 (inside_test x)) it inside_table,
      all_below_sound 256 (λ x. not (has (it_times (it_length x) x) 0x0F)) it end_table,
    )
