-- ===== src/Periph/Mpu.antt =====
-- include/periph/mpu.h and src/periph/mpu.c: the memory protection unit of eight regions.
pub mod Check
use lecerf.Base.{
  ℕ, zero, suc, ◌+◌, ◌-◌, ◌*◌, ◌/◌, ◌%◌, ◌^◌, bit_and, bit_or, Bool, true, false, not, ◌&&◌, ◌||◌,
  ◌==◌, leb, ltb, if◌then◌else◌, has, add32, shl32, ◌>>>◌, update, Option, none, some, of_bool,
}

-- `mpu_region_t`
pub record MpuRegion : Type 0 where
  pub base : ℕ
  pub rasr : ℕ
  pub enabled : Bool

-- `mpu_t`; `r` has eight places.
pub record Mpu : Type 0 where
  pub ctrl : ℕ
  pub rnr : ℕ
  pub r : ℕ → MpuRegion

abbrev pub mpu_regions : ℕ
mpu_regions = 8

-- `*m = (mpu_t){0}` of `mpu_attach`
unfoldable pub mpu_attach : Mpu
mpu_attach = record { ctrl = 0; rnr = 0; r = λ j. record { base = 0; rasr = 0; enabled = false } }

-- `region_size_bytes`. `none` is the shift of `1u` by 32 places, which C leaves undefined.
unfoldable pub region_size_bytes : ℕ → Option ℕ
region_size_bytes rasr =
    let sz = bit_and (rasr >>> 1) 0x1F in
    if ltb sz 4 then some 0 else if sz == 31 then none else some (shl32 1 (sz + 1))

-- `ap_permits`
unfoldable pub ap_permits : ℕ → Bool → Bool → Bool
ap_permits ap is_write is_priv =
    let ap' = bit_and ap 7 in
    if ap' == 0
    then false
    else if ap' == 1
    then is_priv
    else if ap' == 2
    then is_priv || not is_write
    else if ap' == 3
    then true
    else if ap' == 5
    then is_priv && not is_write
    else if (ap' == 6) || (ap' == 7)
    then not is_write
    else false

-- `a >= r->base && a + size <= r->base + rsz`, in 32 bits
unfoldable pub matches : ℕ → ℕ → MpuRegion → ℕ → Bool
matches a size r rsz = leb r.base a && leb (add32 a size) (add32 r.base rsz)

-- The loop of `mpu_check` over the regions below `n`, from the highest down: the first hit, if
-- any; the outer `none` is an undefined shift on the way.
unfoldable pub find_hit : Mpu → ℕ → ℕ → ℕ → Option (Option ℕ)
unfolding region_size_bytes matches
find_hit m a size zero = some none
find_hit m a size (suc i) =
    let rest = find_hit m a size i in
    let r = m.r i in
    if not r.enabled then rest else elim (region_size_bytes r.rasr) [
      | none ↦ none
      | some rsz ↦ if rsz == 0 then rest else if matches a size r rsz then some (some i) else rest
    ]

-- What `mpu_check` returns for the hit of its loop.
verdict : Mpu → Bool → Bool → Option ℕ → Bool
unfolding ap_permits
verdict m is_write is_priv none = has m.ctrl 4 && is_priv
verdict m is_write is_priv (some i) = ap_permits (bit_and ((m.r i).rasr >>> 24) 7) is_write is_priv

-- `mpu_check`
unfoldable pub mpu_check : Mpu → ℕ → ℕ → Bool → Bool → Option Bool
unfolding find_hit verdict
mpu_check m a size is_write is_priv =
    if not (has m.ctrl 1) then some true else elim (find_hit m a size mpu_regions) [
      | none ↦ none
      | some hit ↦ some (verdict m is_write is_priv hit)
    ]

-- `mpu_read`
unfoldable pub mpu_read : ℕ → Mpu → ℕ
mpu_read off m =
    let i = bit_and m.rnr 7 in
    if off == 0x00
    then 0x800
    else if off == 0x04
    then m.ctrl
    else if off == 0x08
    then m.rnr
    else if off == 0x0C
    then bit_or (m.r i).base i
    else if off == 0x10
    then bit_or (m.r i).rasr (of_bool (m.r i).enabled)
    else 0

-- The region number that a write to RBAR selects.
rbar_index : ℕ → Mpu → ℕ
rbar_index val m = bit_and (if has val 0x10 then bit_and val 0xF else bit_and m.rnr 7) 7

-- `mpu_write`
unfoldable pub mpu_write : ℕ → ℕ → Mpu → Mpu
unfolding rbar_index
mpu_write off val m =
    let i = rbar_index val m in
    let j = bit_and m.rnr 7 in
    if off == 0x04
    then record m { ctrl = bit_and val 7 }
    else if off == 0x08
    then record m { rnr = bit_and val 7 }
    else if off == 0x0C
    then record m {
      r = update m.r i (record (m.r i) { base = bit_and val 0xFFFFFFE0 });
      rnr = if has val 0x10 then i else m.rnr;
    }
    else if off == 0x10
    then record m {
      r = update m.r j (record (m.r j) { rasr = bit_and val 0x1FFFFFFE; enabled = has val 1 });
    }
    else m
