-- ===== src/Periph/Dwt.antt =====
-- include/periph/dwt.h and src/periph/dwt.c: the cycle counter and its two enabling bits.
use lecerf.Base.{ℕ, ◌+◌, Bool, ◌==◌, ◌&&◌, if◌then◌else◌, has, u32}

-- `dwt_t`
pub record Dwt : Type 0 where
  pub ctrl : ℕ
  pub cyccnt : ℕ
  pub demcr : ℕ

-- `*d = (dwt_t){0}` of `dwt_attach`
unfoldable pub dwt_attach : Dwt
dwt_attach = record { ctrl = 0; cyccnt = 0; demcr = 0 }

-- `dwt_read`
unfoldable pub dwt_read : ℕ → Dwt → ℕ
dwt_read off d = if off == 0x00 then d.ctrl else if off == 0x04 then d.cyccnt else 0

-- `dwt_write`
unfoldable pub dwt_write : ℕ → ℕ → Dwt → Dwt
dwt_write off v d =
    if off == 0x00
    then record d { ctrl = v }
    else if off == 0x04
    then record d { cyccnt = v }
    else d

-- `demcr_read`
unfoldable pub demcr_read : ℕ → Dwt → ℕ
demcr_read off d = if off == 0x00 then d.demcr else 0

-- `demcr_write`
unfoldable pub demcr_write : ℕ → ℕ → Dwt → Dwt
demcr_write off v d = if off == 0x00 then record d { demcr = v } else d

-- `(d->ctrl & 1u) && (d->demcr & (1u << 24))`
unfoldable pub counting : Dwt → Bool
counting d = has d.ctrl 1 && has d.demcr 0x1000000

-- `dwt_tick`
unfoldable pub dwt_tick : Dwt → Dwt
unfolding counting
dwt_tick d = if counting d then record d { cyccnt = u32 (d.cyccnt + 1) } else d

-- The batch of the run loops: `dwt->cyccnt += (u32)jit_steps` where the counter is on.
unfoldable pub dwt_batch : ℕ → Dwt → Dwt
unfolding counting
dwt_batch steps d = if counting d then record d { cyccnt = u32 (d.cyccnt + u32 steps) } else d
