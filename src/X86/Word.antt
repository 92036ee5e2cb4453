-- ===== src/X86/Word.antt =====
-- Fields of instructions, the members of the CPU and the bytes of registers, read back.
use lecerf.Base.{
  ℕ, ◌+◌, ◌-◌, ◌*◌, ◌/◌, ◌%◌, ◌^◌, ◌≤◌, ◌<◌, u8, ◌>>>◌, leb_of_le, ltb_of_lt, ltb_of_le, ==_refl,
  IsU32, ◌≡◌, refl, arith,
}
use lecerf.Cpu.{Cpu, set_reg}
use lecerf.Codegen.Emit.{Target}
use lecerf.X86.{word_of, read32, write32, read8}

-- How the compiler lays out `cpu_t`: the flags stand behind the registers.
pub record IsLayout (t : Target) : Type 0 where
  pub behind : t.r_off + 64 ≤ t.apsr_off
  pub fits : t.apsr_off + 4 ≤ 2 ^ 32

pub word_of-w32 :
    (v : ℕ) → IsU32 v → word_of (u8 v) (u8 (v >>> 8)) (u8 (v >>> 16)) (u8 (v >>> 24)) ≡ v
word_of-w32 v h = omega arith

module _ (t : Target) (lay : IsLayout t) where
  pub read32-reg : (r : ℕ) (c : Cpu) → r < 16 → read32 t (t.r_off + r * 4) c ≡ c.r r
  unfolding read32
  read32-reg r c h =
      let at : (t.r_off + r * 4 - t.r_off) / 4 ≡ r = omega arith in
      rw
        (
          read32,
          leb_of_le t.r_off (t.r_off + r * 4) (omega arith),
          ltb_of_lt (t.r_off + r * 4) (t.r_off + 64) (omega arith),
          at,
        )
        refl

  pub write32-reg : (r v : ℕ) (c : Cpu) → r < 16 → write32 t (t.r_off + r * 4) v c ≡ set_reg c r v
  unfolding write32
  write32-reg r v c h =
      let at : (t.r_off + r * 4 - t.r_off) / 4 ≡ r = omega arith in
      rw
        (
          write32,
          leb_of_le t.r_off (t.r_off + r * 4) (omega arith),
          ltb_of_lt (t.r_off + r * 4) (t.r_off + 64) (omega arith),
          at,
        )
        refl

  pub read32-apsr : (c : Cpu) → read32 t t.apsr_off c ≡ c.apsr
  unfolding read32
  read32-apsr c =
      rw
        (
          read32,
          leb_of_le t.r_off t.apsr_off (omega (arith, lay.behind)),
          ltb_of_le t.apsr_off (t.r_off + 64) lay.behind,
          ==_refl t.apsr_off,
        )
        refl

  pub write32-apsr : (v : ℕ) (c : Cpu) → write32 t t.apsr_off v c ≡ record c { apsr = v }
  unfolding write32
  write32-apsr v c =
      rw
        (
          write32,
          leb_of_le t.r_off t.apsr_off (omega (arith, lay.behind)),
          ltb_of_le t.apsr_off (t.r_off + 64) lay.behind,
          ==_refl t.apsr_off,
        )
        refl

  pub read8-apsr : (c : Cpu) → read8 t (t.apsr_off + 3) c ≡ (c.apsr >>> 24) % 2 ^ 8
  unfolding read8
  read8-apsr c =
      let three : t.apsr_off + 3 - t.apsr_off ≡ 3 = omega arith in
      rw
        (
          read8,
          leb_of_le t.apsr_off (t.apsr_off + 3) (omega arith),
          ltb_of_lt (t.apsr_off + 3) (t.apsr_off + 4) (omega arith),
          three,
        )
        refl

-- A byte that was put into a register.
pub al_back : (a v : ℕ) → v < 2 ^ 8 → (a / 2 ^ 8 * 2 ^ 8 + v) % 2 ^ 8 ≡ v
al_back a v h = omega arith

pub ah_back :
    (a v w : ℕ) → v < 2 ^ 8 → w < 2 ^ 8 → ((a / 2 ^ 16 * 2 ^ 16 + v * 2 ^ 8 + w) >>> 8) % 2 ^ 8 ≡ v
ah_back a v w h h' = omega arith

-- The byte beside the one that was put.
pub al_kept : (a v w : ℕ) → w < 2 ^ 8 → (a / 2 ^ 16 * 2 ^ 16 + v * 2 ^ 8 + w) % 2 ^ 8 ≡ w
al_kept a v w h = omega arith
