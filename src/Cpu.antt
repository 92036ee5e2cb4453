-- ===== src/Cpu.antt =====
-- include/core/cpu.h, include/core/fpu.h, src/core/cpu.c and src/core/fpu.c: the register file, the
-- condition flags and the IT state.
-- An array of C whose index the code keeps in range is a function of the index.
pub mod Flags
pub mod Apsr
pub mod ItState
use lecerf.Base.{
  ℕ, ◌+◌, ◌-◌, ◌*◌, ◌/◌, ◌%◌, ◌^◌, bit_and, bit_or, bit_xor, Bool, true, false, ◌==◌, leb, not,
  if◌then◌else◌, of_bool, not32, has, set_if, update, ◌>>>◌, ◌≡◌,
}

abbrev pub reg_sp : ℕ
reg_sp = 13

abbrev pub reg_lr : ℕ
reg_lr = 14

abbrev pub reg_pc : ℕ
reg_pc = 15

-- `1u << 31` to `1u << 28`.
abbrev pub apsr_n : ℕ
apsr_n = 0x80000000

abbrev pub apsr_z : ℕ
apsr_z = 0x40000000

abbrev pub apsr_c : ℕ
apsr_c = 0x20000000

abbrev pub apsr_v : ℕ
apsr_v = 0x10000000

-- `cpu_mode_t`
pub data Mode : Type 0 where
  thread handler : Mode

-- `core_t`
pub data Core : Type 0 where
  m0 m0_plus m1 m3 m4 m7 : Core

-- `fpu_t`: the registers by their bit patterns, the member `u` of the union.
pub record Fpu : Type 0 where
  pub u : ℕ → ℕ
  pub fpscr : ℕ
  pub fpccr : ℕ
  pub enabled : Bool

-- `cpu_t`
pub record Cpu : Type 0 where
  pub r : ℕ → ℕ
  pub msp : ℕ
  pub psp : ℕ
  pub apsr : ℕ
  pub ipsr : ℕ
  pub epsr : ℕ
  pub primask : ℕ
  pub faultmask : ℕ
  pub basepri : ℕ
  pub control : ℕ
  pub mode : Mode
  pub core : Core
  pub cycles : ℕ
  pub halted : Bool
  pub itstate : ℕ
  pub fpu : Fpu
  pub cfsr : ℕ
  pub hfsr : ℕ
  pub mmfar : ℕ
  pub bfar : ℕ

-- `fpu_reset`
unfoldable pub fpu_reset : Fpu
fpu_reset = record { u = λ j. 0; fpscr = 0; fpccr = 0; enabled = true }

-- `cpu_reset`: everything is cleared, then the core, the Thumb bit of EPSR and the FPU are set.
unfoldable pub cpu_reset : Core → Cpu
cpu_reset core = record {
  r = λ j. 0;
  msp = 0;
  psp = 0;
  apsr = 0;
  ipsr = 0;
  epsr = 0x1000000;
  primask = 0;
  faultmask = 0;
  basepri = 0;
  control = 0;
  mode = thread;
  core = core;
  cycles = 0;
  halted = false;
  itstate = 0;
  fpu = fpu_reset;
  cfsr = 0;
  hfsr = 0;
  mmfar = 0;
  bfar = 0;
}

-- `c->r[i] = v`, with the index of a decoded instruction or of a loop, below 16.
abbrev pub set_reg : Cpu → ℕ → ℕ → Cpu
set_reg c i v = record c { r = update c.r i v }

-- `cpu_read_reg`
unfoldable pub cpu_read_reg : Cpu → ℕ → ℕ
cpu_read_reg c n = c.r (bit_and n 0xF)

-- `cpu_write_reg`: a write of the PC drops its lowest bit.
unfoldable pub cpu_write_reg : Cpu → ℕ → ℕ → Cpu
cpu_write_reg c n v =
    let n' = bit_and n 0xF in
    if n' == reg_pc then set_reg c reg_pc (bit_and v (not32 1)) else set_reg c n' v

-- The flags N and Z of a result, set in a word where they are clear.
pub nz : ℕ → ℕ → ℕ
nz f result = set_if (result == 0) apsr_z (set_if (has result 0x80000000) apsr_n f)

abbrev nzcv_mask : ℕ
nzcv_mask = 0xF0000000

-- `cpu_set_flags_nz`
unfoldable pub cpu_set_flags_nz : Cpu → ℕ → Cpu
unfolding nz
cpu_set_flags_nz c result = record c { apsr = nz (bit_and c.apsr (not32 0xC0000000)) result }

-- The word that `cpu_set_flags_nzcv_add` stores. `a + b + carry_in` is computed in 64 bits.
add_flags : ℕ → ℕ → ℕ → ℕ → Bool → ℕ
unfolding nz
add_flags apsr a b result carry_in =
    let f = nz (bit_and apsr (not32 nzcv_mask)) result in
    let ext = a + b + of_bool carry_in in
    let f' = set_if (not ((ext >>> 32) == 0)) apsr_c f in
    set_if (has (bit_and (not32 (bit_xor a b)) (bit_xor a result)) 0x80000000) apsr_v f'

-- `cpu_set_flags_nzcv_add`
unfoldable pub cpu_set_flags_nzcv_add : Cpu → ℕ → ℕ → ℕ → Bool → Cpu
unfolding add_flags
cpu_set_flags_nzcv_add c a b result carry_in = record c {
  apsr = add_flags c.apsr a b result carry_in;
}

-- The word that `cpu_set_flags_nzcv_sub` stores.
sub_flags : ℕ → ℕ → ℕ → ℕ → ℕ
unfolding nz
sub_flags apsr a b result =
    let f = nz (bit_and apsr (not32 nzcv_mask)) result in
    let f' = set_if (leb b a) apsr_c f in
    set_if (has (bit_and (bit_xor a b) (bit_xor a result)) 0x80000000) apsr_v f'

-- `cpu_set_flags_nzcv_sub`
unfoldable pub cpu_set_flags_nzcv_sub : Cpu → ℕ → ℕ → ℕ → Cpu
unfolding sub_flags
cpu_set_flags_nzcv_sub c a b result = record c { apsr = sub_flags c.apsr a b result }

-- `cpu_in_it`
unfoldable pub cpu_in_it : Cpu → Bool
cpu_in_it c = has c.itstate 0x0F

-- `cpu_it_cond`
unfoldable pub cpu_it_cond : Cpu → ℕ
cpu_it_cond c = bit_and (c.itstate >>> 4) 0xF

-- What `cpu_it_advance` makes of ITSTATE.
it_next : ℕ → ℕ
it_next it =
    if bit_and it 0x07 == 0
    then 0
    else bit_or (bit_and it 0xE0) (bit_and (bit_and it 0x1F * 2) 0x1F)

-- `cpu_it_advance`
unfoldable pub cpu_it_advance : Cpu → Cpu
unfolding it_next
cpu_it_advance c = record c { itstate = it_next c.itstate }
