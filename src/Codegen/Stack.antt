-- ===== src/Codegen/Stack.antt =====
-- The code of PUSH and POP of src/core/codegen.c: a path for flat memory, and one through the bus.
use lecerf.Base.{
  ℕ, zero, suc, ◌+◌, ◌*◌, ◌^◌, Bool, ◌==◌, ◌||◌, leb, ltb, if◌then◌else◌, u8, has, add32, sub32,
  Option, none, some, List, [], ◌∷◌, ◌++◌, length,
}
use lecerf.Cpu.{reg_sp, reg_pc}
use lecerf.Codegen.Emit.{
  Target, ld_eax, ld_ecx, st_eax, st_ecx, mov_r9d_reg, add_imm, sub_imm, mov_rcx_r14, mov_edx_eax,
  mov_r8d_imm, sub_rsp_16, or_bl_1, jmp_short, and_r10d_imm,
}
use lecerf.Codegen.EmitStack.{
  cmp_eax_imm32, jcc_rel8, jmp_near, mov_r10_imm64, mov_r11d_eax_zero_ext, add_r11_r10,
  sub_r11_imm32, mov_r11_off_ecx, mov_ecx_r11_off, add_edx_imm, cmp_ecx_imm32, and_ecx_imm32,
  save_pc, st_pc_ecx, st_pc_r10d, cmp_r10d_imm32,
}
use lecerf.Codegen.Memory.{call_bus_read, call_bus_write, unless_failed}

-- The flat region at 0x20000000: its base, its size and the address of its buffer.
pub record Sram : Type 0 where
  pub base : ℕ
  pub size : ℕ
  pub buf : ℕ

-- The registers from `k` to `k + n - 1` that are in the list, in order.
unfoldable pub listed : ℕ → ℕ → ℕ → List ℕ
listed zero k reg_list = []
listed (suc n) k reg_list =
    let rest = listed n (k + 1) reg_list in if has reg_list (2 ^ k) then k ∷ rest else rest

-- The code of each register, at 4 bytes from the one before.
unfoldable pub each : (ℕ → ℕ → List ℕ) → ℕ → List ℕ → List ℕ
each f off [] = []
each f off (k ∷ ks) = f k off ++ each f (off + 4) ks

-- The sum of a size over the registers.
unfoldable pub total : (ℕ → ℕ) → List ℕ → ℕ
total size [] = 0
total size (k ∷ ks) = size k + total size ks

-- `slow_body <= 127u ? 2u : 5u`, and the jump of that size over the slow path.
abbrev pub over_size : ℕ → ℕ
over_size slow_body = if leb slow_body 127 then 2 else 5

abbrev pub over_jump : ℕ → List ℕ
over_jump slow_body = if leb slow_body 127 then jmp_short (u8 slow_body) else jmp_near slow_body

-- The distances from the two tests of the bounds to the slow path.
abbrev pub ja_target : ℕ → ℕ → ℕ
ja_target fast_body slow_body = fast_body + over_size slow_body

abbrev pub jb_target : ℕ → ℕ → ℕ
jb_target fast_body slow_body = 5 + 2 + fast_body + over_size slow_body

abbrev pub too_far : ℕ → ℕ → Bool
too_far fast_body slow_body =
    ltb 127 (jb_target fast_body slow_body) || ltb 127 (ja_target fast_body slow_body)

-- The tests of `eax` against the bounds of the region, for `cnt` words.
abbrev pub in_bounds : Sram → ℕ → ℕ → ℕ → List ℕ
in_bounds m cnt fast_body slow_body =
    cmp_eax_imm32 m.base
    ++ jcc_rel8 0x72 (u8 (jb_target fast_body slow_body))
    ++ cmp_eax_imm32 (sub32 (add32 m.base m.size) (cnt * 4))
    ++ jcc_rel8 0x77 (u8 (ja_target fast_body slow_body))

-- `r11` is the address of the bytes in the buffer.
abbrev pub point_r11 : Sram → List ℕ
point_r11 m = mov_r10_imm64 m.buf ++ mov_r11d_eax_zero_ext ++ add_r11_r10 ++ sub_r11_imm32 m.base

-- The sizes that `emit_pop` adds up, of the path in flat memory and of a register on the other.
abbrev pub pop_fast_body : ℕ → Bool → ℕ
pop_fast_body cnt has_pc = 23 + cnt * 14 + 19 + (if has_pc then 26 else 0)

abbrev pub pop_slow_size : ℕ → ℕ
pop_slow_size k = 7 + (if k == reg_pc then 56 else 60)

abbrev pub pop_slow_body : List ℕ → Bool → ℕ
pop_slow_body ks has_pc = total pop_slow_size ks + 19 + (if has_pc then 28 else 0)

module _ (t : Target) where
  -- A register onto the stack, through the bus and in flat memory.
  abbrev pub push_slow : ℕ → ℕ → List ℕ
  push_slow k off =
      ld_eax t reg_sp
      ++ sub_rsp_16
      ++ mov_rcx_r14
      ++ mov_edx_eax
      ++ add_edx_imm off
      ++ mov_r8d_imm 4
      ++ mov_r9d_reg t k
      ++ call_bus_write t

  abbrev pub push_fast : ℕ → ℕ → List ℕ
  push_fast k off = ld_ecx t k ++ mov_r11_off_ecx off

  unfoldable pub emit_push_v : Option Sram → ℕ → List ℕ
  unfolding listed each
  emit_push_v sram reg_list =
      let ks = listed 15 0 reg_list in
      let cnt = length ks in
      let fast_body = 23 + cnt * 14 in
      let slow_body = cnt * 58 in
      let slow = each push_slow 0 ks in
      let start = ld_eax t reg_sp ++ sub_imm (cnt * 4) ++ st_eax t reg_sp in
      if cnt == 0
      then []
      else start ++ elim sram [
        | none ↦ slow
        | some m ↦
            if too_far fast_body slow_body
            then slow
            else in_bounds m cnt fast_body slow_body
              ++ point_r11 m
              ++ each push_fast 0 ks
              ++ over_jump slow_body
              ++ slow
      ]

  -- A word that is popped goes into its register; a word for the PC waits in another register.
  abbrev pub load_slow : ℕ → List ℕ
  load_slow k = call_bus_read t ++ unless_failed (if k == reg_pc then save_pc else st_ecx t k)

  abbrev pub pop_slow : ℕ → ℕ → List ℕ
  pop_slow k off =
      ld_eax t reg_sp
      ++ sub_rsp_16
      ++ mov_rcx_r14
      ++ mov_edx_eax
      ++ add_edx_imm off
      ++ mov_r8d_imm 4
      ++ load_slow k

  -- `ecx` becomes the PC, unless it is an EXC_RETURN value.
  abbrev commit_ecx : List ℕ
  commit_ecx =
      cmp_ecx_imm32 0xFFFFFFF0
      ++ jcc_rel8 0x73 (6 + 7 + 2)
      ++ and_ecx_imm32 0xFFFFFFFE
      ++ st_pc_ecx t
      ++ jmp_short 3
      ++ or_bl_1

  -- `r10d` becomes the PC likewise.
  abbrev pub commit_r10d : List ℕ
  commit_r10d =
      cmp_r10d_imm32 0xFFFFFFF0
      ++ jcc_rel8 0x73 (7 + 7 + 2)
      ++ and_r10d_imm 0xFFFFFFFE
      ++ st_pc_r10d t
      ++ jmp_short 3
      ++ or_bl_1

  abbrev pub load_fast : ℕ → ℕ → List ℕ
  load_fast k off = mov_ecx_r11_off off ++ (if k == reg_pc then commit_ecx else st_ecx t k)

  -- `SP += cnt * 4`
  abbrev pub drop_words : ℕ → List ℕ
  drop_words cnt = ld_eax t reg_sp ++ add_imm (cnt * 4) ++ st_eax t reg_sp

  abbrev pub pop_slow_path : List ℕ → Bool → List ℕ
  pop_slow_path ks has_pc =
      each pop_slow 0 ks ++ drop_words (length ks) ++ (if has_pc then commit_r10d else [])

  unfoldable pub emit_pop : Option Sram → ℕ → List ℕ
  unfolding listed each total
  emit_pop sram reg_list =
      let ks = listed 16 0 reg_list in
      let cnt = length ks in
      let has_pc = has reg_list (2 ^ 15) in
      let fast_body = pop_fast_body cnt has_pc in
      let slow_body = pop_slow_body ks has_pc in
      if cnt == 0
      then []
      else ld_eax t reg_sp ++ elim sram [
        | none ↦ pop_slow_path ks has_pc
        | some m ↦
            if too_far fast_body slow_body
            then pop_slow_path ks has_pc
            else in_bounds m cnt fast_body slow_body
              ++ point_r11 m
              ++ each load_fast 0 ks
              ++ drop_words cnt
              ++ over_jump slow_body
              ++ pop_slow_path ks has_pc
      ]
