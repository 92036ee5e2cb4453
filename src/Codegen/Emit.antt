-- ===== src/Codegen/Emit.antt =====
-- The emitters of single x86-64 instructions of src/core/codegen.c: each is the bytes that its C
-- function passes to `emit_b`, in order.
use lecerf.Base.{ℕ, ◌+◌, ◌*◌, u8, ◌>>>◌, List, [], ◌∷◌, ◌++◌}

-- What the compiler and the linker fix: `CG_R_OFF`, `CG_APSR_OFF` and `CG_HALT_OFF`, and the
-- addresses of `bus_read`, `bus_write` and the buffer of each region of the bus.
pub record Target : Type 0 where
  pub r_off : ℕ
  pub apsr_off : ℕ
  pub halt_off : ℕ
  pub bus_read_at : ℕ
  pub bus_write_at : ℕ
  pub buf_at : ℕ → ℕ

-- `CG_PC_OFF`
abbrev pub pc_off : Target → ℕ
pc_off t = t.r_off + 15 * 4

-- `emit_w32`
abbrev pub emit_w32 : ℕ → List ℕ
emit_w32 v = u8 v ∷ u8 (v >>> 8) ∷ u8 (v >>> 16) ∷ u8 (v >>> 24) ∷ []

-- `emit_w64`
abbrev pub emit_w64 : ℕ → List ℕ
emit_w64 v = emit_w32 v ++ emit_w32 (v >>> 32)

module _ (t : Target) where
  -- `[r15 + CG_R_OFF + r*4]`
  abbrev reg_at : ℕ → List ℕ
  reg_at r = emit_w32 (t.r_off + r * 4)

  abbrev pub ld_eax : ℕ → List ℕ
  ld_eax r = 0x41 ∷ 0x8B ∷ 0x87 ∷ reg_at r

  abbrev pub ld_ecx : ℕ → List ℕ
  ld_ecx r = 0x41 ∷ 0x8B ∷ 0x8F ∷ reg_at r

  abbrev pub st_eax : ℕ → List ℕ
  st_eax r = 0x41 ∷ 0x89 ∷ 0x87 ∷ reg_at r

  abbrev pub st_ecx : ℕ → List ℕ
  st_ecx r = 0x41 ∷ 0x89 ∷ 0x8F ∷ reg_at r

  abbrev pub st_pc : ℕ → List ℕ
  st_pc pc = 0x41 ∷ 0xC7 ∷ 0x87 ∷ (emit_w32 (pc_off t) ++ emit_w32 pc)

  abbrev pub mov_r9d_reg : ℕ → List ℕ
  mov_r9d_reg r = 0x45 ∷ 0x8B ∷ 0x8F ∷ reg_at r

  abbrev pub ld_r10d_apsr : List ℕ
  ld_r10d_apsr = 0x45 ∷ 0x8B ∷ 0x97 ∷ emit_w32 (t.apsr_off)

  abbrev pub st_r10d_apsr : List ℕ
  st_r10d_apsr = 0x45 ∷ 0x89 ∷ 0x97 ∷ emit_w32 (t.apsr_off)

  abbrev pub ld_al_apsr_byte3 : List ℕ
  ld_al_apsr_byte3 = 0x41 ∷ 0x8A ∷ 0x87 ∷ emit_w32 (t.apsr_off + 3)

-- Moves and arithmetic on `eax` and `ecx`.
abbrev pub mov_eax_imm : ℕ → List ℕ
mov_eax_imm imm = 0xB8 ∷ emit_w32 imm

abbrev pub op_add_ec : List ℕ
op_add_ec = 0x01 ∷ 0xC8 ∷ []

abbrev pub op_sub_ec : List ℕ
op_sub_ec = 0x29 ∷ 0xC8 ∷ []

abbrev pub op_and_ec : List ℕ
op_and_ec = 0x21 ∷ 0xC8 ∷ []

abbrev pub op_or_ec : List ℕ
op_or_ec = 0x09 ∷ 0xC8 ∷ []

abbrev pub op_xor_ec : List ℕ
op_xor_ec = 0x31 ∷ 0xC8 ∷ []

abbrev pub add_imm : ℕ → List ℕ
add_imm v = 0x05 ∷ emit_w32 v

abbrev pub sub_imm : ℕ → List ℕ
sub_imm v = 0x2D ∷ emit_w32 v

-- The three bitwise operations with an immediate, and the test of `eax`, that `emit_op` writes out.
abbrev pub and_imm : ℕ → List ℕ
and_imm v = 0x25 ∷ emit_w32 v

abbrev pub or_imm : ℕ → List ℕ
or_imm v = 0x0D ∷ emit_w32 v

abbrev pub xor_imm : ℕ → List ℕ
xor_imm v = 0x35 ∷ emit_w32 v

abbrev pub test_eax_eax : List ℕ
test_eax_eax = 0x85 ∷ 0xC0 ∷ []

-- Calls of the helpers on the bus.
abbrev pub emit_clear_fail : List ℕ
emit_clear_fail = 0x31 ∷ 0xDB ∷ []

abbrev pub mov_rcx_r14 : List ℕ
mov_rcx_r14 = 0x4C ∷ 0x89 ∷ 0xF1 ∷ []

abbrev pub mov_edx_eax : List ℕ
mov_edx_eax = 0x89 ∷ 0xC2 ∷ []

abbrev pub mov_r8d_imm : ℕ → List ℕ
mov_r8d_imm v = 0x41 ∷ 0xB8 ∷ emit_w32 v

abbrev pub lea_r9_rsp0 : List ℕ
lea_r9_rsp0 = 0x4C ∷ 0x8D ∷ 0x0C ∷ 0x24 ∷ []

abbrev pub sub_rsp_16 : List ℕ
sub_rsp_16 = 0x48 ∷ 0x83 ∷ 0xEC ∷ 0x10 ∷ []

abbrev pub add_rsp_16 : List ℕ
add_rsp_16 = 0x48 ∷ 0x83 ∷ 0xC4 ∷ 0x10 ∷ []

abbrev pub mov_rax_imm64 : ℕ → List ℕ
mov_rax_imm64 v = 0x48 ∷ 0xB8 ∷ emit_w64 v

abbrev pub call_rax : List ℕ
call_rax = 0xFF ∷ 0xD0 ∷ []

abbrev pub mov_ecx_rsp0 : List ℕ
mov_ecx_rsp0 = 0x8B ∷ 0x0C ∷ 0x24 ∷ []

abbrev pub test_al_jnz : ℕ → List ℕ
test_al_jnz skip = 0x84 ∷ 0xC0 ∷ 0x75 ∷ skip ∷ []

abbrev pub or_bl_1 : List ℕ
or_bl_1 = 0x80 ∷ 0xCB ∷ 0x01 ∷ []

abbrev pub jmp_short : ℕ → List ℕ
jmp_short n = 0xEB ∷ n ∷ []

abbrev pub and_r9d_imm : ℕ → List ℕ
and_r9d_imm v = 0x41 ∷ 0x81 ∷ 0xE1 ∷ emit_w32 v

-- The flags.
abbrev pub lahf : List ℕ
lahf = 0x9F ∷ []

abbrev pub emit_lahf_seto_cl : List ℕ
emit_lahf_seto_cl = 0x9F ∷ 0x0F ∷ 0x90 ∷ 0xC1 ∷ []

abbrev pub movzx_edx_ah : List ℕ
movzx_edx_ah = 0x0F ∷ 0xB6 ∷ 0xD4 ∷ []

abbrev pub mov_esi_edx : List ℕ
mov_esi_edx = 0x89 ∷ 0xD6 ∷ []

abbrev pub shr_esi : ℕ → List ℕ
shr_esi n = 0xC1 ∷ 0xEE ∷ n ∷ []

abbrev pub shl_esi : ℕ → List ℕ
shl_esi n = 0xC1 ∷ 0xE6 ∷ n ∷ []

abbrev pub mov_r10d_edx : List ℕ
mov_r10d_edx = 0x41 ∷ 0x89 ∷ 0xD2 ∷ []

abbrev pub shr_r10d : ℕ → List ℕ
shr_r10d n = 0x41 ∷ 0xC1 ∷ 0xEA ∷ n ∷ []

abbrev pub and_r10d_imm : ℕ → List ℕ
and_r10d_imm v = 0x41 ∷ 0x81 ∷ 0xE2 ∷ emit_w32 v

abbrev pub shl_r10d : ℕ → List ℕ
shl_r10d n = 0x41 ∷ 0xC1 ∷ 0xE2 ∷ n ∷ []

abbrev pub or_esi_r10d : List ℕ
or_esi_r10d = 0x44 ∷ 0x09 ∷ 0xD6 ∷ []

abbrev pub xor_r10d_imm : ℕ → List ℕ
xor_r10d_imm v = 0x41 ∷ 0x81 ∷ 0xF2 ∷ emit_w32 v

abbrev pub movzx_r10d_cl : List ℕ
movzx_r10d_cl = 0x44 ∷ 0x0F ∷ 0xB6 ∷ 0xD1 ∷ []

abbrev pub or_r10d_esi : List ℕ
or_r10d_esi = 0x41 ∷ 0x09 ∷ 0xF2 ∷ []

abbrev pub mov_r11d_eax : List ℕ
mov_r11d_eax = 0x41 ∷ 0x89 ∷ 0xC3 ∷ []

abbrev pub mov_eax_r11d : List ℕ
mov_eax_r11d = 0x44 ∷ 0x89 ∷ 0xD8 ∷ []
