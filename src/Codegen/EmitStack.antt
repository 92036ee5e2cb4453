-- ===== src/Codegen/EmitStack.antt =====
-- The emitters of single x86-64 instructions of src/core/codegen.c for the stack, for lists of
-- registers and for conditions.
use lecerf.Base.{ℕ, List, [], ◌∷◌}
use lecerf.Codegen.Emit.{Target, pc_off, emit_w32, emit_w64}

abbrev pub cmp_eax_imm32 : ℕ → List ℕ
cmp_eax_imm32 v = 0x3D ∷ emit_w32 v

abbrev pub jcc_rel8 : ℕ → ℕ → List ℕ
jcc_rel8 op off = op ∷ off ∷ []

-- `jmp rel32`, which the emitters write out.
abbrev pub jmp_near : ℕ → List ℕ
jmp_near n = 0xE9 ∷ emit_w32 n

abbrev pub mov_r10_imm64 : ℕ → List ℕ
mov_r10_imm64 v = 0x49 ∷ 0xBA ∷ emit_w64 v

abbrev pub mov_r11d_eax_zero_ext : List ℕ
mov_r11d_eax_zero_ext = 0x41 ∷ 0x89 ∷ 0xC3 ∷ []

abbrev pub add_r11_r10 : List ℕ
add_r11_r10 = 0x4D ∷ 0x01 ∷ 0xD3 ∷ []

abbrev pub sub_r11_imm32 : ℕ → List ℕ
sub_r11_imm32 v = 0x49 ∷ 0x81 ∷ 0xEB ∷ emit_w32 v

abbrev pub mov_r11_off_ecx : ℕ → List ℕ
mov_r11_off_ecx disp = 0x41 ∷ 0x89 ∷ 0x8B ∷ emit_w32 disp

abbrev pub mov_r11_off_eax : ℕ → List ℕ
mov_r11_off_eax disp = 0x41 ∷ 0x89 ∷ 0x83 ∷ emit_w32 disp

abbrev pub mov_ecx_r11_off : ℕ → List ℕ
mov_ecx_r11_off disp = 0x41 ∷ 0x8B ∷ 0x8B ∷ emit_w32 disp

abbrev pub add_edx_imm : ℕ → List ℕ
add_edx_imm v = 0x81 ∷ 0xC2 ∷ emit_w32 v

abbrev pub cmp_ecx_imm32 : ℕ → List ℕ
cmp_ecx_imm32 v = 0x81 ∷ 0xF9 ∷ emit_w32 v

abbrev pub and_ecx_imm32 : ℕ → List ℕ
and_ecx_imm32 v = 0x81 ∷ 0xE1 ∷ emit_w32 v

abbrev pub mov_r9d_imm : ℕ → List ℕ
mov_r9d_imm v = 0x41 ∷ 0xB9 ∷ emit_w32 v

-- The word of the PC on the slow path of POP and LDM: `0x44, 0x89, 0xc8`.
abbrev pub save_pc : List ℕ
save_pc = 0x44 ∷ 0x89 ∷ 0xC8 ∷ []

-- `mov [r15 + CG_PC_OFF], ecx` and `mov [r15 + CG_PC_OFF], r10d`
abbrev pub st_pc_ecx : Target → List ℕ
st_pc_ecx t = 0x41 ∷ 0x89 ∷ 0x8F ∷ emit_w32 (pc_off t)

abbrev pub st_pc_r10d : Target → List ℕ
st_pc_r10d t = 0x45 ∷ 0x89 ∷ 0x97 ∷ emit_w32 (pc_off t)

abbrev pub cmp_r10d_imm32 : ℕ → List ℕ
cmp_r10d_imm32 v = 0x41 ∷ 0x81 ∷ 0xFA ∷ emit_w32 v

-- Conditions on the byte of the flags.
abbrev pub shr_al : ℕ → List ℕ
shr_al n = 0xC0 ∷ 0xE8 ∷ n ∷ []

abbrev pub test_al_imm8 : ℕ → List ℕ
test_al_imm8 m = 0xA8 ∷ m ∷ []

abbrev pub and_al_imm8 : ℕ → List ℕ
and_al_imm8 m = 0x24 ∷ m ∷ []

abbrev pub cmp_al_imm8 : ℕ → List ℕ
cmp_al_imm8 m = 0x3C ∷ m ∷ []

abbrev pub mov_ah_al : List ℕ
mov_ah_al = 0x88 ∷ 0xC4 ∷ []

abbrev pub shr_ah : ℕ → List ℕ
shr_ah n = 0xC0 ∷ 0xEC ∷ n ∷ []

abbrev pub xor_al_ah : List ℕ
xor_al_ah = 0x30 ∷ 0xE0 ∷ []

-- `emit_jcc_rel32`
abbrev pub emit_jcc_rel32 : ℕ → ℕ → List ℕ
emit_jcc_rel32 jcc rel32 = 0x0F ∷ jcc ∷ emit_w32 rel32
