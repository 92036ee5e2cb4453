-- ===== src/Codegen/Flags.antt =====
-- The code that brings the flags of x86-64 into APSR, and the conditional branch on them, of
-- src/core/codegen.c.
use lecerf.Base.{ℕ, Bool, ◌==◌, leb, if◌then◌else◌, not32, bit_and, bit_or, add32, List, [], ◌++◌}
use lecerf.Cpu.{reg_lr}
use lecerf.Decoder.Insn.{Insn}
use lecerf.Codegen.Emit.{
  Target, st_eax, st_pc, ld_r10d_apsr, st_r10d_apsr, ld_al_apsr_byte3, mov_eax_imm, jmp_short, lahf,
  emit_lahf_seto_cl, movzx_edx_ah, mov_esi_edx, shr_esi, shl_esi, mov_r10d_edx, shr_r10d,
  and_r10d_imm, shl_r10d, or_esi_r10d, xor_r10d_imm, movzx_r10d_cl, or_r10d_esi, mov_r11d_eax,
  mov_eax_r11d,
}
use lecerf.Codegen.EmitStack.{
  shr_al, test_al_imm8, and_al_imm8, cmp_al_imm8, mov_ah_al, shr_ah, xor_al_ah, emit_jcc_rel32,
}

-- N in its place in `esi`, Z in its place in `r10d`, and both in `esi`.
abbrev pub place_nz : List ℕ
place_nz =
    mov_esi_edx
    ++ shr_esi 7
    ++ shl_esi 31
    ++ mov_r10d_edx
    ++ shr_r10d 6
    ++ and_r10d_imm 1
    ++ shl_r10d 30
    ++ or_esi_r10d

-- C, turned round for a subtraction, and V into `esi`.
abbrev pub place_cv : Bool → List ℕ
place_cv is_sub =
    mov_r10d_edx
    ++ and_r10d_imm 1
    ++ (if is_sub then xor_r10d_imm 1 else [])
    ++ shl_r10d 29
    ++ or_esi_r10d
    ++ movzx_r10d_cl
    ++ shl_r10d 28
    ++ or_esi_r10d

-- `apsr = (apsr & mask) | esi`
abbrev pub merge_apsr : Target → ℕ → List ℕ
merge_apsr t mask = ld_r10d_apsr t ++ and_r10d_imm mask ++ or_r10d_esi ++ st_r10d_apsr t

unfoldable pub emit_flags_nzcv : Target → Bool → List ℕ
emit_flags_nzcv t is_sub =
    mov_r11d_eax
    ++ emit_lahf_seto_cl
    ++ movzx_edx_ah
    ++ mov_eax_r11d
    ++ place_nz
    ++ place_cv is_sub
    ++ merge_apsr t 0x0FFFFFFF

unfoldable pub emit_flags_nz : Target → List ℕ
emit_flags_nz t =
    mov_r11d_eax ++ lahf ++ movzx_edx_ah ++ mov_eax_r11d ++ place_nz ++ merge_apsr t 0x3FFFFFFF

-- N xor V in the lowest bit of `al`, and the bits of `al` above it.
abbrev pub sign_test : ℕ → List ℕ
sign_test mask = mov_ah_al ++ shr_ah 3 ++ xor_al_ah ++ test_al_imm8 mask

-- The test of condition `cond`, from 0 to 13, on `al`.
unfoldable pub cond_test : ℕ → List ℕ
cond_test cond =
    if (cond == 0x0)
    then test_al_imm8 0x40
    else if (cond == 0x1)
    then test_al_imm8 0x40
    else if (cond == 0x2)
    then test_al_imm8 0x20
    else if (cond == 0x3)
    then test_al_imm8 0x20
    else if (cond == 0x4)
    then test_al_imm8 0x80
    else if (cond == 0x5)
    then test_al_imm8 0x80
    else if (cond == 0x6)
    then test_al_imm8 0x10
    else if (cond == 0x7)
    then test_al_imm8 0x10
    else if (cond == 0x8)
    then and_al_imm8 0x06 ++ cmp_al_imm8 0x02
    else if (cond == 0x9)
    then and_al_imm8 0x06 ++ cmp_al_imm8 0x02
    else if (cond == 0xA)
    then sign_test 0x01
    else if (cond == 0xB)
    then sign_test 0x01
    else if (cond == 0xC)
    then sign_test 0x05
    else sign_test 0x05

-- The opcode of the jump that is taken where the condition holds: `jz` or `jnz`.
unfoldable pub cond_jcc : ℕ → ℕ
cond_jcc cond =
    if (cond == 0x0)
    then 0x85
    else if (cond == 0x1)
    then 0x84
    else if (cond == 0x2)
    then 0x85
    else if (cond == 0x3)
    then 0x84
    else if (cond == 0x4)
    then 0x85
    else if (cond == 0x5)
    then 0x84
    else if (cond == 0x6)
    then 0x85
    else if (cond == 0x7)
    then 0x84
    else if (cond == 0x8)
    then 0x84
    else if (cond == 0x9)
    then 0x85
    else if (cond == 0xA)
    then 0x84
    else if (cond == 0xB)
    then 0x85
    else if (cond == 0xC)
    then 0x84
    else 0x85

-- The target of a branch, `pc + 4 + imm`, and the address after the instruction.
abbrev pub taken_pc : Insn → ℕ
taken_pc i = add32 (add32 i.pc 4) i.imm

abbrev pub next_pc : Insn → ℕ
next_pc i = add32 i.pc i.size

unfoldable pub emit_b_cond_fast : Target → Insn → List ℕ
unfolding cond_test cond_jcc
emit_b_cond_fast t i =
    if i.cond == 0xE
    then st_pc t (taken_pc i)
    else if i.cond == 0xF
    then st_pc t (next_pc i)
    else ld_al_apsr_byte3 t
      ++ (if leb 0x8 i.cond then shr_al 4 else [])
      ++ (if leb 0x10 i.cond
          then []
          else cond_test i.cond
            ++ emit_jcc_rel32 (cond_jcc i.cond) 13
            ++ st_pc t (next_pc i)
            ++ jmp_short 11
            ++ st_pc t (taken_pc i))

unfoldable pub emit_b_uncond : Target → Insn → List ℕ
emit_b_uncond t i = st_pc t (taken_pc i)

unfoldable pub emit_t32_bl : Target → Insn → List ℕ
emit_t32_bl t i =
    mov_eax_imm (bit_or (next_pc i) 1)
    ++ st_eax t reg_lr
    ++ st_pc t (bit_and (taken_pc i) (not32 1))
