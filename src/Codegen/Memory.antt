-- ===== src/Codegen/Memory.antt =====
-- The prologue, the epilogue, and the code of single loads and stores of src/core/codegen.c.
use lecerf.Base.{ℕ, ◌==◌, if◌then◌else◌, List, [], ◌∷◌, ◌++◌}
use lecerf.Codegen.Emit.{
  Target, emit_w32, ld_eax, st_ecx, mov_r9d_reg, add_imm, mov_rcx_r14, mov_edx_eax, mov_r8d_imm,
  lea_r9_rsp0, sub_rsp_16, add_rsp_16, mov_rax_imm64, call_rax, mov_ecx_rsp0, test_al_jnz, or_bl_1,
  jmp_short, and_r9d_imm,
}
use lecerf.Codegen.EmitStack.{and_ecx_imm32}

-- Pushes of r15, r14, rbx and rsi, the shadow space, and the moves of the CPU and the bus.
unfoldable pub emit_prologue : List ℕ
emit_prologue =
    0x41 ∷ 0x57 ∷ 0x41 ∷ 0x56 ∷ 0x53 ∷ 0x56 ∷ 0x48 ∷ 0x83 ∷ 0xEC ∷ 0x20 ∷ 0x49 ∷ 0x89 ∷ 0xCF ∷ 0x49
    ∷ 0x89 ∷ 0xD6 ∷ []

-- `add rsp, 32` and the pops.
abbrev leave_code : List ℕ
leave_code = 0x48 ∷ 0x83 ∷ 0xC4 ∷ 0x20 ∷ 0x5E ∷ 0x5B ∷ 0x41 ∷ 0x5E ∷ 0x41 ∷ 0x5F ∷ []

-- The path of a failure, and that of a success.
abbrev halt_path : Target → List ℕ
halt_path t =
    0x41 ∷ 0xC6 ∷ 0x87 ∷ (emit_w32 (t.halt_off) ++ 0x01 ∷ (leave_code ++ 0x30 ∷ 0xC0 ∷ 0xC3 ∷ []))

abbrev ok_path : List ℕ
ok_path = leave_code ++ 0xB0 ∷ 0x01 ∷ 0xC3 ∷ []

abbrev ok_jump : ℕ
ok_jump = 21

unfoldable pub emit_epilogue_check : Target → List ℕ
emit_epilogue_check t = 0x84 ∷ 0xDB ∷ 0x74 ∷ ok_jump ∷ (halt_path t ++ ok_path)

-- The call of `bus_read` at the address in `edx`, with the word in `ecx` after it.
abbrev pub call_bus_read : Target → List ℕ
call_bus_read t =
    lea_r9_rsp0 ++ mov_rax_imm64 (t.bus_read_at) ++ call_rax ++ mov_ecx_rsp0 ++ add_rsp_16

-- A failure marks `bl` and jumps over the 7 bytes of the store.
abbrev pub unless_failed : List ℕ → List ℕ
unless_failed store = test_al_jnz 5 ++ or_bl_1 ++ jmp_short 7 ++ store

-- The call of `bus_write` with the word in `r9d`; a failure marks `bl`.
abbrev pub call_bus_write : Target → List ℕ
call_bus_write t =
    mov_rax_imm64 (t.bus_write_at) ++ call_rax ++ add_rsp_16 ++ test_al_jnz 3 ++ or_bl_1

unfoldable pub emit_load_from_eax : Target → ℕ → ℕ → List ℕ
emit_load_from_eax t rd sz =
    sub_rsp_16
    ++ mov_rcx_r14
    ++ mov_edx_eax
    ++ mov_r8d_imm sz
    ++ call_bus_read t
    ++ (if sz == 1 then and_ecx_imm32 0xFF else if sz == 2 then and_ecx_imm32 0xFFFF else [])
    ++ unless_failed (st_ecx t rd)

-- `if (imm) add_imm(cg, imm);`
abbrev add_offset : ℕ → List ℕ
add_offset imm = if imm == 0 then [] else add_imm imm

unfoldable pub emit_load : Target → ℕ → ℕ → ℕ → ℕ → List ℕ
unfolding emit_load_from_eax
emit_load t rd rn imm sz = ld_eax t rn ++ add_offset imm ++ emit_load_from_eax t rd sz

-- The part of a store after the address is in `eax`.
abbrev pub store_at_eax : Target → ℕ → ℕ → List ℕ
store_at_eax t rd sz =
    sub_rsp_16
    ++ mov_rcx_r14
    ++ mov_edx_eax
    ++ mov_r8d_imm sz
    ++ mov_r9d_reg t rd
    ++ (if sz == 1 then and_r9d_imm 0xFF else if sz == 2 then and_r9d_imm 0xFFFF else [])
    ++ call_bus_write t

unfoldable pub emit_store : Target → ℕ → ℕ → ℕ → ℕ → List ℕ
emit_store t rd rn imm sz = ld_eax t rn ++ add_offset imm ++ store_at_eax t rd sz
