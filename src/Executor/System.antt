-- ===== src/Executor/System.antt =====
-- The special registers in `execute`: CPS, IT, MRS and MSR. `none` is an opcode of another group.
use lecerf.Base.{
  ℕ, ◌*◌, bit_and, bit_or, ◌==◌, ◌&&◌, ◌||◌, not, ltb, if◌then◌else◌, ◌>>>◌, not32, has, u8, Option,
  none, some,
}
use lecerf.Cpu.{Cpu, set_reg, reg_sp}
use lecerf.Exception.{is_thread}
use lecerf.Decoder.Insn.{
  Insn, Opcode, op_cps, op_nop, op_sev, op_t32_it, op_t32_mrs, op_t32_msr, op_t32_nop, op_wfe,
  op_wfi, op_yield,
}

-- CPS: bit 2 of the immediate disables, bits 1 and 0 choose PRIMASK and FAULTMASK.
unfoldable pub cps : ℕ → Cpu → Cpu
cps imm c =
    let v = if bit_and (imm >>> 2) 1 == 0 then 0 else 1 in
    let c' = if bit_and (imm >>> 1) 1 == 0 then c else record c { primask = v } in
    if bit_and imm 1 == 0 then c' else record c' { faultmask = v }

-- MRS: the register that `sysm` names; an unknown one reads as 0.
unfoldable pub mrs : ℕ → Cpu → ℕ
mrs sysm c =
    if (sysm == 0) || (sysm == 3)
    then bit_or (bit_or c.apsr c.ipsr) c.epsr
    else if sysm == 1
    then c.ipsr
    else if sysm == 2
    then c.epsr
    else if sysm == 5
    then c.ipsr
    else if sysm == 8
    then c.msp
    else if sysm == 9
    then c.psp
    else if sysm == 16
    then c.primask
    else if sysm == 17
    then c.basepri
    else if sysm == 19
    then c.faultmask
    else if sysm == 20
    then c.control
    else 0

-- MSR of CONTROL: in thread mode a change of SPSEL exchanges the banked stack pointers.
unfoldable pub write_control : ℕ → Cpu → Cpu
write_control v c =
    let old_spsel = bit_and c.control 2 in
    let c' = record c { control = bit_and v 3 } in
    let new_spsel = bit_and c'.control 2 in
    if is_thread c.mode && not (old_spsel == new_spsel)
    then if new_spsel == 0
      then set_reg (record c' { psp = c.r reg_sp }) reg_sp c.msp
      else set_reg (record c' { msp = c.r reg_sp }) reg_sp c.psp
    else c'

-- MSR of MSP and of PSP: SP follows where it is the one in use.
abbrev pub write_msp : ℕ → Cpu → Cpu
write_msp v c =
    let c' = record c { msp = v } in
    if is_thread c.mode && not (has c.control 2) then set_reg c' reg_sp v else c'

abbrev pub write_psp : ℕ → Cpu → Cpu
write_psp v c =
    let c' = record c { psp = v } in
    if is_thread c.mode && has c.control 2 then set_reg c' reg_sp v else c'

-- MSR; `mask` is the field `rs` of the instruction.
unfoldable pub msr : ℕ → ℕ → ℕ → Cpu → Cpu
unfolding write_control
msr sysm mask v c =
    if ltb sysm 4
    then if has mask 2
      then record c { apsr = bit_or (bit_and c.apsr (not32 0xF8000000)) (bit_and v 0xF8000000) }
      else c
    else if sysm == 8
    then write_msp (bit_and v (not32 3)) c
    else if sysm == 9
    then write_psp (bit_and v (not32 3)) c
    else if sysm == 16
    then record c { primask = bit_and v 1 }
    else if sysm == 17
    then record c { basepri = bit_and v 0xFF }
    else if sysm == 19
    then record c { faultmask = bit_and v 1 }
    else if sysm == 20
    then write_control v c
    else c

unfoldable pub system : Opcode → Insn → Cpu → Option Cpu
unfolding cps mrs msr
system op_nop i c = some c
system op_yield i c = some c
system op_wfe i c = some c
system op_wfi i c = some c
system op_sev i c = some c
system op_t32_nop i c = some c
system op_cps i c = some (cps i.imm c)
system op_t32_it i c = some (record c { itstate = u8 (bit_or (i.it_first * 16) i.it_mask) })
system op_t32_mrs i c = some (set_reg c i.rd (mrs i.imm c))
system op_t32_msr i c = some (msr i.imm i.rs (c.r i.rn) c)
system _ i c = none
