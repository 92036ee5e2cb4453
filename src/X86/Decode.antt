-- ===== src/X86/Decode.antt =====
-- The decoding of the x86-64 instructions, one instruction and several.
use lecerf.Base.{
  ℕ, zero, suc, ◌+◌, ◌*◌, ◌/◌, ◌%◌, ◌^◌, bit_and, Bool, true, false, not, ◌==◌, ◌&&◌, ◌||◌, ltb,
  if◌then◌else◌, of_bool, Option, none, some, List, [], ◌∷◌, drop,
}
use lecerf.Codegen.Emit.{Target}
use lecerf.X86.{
  Machine, field32, field8, read32, write32, read8, get8, put8, put, logic_flags, group1, flag_byte,
  shift32, shift_flags, group8,
}

-- The parts of a ModRM byte.
abbrev mode : ℕ → ℕ
mode m = m / 64

abbrev reg_field : ℕ → ℕ
reg_field m = m / 8 % 8

abbrev rm_field : ℕ → ℕ
rm_field m = m % 8

module _ (t : Target) where
  -- An operand in a register, or the 32-bit displacement of one at r15.
  abbrev operand :
      {A : Type 0} → ℕ → ℕ → List ℕ → (ℕ → Option A) → (ℕ → List ℕ → Option A) → Option A
  operand b m rest in_reg in_memory =
      if mode m == 3
      then in_reg (rm_field m + 8 * b)
      else if (mode m == 2) && (rm_field m + 8 * b == 15)
      then field32 rest in_memory
      else none

  -- The result of `group1` or `group8` into register `n`.
  abbrev into : ℕ → List ℕ → Option (ℕ × Machine) → Option (List ℕ × Machine)
  into n rest none = none
  into n rest (some (v, x)) = some (rest, put n v x)

  abbrev into8 : Bool → ℕ → List ℕ → Option (ℕ × Machine) → Option (List ℕ × Machine)
  into8 rex n rest none = none
  into8 rex n rest (some (v, x)) = some (rest, put8 rex n v x)

  -- The opcodes with a ModRM byte `m`; `r` and `b` are the bits of REX.
  with_modrm : Bool → ℕ → ℕ → ℕ → ℕ → List ℕ → Machine → Option (List ℕ × Machine)
  unfolding read32 write32 read8 get8 put8 group1 group8 shift32
  with_modrm rex r b op m rest x =
      let g = reg_field m + 8 * r in
      let e = rm_field m + 8 * b in
      if op == 0x89
      then operand b m rest (λ n. some (rest, put n (x.reg g) x))
          (λ d rest'. some (rest', record x { cpu = write32 t d (x.reg g) x.cpu }))
      else if op == 0x8B
      then operand b m rest (λ n. some (rest, put g (x.reg n) x))
          (λ d rest'. some (rest', put g (read32 t d x.cpu) x))
      else if op == 0x01
      then into e rest (group1 0 (x.reg e) (x.reg g) x)
      else if op == 0x09
      then into e rest (group1 1 (x.reg e) (x.reg g) x)
      else if op == 0x21
      then into e rest (group1 4 (x.reg e) (x.reg g) x)
      else if op == 0x29
      then into e rest (group1 5 (x.reg e) (x.reg g) x)
      else if op == 0x31
      then into e rest (group1 6 (x.reg e) (x.reg g) x)
      else if op == 0x85
      then some (rest, logic_flags 0x80000000 (bit_and (x.reg e) (x.reg g)) x)
      else if op == 0x81
      then field32 rest (λ v rest'. into e rest' (group1 (reg_field m) (x.reg e) v x))
      else if op == 0xC7
      then operand b m rest (λ n. none)
          (λ d rest'.
            field32 rest' (λ v rest''. some (rest'', record x { cpu = write32 t d v x.cpu })))
      else if op == 0xC1
      then field8 rest (λ n rest'. elim (shift32 (reg_field m) (x.reg e) n) [
        | none ↦ none
        | some v ↦ some (rest', put e v (shift_flags 0x80000000 v x))
      ])
      else if op == 0xC0
      then field8 rest (λ n rest'. elim (shift32 (reg_field m) (get8 rex e x) n) [
        | none ↦ none
        | some v ↦ some (rest', put8 rex e (v % 2 ^ 8) (shift_flags 0x80 (v % 2 ^ 8) x))
      ])
      else if op == 0x8A
      then operand b m rest (λ n. some (rest, put8 rex g (get8 rex n x) x))
          (λ d rest'. some (rest', put8 rex g (read8 t d x.cpu) x))
      else if op == 0x88
      then some (rest, put8 rex e (get8 rex g x) x)
      else if op == 0x30
      then into8 rex e rest (group8 6 (get8 rex e x) (get8 rex g x) x)
      else none

  -- The opcodes that begin with 0x0F: seto, movzx, jz and jnz.
  two_byte : Bool → ℕ → ℕ → ℕ → List ℕ → Machine → Option (List ℕ × Machine)
  unfolding get8 put8
  two_byte rex r b op rest x =
      if op == 0x90
      then field8 rest (λ m rest'. some (rest', put8 rex (rm_field m + 8 * b) (of_bool x.of) x))
      else if op == 0xB6
      then field8 rest
          (λ m rest'. some (rest', put (reg_field m + 8 * r) (get8 rex (rm_field m + 8 * b) x) x))
      else if op == 0x84
      then field32 rest (λ d rest'. some (if x.zf then drop d rest' else rest', x))
      else if op == 0x85
      then field32 rest (λ d rest'. some (if x.zf then rest' else drop d rest', x))
      else none

  -- The opcodes on `eax` and `al`, the flags and the short jump.
  no_modrm : ℕ → List ℕ → Machine → Option (List ℕ × Machine)
  unfolding group1 group8 get8 put8 flag_byte
  no_modrm op rest x =
      if op == 0xB8
      then field32 rest (λ v rest'. some (rest', put 0 v x))
      else if op == 0x05
      then field32 rest (λ v rest'. into 0 rest' (group1 0 (x.reg 0) v x))
      else if op == 0x0D
      then field32 rest (λ v rest'. into 0 rest' (group1 1 (x.reg 0) v x))
      else if op == 0x25
      then field32 rest (λ v rest'. into 0 rest' (group1 4 (x.reg 0) v x))
      else if op == 0x2D
      then field32 rest (λ v rest'. into 0 rest' (group1 5 (x.reg 0) v x))
      else if op == 0x35
      then field32 rest (λ v rest'. into 0 rest' (group1 6 (x.reg 0) v x))
      else if op == 0x9F
      then some (rest, put8 false 4 (flag_byte x) x)
      else if op == 0x24
      then field8 rest (λ v rest'. into8 true 0 rest' (group8 4 (get8 true 0 x) v x))
      else if op == 0x3C
      then field8 rest (λ v rest'. into8 true 0 rest' (group8 7 (get8 true 0 x) v x))
      else if op == 0xA8
      then field8 rest (λ v rest'. some (rest', logic_flags 0x80 (bit_and (get8 true 0 x) v) x))
      else if op == 0xEB
      then field8 rest (λ d rest'. some (drop d rest', x))
      else none

  -- Whether an opcode has a ModRM byte.
  has_modrm : ℕ → Bool
  has_modrm op = not (
      (op == 0xB8)
      || (op == 0x05)
      || (op == 0x0D)
      || (op == 0x25)
      || (op == 0x2D)
      || (op == 0x35)
      || (op == 0x9F)
      || (op == 0x24)
      || (op == 0x3C)
      || (op == 0xA8)
      || (op == 0xEB))

  opcode : Bool → ℕ → ℕ → List ℕ → Machine → Option (List ℕ × Machine)
  unfolding with_modrm two_byte no_modrm has_modrm
  opcode rex r b [] x = none
  opcode rex r b (op ∷ rest) x =
      if op == 0x0F
      then field8 rest (λ op' rest'. two_byte rex r b op' rest' x)
      else if has_modrm op
      then field8 rest (λ m rest'. with_modrm rex r b op m rest' x)
      else no_modrm op rest x

  -- An instruction, after a REX byte of 32-bit operands or without one; jumps go forward.
  unfoldable pub step : List ℕ → Machine → Option (List ℕ × Machine)
  unfolding opcode
  step [] x = none
  step (p ∷ rest) x =
      if (p / 16 == 4) && ltb (p % 16) 8
      then opcode true (p / 4 % 2) (p % 2) rest x
      else opcode false 0 0 (p ∷ rest) x

  -- `n` instructions.
  unfoldable pub run : ℕ → List ℕ → Machine → Option (List ℕ × Machine)
  unfolding step
  run zero code x = some (code, x)
  run (suc n) code x = elim (step code x) [ none ↦ none | some (rest, x') ↦ run n rest x' ]
