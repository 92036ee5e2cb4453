-- ===== src/X86.antt =====
-- The instructions of x86-64 that the flags, the data processing and the branches of the code
-- generator use, by their encoding: the operands of an opcode come from the fields of its ModRM and
-- REX bytes. Memory is the CPU at r15 + disp32.
pub mod Decode
pub mod Word
pub mod Reach
pub mod Condition
pub mod Branch
pub mod Nzcv
pub mod Apsr
pub mod Alu
pub mod Code
pub mod Ops
pub mod Pieces
pub mod DataProcessing
pub mod Block
use lecerf.Base.{
  ℕ, zero, suc, ◌+◌, ◌-◌, ◌*◌, ◌/◌, ◌%◌, ◌^◌, bit_and, bit_or, bit_xor, Bool, true, false, not,
  ◌==◌, ◌&&◌, ◌||◌, same, leb, ltb, if◌then◌else◌, of_bool, u32, add32, sub32, shl32, ◌>>>◌, has,
  update, Option, none, some, List, [], ◌∷◌, drop,
}
use lecerf.Cpu.{Cpu, set_reg}
use lecerf.Codegen.Emit.{Target}

-- The registers by their numbers, the flags, and the CPU.
pub record Machine : Type 0 where
  pub reg : ℕ → ℕ
  pub sf : Bool
  pub zf : Bool
  pub af : Bool
  pub pf : Bool
  pub cf : Bool
  pub of : Bool
  pub cpu : Cpu

-- A little-endian word.
abbrev pub word_of : ℕ → ℕ → ℕ → ℕ → ℕ
word_of a b c d = a + b * 2 ^ 8 + c * 2 ^ 16 + d * 2 ^ 24

-- What follows an instruction with a 32-bit field, given the field and the rest.
abbrev pub field32 : {A : Type 0} → List ℕ → (ℕ → List ℕ → Option A) → Option A
field32 (a ∷ b ∷ c ∷ d ∷ rest) f = f (word_of a b c d) rest
field32 _ f = none

-- The same for an 8-bit field.
abbrev pub field8 : {A : Type 0} → List ℕ → (ℕ → List ℕ → Option A) → Option A
field8 (a ∷ rest) f = f a rest
field8 [] f = none

module _ (t : Target) where
  -- The members of the CPU that code reads and writes.
  unfoldable pub read32 : ℕ → Cpu → ℕ
  read32 d c =
      if leb t.r_off d && ltb d (t.r_off + 64)
      then c.r ((d - t.r_off) / 4)
      else if d == t.apsr_off
      then c.apsr
      else 0

  unfoldable pub write32 : ℕ → ℕ → Cpu → Cpu
  write32 d v c =
      if leb t.r_off d && ltb d (t.r_off + 64)
      then set_reg c ((d - t.r_off) / 4) v
      else if d == t.apsr_off
      then record c { apsr = v }
      else c

  unfoldable pub read8 : ℕ → Cpu → ℕ
  read8 d c =
      if leb t.apsr_off d && ltb d (t.apsr_off + 4)
      then (c.apsr >>> (8 * (d - t.apsr_off))) % 2 ^ 8
      else 0

-- A register of a byte: the second byte of the first four registers for 4 to 7 without REX.
unfoldable pub get8 : Bool → ℕ → Machine → ℕ
get8 rex n x = if rex || ltb n 4 then x.reg n % 2 ^ 8 else (x.reg (n - 4) >>> 8) % 2 ^ 8

unfoldable pub put8 : Bool → ℕ → ℕ → Machine → Machine
put8 rex n v x =
    if rex || ltb n 4
    then record x { reg = update x.reg n (x.reg n / 2 ^ 8 * 2 ^ 8 + v) }
    else (let old = x.reg (n - 4) in
        record x { reg = update x.reg (n - 4) (old / 2 ^ 16 * 2 ^ 16 + v * 2 ^ 8 + old % 2 ^ 8) })

abbrev pub put : ℕ → ℕ → Machine → Machine
put n v x = record x { reg = update x.reg n v }

-- The flags of a result of a logical operation; the carries are cleared.
abbrev pub logic_flags : ℕ → ℕ → Machine → Machine
logic_flags top r x = record x { sf = has r top; zf = r == 0; cf = false; of = false }

-- The flags of a sum and of a difference of two words.
abbrev pub flags_of_sum : ℕ → ℕ → Machine → Machine
flags_of_sum a b x =
    let r = add32 a b in
    record x {
      sf = has r 0x80000000;
      zf = r == 0;
      cf = leb (2 ^ 32) (a + b);
      of =
          same (has a 0x80000000) (has b 0x80000000)
          && not (same (has r 0x80000000) (has a 0x80000000));
    }

abbrev pub flags_of_difference : ℕ → ℕ → Machine → Machine
flags_of_difference a b x =
    let r = sub32 a b in
    record x {
      sf = has r 0x80000000;
      zf = r == 0;
      cf = ltb a b;
      of =
          not (same (has a 0x80000000) (has b 0x80000000))
          && not (same (has r 0x80000000) (has a 0x80000000));
    }

-- The operation `k` of 0 to 7 (add, or, adc, sbb, and, sub, xor, cmp) on words, with its flags.
unfoldable pub group1 : ℕ → ℕ → ℕ → Machine → Option (ℕ × Machine)
group1 k a b x =
    if k == 0
    then some (add32 a b, flags_of_sum a b x)
    else if k == 1
    then some (bit_or a b, logic_flags 0x80000000 (bit_or a b) x)
    else if k == 4
    then some (bit_and a b, logic_flags 0x80000000 (bit_and a b) x)
    else if k == 5
    then some (sub32 a b, flags_of_difference a b x)
    else if k == 6
    then some (bit_xor a b, logic_flags 0x80000000 (bit_xor a b) x)
    else none

-- The byte of the flags: SF, ZF, AF, PF and CF.
unfoldable pub flag_byte : Machine → ℕ
flag_byte x =
    of_bool x.sf * 128 + of_bool x.zf * 64 + of_bool x.af * 16 + of_bool x.pf * 4 + 2 + of_bool x.cf

-- The shifts by a constant, `k` is 4 for shl and 5 for shr; their flags.
unfoldable pub shift32 : ℕ → ℕ → ℕ → Option ℕ
shift32 k v n = if k == 4 then some (shl32 v n) else if k == 5 then some (v >>> n) else none

abbrev pub shift_flags : ℕ → ℕ → Machine → Machine
shift_flags top r x = record x { sf = has r top; zf = r == 0 }

-- The operation `k` (4 and, 6 xor, 7 cmp) of bytes: the result that is kept, and the flags.
unfoldable pub group8 : ℕ → ℕ → ℕ → Machine → Option (ℕ × Machine)
group8 k a b x =
    let d = (a + 2 ^ 8 - b) % 2 ^ 8 in
    if k == 4
    then some (bit_and a b, logic_flags 0x80 (bit_and a b) x)
    else if k == 6
    then some (bit_xor a b, logic_flags 0x80 (bit_xor a b) x)
    else if k == 7
    then some (a, record x { sf = has d 0x80; zf = d == 0; cf = ltb a b })
    else none
