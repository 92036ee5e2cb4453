-- ===== src/Tests/Decoding.antt =====
-- The 32-bit decoder at concrete inputs.
use lecerf.Base.{true, ◌==◌, if◌then◌else◌, ◌≡◌, arith, [], ◌∷◌}
use lecerf.Cpu.{Cpu}
use lecerf.Bus.{Mmio, mmio}
use lecerf.Decoder.Thumb32.{decode_thumb32, decode}
use lecerf.Decoder.Thumb32.Link.{bl_first, bl_second, is_bl, decode_thumb32-bl}
use lecerf.Decoder.Thumb32.Unreached.{IsShadowed, decode_thumb32-IsShadowed}
use lecerf.Decoder.Thumb32.Fields.{IsDecoding, decode-IsInstruction}
use lecerf.Tests.Core.{cpu, insn}

-- `BL .`, whose displacement is -4.
decode_thumb32-bl_example :
    (is_bl (decode_thumb32 (bl_first 0xFFFFFE) (bl_second 0xFFFFFE) 0x100 insn).op ≡ true)
    × ((decode_thumb32 (bl_first 0xFFFFFE) (bl_second 0xFFFFFE) 0x100 insn).imm ≡ 0xFFFFFFFC)
decode_thumb32-bl_example = decode_thumb32-bl 0xFFFFFE 0x100 insn (omega arith)

decode_thumb32-IsShadowed_example : IsShadowed 0x100 insn
decode_thumb32-IsShadowed_example = decode_thumb32-IsShadowed 0x100 insn

-- A store of one device register that reads as UDIV r0, r1, r2.
abbrev memory : Mmio (Unit {0}) Cpu
memory = record {
  bus_of = λ c. record {
    regs = record { base = 0; size = 0x1000; kind = mmio tt; writable = true; buf = λ j. 0 } ∷ [];
  };
  put_bus = λ b c. c;
  dev_read = λ t off size c. (if off == 0 then 0xFBB1 else 0xF0F2, c);
  dev_write = λ t off v size c. c;
}

decode-IsInstruction_example : IsDecoding memory 0 (decode memory 0 insn cpu)
decode-IsInstruction_example = decode-IsInstruction memory 0 insn cpu
