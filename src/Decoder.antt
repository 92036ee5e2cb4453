-- ===== src/Decoder.antt =====
-- include/core/decoder.h and the 16-bit half of src/core/decoder.c.
pub mod Insn
pub mod Thumb16
pub mod Expand
pub mod Thumb32
