-- ===== src/Codegen.antt =====
-- The code generator of src/core/codegen.c: x86-64 code for a block of instructions.
pub mod Emit
pub mod EmitStack
pub mod Flags
pub mod Memory
pub mod Stack
pub mod Multiple
pub mod Op
pub mod Block
pub mod Paths
pub mod Sizes
pub mod OpSizes
pub mod Fits
