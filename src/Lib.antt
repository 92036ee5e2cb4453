-- ===== src/Lib.antt =====
-- LECERF, an emulator of ARM Cortex-M boards: a CPU interpreter with a block cache, a bus with
-- memory-mapped peripherals, an interrupt controller, and a time-travel store of snapshots and
-- events. This library models the parts named below and proves of them what is listed under Results.
-- Some parts, such as the entry into and the return from exceptions and the registers of the SCB, the
-- DWT and the STM32, have a model and no theorem there.
--
-- The program. A board has one CPU state (include/core/cpu.h), a bus (src/core/bus.c) whose regions
-- are flat memory or the registers of a device, and the devices of src/periph. The run loop
-- (src/core/run.c) takes instructions one by one through the decoder (src/core/decoder.c) and the
-- executor (src/core/executor.c), or block by block through the cache (src/core/jit.c); after each
-- step it ticks the timers and enters pending exceptions (src/core/nvic.c). The time-travel store
-- (src/core/tt.c) saves and restores whole boards and logs the events from outside.
--
-- The files. A C function keeps its name; a struct is a record without its suffix _t.
--   Base       machine words, Boolean tests, lists with native indices, binary digits
--   Cpu        src/core/cpu.c and the reset of src/core/fpu.c
--   Bus        src/core/bus.c
--   Nvic       the registers and the arbitration of src/core/nvic.c
--   Exception  exception entry, return and faults of src/core/nvic.c
--   Periph     src/periph: systick.c, uart.c, mpu.c, dwt.c, scb.c, stm32.c, eth.c
--   Decoder    include/core/decoder.h and src/core/decoder.c
--   Executor   src/core/executor.c
--   Codegen    src/core/codegen.c: each emitter as the bytes it emits
--   X86        the x86-64 instructions of the data processing and the branches, by their encoding
--              (not of the repository; what the bytes of src/core/codegen.c mean)
--   Jit        src/core/jit.c
--   Run        the context-threaded loop of src/core/run.c
--   Tt         the log, the checksum, the snapshots, the index, the record hooks and the replay of
--              src/core/tt.c, with run_until_cycle of src/core/run.c
--   Tests      the theorems at concrete inputs
--
-- Conventions. Numbers are native, and a 32-bit operation writes out its wrap-around. Arrays that
-- the code indexes within their bounds by a mask or a test are functions; the others are lists, and
-- a read out of bounds is a missing result. A state that device callbacks can change is passed
-- through, and the callbacks are arguments. A C result false or -1 is false or none. The registers of
-- the FPU are a function of their number too, although the code does not keep the numbers of a list of
-- them below 32; the arithmetic of float is an argument.
--
-- Bounds and fuel. A replay takes fuel for each cycle up to its target, and a replay that needs more,
-- as one whose runs move the cycle counter back may, ends in a result of its own. The tick takes fuel for each cycle, the binary searches for each
-- entry, the folding of a checksum for each round of a 32-bit sum, the arbitration and CLZ for the 32
-- digits of a word, and a chain of blocks and a run for each step they may take: each round of
-- these uses up one at least, so the fuel is enough, and the theorems on these functions hold of the loops run to
-- their end.
--
-- A list of x86-64 instructions is run with fuel for each instruction, and the theorems on it give the
-- number that is enough.
--
-- Not modelled: the run of native loads, stores and stack code, which call back into the bus (the
-- cache takes the run of a thunk as an argument), the debugger's socket protocol and its copy of the
-- run loop, files, prints, and the assembly of boards from their parts. A null pointer is modelled
-- where a definition takes an Option: the peripherals of a replay are present.
pub mod Base
pub mod Cpu
pub mod Bus
pub mod Nvic
pub mod Exception
pub mod Tt
pub mod Periph
pub mod Decoder
pub mod Executor
pub mod Codegen
pub mod X86
pub mod Jit
pub mod Run
pub mod Tests
