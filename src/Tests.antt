-- ===== src/Tests.antt =====
-- Runs of the theorems at concrete inputs.
mod Core
mod Devices
mod Replay
mod Rewind
mod Running
mod Execution
mod Decoding
mod Native
