-- ===== src/Tt.antt =====
-- Time travel of include/core/tt.h and src/core/tt.c: the event log, the snapshots with their
-- index and checksum, and the way back to a cycle.
pub mod Log
pub mod Checksum
pub mod Index
pub mod Snapshot
pub mod Record
pub mod Replay
