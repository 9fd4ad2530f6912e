-- ===== src/CoreMark.antt =====
-- CoreMark as it is built here: the checksum of core_util.c, the state machine, the list and the
-- matrix kernels.
pub mod Crc
pub mod State
pub mod Matrix
pub mod ListJoin
pub mod Port
pub mod Driver
pub mod Barebones
pub mod Arguments
mod Tests
