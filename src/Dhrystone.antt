-- ===== src/Dhrystone.antt =====
-- The Dhrystone benchmark of dhrystone/src.
pub mod Globals
pub mod Helpers
pub mod Procedures
pub mod Main
pub mod Port
pub mod Score
mod Tests
