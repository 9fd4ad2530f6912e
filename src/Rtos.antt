-- ===== src/Rtos.antt =====
-- The FreeRTOS applications of rtos/app, for any kernel that keeps the documented behaviour of the
-- calls that they make.
pub mod Kernel
pub mod Demo
pub mod Timing
pub mod Stress
pub mod Interrupt
mod Plain
mod Tests
