-- ===== src/Bsp.antt =====
-- The board support of rtos/bsp.
pub mod Board
pub mod Uart
pub mod Hooks
pub mod Libc
mod Tests
