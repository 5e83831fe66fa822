-- ===== src/Hal.antt =====
-- The hardware abstraction layer, which the firmware calls: include/hal, src/hal.
pub mod I2c
pub mod Uart
pub mod Timer
pub mod Gpio
pub mod Requests
mod Tests
