-- ===== src/Mmio.antt =====
-- The memory-mapped I/O bus: src/mmio/register.cpp and src/mmio/mmio_bus.cpp.
pub mod Register
pub mod Bus
pub mod Laws
pub mod Decoding
mod Tests
