-- ===== src/Console.antt =====
-- The serial console: src/devices/serial.rs.
pub mod Uart
pub mod Probe
pub mod Serial
pub mod Order
pub mod Drain
pub mod Ends
pub mod Worker
pub mod Tests
