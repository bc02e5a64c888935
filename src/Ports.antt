-- ===== src/Ports.antt =====
-- Port I/O: src/devices/pio_bus.rs and the registers of src/devices/legacy_io.rs.
pub mod Legacy
pub mod Bus
mod Tests
