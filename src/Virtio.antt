-- ===== src/Virtio.antt =====
-- The virtio devices' shared parts: src/devices/virtio_mmio.rs and src/devices/virtio_dev.rs.
pub mod Ring
pub mod Mmio
pub mod Slot
mod Tests
