-- ===== src/Blk.antt =====
-- The block device: src/devices/virtio_blk.rs.
pub mod Transfer
pub mod Disk
pub mod Request
pub mod Queue
pub mod Spec
pub mod Setup
pub mod Tests
