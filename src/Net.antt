-- ===== src/Net.antt =====
-- The network device: src/devices/virtio_net.rs.
pub mod State
pub mod Tx
pub mod Rx
pub mod Effects
pub mod Sent
pub mod Flagged
pub mod Received
pub mod Given
pub mod Tests
