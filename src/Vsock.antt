-- ===== src/Vsock.antt =====
-- Virtio-vsock: src/devices/vsock_mux.rs, and src/devices/virtio_vsock.rs (Device).
pub mod Flow
pub mod Packet
pub mod Host
pub mod State
pub mod Queue
pub mod Stream
pub mod Guest
pub mod Accept
pub mod Invariant
pub mod Reach
pub mod Device
mod Tests
