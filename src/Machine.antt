-- ===== src/Machine.antt =====
-- What the machine is set up with: src/memory.rs, src/gdt.rs, and parts of src/boot.rs and
-- src/vcpu.rs.
pub mod Memory
pub mod Gdt
pub mod Boot
pub mod Paging
pub mod Topology
mod Tests
