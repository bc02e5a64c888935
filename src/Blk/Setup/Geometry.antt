-- ===== src/Blk/Setup/Geometry.antt =====
-- The size of the disk that src/devices/virtio_blk.rs accepts and what it tells the guest of it.
use kitsune.Base.{
  ℕ, ◌*◌, ◌^◌, ◌≤◌, ◌<◌, ◌≡◌, refl, ◌↔◌, some, length, slice, arith, from_le_bytes,
  from_le_bytes-to_le_bytes,
}
use kitsune.Blk.Disk.{sector_size}
use kitsune.Blk.Setup.{capacity_of, config_space, config_len}

-- An image is accepted exactly if it is whole sectors, at least one, and its capacity is their number.
pub capacity_of-some :
    (len capacity : ℕ)
    → (capacity_of len ≡ some capacity) ↔ ((1 ≤ capacity) × (len ≡ capacity * sector_size))
unfolding capacity_of
capacity_of-some len capacity = (λ e. ground arith, λ e. ground arith)

-- The configuration space has the length of its layout, and its first eight bytes are the capacity.
pub config_space-capacity :
    (capacity : ℕ)
    → capacity < 2 ^ 64
    → (length (config_space capacity) ≡ config_len)
      × (from_le_bytes (slice 0 8 (config_space capacity)) ≡ capacity)
unfolding config_space
config_space-capacity capacity h = (refl, from_le_bytes-to_le_bytes 8 capacity (omega (arith, h)))
