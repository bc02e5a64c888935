-- ===== src/Virtio/Mmio/Negotiation.antt =====
-- Features and status of src/devices/virtio_mmio.rs.
use kitsune.Base.{
  ℕ, ◌+◌, ◌*◌, ◌/◌, ◌%◌, ◌^◌, ◌<◌, ◌≡◌, ◌≢◌, refl, Bool, true, false, ◌==◌, arith, bit_and, bit_or,
  u32_mod, inl, inr, Bool-cases,
}
use kitsune.Base.Bits.{scan, scan-holds}
use kitsune.Virtio.Ring.{QueueOps}
use kitsune.Virtio.Mmio.{
  VirtioMmio, features_ok, failed, bit_not, negotiated, is_refused, write_status, write_reg, reset,
  reg_status, reg_driver_features, reg_driver_features_sel, set_driver_features,
}

-- Whether the status that a refusal leaves of a byte is without FEATURES_OK.
is_cleared : ℕ → Bool
is_cleared s = bit_and (bit_or (bit_and s (bit_not 8 features_ok)) failed) features_ok == 0

cleared_table : scan is_cleared 256 ≡ true
unfolding scan is_cleared
cleared_table = refl

refused_status : (s : ℕ) → s < 256 → is_cleared s ≡ true
refused_status = scan-holds is_cleared 256 cleared_table

negotiated-accepted :
    (refused : Bool) (s : ℕ)
    → s < 256
    → bit_and (negotiated refused s) features_ok ≢ 0
    → refused ≡ false
unfolding negotiated is_cleared
negotiated-accepted false s b k = refl
negotiated-accepted true s b k = ground (arith, refused_status s b)

accepted :
    (driver device : ℕ)
    → is_refused driver device ≡ false
    → (bit_and driver (bit_not 64 device) ≡ 0) × ((driver / 2 ^ 32) % 2 ≡ 1)
unfolding is_refused
accepted driver device e = ground arith

-- If the guest's write to Status leaves FEATURES_OK set, then the driver's features are among the
-- device's, and VIRTIO_F_VERSION_1 is one of them.
pub write_reg-accepted :
    {Q Mem : Type 0} (ops : QueueOps Q Mem) (t : VirtioMmio Q) (mem : Mem) (value : ℕ)
    → bit_and (write_reg ops t mem reg_status value).1.status features_ok ≢ 0
    → (bit_and t.driver_features (bit_not 64 t.device_features) ≡ 0)
      × ((t.driver_features / 2 ^ 32) % 2 ≡ 1)
unfolding write_reg write_status reset
write_reg-accepted ops t mem value k =
    let refused = is_refused t.driver_features t.device_features in
    accepted t.driver_features t.device_features (elim (Bool-cases (value == 0)) [
      | inl none_set ↦ absurd (rw none_set at k refl)
      | inr some_set ↦ negotiated-accepted refused (value % 2 ^ 8) (omega arith) (rw some_set at k)
    ])

-- The two words of the driver's features, written one after the other, low word first, make up the
-- features that the transport holds, whatever it held before.
pub write_reg-features :
    {Q Mem : Type 0} (ops : QueueOps Q Mem) (t : VirtioMmio Q) (mem : Mem) (low high : ℕ)
    → low < u32_mod
    → high < u32_mod
    → let s = (write_reg ops t mem reg_driver_features_sel 0).1 in
      let s = (write_reg ops s mem reg_driver_features low).1 in
      let s = (write_reg ops s mem reg_driver_features_sel 1).1 in
      (write_reg ops s mem reg_driver_features high).1.driver_features ≡ low + high * u32_mod
unfolding write_reg set_driver_features
write_reg-features ops t mem low high a b = omega arith
