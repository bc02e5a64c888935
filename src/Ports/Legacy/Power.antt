-- ===== src/Ports/Legacy/Power.antt =====
-- When a write to a port ends the run: `bus_write` of src/devices/legacy_io.rs.
use kitsune.Base.{
  ℕ, ◌*◌, ◌/◌, ◌%◌, ◌<◌, ◌≡◌, ◌⊎◌, ◌↔◌, refl, Bool, true, ◌&&◌, List, ◌∷◌, ◌==◌, if◌then◌else◌,
  arith, bit_and, inl, inr, length, replicate,
}
use kitsune.Base.Bits.{scan, scan-holds}
use kitsune.Ports.Legacy.{
  LegacyIo, nothing, reset, shutdown, bus_write, bus_read, register, sleep_control_action,
  i8042_cmd_port, i8042_cmd_reset_cpu, cf9_port, cf9_rst_cpu, sleep_control_port, sleep_typ_s5,
  sleep_type_mask, sleep_enable,
}

-- The masks of a byte's bits as arithmetic.
masks_agree : ℕ → Bool
masks_agree v =
    (bit_and v sleep_enable == ((v / 32) % 2) * 32)
    && (bit_and v sleep_type_mask / 4 == (v / 4) % 8)
    && (bit_and v cf9_rst_cpu == ((v / 4) % 2) * 4)

masks_table : scan masks_agree 256 ≡ true
unfolding scan masks_agree
masks_table = refl

masks :
    (v : ℕ)
    → v < 256
    → (bit_and v sleep_enable ≡ ((v / 32) % 2) * 32)
      × (bit_and v sleep_type_mask / 4 ≡ (v / 4) % 8)
      × (bit_and v cf9_rst_cpu ≡ ((v / 4) % 2) * 4)
unfolding masks_agree
masks v b =
    let t : masks_agree v ≡ true = scan-holds masks_agree 256 masks_table v b in ground arith

sleep_control_action_cases :
    (v : ℕ)
    → v < 256
    → sleep_control_action v
      ≡ (if ((v / 32) % 2 == 1) && ((v / 4) % 8 == sleep_typ_s5) then shutdown else nothing)
unfolding sleep_control_action
sleep_control_action_cases v b =
    let (enable, kind, rst) = masks v b in rw (enable, kind) (ground arith)

-- A write of a byte asks for the shutdown exactly if it goes to the sleep control register with bit
-- 5, SLP_EN, set and the sleep type of S5 in bits 2 to 4.
pub bus_write-shutdown :
    (io : LegacyIo) (port v : ℕ) (rest : List ℕ)
    → v < 256
    → ((bus_write io port (v ∷ rest)).0 ≡ shutdown)
      ↔ ((port ≡ sleep_control_port) × ((v / 32) % 2 ≡ 1) × ((v / 4) % 8 ≡ sleep_typ_s5))
unfolding bus_write
bus_write-shutdown io port v rest b = ground (arith, sleep_control_action_cases v b)

-- A write of a byte asks for a reset exactly if it is the command 0xfe to the keyboard controller,
-- or goes to the port CF9 with bit 2, RST_CPU, set.
pub bus_write-reset :
    (io : LegacyIo) (port v : ℕ) (rest : List ℕ)
    → v < 256
    → ((bus_write io port (v ∷ rest)).0 ≡ reset) ↔ (
        ((port ≡ i8042_cmd_port) × (v ≡ i8042_cmd_reset_cpu))
        ⊎ ((port ≡ cf9_port) × ((v / 4) % 2 ≡ 1)))
unfolding bus_write
bus_write-reset io port v rest b =
    let (enable, kind, rst) = masks v b in
    let action = sleep_control_action_cases v b in ground arith

-- The port CF9 and the sleep control register read back, in the first byte, the byte that was written
-- last; the other bytes of the buffer read as zeros.
pub bus_read-bus_write :
    (io : LegacyIo) (port v c : ℕ) (rest cs : List ℕ)
    → (port ≡ cf9_port) ⊎ (port ≡ sleep_control_port)
    → bus_read (bus_write io port (v ∷ rest)).1 port (c ∷ cs) ≡ v ∷ replicate (length cs) 0
unfolding bus_read register bus_write
bus_read-bus_write io port v c rest cs (inl e) = rw e
bus_read-bus_write io port v c rest cs (inr e) = rw e
