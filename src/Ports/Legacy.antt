-- ===== src/Ports/Legacy.antt =====
-- src/devices/legacy_io.rs: the keyboard controller, the reset register and the ACPI sleep registers.
-- A buffer is its bytes; a byte is a number below 256.
pub mod Power
use kitsune.Base.{
  ℕ, ◌+◌, ◌-◌, ◌*◌, ◌/◌, Bool, true, false, not, ◌&&◌, ◌||◌, List, [], ◌∷◌, ◌==◌, if◌then◌else◌,
  length, replicate, bit_and,
}

pub data PowerAction : Type 0 where
  nothing reset shutdown : PowerAction

abbrev pub i8042_data_port : ℕ
i8042_data_port = 0x60

abbrev pub i8042_cmd_port : ℕ
i8042_cmd_port = 0x64

abbrev pub i8042_cmd_reset_cpu : ℕ
i8042_cmd_reset_cpu = 0xfe

abbrev pub cf9_port : ℕ
cf9_port = 0xcf9

abbrev pub cf9_rst_cpu : ℕ
cf9_rst_cpu = 0x04

abbrev pub sleep_control_port : ℕ
sleep_control_port = 0x600

abbrev pub sleep_status_port : ℕ
sleep_status_port = 0x601

abbrev pub sleep_typ_s5 : ℕ
sleep_typ_s5 = 5

abbrev pub sleep_type_mask : ℕ
sleep_type_mask = 0x1c

abbrev pub sleep_enable : ℕ
sleep_enable = 0x20

abbrev pub sleep_wake_status : ℕ
sleep_wake_status = 0x80

-- `LegacyIo`
pub record LegacyIo : Type 0 where
  pub i8042_status : ℕ
  pub cf9 : ℕ
  pub sleep_control : ℕ
  pub sleep_status : ℕ

-- `LegacyIo::new`
abbrev pub new : LegacyIo
new = record { i8042_status = 0x10; cf9 = 0; sleep_control = 0; sleep_status = 0 }

-- `handles_port`
unfoldable pub handles_port : ℕ → Bool
handles_port port =
    (port == i8042_data_port)
    || (port == i8042_cmd_port)
    || (port == cf9_port)
    || (port == sleep_control_port)
    || (port == sleep_status_port)

-- The register that `bus_read` reads.
unfoldable pub register : LegacyIo → ℕ → ℕ
register io port =
    if port == i8042_cmd_port
    then io.i8042_status
    else if port == i8042_data_port
    then 0
    else if port == cf9_port
    then io.cf9
    else if port == sleep_control_port
    then io.sleep_control
    else if port == sleep_status_port
    then io.sleep_status
    else 0xff

-- `bus_read` into a buffer.
unfoldable pub bus_read : LegacyIo → ℕ → List ℕ → List ℕ
bus_read io port [] = []
bus_read io port (b ∷ bs) = register io port ∷ replicate (length bs) 0

-- `sleep_control_action`: `>> 2` is the quotient by 4.
unfoldable pub sleep_control_action : ℕ → PowerAction
sleep_control_action value =
    if bit_and value sleep_enable == 0
    then nothing
    else if bit_and value sleep_type_mask / 4 == sleep_typ_s5
    then shutdown
    else nothing

-- `bus_write`
unfoldable pub bus_write : LegacyIo → ℕ → List ℕ → PowerAction × LegacyIo
bus_write io port [] = (nothing, io)
bus_write io port (value ∷ rest) =
    if (port == i8042_cmd_port) && (value == i8042_cmd_reset_cpu)
    then (reset, io)
    else if (port == i8042_cmd_port) || (port == i8042_data_port)
    then (nothing, io)
    else if port == cf9_port
    then (
      (if not (bit_and value cf9_rst_cpu == 0) then reset else nothing),
      record io { cf9 = value },
    )
    else if port == sleep_control_port
    then (sleep_control_action value, record io { sleep_control = value })
    else if port == sleep_status_port
    then (
      nothing,
      record io { sleep_status = bit_and io.sleep_status (255 - bit_and value sleep_wake_status) },
    )
    else (nothing, io)
