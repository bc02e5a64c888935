-- ===== src/Ports/Bus.antt =====
-- src/devices/pio_bus.rs. The serial console of src/devices/serial.rs is a parameter: its state, and
-- what it does on a read and on a write, which may fail.
use kitsune.Base.{
  ℕ, ◌+◌, ◌≡◌, ◌⊎◌, Bool, true, ◌&&◌, List, leb, ltb, if◌then◌else◌, length, replicate, Option,
  none, some, arith,
}
use kitsune.Ports.Legacy.{LegacyIo, PowerAction, nothing, handles_port}
use kitsune.Ports.Legacy as Legacy

abbrev pub serial_port_base : ℕ
serial_port_base = 0x3f8

abbrev pub serial_port_size : ℕ
serial_port_size = 8

-- `SerialConsole::handles_port`
unfoldable pub is_serial : ℕ → Bool
is_serial port = leb serial_port_base port && ltb port (serial_port_base + serial_port_size)

-- The console's `bus_read` and `bus_write`; a write that fails has no result.
pub record SerialOps (S : Type 0) : Type 0 where
  pub bus_read : S → ℕ → List ℕ → List ℕ × S
  pub bus_write : S → ℕ → List ℕ → Bool × S

-- `PioBus`
pub record PioBus (S : Type 0) : Type 0 where
  pub serial : S
  pub legacy : LegacyIo

module _ {S : Type 0} (ops : SerialOps S) where
  -- `read`
  unfoldable pub read : PioBus S → ℕ → List ℕ → List ℕ × PioBus S
  read bus port out =
      if is_serial port
      then (let (bytes, s) = ops.bus_read bus.serial port out in (bytes, record bus { serial = s }))
      else if handles_port port
      then (Legacy.bus_read bus.legacy port out, bus)
      else (replicate (length out) 0xff, bus)

  -- `write`: no action stands for the error.
  unfoldable pub write : PioBus S → ℕ → List ℕ → Option PowerAction × PioBus S
  write bus port bytes =
      if is_serial port
      then (let (ok, s) = ops.bus_write bus.serial port bytes in
          ((if ok then some nothing else none), record bus { serial = s }))
      else if handles_port port
      then (let (action, io) = Legacy.bus_write bus.legacy port bytes in
          (some action, record bus { legacy = io }))
      else (some nothing, bus)

  -- A write either goes to a legacy port and leaves the console as it is, or leaves the legacy registers
  -- as they are and asks for no power action, or fails.
  pub write-legacy :
      (bus : PioBus S) (port : ℕ) (bytes : List ℕ)
      → ((handles_port port ≡ true) × ((write bus port bytes).1.serial ≡ bus.serial))
        ⊎ (((write bus port bytes).1.legacy ≡ bus.legacy)
            × (((write bus port bytes).0 ≡ some nothing) ⊎ ((write bus port bytes).0 ≡ none)))
  unfolding write is_serial handles_port
  write-legacy bus port bytes = ground arith
