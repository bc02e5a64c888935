-- ===== src/Ports/Tests.antt =====
-- A console without a state, and what the theorems say of concrete bytes.
use kitsune.Base.{ℕ, ◌/◌, ◌%◌, ◌≡◌, ◌↔◌, true, [], ◌∷◌, arith}
use kitsune.Ports.Legacy.{new, shutdown, bus_write, sleep_control_port, sleep_typ_s5}
use kitsune.Ports.Legacy.Power.{bus_write-shutdown}
use kitsune.Ports.Bus.{SerialOps, PioBus}

abbrev port_of_s5 : ℕ
port_of_s5 = 0x600

abbrev s5_byte : ℕ
s5_byte = 0x34

bus_write-shutdown_example : ((bus_write new port_of_s5 (s5_byte ∷ [])).0 ≡ shutdown) ↔ (
    (port_of_s5 ≡ sleep_control_port)
    × ((s5_byte / 32) % 2 ≡ 1)
    × ((s5_byte / 4) % 8 ≡ sleep_typ_s5))
bus_write-shutdown_example = bus_write-shutdown new port_of_s5 s5_byte [] (omega arith)

abbrev silent : SerialOps (Unit {0})
silent = record { bus_read = λ s port out. (out, s); bus_write = λ s port bytes. (true, s) }

abbrev bus : PioBus (Unit {0})
bus = record { serial = tt; legacy = new }
