-- ===== src/Console/Uart.antt =====
-- What src/devices/serial.rs calls of `Serial` of the crate `vm_superio`. The device is a parameter.
use kitsune.Base.{ℕ, ◌+◌, ◌≤◌, Option, some, ◌≡◌, List, ◌++◌, length}

-- `enqueue` is `enqueue_raw_bytes`, with no number for an error; `store` is a `write` that succeeds.
pub record UartOps (U : Type 0) : Type 0 where
  pub fifo_capacity : U → ℕ
  pub enqueue : List ℕ → U → Option ℕ × U
  pub store : ℕ → ℕ → U → U
  pub load : ℕ → U → ℕ × U

-- Out of loopback mode, `enqueue_raw_bytes` puts bytes that there is room for behind those that the
-- guest has yet to read, and says how many they were.
pub record UartLaws {U : Type 0} (ops : UartOps U) (fifo : U → List ℕ) : Type 0 where
  pub enqueue_all :
      (bytes : List ℕ) (u : U) (n : ℕ)
      → length bytes ≤ ops.fifo_capacity u
      → (ops.enqueue bytes u).0 ≡ some n
      → (n ≡ length bytes)
        × (fifo (ops.enqueue bytes u).1 ≡ fifo u ++ bytes)
        × (ops.fifo_capacity (ops.enqueue bytes u).1 + n ≡ ops.fifo_capacity u)
