-- ===== src/Console/Serial.antt =====
-- `SerialConsole` of src/devices/serial.rs, with the UART as a parameter and the answers of the host as
-- lists that the calls use up in order.
use kitsune.Base.{
  ℕ, zero, suc, ◌+◌, ◌-◌, min, Bool, true, false, Option, none, some, List, [], ◌∷◌, ◌++◌, ◌==◌,
  ltb, if◌then◌else◌, length, is_empty, take, drop,
}
use kitsune.Console.Uart.{UartOps}
use kitsune.Console.Probe.{DsrProbe, next_probe}

-- `SERIAL_PORT_BASE`
abbrev pub serial_port_base : ℕ
serial_port_base = 0x3f8

abbrev pub uart_fifo_size : ℕ
uart_fifo_size = 0x40

-- How a `read` of stdin ends.
pub data StdinAnswer : Type 0 where
  input : ℕ → List ℕ → StdinAnswer
  eof would_block eintr read_fails : StdinAnswer

-- How a write to the UART ends.
pub data UartAnswer : Type 0 where
  stored interrupted write_fails : UartAnswer

-- How a function ends; `spins` stands for a loop that goes on when its fuel, or the
-- list of the answers that it reads, is used up.
pub data Ended : Type 0 where
  fine failed spins : Ended

-- `SerialConsole`, with the host: `irqs` and `space` are the counts of the two event descriptors,
-- and `taken` is what was read from stdin.
pub record SerialConsole (U : Type 0) : Type 0 where
  pub uart : U
  pub stdin_ready : Bool
  pub dsr_probe : DsrProbe
  pub pending_rx : List ℕ
  pub dsr_auto_reply : Bool
  pub stdin : List StdinAnswer
  pub uart_writes : List UartAnswer
  pub irq_writes : List Bool
  pub irqs : ℕ
  pub space : ℕ
  pub taken : List ℕ

-- `DrainStatus`
pub record DrainStatus : Type 0 where
  pub stdin_open : Bool
  pub fifo_has_space : Bool

-- "ESC [ 1 ; 8 0 R"
abbrev pub dsr_reply : List ℕ
dsr_reply = 27 ∷ 91 ∷ 49 ∷ 59 ∷ 56 ∷ 48 ∷ 82 ∷ []

module _ {U : Type 0} (ops : UartOps U) where
  -- `?`, and the rest of the function.
  abbrev pub and_then :
      Ended × SerialConsole U
      → (SerialConsole U → Ended × SerialConsole U)
      → Ended × SerialConsole U
  and_then (fine, c) f = f c
  and_then (failed, c) f = (failed, c)
  and_then (spins, c) f = (spins, c)

  -- The end of a round of the loop of `flush_pending_rx`.
  abbrev pub after_enqueue :
      (SerialConsole U → Ended × SerialConsole U)
      → SerialConsole U
      → Option ℕ × U
      → Ended × SerialConsole U
  after_enqueue next c (some n, u) = next (record c { uart = u; pending_rx = drop n c.pending_rx })
  after_enqueue next c (none, u) = (failed, record c { uart = u })

  -- The loop of `flush_pending_rx`.
  unfoldable pub flush_rounds : ℕ → SerialConsole U → Ended × SerialConsole U
  flush_rounds zero c = (if is_empty c.pending_rx then fine else spins, c)
  flush_rounds (suc fuel) c =
      if is_empty c.pending_rx
      then (fine, c)
      else if ops.fifo_capacity c.uart == 0
      then (fine, c)
      else after_enqueue (flush_rounds fuel) c (
          ops.enqueue (take (min (ops.fifo_capacity c.uart) (length c.pending_rx)) c.pending_rx)
            c.uart)

  -- `flush_pending_rx`: each round that goes on leaves fewer bytes.
  unfoldable pub flush_pending_rx : SerialConsole U → Ended × SerialConsole U
  flush_pending_rx c = flush_rounds (length c.pending_rx) c

  -- The write to the event descriptor of the interrupt.
  abbrev pub raise_irq : List Bool → SerialConsole U → Ended × SerialConsole U
  raise_irq [] c = (failed, c)
  raise_irq (true ∷ rest) c = (fine, record c { irq_writes = rest; irqs = c.irqs + 1 })
  raise_irq (false ∷ rest) c = (failed, record c { irq_writes = rest })

  -- `reassert_rx_irq`
  unfoldable pub reassert_rx_irq : SerialConsole U → Ended × SerialConsole U
  reassert_rx_irq c =
      if ltb (ops.fifo_capacity c.uart) uart_fifo_size then raise_irq c.irq_writes c else (fine, c)

  -- `notify_rx_space`
  unfoldable pub notify_rx_space : SerialConsole U → SerialConsole U
  notify_rx_space c =
      if ltb 0 (ops.fifo_capacity c.uart) then record c { space = c.space + 1 } else c

  -- The reply to a query.
  unfoldable pub answer_query : SerialConsole U → Ended × SerialConsole U
  answer_query c =
      if c.dsr_auto_reply
      then and_then (flush_pending_rx (record c { pending_rx = c.pending_rx ++ dsr_reply }))
          (λ d. and_then (reassert_rx_irq d) (λ e. (fine, notify_rx_space e)))
      else (fine, c)

  -- `observe_guest_tx`
  unfoldable pub observe_guest_tx : ℕ → SerialConsole U → Ended × SerialConsole U
  observe_guest_tx byte c =
      let (probe, asks) = next_probe c.dsr_probe byte in
      if asks
      then and_then (answer_query c) (λ d. (fine, record d { dsr_probe = probe }))
      else (fine, record c { dsr_probe = probe })

  -- The loop of `write_uart`.
  unfoldable pub write_rounds : ℕ → ℕ → List UartAnswer → SerialConsole U → Ended × SerialConsole U
  write_rounds offset byte [] c = (failed, record c { uart_writes = [] })
  write_rounds offset byte (stored ∷ rest) c =
      (fine, record c { uart_writes = rest; uart = ops.store offset byte c.uart })
  write_rounds offset byte (interrupted ∷ rest) c = write_rounds offset byte rest c
  write_rounds offset byte (write_fails ∷ rest) c = (failed, record c { uart_writes = rest })

  -- `write_uart`
  unfoldable pub write_uart : ℕ → ℕ → SerialConsole U → Ended × SerialConsole U
  write_uart offset byte c = write_rounds offset byte c.uart_writes c

  -- The loop of `bus_write`.
  unfoldable pub bus_write_bytes : ℕ → List ℕ → SerialConsole U → Ended × SerialConsole U
  bus_write_bytes offset [] c = (fine, c)
  bus_write_bytes offset (byte ∷ data_) c =
      and_then
        (and_then (write_uart offset byte c)
          (λ d. if offset == 0 then observe_guest_tx byte d else (fine, d)))
        (bus_write_bytes offset data_)

  -- `bus_write`, but for the flush of the host's stdout.
  unfoldable pub bus_write : ℕ → List ℕ → SerialConsole U → Ended × SerialConsole U
  bus_write port data_ c = bus_write_bytes (port - serial_port_base) data_ c

  -- The loop of `bus_read` over a buffer of so many bytes.
  unfoldable pub bus_read_bytes : ℕ → ℕ → SerialConsole U → List ℕ × SerialConsole U
  bus_read_bytes offset zero c = ([], c)
  bus_read_bytes offset (suc n) c =
      let (byte, u) = ops.load offset c.uart in
      let (bytes, d) = bus_read_bytes offset n (record c { uart = u }) in (byte ∷ bytes, d)

  -- `bus_read`
  unfoldable pub bus_read : ℕ → ℕ → SerialConsole U → List ℕ × SerialConsole U
  bus_read port len c =
      let (bytes, d) = bus_read_bytes (port - serial_port_base) len c in
      (bytes, if port - serial_port_base == 0 then notify_rx_space d else d)

  -- `enqueue_rx` of bytes from stdin, and the rest of the loop: how many bytes the UART has taken is
  -- not looked at.
  abbrev pub after_input :
      (SerialConsole U → Ended × SerialConsole U)
      → SerialConsole U
      → List ℕ
      → Option ℕ × U
      → Ended × SerialConsole U
  after_input next c bytes (some n, u) = next (record c { uart = u; taken = c.taken ++ bytes })
  after_input next c bytes (none, u) = (failed, record c { uart = u; taken = c.taken ++ bytes })

  -- What a round of the loop of `drain_stdin` does with an answer, when the FIFO has room.
  abbrev pub on_input :
      (SerialConsole U → Ended × SerialConsole U)
      → StdinAnswer
      → SerialConsole U
      → Ended × SerialConsole U
  on_input next (input b bs) c =
      let bytes = take (min (ops.fifo_capacity c.uart) 64) (b ∷ bs) in
      after_input next c bytes (ops.enqueue bytes c.uart)
  on_input next eof c = (fine, record c { stdin_ready = false })
  on_input next would_block c = (fine, c)
  on_input next eintr c = next c
  on_input next read_fails c = (failed, c)

  -- The loop of `drain_stdin`. A loop that asks for more answers than there are goes on without end.
  unfoldable pub drain_rounds : List StdinAnswer → SerialConsole U → Ended × SerialConsole U
  drain_rounds [] c = (if ops.fifo_capacity c.uart == 0 then fine else spins, c)
  drain_rounds (a ∷ rest) c =
      if ops.fifo_capacity c.uart == 0
      then (fine, c)
      else on_input (drain_rounds rest) a (record c { stdin = rest })

  -- `drain_stdin`
  unfoldable pub drain_stdin : SerialConsole U → Ended × SerialConsole U
  drain_stdin c = and_then (flush_pending_rx c) (λ d.
      and_then (reassert_rx_irq d)
        (λ e. if e.stdin_ready then drain_rounds e.stdin e else (fine, e)))

  -- The status that `drain_stdin` returns.
  unfoldable pub drain_status : SerialConsole U → DrainStatus
  drain_status c = record {
    stdin_open = c.stdin_ready;
    fifo_has_space = ltb 0 (ops.fifo_capacity c.uart);
  }
