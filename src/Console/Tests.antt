-- ===== src/Console/Tests.antt =====
-- A UART, runs of the console on it, and its theorems at concrete data.
use kitsune.Base.{
  ℕ, ◌-◌, ◌≡◌, ◌≢◌, refl, true, false, Option, none, some, List, [], ◌∷◌, ◌++◌, leb, if◌then◌else◌,
  length, length-append, replicate, arith,
}
use kitsune.Console.Uart.{UartOps, UartLaws}
use kitsune.Console.Probe.{idle, next_probe, probe_after, next_probe-query}
use kitsune.Console.Serial.{
  SerialConsole, fine, spins, input, would_block, eintr, stored, interrupted, dsr_reply,
  drain_stdin, drain_rounds, flush_pending_rx, flush_rounds, reassert_rx_irq, bus_write,
  bus_write_bytes, write_uart, write_rounds, observe_guest_tx, answer_query, notify_rx_space,
  bus_read, bus_read_bytes, drain_status,
}
use kitsune.Console.Order.{Ordered}
use kitsune.Console.Drain.{drain_stdin-Ordered}
use kitsune.Console.Ends.{drain_stdin_ends}
use kitsune.Console.Worker.{Watch, woken, worker_turn, on_stdin, after_drain, second}

-- A UART out of loopback mode is the FIFO of 64 bytes that the guest reads from.
abbrev put : List ℕ → List ℕ → Option ℕ × List ℕ
put bytes fifo =
    if leb (length bytes) (64 - length fifo)
    then (some (length bytes), fifo ++ bytes)
    else (none, fifo)

abbrev get : List ℕ → ℕ × List ℕ
get [] = (0, [])
get (b ∷ bs) = (b, bs)

abbrev uart : UartOps (List ℕ)
uart = record {
  fifo_capacity = λ fifo. 64 - length fifo;
  enqueue = put;
  store = λ offset byte fifo. fifo;
  load = λ offset fifo. get fifo;
}

uart_laws : UartLaws uart (λ fifo. fifo)
uart_laws = record {
  enqueue_all =
      λ bytes fifo n fits e. (ground arith, ground arith, ground (arith, length-append fifo bytes));
}

abbrev console : SerialConsole (List ℕ)
console = record {
  uart = 7 ∷ [];
  stdin_ready = true;
  dsr_probe = idle;
  pending_rx = 8 ∷ 9 ∷ [];
  dsr_auto_reply = true;
  stdin = input 10 (11 ∷ []) ∷ eintr ∷ input 12 [] ∷ would_block ∷ [];
  uart_writes = stored ∷ interrupted ∷ stored ∷ stored ∷ stored ∷ [];
  irq_writes = true ∷ true ∷ [];
  irqs = 0;
  space = 0;
  taken = [];
}

drained : (drain_stdin uart console).0 ≡ fine
unfolding drain_stdin flush_pending_rx flush_rounds reassert_rx_irq drain_rounds
drained = refl

drain_stdin-Ordered_example :
    Ordered uart (λ fifo. fifo) uart_laws console (drain_stdin uart console).1
drain_stdin-Ordered_example = drain_stdin-Ordered uart (λ fifo. fifo) uart_laws console drained

drain_stdin_ends_example : (drain_stdin uart console).0 ≢ spins
drain_stdin_ends_example = drain_stdin_ends uart (λ fifo. fifo) uart_laws console tt

next_probe-query_example : (next_probe (probe_after (54 ∷ 91 ∷ 27 ∷ 27 ∷ [])) 110).1 ≡ true
next_probe-query_example = next_probe-query (54 ∷ 91 ∷ 27 ∷ 27 ∷ []) 110

-- The guest's query is answered behind what waits.
answered : (bus_write uart 0x3f8 (27 ∷ 91 ∷ 54 ∷ 110 ∷ []) console).1.uart ≡ 7 ∷ 8 ∷ 9 ∷ dsr_reply
unfolding bus_write bus_write_bytes write_uart write_rounds observe_guest_tx answer_query
    flush_pending_rx flush_rounds reassert_rx_irq notify_rx_space next_probe
answered = refl

-- A UART in loopback mode takes no bytes, and the loop of `flush_pending_rx` does not end.
abbrev loopback : UartOps (List ℕ)
loopback = record {
  fifo_capacity = λ fifo. 64 - length fifo;
  enqueue = λ bytes fifo. (some 0, fifo);
  store = λ offset byte fifo. fifo;
  load = λ offset fifo. get fifo;
}

hangs : (bus_write loopback 0x3f8 (27 ∷ 91 ∷ 54 ∷ 110 ∷ []) console).0 ≡ spins
unfolding bus_write bus_write_bytes write_uart write_rounds observe_guest_tx answer_query
    flush_pending_rx flush_rounds reassert_rx_irq notify_rx_space next_probe
hangs = refl

-- The guest reads all of the FIFO between the end of `drain_stdin`, which has filled it, and the
-- read of the event descriptor: the worker waits for a signal that has come already.
abbrev full : SerialConsole (List ℕ)
full = record console { uart = replicate 61 1; stdin = input 10 [] ∷ would_block ∷ [] }

abbrev reads_all : SerialConsole (List ℕ) → SerialConsole (List ℕ)
reads_all c = (bus_read uart 0x3f8 64 c).1

abbrev turn : Watch × SerialConsole (List ℕ)
turn =
    let r =
      worker_turn uart reads_all (record { watch_stdin = true; wait_for_space = false })
        (woken false (record { readable = true; hung_up = false; broken = false })) full in
    (r.1, r.2)

stalls :
    (turn.0.wait_for_space ≡ true)
    × (turn.1.space ≡ 0)
    × (turn.1.uart ≡ [])
    × (turn.1.pending_rx ≡ [])
unfolding worker_turn second on_stdin after_drain drain_stdin flush_pending_rx flush_rounds
    reassert_rx_irq drain_rounds drain_status bus_read bus_read_bytes notify_rx_space
stalls = (refl, refl, refl, refl)
