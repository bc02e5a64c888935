-- ===== src/Console/Worker.antt =====
-- `stdin_worker_loop` of src/devices/serial.rs, a turn at a time. The guest may read and write the
-- console whenever the worker does not hold its lock; what it does between the end of `drain_stdin`
-- and the next use of the worker's event descriptor is an argument.
use kitsune.Base.{Bool, true, false, not, ◌&&◌, ◌||◌, if◌then◌else◌}
use kitsune.Console.Uart.{UartOps}
use kitsune.Console.Serial.{SerialConsole, Ended, fine, failed, drain_stdin, drain_status}

-- The flags of the loop: `wait_for_space` while the FIFO is full.
pub record Watch : Type 0 where
  pub watch_stdin : Bool
  pub wait_for_space : Bool

-- The bits of `revents` of a descriptor.
pub record Revents : Type 0 where
  pub readable : Bool
  pub hung_up : Bool
  pub broken : Bool

-- How `poll` ends; `woken` has whether the worker is to stop, and the events of the other descriptor.
pub data Polled : Type 0 where
  interrupted poll_fails : Polled
  woken : Bool → Revents → Polled

-- How a turn ends.
pub data Turn : Type 0 where
  goes_on : Turn
  returns : Ended → Turn

abbrev pub quiet : Revents → Bool
quiet rev = not (rev.readable || (rev.hung_up || rev.broken))

-- Which descriptor is polled besides the one for the stop.
pub data Second : Type 0 where
  space_fd stdin_fd no_fd : Second

unfoldable pub second : Watch → Second
second w = if w.wait_for_space then space_fd else if w.watch_stdin then stdin_fd else no_fd

module _ {U : Type 0} (ops : UartOps U) (meanwhile : SerialConsole U → SerialConsole U) where
  -- A read of the event descriptor sets its count back.
  abbrev pub clear_space : SerialConsole U → SerialConsole U
  clear_space c = record c { space = 0 }

  -- What follows a call of `drain_stdin`, once its lock is dropped.
  unfoldable pub after_drain : Ended × SerialConsole U → Turn × Watch × SerialConsole U
  after_drain (fine, c) =
      let status = drain_status ops c in
      if status.stdin_open && not status.fifo_has_space
      then (
        goes_on,
        record { watch_stdin = status.stdin_open; wait_for_space = true },
        clear_space (meanwhile c),
      )
      else (
        goes_on,
        record { watch_stdin = status.stdin_open; wait_for_space = false },
        meanwhile c,
      )
  after_drain (e, c) = (returns e, record { watch_stdin = false; wait_for_space = false }, c)

  -- The end of a hangup without input.
  abbrev pub after_hangup : Watch → Ended × SerialConsole U → Turn × Watch × SerialConsole U
  after_hangup w (fine, c) = (goes_on, record w { watch_stdin = false }, c)
  after_hangup w (e, c) = (returns e, w, c)

  -- The events of stdin.
  unfoldable pub on_stdin : Watch → Revents → SerialConsole U → Turn × Watch × SerialConsole U
  on_stdin w rev c =
      if rev.broken
      then (goes_on, record w { watch_stdin = false }, c)
      else if rev.hung_up && not rev.readable
      then after_hangup w (drain_stdin ops c)
      else if not rev.readable
      then (goes_on, w, c)
      else after_drain (drain_stdin ops c)

  -- The events of the descriptor that tells of room in the FIFO.
  unfoldable pub on_space : Watch → Revents → SerialConsole U → Turn × Watch × SerialConsole U
  on_space w rev c =
      if rev.broken then (returns failed, w, c) else after_drain (drain_stdin ops (clear_space c))

  -- The events of the second descriptor.
  abbrev pub on_second : Second → Watch → Revents → SerialConsole U → Turn × Watch × SerialConsole U
  on_second no_fd w rev c = (goes_on, w, c)
  on_second space_fd w rev c = if quiet rev then (goes_on, w, c) else on_space w rev c
  on_second stdin_fd w rev c = if quiet rev then (goes_on, w, c) else on_stdin w rev c

  -- A round of the loop, from the end of its `poll`.
  unfoldable pub worker_turn : Watch → Polled → SerialConsole U → Turn × Watch × SerialConsole U
  worker_turn w interrupted c = (goes_on, w, c)
  worker_turn w poll_fails c = (returns failed, w, c)
  worker_turn w (woken true rev) c = (returns fine, w, c)
  worker_turn w (woken false rev) c = on_second (second w) w rev c
