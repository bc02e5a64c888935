-- ===== src/Blk/Setup/Custody.antt =====
-- Who has the disk of src/devices/virtio_blk.rs while its worker is started and stopped.
use kitsune.Base.{ℕ, ◌≡◌, refl, Bool, true, false, Option, none, some, is_some, List, [], ◌∷◌}
use kitsune.Virtio.Slot.{
  WorkerSlot, idle, starting, running, reserve, commit, drop_reservation, clear_stop, request_stop,
  take_round,
}
use kitsune.Blk.Disk.{BlockDisk}
use kitsune.Blk.Setup.{
  VirtioBlock, Joined, outcome, panicked, start_worker, start_reserved, stop_worker,
}

-- A call of the machine on the device, with how what it relies on ends.
pub data Call : Type 0 where
  starts : Bool → Option ℕ → Call
  stops : Joined → Call

unfoldable pub call : Call → VirtioBlock → VirtioBlock
call (starts cloned spawned) b = (start_worker cloned spawned b).1
call (stops joined) b = (stop_worker joined b).1

unfoldable pub run : List Call → VirtioBlock → VirtioBlock
run [] b = b
run (c ∷ cs) b = run cs (call c b)

-- No worker panics in the call.
abbrev pub Unharmed : Call → Type 0
Unharmed (starts cloned spawned) = Unit
Unharmed (stops (outcome result d)) = Unit
Unharmed (stops panicked) = ⊥

abbrev pub AllUnharmed : List Call → Type 0
AllUnharmed [] = Unit
AllUnharmed (c ∷ cs) = Unharmed c × AllUnharmed cs

-- The disk is with the device while no worker runs, and with the worker while one does; the slot is
-- not left reserved.
abbrev pub OneDisk : WorkerSlot → Option BlockDisk → Option BlockDisk → Type 0
OneDisk idle disk held = (is_some disk ≡ true) × (is_some held ≡ false)
OneDisk starting disk held = ⊥
OneDisk (running handle) disk held = (is_some disk ≡ false) × (is_some held ≡ true)

abbrev pub Custody : VirtioBlock → Type 0
Custody b = OneDisk b.dev.slot b.disk b.worker_disk

-- A device, by its parts.
abbrev device : WorkerSlot → Bool → ℕ → Option BlockDisk → Option BlockDisk → VirtioBlock
device slot stop kicks disk held = record {
  dev = record { slot = slot; stop = stop; kicks = kicks };
  disk = disk;
  worker_disk = held;
}

start-Custody :
    (slot : WorkerSlot) (stop : Bool) (kicks : ℕ) (disk held : Option BlockDisk) (cloned : Bool)
    (spawned : Option ℕ)
    → OneDisk slot disk held
    → Custody (start_worker cloned spawned (device slot stop kicks disk held)).1
unfolding start_worker start_reserved reserve commit drop_reservation clear_stop
start-Custody idle stop kicks none held cloned spawned (d, w) = cc
start-Custody idle stop kicks (some x) held false spawned (d, w) = (refl, w)
start-Custody idle stop kicks (some x) held true none (d, w) = (refl, w)
start-Custody idle stop kicks (some x) held true (some handle) (d, w) = (refl, refl)
start-Custody (running h) stop kicks disk held cloned spawned o = o
start-Custody starting stop kicks disk held cloned spawned o = o

stop-Custody :
    (slot : WorkerSlot) (stop : Bool) (kicks : ℕ) (disk held : Option BlockDisk) (joined : Joined)
    → Unharmed (stops joined)
    → OneDisk slot disk held
    → Custody (stop_worker joined (device slot stop kicks disk held)).1
unfolding stop_worker take_round request_stop
stop-Custody idle stop kicks disk held joined u o = o
stop-Custody starting stop kicks disk held joined u o = o
stop-Custody (running h) stop kicks disk held (outcome result d) u o = (refl, refl)
stop-Custody (running h) stop kicks disk held panicked u o = absurd u

call-Custody : (c : Call) (b : VirtioBlock) → Unharmed c → Custody b → Custody (call c b)
unfolding call
call-Custody (starts cloned spawned) b u o =
    start-Custody b.dev.slot b.dev.stop b.dev.kicks b.disk b.worker_disk cloned spawned o
call-Custody (stops joined) b u o =
    stop-Custody b.dev.slot b.dev.stop b.dev.kicks b.disk b.worker_disk joined u o

-- Through any sequence of starts and stops in which no worker panics, whichever of them fail, the
-- disk is in exactly one place, with the device while no worker runs and with the worker while one
-- does, and no reservation of the slot is left behind.
pub run-Custody :
    (cs : List Call) (b : VirtioBlock) → AllUnharmed cs → Custody b → Custody (run cs b)
unfolding run
run-Custody [] b u o = o
run-Custody (c ∷ cs) b u o = run-Custody cs (call c b) u.1 (call-Custody c b u.0 o)
