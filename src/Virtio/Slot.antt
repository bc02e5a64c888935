-- ===== src/Virtio/Slot.antt =====
-- The worker slot of src/devices/virtio_dev.rs: `WorkerSlot`, its reservations, and the calls on them,
-- each of which holds the slot's lock from its test to its change. A join handle is its number.
use kitsune.Base.{ℕ, suc, ◌+◌, ◌≡◌, refl, ap, Bool, true, false, List, [], ◌∷◌, arith}

pub data WorkerSlot : Type 0 where
  idle starting : WorkerSlot
  running : ℕ → WorkerSlot

-- The slot and the stop flag of `VirtioDev`; `kicks` counts the writes to the event descriptor.
pub record VirtioDev : Type 0 where
  pub slot : WorkerSlot
  pub stop : Bool
  pub kicks : ℕ

-- `reserve`: whether the caller gets the reservation.
unfoldable pub reserve : VirtioDev → Bool × VirtioDev
reserve d = elim d.slot [
  | idle ↦ (true, record d { slot = starting })
  | starting ↦ (false, d)
  | running handle ↦ (false, d)
]

-- `WorkerReservation::commit`
unfoldable pub commit : ℕ → VirtioDev → VirtioDev
commit handle d = record d { slot = running handle }

-- `WorkerReservation::drop`, of a reservation that is active or not.
unfoldable pub drop_reservation : Bool → VirtioDev → VirtioDev
drop_reservation false d = d
drop_reservation true d = elim d.slot [
  | idle ↦ d
  | starting ↦ record d { slot = idle }
  | running handle ↦ d
]

-- `clear_stop`
unfoldable pub clear_stop : VirtioDev → VirtioDev
clear_stop d = record d { stop = false }

-- `request_stop`
unfoldable pub request_stop : VirtioDev → VirtioDev
request_stop d = record d { stop = true; kicks = d.kicks + 1 }

-- What one round of the loop of `take_worker` ends with: it goes round again, or returns.
pub data Taken : Type 0 where
  again nobody : Taken
  worker : ℕ → Taken

-- One round of the loop of `take_worker`.
unfoldable pub take_round : VirtioDev → Taken × VirtioDev
take_round d = elim d.slot [
  | idle ↦ (nobody, record d { slot = idle })
  | starting ↦ (again, record d { slot = starting })
  | running handle ↦ (worker handle, record d { slot = idle })
]

-- The device among its threads: how many reservations are active, and which handles were committed
-- and which taken, the last one first.
pub record Threads : Type 0 where
  pub dev : VirtioDev
  pub active : ℕ
  pub committed : List ℕ
  pub taken : List ℕ

abbrev pub reserved : Bool → ℕ → ℕ
reserved true n = suc n
reserved false n = n

abbrev pub took : Taken → List ℕ → List ℕ
took (worker handle) hs = handle ∷ hs
took again hs = hs
took nobody hs = hs

-- A call of any thread. Only the holder of an active reservation commits or drops it.
pub data Step (t : Threads) : Threads → Type 0 where
  reserves :
      Step t (record t { dev = (reserve t.dev).1; active = reserved (reserve t.dev).0 t.active })
  commits :
      (handle n : ℕ)
      → t.active ≡ suc n
      → Step t
          (record t { dev = commit handle t.dev; active = n; committed = handle ∷ t.committed })
  drops :
      (n : ℕ)
      → t.active ≡ suc n
      → Step t (record t { dev = drop_reservation true t.dev; active = n })
  takes :
      Step t (record t { dev = (take_round t.dev).1; taken = took (take_round t.dev).0 t.taken })
  clears : Step t (record t { dev = clear_stop t.dev })
  stops : Step t (record t { dev = request_stop t.dev })

abbrev pub fresh : Threads
fresh = record {
  dev = record { slot = idle; stop = false; kicks = 0 };
  active = 0;
  committed = [];
  taken = [];
}

pub data Reach : Threads → Type 0 where
  start : Reach fresh
  next : {t u : Threads} → Reach t → Step t u → Reach u

-- What the slot says of the reservations and of the handles.
abbrev pub SlotInv : WorkerSlot → ℕ → List ℕ → List ℕ → Type 0
SlotInv idle active committed taken = (active ≡ 0) × (committed ≡ taken)
SlotInv starting active committed taken = (active ≡ 1) × (committed ≡ taken)
SlotInv (running handle) active committed taken = (active ≡ 0) × (committed ≡ handle ∷ taken)

abbrev holding : WorkerSlot → Bool → ℕ → VirtioDev
holding s b k = record { slot = s; stop = b; kicks = k }

reserve-SlotInv :
    (s : WorkerSlot) (b : Bool) (k n : ℕ) (cs ts : List ℕ)
    → SlotInv s n cs ts
    → SlotInv (reserve (holding s b k)).1.slot (reserved (reserve (holding s b k)).0 n) cs ts
unfolding reserve
reserve-SlotInv idle b k n cs ts (a, c) = (ap suc a, c)
reserve-SlotInv starting b k n cs ts v = v
reserve-SlotInv (running h) b k n cs ts v = v

commit-SlotInv :
    (s : WorkerSlot) (handle n : ℕ) (cs ts : List ℕ)
    → SlotInv s (suc n) cs ts
    → SlotInv (running handle) n (handle ∷ cs) ts
commit-SlotInv idle handle n cs ts (a, c) = absurd (omega arith)
commit-SlotInv starting handle n cs ts (a, c) = (omega arith, ap (λ l. handle ∷ l) c)
commit-SlotInv (running h) handle n cs ts (a, c) = absurd (omega arith)

drop_reservation-SlotInv :
    (s : WorkerSlot) (b : Bool) (k n : ℕ) (cs ts : List ℕ)
    → SlotInv s (suc n) cs ts
    → SlotInv (drop_reservation true (holding s b k)).slot n cs ts
unfolding drop_reservation
drop_reservation-SlotInv idle b k n cs ts (a, c) = absurd (omega arith)
drop_reservation-SlotInv starting b k n cs ts (a, c) = (omega arith, c)
drop_reservation-SlotInv (running h) b k n cs ts (a, c) = absurd (omega arith)

take_round-SlotInv :
    (s : WorkerSlot) (b : Bool) (k n : ℕ) (cs ts : List ℕ)
    → SlotInv s n cs ts
    → SlotInv (take_round (holding s b k)).1.slot n cs (took (take_round (holding s b k)).0 ts)
unfolding take_round
take_round-SlotInv idle b k n cs ts v = v
take_round-SlotInv starting b k n cs ts v = v
take_round-SlotInv (running h) b k n cs ts v = v

-- What `SlotInv` says, of the whole state.
abbrev pub ThreadsInv : Threads → Type 0
ThreadsInv t = SlotInv t.dev.slot t.active t.committed t.taken

Step-ThreadsInv : {t u : Threads} → Step t u → ThreadsInv t → ThreadsInv u
unfolding commit clear_stop request_stop
Step-ThreadsInv {t} reserves v =
    reserve-SlotInv t.dev.slot t.dev.stop t.dev.kicks t.active t.committed t.taken v
Step-ThreadsInv {t} (commits handle n e) v =
    commit-SlotInv t.dev.slot handle n t.committed t.taken (rw e at v)
Step-ThreadsInv {t} (drops n e) v =
    drop_reservation-SlotInv t.dev.slot t.dev.stop t.dev.kicks n t.committed t.taken (rw e at v)
Step-ThreadsInv {t} takes v =
    take_round-SlotInv t.dev.slot t.dev.stop t.dev.kicks t.active t.committed t.taken v
Step-ThreadsInv {t} clears v = v
Step-ThreadsInv {t} stops v = v

-- However the threads' calls interleave, a reservation is active exactly while the slot is starting,
-- and it is the only one; no handle of a worker is lost or taken twice: those committed are those
-- taken and, behind them, the one in the slot.
pub Reach-ThreadsInv : {t : Threads} → Reach t → ThreadsInv t
Reach-ThreadsInv start = (refl, refl)
Reach-ThreadsInv (next r s) = Step-ThreadsInv s (Reach-ThreadsInv r)
