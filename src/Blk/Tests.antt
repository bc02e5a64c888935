-- ===== src/Blk/Tests.antt =====
-- Runs of the block device, and its theorems at concrete data.
use kitsune.Base.{
  ℕ, ◌+◌, ◌*◌, ◌≡◌, refl, inl, true, false, none, some, List, [], ◌∷◌, ◌++◌, arith, replicate,
}
use kitsune.Virtio.Slot.{idle}
use kitsune.Blk.Transfer.{
  IoResult, Bytes, ok, err, done_ok, eintr, other, fails, pread_all, pwrite_all, transfer,
  sys_round, ring_round, to_off_t, paint, ring_read, ring_write, ring_fsync,
}
use kitsune.Blk.Transfer.Progress.{pread_all_complete, pwrite_all-pread_all}
use kitsune.Blk.Disk.{
  BlockDisk, Kernel, direct, buffered, ensure, zero_scratch, is_direct_aligned, read_at, write_at,
  read_at_fd, write_at_fd, pread_scratch, pwrite_scratch, ring_read_scratch, ring_write_scratch,
  again, prefer_direct, disable_direct, disable_ring, flush_data, fsync_fd, fdatasync, ring_sync,
}
use kitsune.Blk.Request.{
  Chain, Served, written, handle_request, dispatch, parse_hdr, handle_in, handle_out, handle_flush,
  offset_of, read_range, after_read, reply_data, reply, write_all, as_slice, write_range,
  fill_scratch, reply_status, status_ok,
}
use kitsune.Blk.Request.Kept.{handle_flush-durable}
use kitsune.Blk.Queue.{Worker, process_queue, process_chains, add_used}
use kitsune.Blk.Queue.Returned.{returned, process_queue-returned}
use kitsune.Blk.Spec.Refines.{Refines, process_queue-Refines}
use kitsune.Blk.Spec.Protected.{process_queue-protected}
use kitsune.Blk.Setup.{VirtioBlock, outcome, erred}
use kitsune.Blk.Setup.Custody.{Custody, Call, starts, stops, run, run-Custody}

-- An image whose bytes are their positions' last digits, behind a direct descriptor and a ring
-- whose first answer is an error.
abbrev image : Bytes
image p = p + 3

abbrev kernel : Kernel
kernel = record {
  file = image;
  preads = ok 2 ∷ err eintr ∷ ok 1 ∷ ok 5 ∷ [];
  pwrites = ok 1 ∷ ok 9 ∷ [];
  completions = fails 1 other ∷ [];
  fdatasyncs = ok tt ∷ ok tt ∷ [];
  reallocs = true ∷ [];
  synced = [];
}

abbrev disk : BlockDisk
disk = record {
  direct_file = true;
  use_direct = true;
  direct_align = 512;
  scratch = record { cap = 4096; ptr = λ i. 99 };
  ring = true;
  kernel = kernel;
}

-- The header of a request of a type, at a sector.
abbrev hdr : ℕ → ℕ → List ℕ
hdr type_ sector = type_ ∷ replicate 7 0 ++ sector ∷ replicate 7 0

abbrev chain_of : ℕ → List ℕ → ℕ → Chain
chain_of head raw room = record {
  head_index = head;
  readable = some raw;
  available = some room;
  read_ok = true;
  writes = true ∷ true ∷ [];
  driver_features = 512;
}

-- A write of two bytes at sector 1, a read of three there, and a read behind the end.
abbrev chains : List Chain
chains =
    chain_of 4 (hdr 1 1 ++ 65 ∷ 66 ∷ []) 1 ∷ chain_of 7 (hdr 0 1) 4 ∷ chain_of 2 (hdr 0 9) 3 ∷ []

abbrev idle_worker : Worker
idle_worker = record {
  disk = disk;
  chains = chains;
  adds = true ∷ true ∷ true ∷ [];
  used = [];
  log = [];
}

-- The write falls back from the ring, and the read finds what it has written.
served :
    (process_queue 8 false idle_worker).1.log
    ≡ (written 1, 0 ∷ [])
      ∷ (written 4, 65 ∷ 66 ∷ image 514 ∷ 0 ∷ [])
      ∷ (written 3, 0 ∷ 0 ∷ 1 ∷ [])
      ∷ []
unfolding process_queue process_chains add_used handle_request dispatch parse_hdr handle_in
    handle_out offset_of read_range after_read reply_data reply write_all as_slice write_range
    fill_scratch reply_status ensure zero_scratch read_at write_at read_at_fd write_at_fd
    pread_scratch pwrite_scratch ring_read_scratch ring_write_scratch again prefer_direct
    disable_direct disable_ring is_direct_aligned pread_all pwrite_all ring_read ring_write transfer
    sys_round ring_round to_off_t paint
served = refl

process_queue-Refines_example :
    Refines 8 false chains idle_worker (process_queue 8 false idle_worker)
process_queue-Refines_example = process_queue-Refines 8 false idle_worker

process_queue-protected_example :
    (process_queue 8 true idle_worker).1.disk.kernel.file 513 ≡ image 513
process_queue-protected_example = process_queue-protected 8 true 513 idle_worker (inl refl)

-- The run ends well, and signals the guest.
signals : (process_queue 8 false idle_worker).0 ≡ some true
unfolding process_queue process_chains add_used handle_request dispatch parse_hdr handle_in
    handle_out offset_of read_range after_read reply_data reply write_all as_slice write_range
    fill_scratch reply_status ensure zero_scratch read_at write_at read_at_fd write_at_fd
    pread_scratch pwrite_scratch ring_read_scratch ring_write_scratch again prefer_direct
    disable_direct disable_ring is_direct_aligned pread_all pwrite_all ring_read ring_write transfer
    sys_round ring_round to_off_t paint
signals = refl

process_queue-returned_example :
    (returned (process_queue 8 false idle_worker).1.used ≡ 4 ∷ 7 ∷ 2 ∷ []) × (true ≡ true)
process_queue-returned_example = process_queue-returned 8 false idle_worker true signals

pread_all_complete_example :
    ((pread_all image 10 4 (ok 2 ∷ err eintr ∷ ok 1 ∷ ok 5 ∷ ok 1 ∷ []) (λ i. 0)).0 ≡ done_ok)
    × ((pread_all image 10 4 (ok 2 ∷ err eintr ∷ ok 1 ∷ ok 5 ∷ ok 1 ∷ []) (λ i. 0)).2 3
        ≡ image (10 + 3))
pread_all_complete_example =
    pread_all_complete image 10 4 (ok 2 ∷ err eintr ∷ ok 1 ∷ ok 5 ∷ ok 1 ∷ []) (λ i. 0) 3
      (omega arith) (omega arith, (tt, (omega arith, (omega arith, (omega arith, tt)))))
      (omega arith) (omega arith)

abbrev halves : List (IoResult ℕ)
halves = ok 2 ∷ ok 2 ∷ []

wrote : (pwrite_all (λ i. i * 10) 8 4 halves image).0 ≡ done_ok
unfolding pwrite_all transfer sys_round to_off_t paint
wrote = refl

got_back : (pread_all (pwrite_all (λ i. i * 10) 8 4 halves image).2 8 4 halves image).0 ≡ done_ok
unfolding pread_all transfer sys_round to_off_t paint
got_back = refl

pwrite_all-pread_all_example :
    (pread_all (pwrite_all (λ i. i * 10) 8 4 halves image).2 8 4 halves image).2 3 ≡ 30
pwrite_all-pread_all_example =
    pwrite_all-pread_all (λ i. i * 10) 8 4 halves image halves image 3 wrote got_back (omega arith)

-- A flush of both descriptors; the ring answers with an error at first.
abbrev asked : Served
asked = record { disk = disk; writes = true ∷ []; out = [] }

flush_done : (handle_flush false 512 asked).0 ≡ written 1
unfolding handle_flush flush_data fsync_fd fdatasync ring_sync ring_fsync disable_ring reply_status
    write_all
flush_done = refl

flush_status : (handle_flush false 512 asked).1.out ≡ status_ok ∷ []
unfolding handle_flush flush_data fsync_fd fdatasync ring_sync ring_fsync disable_ring reply_status
    write_all
flush_status = refl

handle_flush-durable_example :
    (handle_flush false 512 asked).1.disk.kernel.synced ≡ direct ∷ buffered ∷ []
handle_flush-durable_example = handle_flush-durable 512 1 asked refl refl flush_done flush_status

-- A device at rest, and a start that cannot make its thread, one that can, and a stop.
abbrev at_rest : VirtioBlock
at_rest = record {
  dev = record { slot = idle; stop = false; kicks = 0 };
  disk = some disk;
  worker_disk = none;
}

abbrev calls : List Call
calls = starts true none ∷ starts true (some 5) ∷ stops (outcome erred disk) ∷ []

run-Custody_example : Custody (run calls at_rest)
run-Custody_example = run-Custody calls at_rest (tt, (tt, (tt, tt))) (refl, refl)
