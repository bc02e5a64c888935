-- ===== src/Lib.antt =====
-- kitsune: a virtual machine monitor for Linux guests on KVM, in Rust.
--
-- The program builds a machine (src/vmm.rs, src/boot.rs, src/acpi.rs), runs its processors
-- (src/vcpu.rs) and serves its devices. Port I/O goes to src/devices/pio_bus.rs; memory-mapped I/O
-- goes to virtio devices, which share a transport (src/devices/virtio_mmio.rs) and a shell that owns
-- the worker thread (src/devices/virtio_dev.rs). The vsock device (src/devices/virtio_vsock.rs) passes
-- the guest's packets to a multiplexer (src/devices/vsock_mux.rs), which joins each flow, a guest's
-- port and a host's, with a Unix socket.
--
-- What models what:
--   Base            Boolean tests, lists, little-endian words, decimal numbers
--   Blk             src/devices/virtio_blk.rs
--     Transfer      the loops of pread_all, pwrite_all, ring_read and ring_write, one for all
--     Disk          BlockDisk, with the kernel's answers and the image as a function to bytes
--     Request       handle_request and what it does for each type
--     Queue         process_queue
--     Spec          what a block device promises, when it may fail, and that the queue keeps it
--     Setup         new, the configuration space, start_worker and stop_worker
--   Console         src/devices/serial.rs: the UART as a parameter (Uart), the query that it answers
--                   (Probe), the console (Serial) and the worker that reads stdin (Worker)
--   Machine         src/memory.rs (Memory), src/gdt.rs (Gdt), where src/boot.rs puts things (Boot), and
--                   the page tables and the CPUID of src/vcpu.rs (Paging, Topology)
--   Net             src/devices/virtio_net.rs: the state with the answers of the TAP (State), the two
--                   directions (Tx, Rx), what they keep (Sent, Received, Given) and signal (Flagged)
--   Ports           src/devices/legacy_io.rs (Legacy) and src/devices/pio_bus.rs (Bus), with the serial
--                   console as a parameter
--   Virtio          src/devices/virtio_mmio.rs (Mmio), with the queues of the crate virtio_queue as a
--                   parameter (Ring), and the worker slot of src/devices/virtio_dev.rs (Slot)
--   Vsock           src/devices/vsock_mux.rs
--     Flow          the key of a connection, and HashMap<Flow, V> as an association list
--     Packet        Header::parse, OutPkt::header, the constants
--     Host          the system calls: each takes its answers from a list, so that a theorem for
--                   every Host speaks of every behaviour of the kernel
--     State         Conn, Incoming, Mux
--     Queue         the queues of packets, drop_conn, check_timeouts, credit, alloc_host_port
--     Stream        flush_conn, ingest, read_conn, finish_connect, mark_local_shut
--     Guest         handle_guest_pkt and the handler of each operation
--     Accept        accept_loop, read_incoming, finish_incoming, interests, on_fd
--     Invariant     the invariant and each operation on it
--     Device        src/devices/virtio_vsock.rs: drive, pull_tx, push_rx, with the chains of the
--                   guest as the list that pop_descriptor_chain returns
--     Reach         the calls of the worker as steps, and the states that they reach
--     Tests         concrete data
--
-- A method that changes self takes the multiplexer and the kernel and returns both. A u8, u16, u32 or
-- u64 is a number, with the wrap-around of wrapping_add and wrapping_sub written out. An Instant is a
-- number of seconds. The loops of flush_ok, flush_to_host, ingest and the console's flush_pending_rx
-- have as much fuel as there are bytes, and each round takes at least one; alloc_host_port has the
-- 60,000 rounds of its source; the loops that retry a call after EINTR, and those that move bytes
-- between a file and a buffer, go down the list of answers; drain_stdin, when it asks for more answers
-- of stdin than there are, counts as going on for ever.
--
-- Not modelled: the file system part of Mux::bind, closing a descriptor, the loops of poll and the
-- threads, I/O of the ring that is in flight when the ring is dropped, the opening of the TAP, the
-- terminal modes and signal handlers, and the rest of what builds and runs the machine: the files
-- that src/boot.rs loads, the tables of src/acpi.rs, the command line, the registers of
-- src/vcpu.rs and src/vmm.rs.
pub mod Base
pub mod Blk
pub mod Console
pub mod Machine
pub mod Net
pub mod Ports
pub mod Virtio
pub mod Vsock
