-- ===== src/Lib.antt =====
-- RV-9, a small operating system for microcontrollers: its device ownership, its pipes, its process
-- table with the admission of real-time work, the verification of its modules, and its kernel with
-- its scheduler and heap.
--
-- The parts and how they meet. A process reaches devices through paths. The I/O manager takes a
-- claim on a device when a path is opened and drops it when the path is closed; the loader reserves
-- what a program's manifest names, and the process manager releases that when the process ends
-- (components/rv9_io/src/claim.c, modelled by Claim). Processes talk to each other through named
-- pipes, which are paths too (components/rv9_io/src/pipefm.c, modelled by Pipe). A real-time
-- process is admitted only if the response-time analysis finds a placement in which every deadline
-- is met (components/rv9_proc/src/proc.c: the analysis and the placement are modelled by Rt, the
-- admission and the process table by Proc, whose admission calls Rt). What a program declares it
-- declares in the manifest of its module (components/rv9_module/src/module.c and crc32.c, modelled
-- by Module). Below them all, the kernel's scheduler switches between threads, and gives them
-- semaphores, mutexes and queues to wait on (components/rv9_kernel/src/sched.c, modelled by Sched).
-- Components that control something publish values in cells, each written by one process and read
-- by any number while it writes (components/rv9_io/src/pfm.c, modelled by Pub). The kernel's own
-- allocator (components/rv9_kernel/src/heap.c, modelled by Heap) stands apart from these.
--
--   Prelude    Boolean tests, choice, lists over the native numbers, and rings.
--   Claim      rv9_claim_init, rv9_claim_resource, take_locked and rv9_claim_take, drop_locked and
--              rv9_claim_drop, rv9_claim_reserve, rv9_claim_release_pid and rv9_claim_failsafe.
--              Claim/Failsafe has rv9_claim_failsafes, rv9_claim_list and rv9_claim_owner.
--              Claim/History has the histories of opens, closes, reservations and releases.
--   Pipe       pipe_read, pipe_write and the readiness query. Pipe/Open has find, make, pipe_open
--              and pipe_close. Pipe/Fifo has the interleavings of readers and writers.
--   Rt         permille, response_bound, level_meets and place_rt.
--   Proc       find_locked, current_locked and next_pid_locked. Proc/Budget has charge_locked,
--              uncharge_locked, ended_locked and the refund of refuse_fork; Proc/Prune has
--              prune_locked; Proc/Admit has rt_load and admit_rt. Proc/Sample is a small table for
--              the tests.
--   Module     rv9_crc32, manifest_walk, rv9_mod_manifest_find with its typed reads, and
--              rv9_mod_verify. Module/Directory has dir_append, rv9_mod_find, and rv9_mod_link and
--              rv9_mod_unlink of an entry.
--   Heap       rv9k_heap_init, rv9k_alloc, merge_with_next and rv9k_free.
--   Sched      pick_next, age_threads, wake_sleepers, reap_dead, the priorities and the stack guard.
--              Sched/Kernel has the wait queues, pend_wake and drain_pending, reschedule, block_on in
--              two halves, rv9k_exit, rv9k_thread_kill, rv9k_thread_stop, rv9k_sleep_ticks and the
--              lock of the scheduler; Sched/Kernel/Create has rv9k_init, rv9k_thread_create,
--              rv9k_thread_release, a turn of rv9k_serve and rv9k_preempt_point;
--              Sched/Kernel/Moves has the steps of the whole kernel, and Sched/Kernel/Yields a series
--              of calls of rv9k_yield. Sched/Sync has the semaphores and mutexes, and Sched/Queue
--              the queues.
--   Pub        pfm_write store by store and pfm_read load by load, in any interleaving. Pub/Cells has
--              find_cell, make_cell, pfm_open, pfm_close, pfm_reserve_writer, pfm_provided,
--              pfm_remove and pfm_ended.
--
-- State. The list of claims is a list of records, each with its address, so that a pointer is a
-- number; memory that is allocated is an argument, and `none` is NULL. A pipe has its buffer as a
-- list of bytes, and a path names its pipe by the place in the table. An operation returns its
-- status and the state afterwards. Each critical section is one step; where a read or a write lets
-- go of the lock, the other processes are a list of turns, each with what it does to the pipe. A
-- thread of the kernel is a slot of its table and a wait queue a number, with the chain of slots
-- that wait on it; a call that blocks is cut at the switch, and what runs between is steps of the
-- kernel, or a list of turns. A publication is cut into its single stores, which a schedule puts
-- between the loads of a read.
--
-- Bounds. Counts are of 16 bits for claims and of 32 bits for the ends of a pipe, with the wrap-
-- around written out; sums of the analysis are of 64 bits. The analysis makes the 64 rounds of the
-- source. The placement has a round for each task and one more, of which each moves a task; pruning
-- has a round for each descriptor and one more, of which each forgets one. The search for a pid
-- makes the 65536 tries of the source. The notes that interrupts leave for the kernel are drained
-- in 16 rounds, the size of their ring. A read of a cell makes the 8 tries of the source. The walk
-- over a manifest has as many rounds as the module has bytes, and one more; each moves on.
--
-- The count of a semaphore, an int32_t, is a natural number here, and is meant to stay below 2 ^ 31,
-- past which the source overflows. What is freed is NULL or the payload of a block, since rv9k_free does not look whether
-- it is one.
--
-- Not modelled: log lines; the mount of a pipe device; fork, exit, wait and kill in proc.c; the
-- scan of the module store; the registers that a context switch saves; the watchers and the
-- directory of published cells; the other file managers, the drivers, the display, remote login and
-- speech, which are other parts of the system.
pub mod Prelude
pub mod Claim
pub mod Pipe
pub mod Rt
pub mod Proc
pub mod Module
pub mod Heap
pub mod Sched
pub mod Pub
