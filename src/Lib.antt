-- ===== src/Lib.antt =====
-- A verification of the aarch64 RTOS: a symmetric multiprocessor kernel for QEMU's `virt`
-- machine.
--
-- The program. Each of at most four cores has a run queue (kernel/sched.c) of at most eight
-- tasks (kernel/tcb.h) and a per-CPU block (kernel/percpu.h) with its current task. A timer
-- interrupt, a voluntary yield or a blocking primitive (kernel/sync.c) asks the active policy
-- for the next READY task; core 0 now and then moves a task from the longest queue to the
-- shortest one. Locks are test-and-set spinlocks with the IRQ mask (kernel/spinlock.h); output
-- goes through kernel/uart.c. Tasks submit copies to an accelerator over a ring and take its
-- completions from another one (kernel/accel.c); it is found on the PCI bus (kernel/pci.c), and
-- its interrupt, like the timer's, comes over the interrupt controller (kernel/gic.c) to the
-- handlers of kernel/main.c. The devices are outside the repository and are parameters.
--
-- The files. Prelude holds shared helpers and lemmas. Kernel is the state: task control blocks,
-- run queues, per-CPU blocks, each core's DAIF register, and the UART. Lock is the locks and
-- the IRQ mask as one core sees them, and Lock/Cores the instructions of `spin_lock` and
-- `spin_unlock` on any number of cores, in the self-test of kernel/smp.c. Uart is
-- kernel/uart.c, with Uart/Decimal for `uart_print_dec`, and Lines the lines `print_hexline`
-- and `print_decline` of kernel/main.c. Under Sched, for kernel/sched.c: Scan is the loops over
-- a queue, Policy the policies and the EWMA load, Run the operations on the whole kernel,
-- Locked what they do when the lock is free, Valid the well-formedness of the queues, Migrate
-- `sched_migrate`, Balance `sched_load_balance_pass`, Yield `yield`, AnyPolicy what the
-- scheduler asks of a policy, Bag the queues without their order, Race a migration between the
-- choice of a task and its start. Under Sync, for kernel/sync.c: Block is
-- `block_current_and_switch`, Sem the semaphore, Mutex the mutex, Event the event flags, Queue
-- the message queue of four slots; the last three have no lock, and their runs are those of one
-- core. Accel is the rings of kernel/accel.c, Dma the pending
-- requests of kernel/main.c with the dispatch of completions and the request of a worker, Task
-- `task_init` of kernel/task.c, Pci kernel/pci.c, Gic kernel/gic.c, and Irq the handlers
-- `irq_handler` and `secondary_irq` of kernel/main.c (Irq/Laws how one ends, Irq/Calm any
-- sequence of them), and Boot the bring-up: `smp_boot_secondaries` and `secondary_main` of
-- kernel/smp.c, `psci_cpu_on` of kernel/psci.c and the tasks of `kernel_main`, with Boot/Main
-- the whole of `kernel_main`: the search for the accelerator, its rings, bring-up and the
-- switch to the first worker. PingPong is the ping and pong tasks of kernel/smp.c, Worker
-- `worker_entry` of kernel/main.c, Report `busy_task_entry` with `smp_report_irq_counts` and
-- `dma_irq_report`. Debug is the history of switches and the hooks around `switch_to`
-- (`checked_switch_to` in Debug/Checked, `check_sp_write`, `trace_switch_resume`), with
-- Debug/Sweep and Debug/Corrupt for the checks of `irq_handler` under DEBUG_HOOKS, Crash the
-- dump of `sync_exception_handler_full`; for these, Lines/Printer says what a program that only
-- prints is, and Lines/Report what the bytes of a report of several lines are. Switch is
-- `switch_to` of kernel/switch.S, instruction by instruction, with the first switch to a new
-- task. Tests has concrete states, runs of the definitions and the theorems at those states.
--
-- The correspondence. A function of the C code has its name here, and takes the state and gives
-- it back; `me` is the core that runs it. A pointer to a task is a number, 0 for null; an array
-- is a function. A 32-bit `unsigned int` wraps by `% 2 ^ 32`, an `unsigned long` by `% 2 ^ 64`.
-- A loop over the slots of a queue recurses on the number of slots left, and so does the scan
-- of the PCI bus; the loops that fill a buffer are `none` when they leave it. An operation is
-- one step of one core while the others stand still; a lock that is held then is never
-- released, so that taking it is `none`, and the theorems say which locks they take to be free.
-- Only in Lock/Cores is a step one instruction, and a run any interleaving of
-- them; in PingPong a step is one statement of one of two tasks, and the kernel may be in any
-- state at each. A task that gives up its core stops at `switch_to`: the result says which task
-- goes on. The unbounded drain of the completion ring recurses on fuel, and a theorem says how
-- much is enough. What a device answers, a status word, an interrupt's number or the
-- configuration space behind the `Bus` of Pci, is an argument.
--
-- Not modelled: the interleaving of cores inside an operation other than the spinlock's (in the
-- mutex, the event flags and the queue nothing but the IRQ mask of the calling core prevents
-- it), weak memory, the calls of kernel/switch.S to the hooks, the code under GIC_PROBE,
-- DMA_IRQ_CPU and DISABLE_REAL_DMA, `secondary_entry_c`, which nothing calls, the report of the
-- self-test and the test tasks that count, boot/boot.S and kernel/vectors.S. In Boot, each core
-- that comes up registers its tasks before the next one starts.
pub mod Prelude
pub mod Kernel
pub mod Lock
pub mod Uart
pub mod Sched
pub mod Sync
pub mod Accel
pub mod Task
pub mod Dma
pub mod Lines
pub mod Pci
pub mod Gic
pub mod Irq
pub mod Boot
pub mod Switch
pub mod Debug
pub mod Crash
pub mod PingPong
pub mod Worker
pub mod Report
pub mod Tests
