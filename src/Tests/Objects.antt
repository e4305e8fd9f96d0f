-- ===== src/Tests/Objects.antt =====
-- The theorems on the mutex, the event and the message queue at concrete runs.
use aarch64_rtos.Prelude.{◌≡◌, ◌≤◌, refl, some, [], ◌∷◌, ◌++◌, length}
use aarch64_rtos.Kernel.{Kernel}
use aarch64_rtos.Lock.{irq_disable_save, irq_restore}
use aarch64_rtos.Sync.Block.{returns}
use aarch64_rtos.Sync.Mutex.{Mutex}
use aarch64_rtos.Sync.Mutex.Exclusion.{start}
use aarch64_rtos.Sync.Queue.{Queue, queue_cap, queue_init, queue_send, wake_waiter}
use aarch64_rtos.Sync.Queue.Contents.{contents}
use aarch64_rtos.Sync.Queue.Fifo.{QueueRun, start, send, queue_fifo, with_item}
use aarch64_rtos.Sync.Event.{Event, event_wait, event_satisfied}
use aarch64_rtos.Sync.Event.Awake.{start}
use aarch64_rtos.Tests.Fixtures.{demo}

-- CPU1 after an operation that restores the IRQ mask.
abbrev after_1 : Kernel
after_1 = irq_restore 1 0 (irq_disable_save 1 demo).1

abbrev taken : Mutex
taken = record { locked = 1; owner = 2; waiter = 0 }

abbrev empty : Queue
empty = record { buf = λ _. 9; head = 0; tail = 0; count = 0; send_waiter = 0; recv_waiter = 0 }

one_sent : QueueRun 1 (7 ∷ []) [] (with_item 7 empty)
unfolding queue_init queue_send wake_waiter irq_disable_save
one_sent = send 7 demo after_1 (start empty) refl

queue_fifo_example :
    (7 ∷ [] ≡ [] ++ contents (with_item 7 empty))
    × (length (contents (with_item 7 empty)) ≤ queue_cap)
queue_fifo_example = queue_fifo 1 (7 ∷ []) [] (with_item 7 empty) one_sent

abbrev set_1 : Event
set_1 = record { flags = 1; waiter = 0; wait_mask = 0; wait_all = 0; wake_result = 0 }

abbrev waited_1 : Event
waited_1 = record set_1 { wait_mask = 1; wait_all = 0 }

comes_back : event_wait 1 set_1 1 0 demo ≡ some (returns, some 1, waited_1, after_1)
unfolding event_wait event_satisfied irq_disable_save
comes_back = refl

-- Task 2 of CPU1 waits for one bit that is not there.
abbrev sleeping : Event
sleeping = record { flags = 0; waiter = 2; wait_mask = 1; wait_all = 0; wake_result = 0 }
