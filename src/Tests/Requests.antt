-- ===== src/Tests/Requests.antt =====
-- A worker's request, and the dispatch of its completion.
use aarch64_rtos.Prelude.{◌≡◌, ◌≢◌, refl, some, none, arith, update}
use aarch64_rtos.Lock.{irq_disable_save, irq_restore, spin_lock, spin_unlock}
use aarch64_rtos.Accel.{
  Completion, reg_write, advance, push_copy, accel_submit_copy, accel_drain_completions_multi,
}
use aarch64_rtos.Sync.Sem.{sem_init, sem_lock_irqsave, sem_signal, sem_post}
use aarch64_rtos.Dma.{
  Dma, find_unused, pending_register, find_waiting, finish, deliver, deliver_all,
  dispatch_available_completions,
}
use aarch64_rtos.Dma.Worker.{
  submit_request, read_result, DmaRun, begin, request, dispatch, read_result_lem,
}
use aarch64_rtos.Tests.Devices.{dma, free_slot, two_ready}

abbrev empty_table : Dma
empty_table = record dma { pending = λ _. free_slot }

abbrev requested : Dma
requested = elim (submit_request 0 4096 8192 0 empty_table) [
  | some (id, d) ↦ d
  | none ↦ empty_table
]

abbrev answered : Dma
answered = elim (dispatch_available_completions 1 two_ready requested) [
  | some d ↦ d
  | none ↦ requested
]

one_request : DmaRun empty_table 1 requested
unfolding submit_request accel_submit_copy push_copy reg_write irq_disable_save irq_restore
    spin_lock spin_unlock
one_request = request 0 0 4096 8192 0 1 empty_table requested begin (omega arith) refl

one_answer : DmaRun empty_table 1 answered
unfolding submit_request accel_submit_copy push_copy reg_write irq_disable_save irq_restore
    spin_lock spin_unlock dispatch_available_completions accel_drain_completions_multi advance
    deliver_all deliver find_waiting finish pending_register find_unused sem_post sem_signal
    sem_lock_irqsave sem_init update
one_answer = dispatch 1 1 two_ready requested answered one_request refl

is_done : (answered.pending 0).done ≢ 0
unfolding submit_request accel_submit_copy push_copy reg_write irq_disable_save irq_restore
    spin_lock spin_unlock dispatch_available_completions accel_drain_completions_multi advance
    deliver_all deliver find_waiting finish pending_register find_unused sem_post sem_signal
    sem_lock_irqsave sem_init update
is_done = omega arith

read_result_example :
    (c : Completion) × (read_result answered.pending (answered.pending 0).cmd_id ≡ some c)
    × (c.cmd_id ≡ (answered.pending 0).cmd_id)
read_result_example =
    read_result_lem empty_table answered 1 0 (λ j lt. refl) refl one_answer (omega arith) is_done
