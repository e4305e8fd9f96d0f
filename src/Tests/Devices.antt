-- ===== src/Tests/Devices.antt =====
-- The theorems on the accelerator's rings, task creation and `yield` at concrete inputs.
use aarch64_rtos.Prelude.{ℕ, ◌+◌, ◌%◌, ◌≡◌, refl, ap, arith}
use aarch64_rtos.Lock.{irq_disable_save, irq_restore}
use aarch64_rtos.Accel.{
  Cmd, Completion, Accel, Device, push_copy, accel_submit_copy, accel_drain_completions_multi,
}
use aarch64_rtos.Accel.Drain.{IsProducing, Drained, drain_lem}
use aarch64_rtos.Accel.Polled.{DrainedAll, drain_all}
use aarch64_rtos.Accel.Submit.{Request, SubmitRun, start, submit, IsSubmitted, submissions}
use aarch64_rtos.Task.{task_init, IsFirstFrame, task_init_lem}
use aarch64_rtos.Sync.Sem.{sem_init}
use aarch64_rtos.Dma.{Pending, Dma, pending_register}
use aarch64_rtos.Tests.Fixtures.{demo, tcb}

abbrev completion : ℕ → Completion
completion n = record { cmd_id = n + 1; status = 0; reserved = 0 }

-- The device has produced two completions.
abbrev pub two_ready : ℕ → Device
two_ready i = record { cq_tail = 2; cq_ring = completion }

two_ready-IsProducing : IsProducing completion (λ i. 2) 0 two_ready
two_ready-IsProducing = record {
  tail = λ i. refl;
  grows = λ i. omega arith;
  begins = omega arith;
  bounded = λ i. omega arith;
  stored = λ i n le lt. let e : n % 16 ≡ n = omega arith in ap completion e;
}

abbrev no_command : Cmd
no_command = record {
  opcode = 0;
  len = 0;
  src_addr = 0;
  dst_addr = 0;
  cmd_id = 0;
  src2_addr = 0;
  scalar_bits = 0;
  reserved = 0;
}

abbrev idle : Accel
idle = record {
  regs = λ _. 0;
  sq_ring = λ _. no_command;
  sq_tail_local = 0;
  cq_head_local = 0;
  last_completion = completion 0;
}

drain_example : Drained completion (λ i. 2) 0 0 3 (accel_drain_completions_multi two_ready 0 3 idle)
drain_example = drain_lem completion (λ i. 2) 0 two_ready two_ready-IsProducing 3 idle refl

abbrev requests : ℕ → Request
requests n = record { src = 4096; dst = 8192 + n; len = 128 }

drain_all_example : DrainedAll two_ready (λ i. 2) 0 0 3 idle
drain_all_example =
    drain_all completion (λ i. 2) 0 two_ready two_ready-IsProducing 2 (λ i. omega arith) 3 idle refl
      (omega arith)

abbrev one_submitted : Accel
one_submitted = (push_copy 4096 8192 128 idle).1

one_submission : SubmitRun requests idle 1 one_submitted
unfolding accel_submit_copy push_copy irq_disable_save irq_restore
one_submission = submit 1 1 demo (irq_restore 1 0 (irq_disable_save 1 demo).1) start refl

submissions_example : IsSubmitted requests 1 one_submitted
submissions_example = submissions requests idle refl 1 one_submitted one_submission

task_init_example :
    IsFirstFrame 0x40001000 0x40080000 0x40002000
      (task_init 0x40001000 0x40080000 0x40002000 (tcb 0 0 0 0))
task_init_example = task_init_lem 0x40001000 0x40080000 0x40002000 (tcb 0 0 0 0) refl

abbrev pub free_slot : Pending
free_slot = record { cmd_id = 0; sem = 0; result = completion 9; used = 0; done = 0 }

abbrev pub dma : Dma
dma = record {
  accel_lock = 0;
  accel = idle;
  pending = pending_register 1 0 (λ _. free_slot);
  sems = λ _. sem_init 0;
  kernel = demo;
}
