-- ===== src/Tests/Switches.antt =====
-- A switch away and back, and the first switch to a new task.
use aarch64_rtos.Prelude.{
  ℕ, ◌+◌, ◌-◌, ◌%◌, ◌≤◌, ◌≡◌, refl, ap, inl, inr, arith, ◌==◌, if◌then◌else◌,
}
use aarch64_rtos.Kernel.{Tcb}
use aarch64_rtos.Task.{stack_words, stack_address, word_at, task_init}
use aarch64_rtos.Switch.{Cpu, switch_to}
use aarch64_rtos.Switch.Round.{Resumes, switch_round_trip}
use aarch64_rtos.Switch.First.{first_switch}
use aarch64_rtos.Tests.Fixtures.{tcb}

abbrev leaving : Cpu
leaving = record {
  x = λ i. if i == 0 then 0x40001000 else 1000 + i;
  sp = 0x40001F00;
  daif = 0;
  mem = λ _. 5;
}

abbrev coming_back : Cpu
coming_back = record {
  x = λ i. if i == 0 then 0x40004000 else if i == 1 then (switch_to leaving).mem 0x40001000 else i;
  sp = 0x40004F00;
  daif = 128;
  mem = (switch_to leaving).mem;
}

switch_round_trip_example : Resumes leaving (switch_to coming_back)
switch_round_trip_example =
    switch_round_trip leaving coming_back (omega arith) (omega arith) (omega arith) (omega arith)
      (inl (omega arith)) (inr (omega arith)) (inr (omega arith)) refl (λ a le lt. refl)

abbrev new_task : Tcb
new_task = task_init 0x4007F000 0x40001000 0x40080000 (tcb 0 0 0 0)

abbrev starting : Cpu
starting = record {
  x = λ i. if i == 0 then 0x40004000 else if i == 1 then new_task.sp else i;
  sp = 0x40004F00;
  daif = 128;
  mem = λ a. new_task.stack (word_at 0x40001000 a);
}

first_switch_example :
    let r = switch_to starting in
    (r.x 30 ≡ 0x4007F000)
    × (r.daif ≡ 0)
    × ((i : ℕ) → 19 ≤ i → i ≤ 29 → r.x i ≡ 0)
    × (r.sp ≡ stack_address 0x40001000 (stack_words - 1))
    × (r.sp % 16 ≡ 0)
unfolding task_init
first_switch_example =
    first_switch 0x4007F000 0x40001000 0x40080000 (tcb 0 0 0 0) starting refl (omega arith)
      (omega arith) (omega arith) refl (inr (omega arith)) (inr (omega arith))
      (λ i lt.
        let place : word_at 0x40001000 (stack_address 0x40001000 i) ≡ i = omega arith in
        ap new_task.stack place)
