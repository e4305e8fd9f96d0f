-- ===== src/Tests/Fixtures.antt =====
-- A kernel with three cores: task 1 runs on CPU0, tasks 2, 3, 4 are in the queue of CPU1, where 2 runs
-- and 4 is pinned, and CPU2 has task 5 alone.
use aarch64_rtos.Prelude.{ℕ, ◌+◌, [], ◌==◌, if◌then◌else◌}
use aarch64_rtos.Kernel.{Tcb, Runqueue, CpuLocal, Kernel}

abbrev pub tcb : ℕ → ℕ → ℕ → ℕ → Tcb
tcb state load cpu pinned = record {
  sp = 0;
  stack = λ _. 0;
  name = "task";
  entry = 0;
  state = state;
  ewma_load = load;
  cpu = cpu;
  pinned = pinned;
}

abbrev pub tcbs : ℕ → Tcb
tcbs t =
    if t == 1
    then tcb 0 900 0 0
    else if t == 2
    then tcb 0 997 1 0
    else if t == 3
    then tcb 0 300 1 0
    else if t == 4
    then tcb 0 510 1 1
    else tcb 0 0 2 0

abbrev pub queue : (ℕ → ℕ) → ℕ → Runqueue
queue tasks n = record {
  tasks = tasks;
  num_tasks = n;
  current_idx = 0;
  select_count = λ _. 0;
  lock = 0;
}

abbrev pub runqueues : ℕ → Runqueue
runqueues c =
    if c == 0
    then queue (λ _. 1) 1
    else if c == 1
    then queue (λ i. i + 2) 3
    else if c == 2
    then queue (λ _. 5) 1
    else queue (λ _. 0) 0

abbrev pub local : ℕ → CpuLocal
local c = record {
  cpu_id = c;
  curr = (if c == 0 then 1 else if c == 1 then 2 else if c == 2 then 5 else 0);
  irq_count = 0;
  sched_calls = 0;
  unexpected_switch = 0;
  context_switches = 0;
}

abbrev pub demo : Kernel
demo = record {
  tcbs = tcbs;
  runqueues = runqueues;
  cpu_locals = local;
  daif = λ _. 0;
  smp_online = 3;
  uart_lock = 0;
  uart_out = [];
}
