-- ===== src/Worker/Start.antt =====
-- What a worker asks for before it waits (`worker_entry` of kernel/main.c).
use aarch64_rtos.Prelude.{
  ℕ, ==→eq, ==→ne, subst, bind-some, zero, suc, ◌+◌, ◌%◌, ◌^◌, ◌≤◌, ◌<◌, ◌≡◌, ◌≢◌, ◌⊎◌, ◌>>=◌, refl,
  sym, ap, false, Bool-cases, inl, inr, Option, some, List, [], ◌∷◌, ◌++◌, ◌==◌, update, update-at,
  update-update, update_self, codes, arith, ℕ_discrete,
}
use aarch64_rtos.Kernel.{Kernel}
use aarch64_rtos.Lock.{spin_lock, spin_unlock, irq_disable_save, irq_restore}
use aarch64_rtos.Uart.Decimal.{value_from}
use aarch64_rtos.Uart.Laws.{uart_puts_lem, klog_lem}
use aarch64_rtos.Lines.Buffer.{text-NoNul}
use aarch64_rtos.Lines.Laws.{hex_value, print_hexline_lem, print_decline_lem}
use aarch64_rtos.Sched.Run.{this_cpu, current}
use aarch64_rtos.Sync.Sem.{sem_init}
use aarch64_rtos.Accel.{push_copy, accel_submit_copy, dma_accel_queue_depth, reg_write}
use aarch64_rtos.Accel.Submit.{command}
use aarch64_rtos.Dma.{Dma, num_workers, pending_register}
use aarch64_rtos.Dma.Worker.{test_len, submit_request}
use aarch64_rtos.Boot.{Image, task_worker}
use aarch64_rtos.Debug.{find_worker, worker_id_of, minus_one}
use aarch64_rtos.Worker.{
  Workers, Buffers, WorkerEnd, fatal, submitted, set_kernel, pattern, fill, runs_on, ask,
  request_copy, report_unknown, worker_start,
}
use aarch64_rtos.Dma.Table.{Registered, pending_register-Registered}

-- The worker's buffers after the first `n` bytes.
record Filled (id n : ℕ) (w w' : Workers) : Type 0 where
  src : (i : ℕ) → i < n → w'.src_buf id i ≡ pattern id i
  dst : (i : ℕ) → i < n → w'.dst_buf id i ≡ 0
  rest : (w'.dma ≡ w.dma) × (w'.loops_seen ≡ w.loops_seen)

fill-Filled :
    (id rounds i : ℕ) (w₀ w : Workers)
    → Filled id i w₀ w
    → Filled id (i + rounds) w₀ (fill id rounds i w)
unfolding fill update
fill-Filled id zero i w₀ w f = record {
  src = λ j lt. f.src j (omega (arith, lt));
  dst = λ j lt. f.dst j (omega (arith, lt));
  rest = f.rest;
}
fill-Filled id (suc rounds) i w₀ w f =
    let next : Workers = record w {
      src_buf = update w.src_buf id (update (w.src_buf id) i (pattern id i));
      dst_buf = update w.dst_buf id (update (w.dst_buf id) i 0);
    } in
    let g = fill-Filled id rounds (i + 1) w₀ next (record {
      src = λ j lt. ground (arith, lt, f.src j);
      dst = λ j lt. ground (arith, lt, f.dst j);
      rest = f.rest;
    }) in
    record {
      src = λ j lt. g.src j (omega (arith, lt));
      dst = λ j lt. g.dst j (omega (arith, lt));
      rest = g.rest;
    }

-- With the lock free, the request is submitted under its number, and the kernel is as it was.
submit_request-some :
    (me src dst sem : ℕ) (d : Dma)
    → d.accel_lock ≡ 0
    → let out = push_copy src dst test_len d.accel in
      submit_request me src dst sem d
      ≡ some (
        out.0,
        record d { accel_lock = 0; accel = out.1; pending = pending_register out.0 sem d.pending },
      )
unfolding submit_request accel_submit_copy spin_lock spin_unlock irq_disable_save irq_restore
submit_request-some me src dst sem d free =
    rw free (simp (update-update, update_self d.kernel.daif me))

-- The locks on the way to the wait are free.
pub record CanAsk (d : Dma) : Type 0 where
  pub quiet : d.kernel.uart_lock ≡ 0
  pub free : d.accel_lock ≡ 0

-- What a worker with number `id` has asked for before it waits for command `cmd`.
pub record Asked (at : Buffers) (me id cmd : ℕ) (d d' : Dma) : Type 0 where
  pub copy :
      d'.accel.sq_ring (d.accel.sq_tail_local % dma_accel_queue_depth)
      ≡ command (record { src = at.src id; dst = at.dst id; len = test_len }) cmd
  pub doorbell : d'.accel.regs 0x4C ≡ cmd
  pub entry : Registered cmd id d.pending d'.pending
  pub sem : d'.sems id ≡ record { count = 0; waiter = 0; lock = 0 }
  pub free : d'.accel_lock ≡ 0
  pub own : List ℕ
  pub number : List ℕ
  pub own_value : value_from 0 own ≡ id
  pub number_value : value_from 0 number ≡ cmd
  pub prints : d'.kernel ≡ record d.kernel {
    uart_out =
        d.kernel.uart_out
        ++ codes "D2b: worker "
        ++ own
        ++ runs_on ((this_cpu me d.kernel).cpu_id % 4)
        ++ (codes "P4 M7: worker submitted cmd_id=" ++ number ++ (13 ∷ 10 ∷ []));
  }

ask_lem :
    (at : Buffers) (me id : ℕ) (w : Workers)
    → id < 3
    → CanAsk w.dma
    → (cmd : ℕ) × (d' : Dma) × (ask at me id w ≡ some (submitted id cmd, record w { dma = d' }))
      × Asked at me id cmd w.dma d'
unfolding ask push_copy reg_write sem_init
ask_lem at me id w few c =
    let k = w.dma.kernel in
    let cpu = (this_cpu me k).cpu_id in
    let sems = update w.dma.sems id (sem_init 0) in
    let w1 : Workers = record w { dma = record w.dma { sems = sems } } in
    let (cmd, a) = push_copy (at.src id) (at.dst id) test_len w.dma.accel in
    let (own, _, v1, e1) =
      klog_lem me (codes "D2b: worker ") id (runs_on (cpu % 4)) k c.quiet (omega arith) in
    let o1 = k.uart_out ++ codes "D2b: worker " ++ own ++ runs_on (cpu % 4) in
    let d1 : Dma = record w.dma { sems = sems; kernel = record k { uart_out = o1 } } in
    let e2 = submit_request-some me (at.src id) (at.dst id) id d1 c.free in
    let (number, e3, _, v3) =
      print_decline_lem (λ _ _. 0) me cmd (codes "P4 M7: worker submitted cmd_id=")
        (record k { uart_out = o1 }) (text-NoNul (codes "P4 M7: worker submitted cmd_id=") refl)
        c.quiet (omega arith) in
    let w2 : Workers = record w {
      dma = record d1 {
        accel_lock = 0;
        accel = a;
        pending = pending_register cmd id w.dma.pending;
      };
    } in
    let d2 : Dma = record w2.dma {
      kernel = record k {
        uart_out = o1 ++ (codes "P4 M7: worker submitted cmd_id=" ++ number ++ (13 ∷ 10 ∷ []));
      };
    } in
    (
      cmd,
      d2,
      bind-some _ (ap (λ o. o >>= λ k. some (set_kernel k w1)) e1)
          (bind-some _ e2 (bind-some _ (ap (λ o. o >>= λ k. some (set_kernel k w2)) e3) refl)),
      record {
        copy = update-at w.dma.accel.sq_ring _ _;
        doorbell = update-at w.dma.accel.regs 0x4C cmd;
        entry = pending_register-Registered cmd id w.dma.pending;
        sem = update-at w.dma.sems id _;
        free = refl;
        own = own;
        number = number;
        own_value = v1;
        number_value = v3;
        prints = refl;
      },
    )

-- The task is a worker's, and which; or no worker's.
find_worker-cases :
    (img : Image) (t rounds i : ℕ)
    → ((find_worker img t rounds i ≡ minus_one)
        × ((j : ℕ) → i ≤ j → j < i + rounds → img.address (task_worker j) ≢ t))
      ⊎ (id : ℕ) × (find_worker img t rounds i ≡ id)
        × (id < i + rounds)
        × (img.address (task_worker id) ≡ t)
unfolding find_worker
find_worker-cases img t zero i = inl (refl, λ j le lt. absurd (omega arith))
find_worker-cases img t (suc rounds) i = elim (Bool-cases (img.address (task_worker i) == t)) [
  | inl z ↦ inr (i, rw z refl, omega arith, ==→eq _ _ z)
  | inr z ↦ elim (find_worker-cases img t rounds (i + 1)) [
    | inl (e, others) ↦ inl (
      rw z e,
      λ j le lt. elim (ℕ_discrete j i) [
        | yes q ↦ rw q (==→ne _ _ z)
        | no q ↦ others j (omega arith) (omega arith)
      ],
    )
    | inr (id, e, lt, at) ↦ inr (id, rw z e, omega (arith, lt), at)
  ]
]

-- Where `worker_entry` stands first: in the loop behind its report, with nothing changed but the output,
-- or before the wait for the copy of its buffer.
pub data Started (img : Image) (at : Buffers) (me : ℕ) (w : Workers)
    : Option (WorkerEnd × Workers) → Type 0 where
  unknown :
      ((id : ℕ) → id < 3 → img.address (task_worker id) ≢ current me w.dma.kernel)
      → (digits : List ℕ) → hex_value 0 digits ≡ current me w.dma.kernel
      → (k' : Kernel)
      → k' ≡ record w.dma.kernel {
        uart_out =
            w.dma.kernel.uart_out
            ++ codes "FATAL: worker_id_of(current) returned -1 in worker_entry!\r\n"
            ++ (codes "  current ptr=" ++ codes "0x" ++ digits ++ (13 ∷ 10 ∷ []));
      }
      → Started img at me w (some (fatal, set_kernel k' w))
  asked :
      (id cmd : ℕ) (w' : Workers)
      → id < 3
      → img.address (task_worker id) ≡ current me w.dma.kernel
      → ((i : ℕ) → i < test_len → w'.src_buf id i ≡ pattern id i)
      → ((i : ℕ) → i < test_len → w'.dst_buf id i ≡ 0)
      → Asked at me id cmd w.dma w'.dma
      → Started img at me w (some (submitted id cmd, w'))

request_copy-Started :
    (img : Image) (at : Buffers) (me id : ℕ) (w : Workers)
    → id < 3
    → img.address (task_worker id) ≡ current me w.dma.kernel
    → CanAsk w.dma
    → Started img at me w (request_copy at me id w)
unfolding request_copy
request_copy-Started img at me id w few mine c =
    let w1 = fill id test_len 0 w in
    let f = fill-Filled id test_len 0 w w (record {
      src = λ i lt. absurd (omega (arith, lt));
      dst = λ i lt. absurd (omega (arith, lt));
      rest = (refl, refl);
    }) in
    let same = f.rest.0 in
    let (cmd, d, e, a) = ask_lem at me id w1 few (subst CanAsk (sym same) c) in
    subst (Started img at me w) (sym e) (
      asked id cmd (record w1 { dma = d }) few mine f.src f.dst
        (subst (λ d0. Asked at me id cmd d0 d) same a))

report_unknown-Started :
    (img : Image) (at : Buffers) (me : ℕ) (w : Workers)
    → ((id : ℕ) → id < 3 → img.address (task_worker id) ≢ current me w.dma.kernel)
    → w.dma.kernel.uart_lock ≡ 0
    → current me w.dma.kernel < 2 ^ 64
    → Started img at me w (report_unknown me w)
unfolding report_unknown
report_unknown-Started img at me w none_of free small =
    let k = w.dma.kernel in
    let text = codes "FATAL: worker_id_of(current) returned -1 in worker_entry!\r\n" in
    let k1 : Kernel = record k { uart_out = k.uart_out ++ text } in
    let w1 : Workers = set_kernel k1 w in
    let (digits, e2, _, v) =
      print_hexline_lem (λ _. 0) me (current me k) (codes "  current ptr=") k1
        (text-NoNul (codes "  current ptr=") refl) free small in
    let line = codes "  current ptr=" ++ codes "0x" ++ digits ++ (13 ∷ 10 ∷ []) in
    subst (Started img at me w)
      (sym (
        bind-some _ (ap (λ o. o >>= λ k. some (set_kernel k w)) (uart_puts_lem me text k free))
          (bind-some _ (ap (λ o. o >>= λ k. some (set_kernel k w1)) e2) refl)))
      (unknown none_of digits v (record k1 { uart_out = k1.uart_out ++ line }) refl)

-- With the locks of the accelerator and the UART free, the task of a worker comes to its `sem_wait`: it
-- has filled its source with its own pattern and cleared its destination, the ring holds the command to
-- copy the 128 bytes between the two, the doorbell is rung, a slot of the table that was free has the
-- command with the worker's semaphore, waiting, and the others are as they were (or no slot was free,
-- and the table is as it was), the semaphore has count 0 and no waiter, and the two lines with the
-- worker's number and the command's are printed. A task that is no worker's prints its report with the
-- task's address, and stops with nothing else changed.
pub worker_start_lem :
    (img : Image) (at : Buffers) (me : ℕ) (w : Workers)
    → CanAsk w.dma
    → current me w.dma.kernel < 2 ^ 64
    → Started img at me w (worker_start img at me w)
unfolding worker_start worker_id_of
worker_start_lem img at me w c small =
    let t = current me w.dma.kernel in
    elim (find_worker-cases img t num_workers 0) [
      | inl (e, none_of) ↦
          rw e
            (report_unknown-Started img at me w (λ i lt. none_of i (omega arith) lt) c.quiet small)
      | inr (id, e, lt, mine) ↦
          let known : (id == minus_one) ≡ false = ground (arith, lt) in
          rw (e, known) (request_copy-Started img at me id w lt mine c)
    ]
