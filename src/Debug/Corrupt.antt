-- ===== src/Debug/Corrupt.antt =====
-- The report that `irq_handler` of kernel/main.c makes with DEBUG_HOOKS when the stack pointer of the
-- task that it switched away from lies outside that task's stack.
use aarch64_rtos.Prelude.{
  ℕ, zero, suc, ◌+◌, ◌-◌, ◌^◌, ◌<◌, ◌≡◌, ◌>>=◌, refl, Bool-cases, inl, inr, Option, some, ◌==◌,
  if◌then◌else◌, arith, codes,
}
use aarch64_rtos.Kernel.{Kernel, Tcb}
use aarch64_rtos.Uart.{uart_puts}
use aarch64_rtos.Lines.Printer.{IsPrinter, then-IsPrinter, some-IsPrinter, uart_puts-IsPrinter}
use aarch64_rtos.Task.{stack_words, stack_address, canary}
use aarch64_rtos.Dma.{num_workers}
use aarch64_rtos.Boot.{Image, task_worker, busy_task}
use aarch64_rtos.Debug.{
  Hook, passes, halts, SwitchHist, hexline, decline, widen, worker_id_of, in_stack,
  dump_switch_hist,
}
use aarch64_rtos.Debug.Hooks.{
  InStack, IsWords, Hooked, goes_on, stays, in_stack-InStack, in_stack-out, hexline-IsPrinter,
  decline-IsPrinter, dump_switch_hist-IsPrinter, worker_id_of-small,
}

abbrev pub is_intact : ℕ → ℕ
is_intact word = if word == canary then 1 else 0

-- What the two words at the ends of the stack hold.
unfoldable pub report_canaries : ℕ → Tcb → Kernel → Option Kernel
report_canaries me b k = do
  let lo = b.stack 0
  let hi = b.stack (stack_words - 1)
  k1 ← hexline me (codes "CORRUPT sp: prev->stack[0] (low canary)=") lo k
  k2 ← hexline me (codes "CORRUPT sp: prev->stack[top] (high canary)=") hi k1
  k3 ← decline me (codes "CORRUPT sp: low canary intact (1=yes)=") (widen (is_intact lo)) k2
  decline me (codes "CORRUPT sp: high canary intact (1=yes)=") (widen (is_intact hi)) k3

-- The loop over the workers' stacks, with `rounds` workers left
unfoldable pub report_matches : Image → ℕ → ℕ → ℕ → ℕ → Kernel → Option Kernel
report_matches img me sp zero i k = some k
report_matches img me sp (suc rounds) i k = do
  k1 ←
      if in_stack (img.address (task_worker i)) sp
      then decline me (codes "CORRUPT sp: MATCH worker=") (widen i) k
      else some k
  report_matches img me sp rounds (i + 1) k1

unfoldable pub report_busy : Image → ℕ → ℕ → Kernel → Option Kernel
report_busy img me sp k =
    if in_stack (img.address busy_task) sp
    then uart_puts me (codes "CORRUPT sp: matches busy_task's valid range\r\n") k
    else some k

unfoldable pub report_stacks : ℕ → ℕ → ℕ → ℕ → Kernel → Option Kernel
report_stacks me prev next next_sp k = do
  k1 ← hexline me (codes "CORRUPT sp: next->sp for comparison=") next_sp k
  k2 ← hexline me (codes "CORRUPT sp: &prev->stack[0]=") (stack_address prev 0) k1
  hexline me (codes "CORRUPT sp: &next->stack[0]=") (stack_address next 0) k2

-- `mpidr` is what the core's register holds.
unfoldable pub report_switched :
    Image → ℕ → ℕ → ℕ → ℕ → SwitchHist → Tcb → Tcb → Kernel → Option Kernel
report_switched img me mpidr prev next h b c k = do
  k1 ← hexline me (codes "CORRUPT sp after irq_handler switch_to, sp=") b.sp k
  k2 ← hexline me (codes "CORRUPT sp: MPIDR_EL1 of offending core=") mpidr k1
  k3 ← decline me (codes "CORRUPT sp: prev worker id=") (widen (worker_id_of img prev)) k2
  k4 ← report_canaries me b k3
  k5 ← report_matches img me b.sp num_workers 0 k4
  k6 ← decline me (codes "CORRUPT sp: next worker id=") (widen (worker_id_of img next)) k5
  k7 ← report_busy img me b.sp k6
  k8 ← report_stacks me prev next c.sp k7
  dump_switch_hist me h k8

unfoldable pub after_irq_switch : Image → ℕ → ℕ → ℕ → ℕ → SwitchHist → Kernel → Option (Hook Kernel)
after_irq_switch img me mpidr prev next h k =
    let report = report_switched img me mpidr prev next h (k.tcbs prev) (k.tcbs next) k >>= λ k1.
    some (halts k1) in
    if in_stack prev (k.tcbs prev).sp then some (passes k) else report

report_canaries-IsPrinter :
    (me : ℕ) (b : Tcb) → ((i : ℕ) → b.stack i < 2 ^ 64) → IsPrinter (report_canaries me b)
unfolding report_canaries
report_canaries-IsPrinter me b w =
    let lo = b.stack 0 in
    let hi = b.stack (stack_words - 1) in
    then-IsPrinter _ _
      (hexline-IsPrinter me (codes "CORRUPT sp: prev->stack[0] (low canary)=") lo refl (w 0))
      (then-IsPrinter _ _
        (hexline-IsPrinter me (codes "CORRUPT sp: prev->stack[top] (high canary)=") hi refl (w _))
        (then-IsPrinter _ _
          (decline-IsPrinter me (codes "CORRUPT sp: low canary intact (1=yes)=") (is_intact lo) refl
            (ground arith))
          (decline-IsPrinter me (codes "CORRUPT sp: high canary intact (1=yes)=") (is_intact hi)
            refl (ground arith))))

report_matches-IsPrinter :
    (img : Image) (me sp rounds i : ℕ)
    → i + rounds < 2 ^ 32
    → IsPrinter (report_matches img me sp rounds i)
unfolding report_matches
report_matches-IsPrinter img me sp zero i lt = some-IsPrinter
report_matches-IsPrinter img me sp (suc rounds) i lt =
    then-IsPrinter
      (λ k.
        if in_stack (img.address (task_worker i)) sp
        then decline me (codes "CORRUPT sp: MATCH worker=") (widen i) k
        else some k)
      _
      (λ k free. elim (Bool-cases (in_stack (img.address (task_worker i)) sp)) [
        | inl z ↦ rw z (
            decline-IsPrinter me (codes "CORRUPT sp: MATCH worker=") i refl (omega (arith, lt)) k
              free)
        | inr z ↦ rw z (k.uart_out, refl)
      ])
      (report_matches-IsPrinter img me sp rounds (i + 1) (omega (arith, lt)))

report_busy-IsPrinter : (img : Image) (me sp : ℕ) → IsPrinter (report_busy img me sp)
unfolding report_busy
report_busy-IsPrinter img me sp k free = elim (Bool-cases (in_stack (img.address busy_task) sp)) [
  | inl z ↦ rw z (uart_puts-IsPrinter me _ k free)
  | inr z ↦ rw z (k.uart_out, refl)
]

-- The words of the two blocks and their addresses fit 64 bits.
pub record HasWords (prev next mpidr : ℕ) (k : Kernel) : Type 0 where
  pub sp : (t : ℕ) → (k.tcbs t).sp < 2 ^ 64
  pub stack : (i : ℕ) → (k.tcbs prev).stack i < 2 ^ 64
  pub prev_at : stack_address prev 0 < 2 ^ 64
  pub next_at : stack_address next 0 < 2 ^ 64
  pub core : mpidr < 2 ^ 64

report_switched-IsPrinter :
    (img : Image) (me mpidr prev next : ℕ) (h : SwitchHist) (k : Kernel)
    → HasWords prev next mpidr k
    → IsWords h
    → IsPrinter (report_switched img me mpidr prev next h (k.tcbs prev) (k.tcbs next))
unfolding report_switched report_stacks
report_switched-IsPrinter img me mpidr prev next h k w words =
    let b = k.tcbs prev in
    then-IsPrinter _ _
      (hexline-IsPrinter me (codes "CORRUPT sp after irq_handler switch_to, sp=") b.sp refl
        (w.sp prev))
      (then-IsPrinter _ _
        (hexline-IsPrinter me (codes "CORRUPT sp: MPIDR_EL1 of offending core=") mpidr refl w.core)
        (then-IsPrinter _ _
          (decline-IsPrinter me (codes "CORRUPT sp: prev worker id=") (worker_id_of img prev) refl
            (worker_id_of-small img prev))
          (then-IsPrinter _ _ (report_canaries-IsPrinter me b w.stack) (
            then-IsPrinter _ _ (report_matches-IsPrinter img me b.sp num_workers 0 (omega arith)) (
              then-IsPrinter _ _
                (decline-IsPrinter me (codes "CORRUPT sp: next worker id=") (worker_id_of img next)
                  refl (worker_id_of-small img next))
                (then-IsPrinter _ _ (report_busy-IsPrinter img me b.sp) (
                  then-IsPrinter _ _
                    (then-IsPrinter _ _
                      (hexline-IsPrinter me (codes "CORRUPT sp: next->sp for comparison=")
                        (k.tcbs next).sp refl (w.sp next))
                      (then-IsPrinter _ _
                        (hexline-IsPrinter me (codes "CORRUPT sp: &prev->stack[0]=")
                          (stack_address prev 0) refl w.prev_at)
                        (hexline-IsPrinter me (codes "CORRUPT sp: &next->stack[0]=")
                          (stack_address next 0) refl w.next_at)))
                    (dump_switch_hist-IsPrinter me h words))))))))

-- With the UART free and the words in range, a task that `irq_handler` switched away from goes on,
-- with nothing changed, exactly when its saved stack pointer lies in its own stack; else the core
-- prints its whole report and stays there.
pub after_irq_switch_lem :
    (img : Image) (me mpidr prev next : ℕ) (h : SwitchHist) (k : Kernel)
    → HasWords prev next mpidr k
    → IsWords h
    → k.uart_lock ≡ 0
    → (after : Hook Kernel) × (after_irq_switch img me mpidr prev next h k ≡ some after)
      × Hooked (InStack prev (k.tcbs prev).sp) k k after
unfolding after_irq_switch
after_irq_switch_lem img me mpidr prev next h k w words free =
    let sp = (k.tcbs prev).sp in
    elim (Bool-cases (in_stack prev sp)) [
      | inl e ↦ (passes k, rw e refl, goes_on (in_stack-InStack prev sp e))
      | inr e ↦
          let (out, p) = report_switched-IsPrinter img me mpidr prev next h k w words k free in
          (halts (record k { uart_out = out }), rw (e, p) refl, stays (in_stack-out prev sp e) out)
    ]
