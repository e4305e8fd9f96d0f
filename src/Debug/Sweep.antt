-- ===== src/Debug/Sweep.antt =====
-- The sweep that `irq_handler` of kernel/main.c makes on every tick of core 0 with DEBUG_HOOKS: it logs
-- the saved stack pointer of each worker, and stops at the first that lies outside its stack.
use aarch64_rtos.Prelude.{
  ℕ, Bool, zero, suc, ◌+◌, ◌%◌, ◌^◌, ◌≤◌, ◌<◌, ◌≡◌, ◌⊎◌, inl, inr, ◌>>=◌, ◌&&◌, not, refl, true,
  false, Option, some, [], ◌∷◌, ◌==◌, if◌then◌else◌, arith, update, codes, Bool-cases, bind-some,
  ℕ_discrete, ==→eq,
}
use aarch64_rtos.Kernel.{Kernel}
use aarch64_rtos.Uart.{uart_puts}
use aarch64_rtos.Lines.Printer.{IsPrinter, then-IsPrinter, some-IsPrinter, uart_puts-IsPrinter}
use aarch64_rtos.Dma.{num_workers}
use aarch64_rtos.Boot.{Image, task_worker}
use aarch64_rtos.Debug.{
  Hook, passes, halts, SwitchHist, switch_hist_len, hexline, in_stack, dump_switch_hist,
}
use aarch64_rtos.Debug.Hooks.{
  InStack, IsWords, Hooked, goes_on, stays, in_stack-InStack, hexline-IsPrinter,
  dump_switch_hist-IsPrinter,
}

-- `w_sp_log` and `w_sp_log_idx`
pub record SpLog : Type 0 where
  pub log : ℕ → ℕ → ℕ
  pub idx : ℕ → ℕ

abbrev pub worker_sp : Image → ℕ → Kernel → ℕ
worker_sp img i k = (k.tcbs (img.address (task_worker i))).sp

-- The loop that logs, with `rounds` workers left
unfoldable pub log_sps : Image → Kernel → ℕ → ℕ → SpLog → SpLog
log_sps img k zero i l = l
log_sps img k (suc rounds) i l = log_sps img k rounds (i + 1) (record {
  log = update l.log i (update (l.log i) (l.idx i) (worker_sp img i k));
  idx = update l.idx i ((l.idx i + 1) % switch_hist_len);
})

-- The loop over a worker's log, with `rounds` entries left
unfoldable pub print_log : ℕ → SpLog → ℕ → ℕ → ℕ → Kernel → Option Kernel
print_log me l i zero li k = some k
print_log me l i (suc rounds) li k =
    hexline me (codes "  ") (l.log i ((l.idx i + li) % switch_hist_len)) k
    >>= print_log me l i rounds (li + 1)

unfoldable pub report_swept : ℕ → SpLog → SwitchHist → ℕ → ℕ → Kernel → Option Kernel
report_swept me l h i sp k = do
  k1 ← uart_puts me (codes "W SP LOG for the bad worker (oldest first):\r\n") k
  k2 ← print_log me l i switch_hist_len 0 k1
  k3 ← uart_puts me (codes "TICK-SWEEP: worker sp went bad while NOT being switched, id=") k2
  k4 ← uart_puts me ((b'0' + i) ∷ 13 ∷ 10 ∷ []) k3
  k5 ← hexline me (codes "  bad sp=") sp k4
  dump_switch_hist me h k5

-- `s != 0 && (s < wlo || s >= whi)`
abbrev pub is_bad : Image → ℕ → Kernel → Bool
is_bad img i k =
    not (worker_sp img i k == 0) && not (in_stack (img.address (task_worker i)) (worker_sp img i k))

-- The loop that looks, with `rounds` workers left
unfoldable pub sweep : Image → ℕ → SpLog → SwitchHist → ℕ → ℕ → Kernel → Option (Hook Kernel)
sweep img me l h zero i k = some (passes k)
sweep img me l h (suc rounds) i k =
    let rest = sweep img me l h rounds (i + 1) k in
    let report = report_swept me l h i (worker_sp img i k) k >>= λ k1. some (halts k1) in
    if is_bad img i k then report else rest

unfoldable pub tick_sweep : Image → ℕ → SpLog → SwitchHist → Kernel → Option (SpLog × Hook Kernel)
tick_sweep img me l h k =
    let l1 = log_sps img k num_workers 0 l in
    sweep img me l1 h num_workers 0 k >>= λ end. some (l1, end)

-- The worker has not run yet, or its saved stack pointer lies in its stack.
abbrev pub IsFine : Image → ℕ → Kernel → Type 0
IsFine img i k = (worker_sp img i k ≡ 0) ⊎ InStack (img.address (task_worker i)) (worker_sp img i k)

abbrev pub AllFine : Image → ℕ → ℕ → Kernel → Type 0
AllFine img lo hi k = (i : ℕ) → lo ≤ i → i < hi → IsFine img i k

print_log-IsPrinter :
    (me : ℕ) (l : SpLog) (i rounds li : ℕ)
    → ((j n : ℕ) → l.log j n < 2 ^ 64)
    → IsPrinter (print_log me l i rounds li)
unfolding print_log
print_log-IsPrinter me l i zero li w = some-IsPrinter
print_log-IsPrinter me l i (suc rounds) li w =
    then-IsPrinter _ _ (hexline-IsPrinter me (codes "  ") _ refl (w i _))
      (print_log-IsPrinter me l i rounds (li + 1) w)

report_swept-IsPrinter :
    (me : ℕ) (l : SpLog) (h : SwitchHist) (i sp : ℕ)
    → ((j n : ℕ) → l.log j n < 2 ^ 64)
    → IsWords h
    → sp < 2 ^ 64
    → IsPrinter (report_swept me l h i sp)
unfolding report_swept
report_swept-IsPrinter me l h i sp w words small = then-IsPrinter _ _ (uart_puts-IsPrinter me _) (
    then-IsPrinter _ _ (print_log-IsPrinter me l i switch_hist_len 0 w) (
      then-IsPrinter _ _ (uart_puts-IsPrinter me _) (
        then-IsPrinter _ _ (uart_puts-IsPrinter me _) (
          then-IsPrinter _ _ (hexline-IsPrinter me (codes "  bad sp=") sp refl small)
            (dump_switch_hist-IsPrinter me h words)))))

not_bad : (img : Image) (i : ℕ) (k : Kernel) → is_bad img i k ≡ false → IsFine img i k
not_bad img i k e = elim (Bool-cases (worker_sp img i k == 0)) [
  | inl z ↦ inl (==→eq _ _ z)
  | inr z ↦
      inr
        (in_stack-InStack (img.address (task_worker i)) (worker_sp img i k) (ground (arith, e, z)))
]

bad : (img : Image) (i : ℕ) (k : Kernel) → is_bad img i k ≡ true → ¬ IsFine img i k
bad img i k e (inl z) = ground (arith, e, z)
bad img i k e (inr s) = ground (arith, e, s)

Hooked-below :
    (img : Image) (lo hi : ℕ) (k : Kernel) (end : Hook Kernel)
    → IsFine img lo k
    → Hooked (AllFine img (lo + 1) hi k) k k end
    → Hooked (AllFine img lo hi k) k k end
Hooked-below img lo hi k _ fine (goes_on all) =
    goes_on
      (λ i le lt. elim (ℕ_discrete i lo) [ yes e ↦ rw e fine | no ne ↦ all i (omega arith) lt ])
Hooked-below img lo hi k _ fine (stays n out) =
    stays (λ all. n (λ i le lt. all i (omega arith) lt)) out

sweep-Hooked :
    (img : Image) (me : ℕ) (l : SpLog) (h : SwitchHist) (rounds lo hi : ℕ) (k : Kernel)
    → hi ≡ lo + rounds
    → ((j n : ℕ) → l.log j n < 2 ^ 64)
    → IsWords h
    → k.uart_lock ≡ 0
    → ((t : ℕ) → (k.tcbs t).sp < 2 ^ 64)
    → (end : Hook Kernel) × (sweep img me l h rounds lo k ≡ some end)
      × Hooked (AllFine img lo hi k) k k end
unfolding sweep
sweep-Hooked img me l h zero lo hi k e w words free small =
    (passes k, refl, goes_on (λ i le lt. absurd (omega (arith, e, le, lt))))
sweep-Hooked img me l h (suc rounds) lo hi k e w words free small =
    elim (Bool-cases (is_bad img lo k)) [
      | inl z ↦
          let (out, p) =
            report_swept-IsPrinter me l h lo (worker_sp img lo k) w words (small _) k free in
          (
            halts (record k { uart_out = out }),
            rw (z, p) refl,
            stays (λ all. bad img lo k z (all lo (omega arith) (omega (arith, e)))) out,
          )
      | inr z ↦
          let (end, p, s) =
            sweep-Hooked img me l h rounds (lo + 1) hi k (omega (arith, e)) w words free small in
          (end, rw z p, Hooked-below img lo hi k end (not_bad img lo k z) s)
    ]

log_sps-words :
    (img : Image) (k : Kernel) (rounds i : ℕ) (l : SpLog)
    → ((t : ℕ) → (k.tcbs t).sp < 2 ^ 64)
    → ((j n : ℕ) → l.log j n < 2 ^ 64)
    → (j n : ℕ) → (log_sps img k rounds i l).log j n < 2 ^ 64
unfolding log_sps update
log_sps-words img k zero i l small w = w
log_sps-words img k (suc rounds) i l small w =
    log_sps-words img k rounds (i + 1) _ small
      (λ j n. ground (arith, w j n, small (img.address (task_worker i))))

-- With the UART free, the sweep of a tick comes back exactly when each worker has not run yet or has
-- its saved stack pointer in its own stack, with nothing changed but the log; else the core prints its
-- report and stays there.
pub tick_sweep_lem :
    (img : Image) (me : ℕ) (l : SpLog) (h : SwitchHist) (k : Kernel)
    → ((j n : ℕ) → l.log j n < 2 ^ 64)
    → IsWords h
    → k.uart_lock ≡ 0
    → ((t : ℕ) → (k.tcbs t).sp < 2 ^ 64)
    → (l' : SpLog) × (end : Hook Kernel) × (tick_sweep img me l h k ≡ some (l', end))
      × Hooked (AllFine img 0 num_workers k) k k end
unfolding tick_sweep
tick_sweep_lem img me l h k w words free small =
    let l1 = log_sps img k num_workers 0 l in
    let (end, e, s) =
      sweep-Hooked img me l1 h num_workers 0 num_workers k refl
        (log_sps-words img k num_workers 0 l small w) words free small in
    (l1, end, bind-some _ e refl, s)
