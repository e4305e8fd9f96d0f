-- ===== src/Debug/Writes.antt =====
-- The two hooks inside `switch_to` of kernel/switch.S: `check_sp_write` and `trace_switch_resume`.
use aarch64_rtos.Prelude.{
  ℕ, zero, suc, ◌+◌, ◌^◌, ◌<◌, ◌≡◌, ◌≢◌, ◌⊎◌, inl, inr, refl, Bool-cases, bind-some, some, List,
  ◌==◌, ==→eq, ==→ne, leb, arith, codes,
}
use aarch64_rtos.Kernel.{Kernel}
use aarch64_rtos.Lines.Printer.{IsPrinter, then-IsPrinter, some-IsPrinter, uart_puts-IsPrinter}
use aarch64_rtos.Boot.{Image, task_worker}
use aarch64_rtos.Debug.{
  Hook, passes, halts, SwitchHist, in_stack, check_sp_write, print_words, trace_switch_resume,
}
use aarch64_rtos.Debug.Hooks.{
  InStack, IsWords, Hooked, goes_on, stays, in_stack-InStack, in_stack-out, hexline-IsPrinter,
  dump_switch_hist-IsPrinter,
}

-- With the UART free: a write of `value` to the place at `ptr` passes, with nothing changed, exactly
-- when that place is not the saved stack pointer of the second worker or the value lies in the stack
-- of that worker; else the core prints its report and stays there.
pub check_sp_write_lem :
    (img : Image) (me ptr value : ℕ) (h : SwitchHist) (k : Kernel)
    → value < 2 ^ 64
    → IsWords h
    → k.uart_lock ≡ 0
    → let t = img.address (task_worker 1) in
      (end : Hook Kernel) × (check_sp_write img me ptr value h k ≡ some end)
      × Hooked ((ptr ≢ t) ⊎ InStack t value) k k end
unfolding check_sp_write
check_sp_write_lem img me ptr value h k small words free =
    let t = img.address (task_worker 1) in
    elim (Bool-cases (ptr == t)) [
      | inr e ↦ (passes k, rw e refl, goes_on (inl (==→ne ptr t e)))
      | inl e ↦ elim (Bool-cases (in_stack t value)) [
        | inl s ↦ (passes k, rw (e, s) refl, goes_on (inr (in_stack-InStack t value s)))
        | inr s ↦
            let text =
              codes "CAUGHT WRITE: switch_to about to write BAD value into taskWorker[1].sp\r\n" in
            let (o1, e1) = uart_puts-IsPrinter me text k free in
            let (o2, e2) =
              hexline-IsPrinter me (codes "  bad value about to be written=") value refl small
                (record k { uart_out = o1 }) free in
            let (o3, e3) =
              dump_switch_hist-IsPrinter me h words (record k { uart_out = o2 }) free in
            (
              halts (record k { uart_out = o3 }),
              rw (e, s) (bind-some _ e1 (bind-some _ e2 (bind-some _ e3 refl))),
              stays
                  (λ either. elim either [
                    | inl n ↦ n (==→eq ptr t e)
                    | inr i ↦ in_stack-out t value s i
                  ])
                  o3,
            )
      ]
    ]

print_words-IsPrinter :
    (me : ℕ) (frame : ℕ → ℕ) (rounds i : ℕ)
    → ((j : ℕ) → frame j < 2 ^ 64)
    → IsPrinter (print_words me frame rounds i)
unfolding print_words
print_words-IsPrinter me frame zero i w = some-IsPrinter
print_words-IsPrinter me frame (suc rounds) i w =
    then-IsPrinter _ _ (hexline-IsPrinter me (codes " w=") (frame i) refl (w i))
      (print_words-IsPrinter me frame rounds (i + 1) w)

-- With the UART free, the trace of a resumed frame comes back with nothing changed but the output, and
-- prints nothing when the frame's link register is a plausible address.
pub trace_switch_resume_lem :
    (me address : ℕ) (frame : ℕ → ℕ) (k : Kernel)
    → address < 2 ^ 64
    → ((j : ℕ) → frame j < 2 ^ 64)
    → k.uart_lock ≡ 0
    → (out : List ℕ) × (trace_switch_resume me address frame k ≡ some (record k { uart_out = out }))
      × ((out ≡ k.uart_out) ⊎ (frame 3 < 0x40000000))
unfolding trace_switch_resume
trace_switch_resume_lem me address frame k small w free =
    elim (Bool-cases (leb 0x40000000 (frame 3))) [
      | inl e ↦ (k.uart_out, rw e refl, inl refl)
      | inr e ↦
          let (out, p) =
            then-IsPrinter _ _
              (hexline-IsPrinter me (codes "SUSPICIOUS x30 slot, frame=") address refl small)
              (then-IsPrinter _ _ (hexline-IsPrinter me (codes " x30_slot=") (frame 3) refl (w 3))
                (print_words-IsPrinter me frame 14 0 w))
              k free in
          (out, rw (e, p) refl, inr (ground (arith, e)))
    ]
