-- ===== src/Debug/Checked.antt =====
-- `checked_switch_to` in a build with DEBUG_HOOKS (kernel/sched.c, kernel/sync.c): the checks before and
-- after `switch_to`, and the reports of `report_pre_switch_bad` and `report_corrupt_sp`.
use aarch64_rtos.Prelude.{
  ℕ, zero, suc, ◌+◌, ◌%◌, ◌^◌, ◌<◌, ◌≡◌, refl, inl, inr, ◌>>=◌, ap, ◌∙◌, none, some, List, [], ◌∷◌,
  ◌++◌, true, arith, codes, Bool-cases, Option-cases,
}
use aarch64_rtos.Kernel.{Kernel}
use aarch64_rtos.Lock.{irq_disable_save, irq_restore}
use aarch64_rtos.Lines.Buffer.{is_text}
use aarch64_rtos.Lines.Report.{
  Part, text, hex, dec, Rendered, Prints, some-Prints, then-Prints, uart_puts-Prints,
  hexline-Prints, decline-Prints,
}
use aarch64_rtos.Boot.{Image}
use aarch64_rtos.Debug.{
  SwitchEntry, SwitchHist, Hook, passes, halts, hexline, decline, widen, switch_hist_len, task_id,
  in_stack, record_switch, print_entry, print_slot, dump_slots, dump_switch_hist, report_corrupt_sp,
  report_pre_switch_bad, before_switch, after_switch,
}
use aarch64_rtos.Debug.First.{TaskNumber, task_id-TaskNumber}
use aarch64_rtos.Debug.Hooks.{
  InStack, in_stack-InStack, in_stack-out, IsWords, record_switch-IsWords, task_id-small,
  irq_masked-restored,
}

-- The lines of a slot of the history
abbrev entry_lines : List ℕ → SwitchEntry → List Part
entry_lines site e =
    text (codes " site=")
    ∷ text site
    ∷ dec (codes "  prev_id=") (widen e.prev_id)
    ∷ dec (codes "  next_id=") (widen e.next_id)
    ∷ []

abbrev slot_lines : SwitchEntry → List Part
slot_lines e = elim e.site [ none ↦ [] | some site ↦ entry_lines site e ]

-- Those of the slots from the `i`-th oldest on
unfoldable pub history_lines : SwitchHist → ℕ → ℕ → List Part
history_lines h zero i = []
history_lines h (suc rounds) i =
    slot_lines (h.entries ((h.idx + i) % switch_hist_len)) ++ history_lines h rounds (i + 1)

-- The report on a stack pointer that is wrong before the switch: the site, the number of the task, the
-- stack pointer, and the sixteen slots of the history, oldest first.
abbrev pub pre_switch_lines : List ℕ → ℕ → ℕ → SwitchHist → List Part
pre_switch_lines site id sp h =
    text (codes "PRE-SWITCH BAD: next->sp already invalid BEFORE switch_to, site=")
    ∷ text site
    ∷ dec (codes "  next_id=") (widen id)
    ∷ hex (codes "  bad next->sp=") sp
    ∷ text (codes "CORRUPT sp: recent switch history (oldest first)\r\n")
    ∷ history_lines h 16 0

module _ (me : ℕ) (k : Kernel) (free : k.uart_lock ≡ 0) where
  small_dec :
      (label : List ℕ) (v : ℕ)
      → is_text label ≡ true
      → v < 2 ^ 32
      → Prints k (dec label (widen v) ∷ []) (decline me label (widen v))
  small_dec label v nul lt = decline-Prints k me free label (widen v) nul (ground arith)

  print_entry-Prints :
      (site : List ℕ) (e : SwitchEntry)
      → e.prev_id < 2 ^ 32
      → e.next_id < 2 ^ 32
      → Prints k (entry_lines site e) (print_entry me site e)
  unfolding print_entry
  print_entry-Prints site e p n =
      then-Prints k _ _ _ _ (uart_puts-Prints k me free (codes " site=")) (
        then-Prints k _ _ _ _ (uart_puts-Prints k me free site) (
          then-Prints k _ _ _ _ (small_dec (codes "  prev_id=") e.prev_id refl p)
            (small_dec (codes "  next_id=") e.next_id refl n)))

  print_slot-Prints :
      (e : SwitchEntry)
      → e.prev_id < 2 ^ 32
      → e.next_id < 2 ^ 32
      → Prints k (slot_lines e) (print_slot me e)
  unfolding print_slot print_entry
  print_slot-Prints e p n = elim (Option-cases e.site) [
    | inl none_there ↦ rw none_there (some-Prints k)
    | inr (site, there) ↦ rw there (print_entry-Prints site e p n)
  ]

  dump_slots-Prints :
      (h : SwitchHist) (rounds i : ℕ)
      → IsWords h
      → Prints k (history_lines h rounds i) (dump_slots me h rounds i)
  unfolding dump_slots history_lines
  dump_slots-Prints h zero i w = some-Prints k
  dump_slots-Prints h (suc rounds) i w =
      let (p, n) = w ((h.idx + i) % switch_hist_len) in
      then-Prints k _ _ _ _ (print_slot-Prints (h.entries ((h.idx + i) % switch_hist_len)) p n)
        (dump_slots-Prints h rounds (i + 1) w)

  report_pre_switch_bad-Prints :
      (img : Image) (site : List ℕ) (next sp : ℕ) (h : SwitchHist)
      → IsWords h
      → sp < 2 ^ 64
      → Prints k
          (pre_switch_lines site (task_id img next) sp h)
          (report_pre_switch_bad img me site next sp h)
  unfolding report_pre_switch_bad dump_switch_hist
  report_pre_switch_bad-Prints img site next sp h w lt =
      then-Prints k _ _ _ _ (uart_puts-Prints k me free _) (
        then-Prints k _ _ _ _ (uart_puts-Prints k me free site) (
          then-Prints k _ _ _ _
            (small_dec (codes "  next_id=") (task_id img next) refl (task_id-small img next))
            (then-Prints k _ _ _ _ (hexline-Prints k me free (codes "  bad next->sp=") sp refl lt) (
              then-Prints k _ _ _ _ (uart_puts-Prints k me free _)
                (dump_slots-Prints h switch_hist_len 0 w)))))

-- How the two halves of `checked_switch_to` end: they pass, with nothing changed but the history, or
-- the core has printed the lines of its report and stays in the loop behind it.
pub data HookEnd {A : Type 0} (ok : Type 0) (k : Kernel) (a : A) (lines : List Part)
    : Hook A → Type 0 where
  goes_on : ok → HookEnd ok k a lines (passes a)
  stays :
      ¬ ok
      → (out : List ℕ) → Rendered lines out
      → HookEnd ok k a lines (halts (record k { uart_out = k.uart_out ++ out }))

before_switch-HookEnd :
    (img : Image) (me : ℕ) (site : List ℕ) (prev next : ℕ) (h : SwitchHist) (k : Kernel)
    → IsWords h
    → k.uart_lock ≡ 0
    → (k.tcbs next).sp < 2 ^ 64
    → let sp = (k.tcbs next).sp in
      let h1 = record_switch img site prev next h in
      (before : Hook (SwitchHist × Kernel)) × (before_switch img me site prev next h k
        ≡ some before)
      × HookEnd (InStack next sp) k (h1, k) (pre_switch_lines site (task_id img next) sp h1) before
unfolding before_switch
before_switch-HookEnd img me site prev next h k w free small =
    let h1 = record_switch img site prev next h in
    let sp = (k.tcbs next).sp in
    elim (Bool-cases (in_stack next sp)) [
      | inl e ↦ (passes (h1, k), rw e refl, goes_on (in_stack-InStack next sp e))
      | inr e ↦
          let (out, r, p) =
            (report_pre_switch_bad-Prints me k free img site next sp h1
                (record_switch-IsWords img site prev next h w) small).sends
              k.uart_out in
          (
            halts (record k { uart_out = k.uart_out ++ out }),
            rw (e, p) refl,
            stays (in_stack-out next sp e) out r,
          )
    ]

after_switch-HookEnd :
    (me : ℕ) (site : List ℕ) (prev : ℕ) (k : Kernel)
    → is_text site ≡ true
    → k.uart_lock ≡ 0
    → (k.tcbs prev).sp < 2 ^ 64
    → let sp = (k.tcbs prev).sp in
      (after : Hook Kernel) × (after_switch me site prev k ≡ some after)
      × HookEnd (InStack prev sp) k k (hex site sp ∷ []) after
unfolding after_switch report_corrupt_sp irq_disable_save irq_restore
after_switch-HookEnd me site prev k nul free small =
    let sp = (k.tcbs prev).sp in
    let back = irq_masked-restored me k in
    elim (Bool-cases (in_stack prev sp)) [
      | inl e ↦
          (passes k, rw e (ap (λ x. some (passes x)) back), goes_on (in_stack-InStack prev sp e))
      | inr e ↦
          let (out, r, p) = (hexline-Prints k me free site sp nul small).sends k.uart_out in
          (
            halts (record k { uart_out = k.uart_out ++ out }),
            rw e (
                ap (λ x. hexline me site sp x >>= λ y. some (halts y)) back
                ∙ ap (λ o. o >>= λ y. some (halts y)) p),
            stays (in_stack-out prev sp e) out r,
          )
    ]

-- With the UART free, in a build with DEBUG_HOOKS: a switch to `next` passes the hook before
-- `switch_to`, with the switch in the history, exactly when the stack pointer of `next` lies in the
-- stack of its own block; the hook after it lets `prev` go on, with the IRQ mask as it was, exactly
-- when that of `prev` lies in its own. Else the core prints its report and stays there: before the
-- switch the site, the number of `next`, its stack pointer and the history, after it a line with the
-- site and the stack pointer of `prev`.
pub checked_switch_lem :
    (img : Image) (me : ℕ) (site : List ℕ) (prev next : ℕ) (h : SwitchHist) (k : Kernel)
    → is_text site ≡ true
    → IsWords h
    → k.uart_lock ≡ 0
    → ((t : ℕ) → (k.tcbs t).sp < 2 ^ 64)
    → let h1 = record_switch img site prev next h in
      (before : Hook (SwitchHist × Kernel)) × (after : Hook Kernel) × (id : ℕ) × (before_switch img
          me site prev next h k
        ≡ some before)
      × (after_switch me site prev k ≡ some after)
      × TaskNumber img next id
      × HookEnd
          (InStack next (k.tcbs next).sp)
          k
          (h1, k)
          (pre_switch_lines site id (k.tcbs next).sp h1)
          before
      × HookEnd (InStack prev (k.tcbs prev).sp) k k (hex site (k.tcbs prev).sp ∷ []) after
checked_switch_lem img me site prev next h k nul w free small =
    let (before, e1, b) = before_switch-HookEnd img me site prev next h k w free (small next) in
    let (after, e2, a) = after_switch-HookEnd me site prev k nul free (small prev) in
    (before, after, task_id img next, e1, e2, task_id-TaskNumber img next, b, a)
