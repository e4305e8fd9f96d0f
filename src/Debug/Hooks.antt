-- ===== src/Debug/Hooks.antt =====
-- The hooks around `switch_to` in a build with DEBUG_HOOKS (kernel/main.c, kernel/sync.c).
use aarch64_rtos.Prelude.{
  ℕ, zero, suc, ◌+◌, ◌*◌, ◌%◌, ◌^◌, ◌≤◌, ◌<◌, ◌≡◌, inl, inr, refl, ap, ◌∙◌, List, true, false,
  arith, update, update-update, update_self, codes, Option-cases,
}
use aarch64_rtos.Kernel.{Kernel}
use aarch64_rtos.Lock.{irq_disable_save, irq_restore}
use aarch64_rtos.Lines.Buffer.{is_text}
use aarch64_rtos.Lines.Printer.{
  IsPrinter, then-IsPrinter, some-IsPrinter, uart_puts-IsPrinter, print_hexline-IsPrinter,
  print_decline-IsPrinter,
}
use aarch64_rtos.Task.{stack_words, stack_address}
use aarch64_rtos.Boot.{Image}
use aarch64_rtos.Debug.{
  SwitchEntry, SwitchHist, Hook, passes, halts, hexline, decline, widen, switch_hist_len,
  find_worker, worker_id_of, task_id, in_stack, put_entry, record_switch, print_entry, print_slot,
  dump_slots, dump_switch_hist, report_pre_switch_bad,
}

-- The stack pointer lies in the stack of the block at `t`.
abbrev pub InStack : ℕ → ℕ → Type 0
InStack t sp = (stack_address t 0 ≤ sp) × (sp < stack_address t 0 + stack_words * 8)

pub in_stack-InStack : (t sp : ℕ) → in_stack t sp ≡ true → InStack t sp
in_stack-InStack t sp e = (ground (arith, e), ground (arith, e))

pub in_stack-out : (t sp : ℕ) → in_stack t sp ≡ false → ¬ InStack t sp
in_stack-out t sp e (lo, hi) = ground (arith, e)

InStack-in_stack : (t sp : ℕ) → InStack t sp → in_stack t sp ≡ true
InStack-in_stack t sp (lo, hi) = ground arith

find_worker-small :
    (img : Image) (t rounds i : ℕ) → i + rounds < 2 ^ 32 → find_worker img t rounds i < 2 ^ 32
unfolding find_worker
find_worker-small img t zero i lt = omega arith
find_worker-small img t (suc rounds) i lt =
    ground (arith, find_worker-small img t rounds (i + 1) (omega arith))

pub worker_id_of-small : (img : Image) (p : ℕ) → worker_id_of img p < 2 ^ 32
unfolding worker_id_of
worker_id_of-small img p = find_worker-small img p 3 0 (omega arith)

pub task_id-small : (img : Image) (p : ℕ) → task_id img p < 2 ^ 32
unfolding worker_id_of
task_id-small img p = ground (arith, find_worker-small img p 3 0 (omega arith))

-- The numbers in the history are 32-bit words.
abbrev pub IsWords : SwitchHist → Type 0
IsWords h = (i : ℕ) → ((h.entries i).prev_id < 2 ^ 32) × ((h.entries i).next_id < 2 ^ 32)

pub record_switch-IsWords :
    (img : Image) (site : List ℕ) (prev next : ℕ) (h : SwitchHist)
    → IsWords h
    → IsWords (record_switch img site prev next h)
unfolding record_switch put_entry update
record_switch-IsWords img site prev next h w i =
    (ground (arith, w i, task_id-small img prev), ground (arith, w i, task_id-small img next))

pub hexline-IsPrinter :
    (me : ℕ) (prefix : List ℕ) (v : ℕ)
    → is_text prefix ≡ true
    → v < 2 ^ 64
    → IsPrinter (hexline me prefix v)
hexline-IsPrinter me = print_hexline-IsPrinter (λ _. 0) me

pub decline-IsPrinter :
    (me : ℕ) (prefix : List ℕ) (v : ℕ)
    → is_text prefix ≡ true
    → v < 2 ^ 32
    → IsPrinter (decline me prefix (widen v))
decline-IsPrinter me prefix v text lt =
    print_decline-IsPrinter (λ _ _. 0) me prefix (widen v) text (ground arith)

print_entry-IsPrinter :
    (me : ℕ) (site : List ℕ) (e : SwitchEntry)
    → e.prev_id < 2 ^ 32
    → e.next_id < 2 ^ 32
    → IsPrinter (print_entry me site e)
unfolding print_entry
print_entry-IsPrinter me site e p n = then-IsPrinter _ _ (uart_puts-IsPrinter me (codes " site=")) (
    then-IsPrinter _ _ (uart_puts-IsPrinter me site) (
      then-IsPrinter _ _ (decline-IsPrinter me (codes "  prev_id=") e.prev_id refl p)
        (decline-IsPrinter me (codes "  next_id=") e.next_id refl n)))

dump_slots-IsPrinter :
    (me : ℕ) (h : SwitchHist) (rounds i : ℕ) → IsWords h → IsPrinter (dump_slots me h rounds i)
unfolding dump_slots print_slot
dump_slots-IsPrinter me h zero i w = some-IsPrinter
dump_slots-IsPrinter me h (suc rounds) i w =
    let e = h.entries ((h.idx + i) % switch_hist_len) in
    let (p, n) = w ((h.idx + i) % switch_hist_len) in
    let later = dump_slots-IsPrinter me h rounds (i + 1) w in
    elim (Option-cases e.site) [
      | inl none_there ↦
          then-IsPrinter (print_slot me e) _ (rw (none_there, print_slot) some-IsPrinter) later
      | inr (site, there) ↦
          then-IsPrinter (print_slot me e) _
            (rw (there, print_slot) (print_entry-IsPrinter me site e p n)) later
    ]

pub dump_switch_hist-IsPrinter :
    (me : ℕ) (h : SwitchHist) → IsWords h → IsPrinter (dump_switch_hist me h)
unfolding dump_switch_hist
dump_switch_hist-IsPrinter me h w =
    then-IsPrinter _ _ (uart_puts-IsPrinter me _) (dump_slots-IsPrinter me h switch_hist_len 0 w)

report_pre_switch_bad-IsPrinter :
    (img : Image) (me : ℕ) (site : List ℕ) (next bad_sp : ℕ) (h : SwitchHist)
    → IsWords h
    → bad_sp < 2 ^ 64
    → IsPrinter (report_pre_switch_bad img me site next bad_sp h)
unfolding report_pre_switch_bad
report_pre_switch_bad-IsPrinter img me site next bad_sp h w lt =
    then-IsPrinter _ _ (uart_puts-IsPrinter me _) (
      then-IsPrinter _ _ (uart_puts-IsPrinter me site) (
        then-IsPrinter _ _
          (decline-IsPrinter me (codes "  next_id=") (task_id img next) refl
            (task_id-small img next))
          (then-IsPrinter _ _
            (print_hexline-IsPrinter (λ _. 0) me (codes "  bad next->sp=") bad_sp refl lt)
            (dump_switch_hist-IsPrinter me h w))))

-- How a hook ends: it passes, or the core has printed and stays in the loop behind its report.
pub data Hooked {A : Type 0} (ok : Type 0) (k : Kernel) (a : A) : Hook A → Type 0 where
  goes_on : ok → Hooked ok k a (passes a)
  stays : ¬ ok → (out : List ℕ) → Hooked ok k a (halts (record k { uart_out = out }))

pub irq_masked-restored :
    (me : ℕ) (k : Kernel) → irq_restore me (k.daif me) (irq_disable_save me k).1 ≡ k
unfolding irq_restore irq_disable_save
irq_masked-restored me k =
    ap (λ f. record k { daif = f }) (update-update k.daif me _ _ ∙ update_self k.daif me)
