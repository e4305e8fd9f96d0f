-- ===== src/Debug.antt =====
-- The diagnostics of kernel/main.c: the history of switches, and the hooks that a build with
-- DEBUG_HOOKS calls around `switch_to` (kernel/sched.c and kernel/sync.c). The buffers of the lines
-- start with zeros here; what they hold makes no difference to a line.
pub mod History
pub mod First
pub mod Hooks
pub mod Checked
pub mod Sweep
pub mod Corrupt
pub mod Writes
use aarch64_rtos.Prelude.{
  ℕ, zero, suc, ◌+◌, ◌-◌, ◌*◌, ◌%◌, ◌^◌, ◌>>=◌, ◌&&◌, Bool, Option, none, some, List, [], ◌∷◌, ◌==◌,
  leb, ltb, if◌then◌else◌, update, codes,
}
use aarch64_rtos.Kernel.{Kernel, Tcb}
use aarch64_rtos.Lock.{irq_disable_save, irq_restore}
use aarch64_rtos.Uart.{uart_puts}
use aarch64_rtos.Lines.{print_hexline, print_decline}
use aarch64_rtos.Task.{stack_words, stack_address}
use aarch64_rtos.Dma.{num_workers}
use aarch64_rtos.Boot.{Image, task_worker, busy_task}

abbrev pub hexline : ℕ → List ℕ → ℕ → Kernel → Option Kernel
hexline me prefix v k = print_hexline (λ _. 0) me prefix v k

abbrev pub decline : ℕ → List ℕ → ℕ → Kernel → Option Kernel
decline me prefix v k = print_decline (λ _ _. 0) me prefix v k

-- An `int` is its 32-bit pattern; `(unsigned long)(long)v` copies its sign upwards.
abbrev pub minus_one : ℕ
minus_one = 2 ^ 32 - 1

abbrev pub widen : ℕ → ℕ
widen v = if leb (2 ^ 31) v then v + (2 ^ 64 - 2 ^ 32) else v

-- The loop of `worker_id_of`, with `rounds` workers left
unfoldable pub find_worker : Image → ℕ → ℕ → ℕ → ℕ
find_worker img t zero i = minus_one
find_worker img t (suc rounds) i =
    let rest = find_worker img t rounds (i + 1) in
    if img.address (task_worker i) == t then i else rest

unfoldable pub worker_id_of : Image → ℕ → ℕ
worker_id_of img t = find_worker img t num_workers 0

abbrev pub switch_hist_len : ℕ
switch_hist_len = 16

-- `switch_hist_t`; there is no site in a slot that is not written yet.
pub record SwitchEntry : Type 0 where
  pub site : Option (List ℕ)
  pub prev_id : ℕ
  pub next_id : ℕ

-- `switch_hist` and `switch_hist_idx`
pub record SwitchHist : Type 0 where
  pub entries : ℕ → SwitchEntry
  pub idx : ℕ

-- `p == &busy_task ? -1 : worker_id_of(p)`
abbrev pub task_id : Image → ℕ → ℕ
task_id img p = if p == img.address busy_task then minus_one else worker_id_of img p

unfoldable pub put_entry : SwitchEntry → SwitchHist → SwitchHist
put_entry e h = record { entries = update h.entries h.idx e; idx = (h.idx + 1) % switch_hist_len }

unfoldable pub record_switch : Image → List ℕ → ℕ → ℕ → SwitchHist → SwitchHist
record_switch img site prev next h =
    put_entry (record { site = some site; prev_id = task_id img prev; next_id = task_id img next })
      h

-- The lines of one entry, in `dump_switch_hist`
unfoldable pub print_entry : ℕ → List ℕ → SwitchEntry → Kernel → Option Kernel
print_entry me site e k = do
  k1 ← uart_puts me (codes " site=") k
  k2 ← uart_puts me site k1
  k3 ← decline me (codes "  prev_id=") (widen e.prev_id) k2
  decline me (codes "  next_id=") (widen e.next_id) k3

-- `if (!site) continue;`
unfoldable pub print_slot : ℕ → SwitchEntry → Kernel → Option Kernel
print_slot me e k = elim e.site [ none ↦ some k | some site ↦ print_entry me site e k ]

-- The loop over the slots, with `rounds` slots left
unfoldable pub dump_slots : ℕ → SwitchHist → ℕ → ℕ → Kernel → Option Kernel
dump_slots me h zero i k = some k
dump_slots me h (suc rounds) i k =
    print_slot me (h.entries ((h.idx + i) % switch_hist_len)) k >>= dump_slots me h rounds (i + 1)

unfoldable pub dump_switch_hist : ℕ → SwitchHist → Kernel → Option Kernel
dump_switch_hist me h k =
    uart_puts me (codes "CORRUPT sp: recent switch history (oldest first)\r\n") k
    >>= dump_slots me h switch_hist_len 0

-- `sp < lo || sp >= hi`, negated, for the stack of the block at `t`
abbrev pub in_stack : ℕ → ℕ → Bool
in_stack t sp = leb (stack_address t 0) sp && ltb sp (stack_address t 0 + stack_words * 8)

-- The functions that end in `while (1) wfe;` give the state in which the core stays for good.
unfoldable pub report_corrupt_sp : ℕ → List ℕ → ℕ → Kernel → Option Kernel
report_corrupt_sp me site sp k = hexline me site sp k

unfoldable pub report_pre_switch_bad :
    Image → ℕ → List ℕ → ℕ → ℕ → SwitchHist → Kernel → Option Kernel
report_pre_switch_bad img me site next bad_sp h k = do
  k1 ← uart_puts me (codes "PRE-SWITCH BAD: next->sp already invalid BEFORE switch_to, site=") k
  k2 ← uart_puts me site k1
  k3 ← decline me (codes "  next_id=") (widen (task_id img next)) k2
  k4 ← hexline me (codes "  bad next->sp=") bad_sp k3
  dump_switch_hist me h k4

-- How a hook ends: the core goes on, or it stays in the loop at the end of a report.
pub data Hook (A : Type 0) : Type 0 where
  passes : A → Hook A
  halts : Kernel → Hook A

-- `checked_switch_to` up to its `switch_to`
unfoldable pub before_switch :
    Image → ℕ → List ℕ → ℕ → ℕ → SwitchHist → Kernel → Option (Hook (SwitchHist × Kernel))
before_switch img me site prev next h k =
    let h1 = record_switch img site prev next h in
    let sp = (k.tcbs next).sp in
    let report = report_pre_switch_bad img me site next sp h1 k >>= λ k1. some (halts k1) in
    if in_stack next sp then some (passes (h1, k)) else report

-- … and what it does once `prev` runs again
unfoldable pub after_switch : ℕ → List ℕ → ℕ → Kernel → Option (Hook Kernel)
after_switch me site prev k =
    let (flags, k1) = irq_disable_save me k in
    let sp = (k1.tcbs prev).sp in
    let k2 = irq_restore me flags k1 in
    let report = report_corrupt_sp me site sp k2 >>= λ k3. some (halts k3) in
    if in_stack prev sp then some (passes k2) else report

-- The hook in `switch_to` (kernel/switch.S) before it stores a stack pointer at `ptr`
unfoldable pub check_sp_write : Image → ℕ → ℕ → ℕ → SwitchHist → Kernel → Option (Hook Kernel)
check_sp_write img me ptr value h k =
    let t = img.address (task_worker 1) in
    let report = do
      k1 ←
          uart_puts me
            (codes "CAUGHT WRITE: switch_to about to write BAD value into taskWorker[1].sp\r\n") k
      k2 ← hexline me (codes "  bad value about to be written=") value k1
      k3 ← dump_switch_hist me h k2
      some (halts k3)
    in if ptr == t then if in_stack t value then some (passes k) else report else some (passes k)

-- The loop of `trace_switch_resume` over the words of a frame
unfoldable pub print_words : ℕ → (ℕ → ℕ) → ℕ → ℕ → Kernel → Option Kernel
print_words me frame zero i k = some k
print_words me frame (suc rounds) i k =
    hexline me (codes " w=") (frame i) k >>= print_words me frame rounds (i + 1)

-- The frame stands at `address`, and `frame` is its words.
unfoldable pub trace_switch_resume : ℕ → ℕ → (ℕ → ℕ) → Kernel → Option Kernel
trace_switch_resume me address frame k =
    let traced = do
      k1 ← hexline me (codes "SUSPICIOUS x30 slot, frame=") address k
      k2 ← hexline me (codes " x30_slot=") (frame 3) k1
      print_words me frame 14 0 k2
    in if leb 0x40000000 (frame 3) then some k else traced
