-- ===== src/Sched/Migrate/Total.antt =====
-- How `sched_migrate` of kernel/sched.c ends.
use mathlib.Core.List.{append_assoc, append-nil}
use aarch64_rtos.Prelude.{
  ℕ, ◌^◌, ◌<◌, ◌≡◌, ◌||◌, sym, ap, ◌∙◌, Bool, true, false, Option, some, List, [], ◌++◌, arith,
  codes, ◌==◌, if◌then◌else◌, ℕ_discrete, eq→==, ne→==,
}
use aarch64_rtos.Kernel.{Kernel}
use aarch64_rtos.Uart.{klog}
use aarch64_rtos.Uart.Laws.{klog_lem}
use aarch64_rtos.Sched.Migrate.{
  report, log_migration, sched_migrate, migrate_locked, transfer, crlf,
}
use aarch64_rtos.Sched.Migrate.Locked.{sched_migrate-eq}

abbrev with_output : List ℕ → Kernel → Kernel
with_output out k = record k { uart_out = k.uart_out ++ out }

with_output-twice :
    (a b : List ℕ) (k : Kernel) → with_output b (with_output a k) ≡ with_output (a ++ b) k
with_output-twice a b k = ap (λ o. record k { uart_out = o }) (append_assoc k.uart_out a b)

klog_out :
    (me : ℕ) (prefix : List ℕ) (val : ℕ) (suffix : List ℕ) (k : Kernel)
    → k.uart_lock ≡ 0
    → val < 2 ^ 64
    → (out : List ℕ) × (klog me prefix val true suffix k ≡ some (with_output out k))
klog_out me prefix val suffix k h lt =
    let (d, n, v, e) = klog_lem me prefix val suffix k h lt in
    (prefix ++ d ++ suffix, e ∙ ap (λ o. some (record k { uart_out = o })) (regroup d))
  where
    regroup :
        (d : List ℕ) → k.uart_out ++ prefix ++ d ++ suffix ≡ k.uart_out ++ (prefix ++ d ++ suffix)
    regroup d = simp append_assoc

log_lem :
    (me src dst : ℕ) (k : Kernel)
    → k.uart_lock ≡ 0
    → src < 2 ^ 64
    → dst < 2 ^ 64
    → (out : List ℕ) × (log_migration me src dst k ≡ some (with_output out k))
unfolding log_migration
log_lem me src dst k h ls ld =
    let (o1, e1) = klog_out me (codes "LB: migrated task, src=") src [] k h ls in
    let (o2, e2) = klog_out me (codes " dst=") dst crlf (with_output o1 k) h ld in
    (o1 ++ o2, rw e1 (e2 ∙ ap some (with_output-twice o1 o2 k)))

report_lem :
    (me src dst : ℕ) (r : Bool × Kernel)
    → r.1.uart_lock ≡ 0
    → src < 2 ^ 64
    → dst < 2 ^ 64
    → (out : List ℕ) × (report me src dst r ≡ some (r.0, with_output out r.1))
unfolding report
report_lem me src dst (false, k) h ls ld =
    ([], ap (λ o. some (false, record k { uart_out = o })) (sym (append-nil k.uart_out)))
report_lem me src dst (true, k) h ls ld = let (o, e) = log_lem me src dst k h ls ld in (o, rw e)

same_uart :
    (src dst t : ℕ) (k : Kernel)
    → let k' = (migrate_locked src dst t k).1 in
      (k'.uart_lock ≡ k.uart_lock) × (k'.uart_out ≡ k.uart_out)
unfolding migrate_locked transfer
same_uart src dst t k = ground arith

-- What `sched_migrate` comes to: -1 and no change for a target that is the home CPU or CPU0, and
-- `migrate_locked` for the others.
abbrev pub migrate_result : ℕ → ℕ → Kernel → Bool × Kernel
migrate_result t dst k =
    if dst == (k.tcbs t).cpu || dst == 0 then (false, k) else migrate_locked (k.tcbs t).cpu dst t k

sched_migrate-refused :
    (me t dst : ℕ) (k : Kernel)
    → (dst == (k.tcbs t).cpu || dst == 0) ≡ true
    → sched_migrate me t dst k ≡ some (false, k)
unfolding sched_migrate
sched_migrate-refused me t dst k h = rw (h, sched_migrate)

-- With the two queues' locks and the UART's lock free, `sched_migrate` comes to `migrate_result` and some
-- bytes on the UART.
pub sched_migrate-result :
    (me t dst : ℕ) (k : Kernel)
    → (k.runqueues (k.tcbs t).cpu).lock ≡ 0
    → (k.runqueues dst).lock ≡ 0
    → k.uart_lock ≡ 0
    → (k.tcbs t).cpu < 2 ^ 32
    → dst < 2 ^ 64
    → let (ok, k') = migrate_result t dst k in
      (out : List ℕ) × (sched_migrate me t dst k
        ≡ some (ok, record k' { uart_out = k'.uart_out ++ out }))
sched_migrate-result me t dst k hs hd hu ls ld = elim (ℕ_discrete dst (k.tcbs t).cpu) [
  | yes e ↦ (
    [],
    rw (eq→== dst (k.tcbs t).cpu e)
        (sched_migrate-refused me t dst k (rw (eq→== dst (k.tcbs t).cpu e)) ∙ same),
  )
  | no e ↦ elim (ℕ_discrete dst 0) [
    | yes z ↦ (
      [],
      rw (ne→== dst (k.tcbs t).cpu e, eq→== dst 0 z)
          (sched_migrate-refused me t dst k (rw (ne→== dst (k.tcbs t).cpu e, eq→== dst 0 z))
            ∙ same),
    )
    | no z ↦
        let src = (k.tcbs t).cpu in
        let r = migrate_locked src dst t k in
        let (o, q) = report_lem me src dst r ((same_uart src dst t k).0 ∙ hu) (omega arith) ld in
        (
          o,
          rw (ne→== dst (k.tcbs t).cpu e, ne→== dst 0 z)
              (sched_migrate-eq me t dst k e z hs hd ∙ q),
        )
  ]
]
  where
    same : ◌≡◌ {A = Option (Bool × Kernel)} (some (false, k)) (some (false, with_output [] k))
    same = ap (λ o. some (false, record k { uart_out = o })) (sym (append-nil k.uart_out))
