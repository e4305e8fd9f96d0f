-- ===== src/Sched/Migrate/Ends.antt =====
-- The two ends of `sched_migrate` of kernel/sched.c: the result -1, and a task on another core.
use mathlib.Core.List.{append_assoc}
use aarch64_rtos.Prelude.{
  ℕ, ◌^◌, ◌<◌, ◌≡◌, ◌≢◌, ◌⊎◌, ◌↔◌, ◌∙◌, inl, inr, refl, sym, ap, Bool, true, false, Option, some,
  List, [], ◌∷◌, ◌++◌, arith, codes, ℕ_discrete, eq→==, ne→==, subst, update, ◌==◌, ◌||◌,
}
use aarch64_rtos.Kernel.{Kernel, max_cpus}
use aarch64_rtos.Uart.Decimal.{value_from}
use aarch64_rtos.Uart.Laws.{klog_lem}
use aarch64_rtos.Sched.Valid.{IsValid}
use aarch64_rtos.Sched.Migrate.{
  report, log_migration, sched_migrate, transfer, crlf, remove_slot, append_task,
}
use aarch64_rtos.Sched.Migrate.Keep.{
  Migration, refused, moved, migrate_locked-Migration, transfer-cpu, transfer-tcbs,
}
use aarch64_rtos.Sched.Migrate.Moves.{OnlyMoves, CanMove, transfer-OnlyMoves, migrate_locked_iff}
use aarch64_rtos.Sched.Migrate.Locked.{sched_migrate-eq}

-- The task has gone from the one queue to the other and names its new core; all other tasks are as they
-- were, and so are the locks and the IRQ masks.
pub record HasMoved (src dst t : ℕ) (k k' : Kernel) : Type 0 where
  pub only : OnlyMoves src dst t k k'
  pub home : (k'.tcbs t).cpu ≡ dst
  pub others : (u : ℕ) → u ≢ t → k'.tcbs u ≡ k.tcbs u
  pub locks : (c : ℕ) → (k'.runqueues c).lock ≡ (k.runqueues c).lock
  pub masks : k'.daif ≡ k.daif
  pub uart_lock : k'.uart_lock ≡ k.uart_lock

-- The line of a migration, with the digits of the two cores
abbrev pub migrated_line : List ℕ → List ℕ → List ℕ
migrated_line from to =
    codes "LB: migrated task, src=" ++ from ++ codes " dst=" ++ to ++ (13 ∷ 10 ∷ [])

-- How `sched_migrate` ends: with -1 and nothing changed, no output either; or with 0, the task moved
-- and the line printed.
pub data Ended (src dst t : ℕ) (k : Kernel) : Option (Bool × Kernel) → Type 0 where
  stays : (dst ≡ src) ⊎ (dst ≡ 0) ⊎ (¬ CanMove src dst t k) → Ended src dst t k (some (false, k))
  goes :
      (k' : Kernel) (from to : List ℕ)
      → dst ≢ src
      → dst ≢ 0
      → CanMove src dst t k
      → HasMoved src dst t k k'
      → value_from 0 from ≡ src
      → value_from 0 to ≡ dst
      → k'.uart_out ≡ k.uart_out ++ migrated_line from to
      → Ended src dst t k (some (true, k'))

log_line :
    (me src dst : ℕ) (k : Kernel)
    → k.uart_lock ≡ 0
    → src < 2 ^ 64
    → dst < 2 ^ 64
    → (from to : List ℕ) × (value_from 0 from ≡ src)
      × (value_from 0 to ≡ dst)
      × (log_migration me src dst k
          ≡ some (record k { uart_out = k.uart_out ++ migrated_line from to }))
unfolding log_migration
log_line me src dst k h ls ld =
    let (a, _, va, ea) = klog_lem me (codes "LB: migrated task, src=") src [] k h ls in
    let k1 : Kernel = record k {
      uart_out = k.uart_out ++ codes "LB: migrated task, src=" ++ a ++ [];
    } in
    let (b, _, vb, eb) = klog_lem me (codes " dst=") dst crlf k1 h ld in
    (a, b, va, vb, rw ea (eb ∙ ap (λ o. some (record k { uart_out = o })) (regroup a b)))
  where
    regroup :
        (a b : List ℕ)
        → k.uart_out ++ codes "LB: migrated task, src=" ++ a ++ [] ++ codes " dst=" ++ b ++ crlf
          ≡ k.uart_out ++ migrated_line a b
    regroup a b = simp append_assoc

module _ (src dst idx t : ℕ) (k : Kernel) (ne : src ≢ dst) (small : dst < max_cpus) where
  transfer-locks : (c : ℕ) → ((transfer src dst idx t k).runqueues c).lock ≡ (k.runqueues c).lock
  unfolding transfer update remove_slot append_task
  transfer-locks c = ground arith

  transfer-HasMoved :
      (line : List ℕ)
      → OnlyMoves src dst t k (transfer src dst idx t k)
      → HasMoved src dst t k (record (transfer src dst idx t k) { uart_out = k.uart_out ++ line })
  unfolding transfer
  transfer-HasMoved line m = record {
    only = record { left = m.left; arrived = m.arrived; others = m.others };
    home = transfer-cpu src dst idx t k ne small;
    others = transfer-tcbs src dst idx t k ne;
    locks = transfer-locks;
    masks = refl;
    uart_lock = refl;
  }

same_uart_lock :
    (src dst idx t : ℕ) (k : Kernel) → (transfer src dst idx t k).uart_lock ≡ k.uart_lock
unfolding transfer
same_uart_lock src dst idx t k = refl

report-Ended :
    {src dst t : ℕ} {k : Kernel} {out : Bool × Kernel} (me : ℕ)
    → Migration src dst t k out
    → (out.0 ≡ true) ↔ CanMove src dst t k
    → dst ≢ src
    → dst ≢ 0
    → src < max_cpus
    → dst < max_cpus
    → k.uart_lock ≡ 0
    → IsValid k
    → Ended src dst t k (report me src dst out)
unfolding report transfer
report-Ended me refused can ne nz ls ld free vs = stays (inr (inr (λ c. cc (can.1 c))))
report-Ended {src} {dst} {t} {k} me (moved idx lt e m room) can ne nz ls ld free vs =
    let k1 = transfer src dst idx t k in
    let apart : src ≢ dst = λ z. ne (sym z) in
    let only : OnlyMoves src dst t k k1 =
      subst (λ u. OnlyMoves src dst u k (transfer src dst idx u k)) e
        (transfer-OnlyMoves src dst idx k vs ls apart lt) in
    let (from, to, vf, vt, q) =
      log_line me src dst k1 (same_uart_lock src dst idx t k ∙ free) (omega (arith, ls))
        (omega (arith, ld)) in
    let line = migrated_line from to in
    rw q (
      goes (record k1 { uart_out = k.uart_out ++ line }) from to ne nz (can.0 refl)
        (transfer-HasMoved src dst idx t k apart ld line only) vf vt refl)

sched_migrate-stays :
    (me t dst : ℕ) (k : Kernel)
    → (dst == (k.tcbs t).cpu || dst == 0) ≡ true
    → sched_migrate me t dst k ≡ some (false, k)
unfolding sched_migrate
sched_migrate-stays me t dst k h = rw (h, sched_migrate)

-- With well-formed queues, a task on a core of the machine, a target core of the machine, and the locks
-- of the two queues and of the UART free, `sched_migrate` comes back. If the target is the home core or
-- CPU0, or the task is not READY, runs on its core or is not in its queue, or the other queue is full,
-- the result is -1 and nothing changes, the output included. Else the result is 0: the task has left
-- its queue and is in the other, names its new core, and the line with the two cores is printed; the
-- four queues hold all other tasks as they did, their blocks, the locks and the IRQ masks are as they
-- were.
pub sched_migrate_lem :
    (me t dst : ℕ) (k : Kernel)
    → IsValid k
    → (k.tcbs t).cpu < max_cpus
    → dst < max_cpus
    → (k.runqueues (k.tcbs t).cpu).lock ≡ 0
    → (k.runqueues dst).lock ≡ 0
    → k.uart_lock ≡ 0
    → Ended (k.tcbs t).cpu dst t k (sched_migrate me t dst k)
sched_migrate_lem me t dst k vs ls ld hs hd hu = elim (ℕ_discrete dst (k.tcbs t).cpu) [
  | yes e ↦ rw (sched_migrate-stays me t dst k (rw (eq→== dst (k.tcbs t).cpu e))) (stays (inl e))
  | no e ↦ elim (ℕ_discrete dst 0) [
    | yes z ↦
        rw (sched_migrate-stays me t dst k (rw (ne→== dst (k.tcbs t).cpu e, eq→== dst 0 z)))
          (stays (inr (inl z)))
    | no z ↦
        let src = (k.tcbs t).cpu in
        rw (sched_migrate-eq me t dst k e z hs hd) (
          report-Ended me (migrate_locked-Migration src dst t k) (migrate_locked_iff src dst t k) e
            z ls ld hu vs)
  ]
]
