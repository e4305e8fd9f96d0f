-- ===== src/Sched/Balance.antt =====
-- `sched_load_balance_pass` of kernel/sched.c: one task from the longest queue of the secondary cores
-- to the shortest.
pub mod Scan
pub mod Pass
use aarch64_rtos.Prelude.{
  ℕ, zero, suc, ◌+◌, ◌-◌, ◌>>=◌, ◌&&◌, not, Bool, Option, none, some, ◌==◌, ltb, if◌then◌else◌,
}
use aarch64_rtos.Kernel.{Kernel, Runqueue}
use aarch64_rtos.Lock.{rq_lock_irqsave, rq_unlock_irqrestore}
use aarch64_rtos.Sched.Migrate.{may_move, sched_migrate}

-- `busiest`, `busiest_n`, `idlest`, `idlest_n`; the C code starts from -1, -1, -1 and 2 ^ 30, which
-- here is `none`: the first queue beats it both ways.
pub record Extremes : Type 0 where
  pub busiest : ℕ
  pub busiest_n : ℕ
  pub idlest : ℕ
  pub idlest_n : ℕ

-- One round of the scan, at queue `cpu`.
unfoldable pub scan_queue : (ℕ → Runqueue) → ℕ → Option Extremes → Option Extremes
scan_queue rqs cpu none =
    let n = (rqs cpu).num_tasks in
    some (record { busiest = cpu; busiest_n = n; idlest = cpu; idlest_n = n })
scan_queue rqs cpu (some e) =
    let n = (rqs cpu).num_tasks in
    some (record {
      busiest = (if ltb e.busiest_n n then cpu else e.busiest);
      busiest_n = (if ltb e.busiest_n n then n else e.busiest_n);
      idlest = (if ltb n e.idlest_n then cpu else e.idlest);
      idlest_n = (if ltb n e.idlest_n then n else e.idlest_n);
    })

-- `for (cpu = 1; cpu < smp_online; cpu++)`, with `rounds` rounds left.
unfoldable pub scan_queues : (ℕ → Runqueue) → ℕ → ℕ → Option Extremes → Option Extremes
scan_queues rqs zero cpu e = e
scan_queues rqs (suc rounds) cpu e = scan_queues rqs rounds (cpu + 1) (scan_queue rqs cpu e)

-- `t->state == 0 && t != cpu_locals[busiest].curr && !t->pinned`
abbrev pub is_victim : ℕ → ℕ → Kernel → Bool
is_victim busiest t k = may_move busiest t k && (k.tcbs t).pinned == 0

-- The first victim of the queue.
unfoldable pub find_victim : ℕ → Kernel → ℕ → ℕ → Option ℕ
find_victim busiest k zero i = none
find_victim busiest k (suc rounds) i =
    let rest = find_victim busiest k rounds (i + 1) in
    let t = (k.runqueues busiest).tasks i in if is_victim busiest t k then some t else rest

-- `if (victim) sched_migrate(victim, idlest);`
unfoldable pub migrate_victim : ℕ → ℕ → Option ℕ → Kernel → Option Kernel
migrate_victim me idlest none k = some k
migrate_victim me idlest (some t) k = sched_migrate me t idlest k >>= λ (ok, k'). some k'

-- The search for a victim under the queue's lock, and the migration.
unfoldable pub move_one : ℕ → ℕ → ℕ → Kernel → Option Kernel
move_one me busiest idlest k = do
  (f, k1) ← rq_lock_irqsave me busiest k
  let victim = find_victim busiest k1 (k1.runqueues busiest).num_tasks 0
  migrate_victim me idlest victim (rq_unlock_irqrestore me busiest f k1)

-- The queues differ by two tasks or more.
abbrev pub is_uneven : Extremes → Bool
is_uneven e = not (e.busiest == e.idlest) && not (ltb (e.busiest_n - e.idlest_n) 2)

unfoldable pub sched_load_balance_pass : ℕ → Kernel → Option Kernel
sched_load_balance_pass me k = elim (scan_queues k.runqueues (k.smp_online - 1) 1 none) [
  | none ↦ some k
  | some e ↦ if is_uneven e then move_one me e.busiest e.idlest k else some k
]
