-- ===== src/Tests/Scheduler.antt =====
-- The scheduler's theorems at the kernel of the fixtures.
use aarch64_rtos.Prelude.{ℕ, ◌<◌, ◌≡◌, ◌≢◌, ◌⊎◌, ◌↔◌, refl, arith, some, true, false}
use aarch64_rtos.Kernel.{Kernel, Runqueue, max_tasks, ready}
use aarch64_rtos.Sched.Scan.First.{FirstReady}
use aarch64_rtos.Sched.Scan.Lightest.{Lightest}
use aarch64_rtos.Sched.Policy.{policy_roundrobin, roundrobin_select_next, load_aware_select_next}
use aarch64_rtos.Sched.Policy.Choice.{
  Chooses, roundrobin_select_next_lem, load_aware_select_next_lem,
}
use aarch64_rtos.Sched.Policy.Ties.{load_aware-eq-roundrobin}
use aarch64_rtos.Sched.Policy.Ewma.{ewma_after, ewma_saturates}
use aarch64_rtos.Sched.Valid.{IsValid, IsValidRq}
use aarch64_rtos.Sched.Migrate.{migrate_locked, sched_migrate}
use aarch64_rtos.Sched.Migrate.Queues.{Holds}
use aarch64_rtos.Sched.Migrate.Keep.{migrate_locked-IsValid}
use aarch64_rtos.Sched.Migrate.Moves.{OnlyMoves, migrate_locked-OnlyMoves, migrate_locked_iff}
use aarch64_rtos.Sched.Migrate.Ends.{Ended, sched_migrate_lem}
use aarch64_rtos.Sched.Balance.{sched_load_balance_pass}
use aarch64_rtos.Sched.Balance.Pass.{Balanced, sched_load_balance_pass_lem}
use aarch64_rtos.Sched.Run.{set_rq, pick_with}
use aarch64_rtos.Sched.AnyPolicy.{Picked, policy_roundrobin-IsPolicy, pick_with_lem}
use aarch64_rtos.Sched.Bag.{bag_of, balance_pass-bag}
use aarch64_rtos.Tests.Fixtures.{demo}
use aarch64_rtos.Tests.Valid.{demo-IsValid, queue_1-IsValidRq}

roundrobin_select_next_example :
    Chooses
      (FirstReady demo.tcbs (demo.runqueues 1).tasks 3 0 1 4)
      demo.tcbs
      2
      (demo.runqueues 1)
      (roundrobin_select_next demo.tcbs 2 (demo.runqueues 1))
roundrobin_select_next_example =
    roundrobin_select_next_lem demo.tcbs 2 (demo.runqueues 1) (λ pos. omega arith)

load_aware_select_next_example :
    Chooses
      (Lightest demo.tcbs (demo.runqueues 1).tasks 3 0 1 4)
      demo.tcbs
      2
      (demo.runqueues 1)
      (load_aware_select_next demo.tcbs 2 (demo.runqueues 1))
load_aware_select_next_example =
    load_aware_select_next_lem demo.tcbs 2 (demo.runqueues 1) (λ pos. omega arith)

load_aware-eq-roundrobin_example :
    load_aware_select_next demo.tcbs 1 (demo.runqueues 0)
    ≡ roundrobin_select_next demo.tcbs 1 (demo.runqueues 0)
load_aware-eq-roundrobin_example =
    load_aware-eq-roundrobin demo.tcbs 1 (demo.runqueues 0) 900 (λ i h r. refl)

ewma_saturates_example : ewma_after 25 300 ≡ 997
ewma_saturates_example = ewma_saturates 300 25 (omega arith) (omega arith)

migrate_locked-IsValid_example : IsValid (migrate_locked 1 2 3 demo).1
migrate_locked-IsValid_example =
    migrate_locked-IsValid 1 2 3 demo (omega arith) (omega arith) (omega arith) demo-IsValid

migrate_locked-OnlyMoves_example :
    let (ok, k') = migrate_locked 1 2 3 demo in
    ((ok ≡ false) × (k' ≡ demo)) ⊎ ((ok ≡ true) × OnlyMoves 1 2 3 demo k')
migrate_locked-OnlyMoves_example =
    migrate_locked-OnlyMoves 1 2 3 demo (omega arith) (omega arith) demo-IsValid

migrate_locked_iff_example : ((migrate_locked 1 2 3 demo).0 ≡ true) ↔ (
    ((demo.tcbs 3).state ≡ ready)
    × (3 ≢ (demo.cpu_locals 1).curr)
    × Holds (demo.runqueues 1) 3
    × ((demo.runqueues 2).num_tasks < max_tasks))
migrate_locked_iff_example = migrate_locked_iff 1 2 3 demo

sched_migrate_example : Ended 1 2 3 demo (sched_migrate 0 3 2 demo)
sched_migrate_example =
    sched_migrate_lem 0 3 2 demo demo-IsValid (omega arith) (omega arith) refl refl refl

sched_load_balance_pass_example :
    (k' : Kernel) × (sched_load_balance_pass 0 demo ≡ some k') × Balanced demo k'
sched_load_balance_pass_example =
    sched_load_balance_pass_lem 0 demo demo-IsValid (omega arith) (λ c lt. ground arith) refl

balance_pass-bag_example :
    (k' : Kernel) × (sched_load_balance_pass 0 demo ≡ some k') × (bag_of k' ≡ bag_of demo)
balance_pass-bag_example =
    balance_pass-bag 0 demo demo-IsValid (omega arith) (omega arith) (λ c lt. ground arith) refl

pick_with_example :
    (n : ℕ) × (rq : Runqueue) × (pick_with policy_roundrobin 1 demo ≡ some (n, set_rq 1 rq demo))
    × (rq.lock ≡ 0)
    × IsValidRq demo.tcbs 1 rq
    × Picked 2 1 demo n
pick_with_example =
    pick_with_lem policy_roundrobin 1 demo policy_roundrobin-IsPolicy refl queue_1-IsValidRq
