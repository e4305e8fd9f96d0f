-- ===== src/Sched/Balance/Pass.antt =====
-- What one pass of the load balancer does.
use aarch64_rtos.Prelude.{
  ℕ, zero, suc, ◌+◌, ◌-◌, ◌≤◌, ◌<◌, ◌≡◌, ◌≢◌, refl, sym, ap, ap₂, ◌∙◌, Bool, true, none, some, List,
  ◌++◌, arith, update, Bool-cases, Option-cases, inl, inr, ne→==,
}
use aarch64_rtos.Kernel.{Kernel, max_tasks, max_cpus}
use aarch64_rtos.Lock.{irq_disable_save}
use aarch64_rtos.Sched.Locked.{held, lock_free, unlock-held}
use aarch64_rtos.Sched.Valid.{IsValid}
use aarch64_rtos.Sched.Migrate.{transfer, migrate_locked, sched_migrate}
use aarch64_rtos.Sched.Migrate.Keep.{Migration, refused, moved, migrate_locked-Migration}
use aarch64_rtos.Sched.Migrate.Moves.{enough}
use aarch64_rtos.Sched.Migrate.Total.{migrate_result, sched_migrate-result}
use aarch64_rtos.Sched.Balance.{
  Extremes, scan_queues, is_victim, is_uneven, find_victim, migrate_victim, move_one,
  sched_load_balance_pass,
}
use aarch64_rtos.Sched.Balance.Scan.{
  IsExtreme, IsEven, MayLeave, scan_queues-IsExtreme, scan_queues-none, IsExtreme-IsEven,
  is_victim-MayLeave, find_victim-some, find_victim-none,
}

-- The pass changes nothing: the queues of the secondary cores differ by one task at most, or no task
-- of the longest one that it found may leave. Or such a task goes to a shortest queue, which is
-- shorter by two or more.
pub data Balanced (k : Kernel) : Kernel → Type 0 where
  even : IsEven k.runqueues 1 k.smp_online → Balanced k k
  stuck :
      (e : Extremes)
      → IsExtreme k.runqueues 1 k.smp_online e
      → ((j : ℕ)
          → j < (k.runqueues e.busiest).num_tasks
          → ¬ MayLeave e.busiest ((k.runqueues e.busiest).tasks j) k)
      → Balanced k k
  moves :
      (e : Extremes) (idx t : ℕ) (out : List ℕ)
      → IsExtreme k.runqueues 1 k.smp_online e
      → e.idlest_n + 2 ≤ e.busiest_n
      → idx < (k.runqueues e.busiest).num_tasks
      → (k.runqueues e.busiest).tasks idx ≡ t
      → MayLeave e.busiest t k
      → Balanced k (record (transfer e.busiest e.idlest idx t k) { uart_out = k.uart_out ++ out })

find_victim-held :
    (me c : ℕ) (k : Kernel) (rounds i : ℕ)
    → find_victim c (held me c k) rounds i ≡ find_victim c k rounds i
unfolding find_victim held irq_disable_save update
find_victim-held me c k zero i = refl
find_victim-held me c k (suc rounds) i = ground (arith, find_victim-held me c k rounds (i + 1))

num-held :
    (me c : ℕ) (k : Kernel) → ((held me c k).runqueues c).num_tasks ≡ (k.runqueues c).num_tasks
unfolding held irq_disable_save update
num-held me c k = ground arith

-- The slot that a migration empties.
record Slot (src dst t : ℕ) (k : Kernel) (r : Bool × Kernel) : Type 0 where
  idx : ℕ
  inside : idx < (k.runqueues src).num_tasks
  holds : (k.runqueues src).tasks idx ≡ t
  is_transfer : r ≡ (true, transfer src dst idx t k)

Migration-Slot :
    {src dst t : ℕ} {k : Kernel} {r : Bool × Kernel}
    → Migration src dst t k r
    → r.0 ≡ true
    → Slot src dst t k r
Migration-Slot refused h = cc
Migration-Slot (moved idx lt e m room) h = record {
  idx = idx;
  inside = lt;
  holds = e;
  is_transfer = refl;
}

module _ (me : ℕ) (k : Kernel) (vs : IsValid k)
    (online : (1 ≤ k.smp_online) × (k.smp_online ≤ max_cpus))
    (free : (c : ℕ) → c < max_cpus → (k.runqueues c).lock ≡ 0) (quiet : k.uart_lock ≡ 0) where
  module _ (e : Extremes) (x : IsExtreme k.runqueues 1 k.smp_online e)
      (gap : e.idlest_n + 2 ≤ e.busiest_n) where
    different : e.busiest ≢ e.idlest
    different h =
        absurd
          (omega (arith, x.busiest_len, x.idlest_len, ap (λ c. (k.runqueues c).num_tasks) h, gap))

    -- The migration of a victim succeeds.
    migrates :
        (t j : ℕ)
        → j < (k.runqueues e.busiest).num_tasks
        → (k.runqueues e.busiest).tasks j ≡ t
        → is_victim e.busiest t k ≡ true
        → (k' : Kernel) × (sched_migrate me t e.idlest k ≡ some (true, k')) × Balanced k k'
    unfolding transfer
    migrates t j lt q v = (
      record (transfer e.busiest e.idlest idx t k) { uart_out = k.uart_out ++ out },
      rw result at done,
      moves e idx t out x gap lt' q' (is_victim-MayLeave e.busiest t k v),
    )
      where
        home : (k.tcbs t).cpu ≡ e.busiest
        home =
            ap (λ u. (k.tcbs u).cpu) (sym q)
            ∙ (vs e.busiest (omega (arith, x.busiest_in))).home j lt

        len : (k.runqueues e.busiest).num_tasks ≤ max_tasks
        len = (vs e.busiest (omega (arith, x.busiest_in))).few

        ok : (migrate_locked e.busiest e.idlest t k).0 ≡ true
        ok =
            enough e.busiest e.idlest t k (ground (arith, v)) (j, lt, q)
              (omega (arith, len, x.busiest_len, x.idlest_len, gap))

        open (Migration-Slot (migrate_locked-Migration e.busiest e.idlest t k) ok) use {
          idx, inside as lt', holds as q', is_transfer,
        }

        result : migrate_result t e.idlest k ≡ (true, transfer e.busiest e.idlest idx t k)
        result =
            rw
              (
                home,
                ne→== e.idlest e.busiest (λ z. different (sym z)),
                ne→== e.idlest 0 (omega (arith, x.idlest_in)),
              )
              is_transfer

        run :
            (out : List ℕ) × (sched_migrate me t e.idlest k
              ≡ some (
                (migrate_result t e.idlest k).0,
                record (migrate_result t e.idlest k).1 {
                  uart_out = (migrate_result t e.idlest k).1.uart_out ++ out;
                },
              ))
        run =
            sched_migrate-result me t e.idlest k
              (rw home (free e.busiest (omega (arith, x.busiest_in))))
              (free e.idlest (omega (arith, x.idlest_in))) quiet
              (rw home (omega (arith, x.busiest_in))) (omega (arith, x.idlest_in))

        out : List ℕ
        out = run.0

        done :
            sched_migrate me t e.idlest k
            ≡ some (
              (migrate_result t e.idlest k).0,
              record (migrate_result t e.idlest k).1 {
                uart_out = (migrate_result t e.idlest k).1.uart_out ++ out;
              },
            )
        done = run.1

    move_one-Balanced : (k' : Kernel) × (move_one me e.busiest e.idlest k ≡ some k') × Balanced k k'
    unfolding move_one migrate_victim
    move_one-Balanced =
        elim (Option-cases (find_victim e.busiest k (k.runqueues e.busiest).num_tasks 0)) [
          | inl f ↦
              let none_may = find_victim-none e.busiest k (k.runqueues e.busiest).num_tasks 0 f in
              (k, start ∙ rw f, stuck e x (λ j lt. none_may j (omega arith) (omega arith)))
          | inr (t, f) ↦
              let (j, a, lt, q, v) =
                find_victim-some e.busiest k (k.runqueues e.busiest).num_tasks 0 t f in
              let (k', m, b) = migrates t j (omega arith) q v in (k', start ∙ rw (f, m), b)
        ]
      where
        lock : (k.runqueues e.busiest).lock ≡ 0
        lock = free e.busiest (omega (arith, x.busiest_in))

        victim :
            find_victim e.busiest
              (held me e.busiest k)
              ((held me e.busiest k).runqueues e.busiest).num_tasks
              0
            ≡ find_victim e.busiest k (k.runqueues e.busiest).num_tasks 0
        victim = rw (num-held, find_victim-held)

        start :
            move_one me e.busiest e.idlest k
            ≡ migrate_victim me e.idlest
                (find_victim e.busiest k (k.runqueues e.busiest).num_tasks 0)
                k
        start =
            rw (move_one, lock_free me e.busiest k lock)
              (ap₂ (migrate_victim me e.idlest) victim (unlock-held me e.busiest k lock))

  -- For well-formed queues of 1 to 4 cores with all locks free, a pass of the load balancer comes
  -- back. It changes nothing if the queues of the cores 1 … smp_online - 1 differ by one task at most,
  -- or if no task of the longest queue that it found is READY, not running there and not pinned. Else
  -- it takes one such task and appends it to a shortest queue, which is shorter by two or more.
  pub sched_load_balance_pass_lem :
      (k' : Kernel) × (sched_load_balance_pass me k ≡ some k') × Balanced k k'
  unfolding sched_load_balance_pass
  sched_load_balance_pass_lem =
      elim (Option-cases (scan_queues k.runqueues (k.smp_online - 1) 1 none)) [
        | inl s ↦
            let alone = scan_queues-none k.runqueues k.smp_online online.0 s in
            (k, rw (s, sched_load_balance_pass), even (λ c d a b a' b'. absurd (omega arith)))
        | inr (e, s) ↦ elim (Bool-cases (is_uneven e)) [
          | inr u ↦
              let x = scan_queues-IsExtreme k.runqueues k.smp_online online.0 s in
              (
                k,
                rw (s, u, sched_load_balance_pass),
                even (IsExtreme-IsEven k.runqueues 1 k.smp_online e x u),
              )
          | inl u ↦
              let x = scan_queues-IsExtreme k.runqueues k.smp_online online.0 s in
              let (k', m, b) = move_one-Balanced e x (ground (arith, u)) in
              (k', rw (s, u, sched_load_balance_pass) m, b)
        ]
      ]
