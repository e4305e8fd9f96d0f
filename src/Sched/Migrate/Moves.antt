-- ===== src/Sched/Migrate/Moves.antt =====
-- Which tasks the queues hold after `sched_migrate`, and exactly when it succeeds.
use aarch64_rtos.Prelude.{
  ℕ, ◌<◌, ◌≡◌, ◌≢◌, ◌⊎◌, ◌↔◌, inl, inr, refl, Bool, true, false, arith, ℕ_discrete, Option-cases,
  lt→ltb, subst,
}
use aarch64_rtos.Kernel.{Kernel, max_tasks, max_cpus, ready}
use aarch64_rtos.Sched.Scan.{find_slot}
use aarch64_rtos.Sched.Scan.Find.{find_slot-none}
use aarch64_rtos.Sched.Valid.{IsValid}
use aarch64_rtos.Sched.Migrate.{transfer, migrate_locked, may_move}
use aarch64_rtos.Sched.Migrate.Queues.{
  Holds, remove_slot-keeps, remove_slot-only, append_task-Holds, append_task-keeps, append_task-new,
}
use aarch64_rtos.Sched.Migrate.Keep.{
  Migration, refused, moved, migrate_locked-Migration, transfer-src, transfer-dst, transfer-other,
}

-- The queues of `k'` hold the tasks that those of `k` hold, but `t` has left `src` and is in `dst`.
pub record OnlyMoves (src dst t : ℕ) (k k' : Kernel) : Type 0 where
  pub left : ¬ Holds (k'.runqueues src) t
  pub arrived : Holds (k'.runqueues dst) t
  pub others : (c u : ℕ) → c < max_cpus → u ≢ t → Holds (k'.runqueues c) u ↔ Holds (k.runqueues c) u

module _ (src dst idx : ℕ) (k : Kernel) (vs : IsValid k) (ls : src < max_cpus) (ne : src ≢ dst)
    (lt : idx < (k.runqueues src).num_tasks) where
  abbrev task : ℕ
  task = (k.runqueues src).tasks idx

  abbrev after : Kernel
  after = transfer src dst idx task k

  stays : (c u : ℕ) → u ≢ task → Holds (k.runqueues c) u → Holds (after.runqueues c) u
  stays c u h w = elim (ℕ_discrete src c) [
    | yes q ↦
        rw (← q, transfer-src src dst idx task k ne)
          (remove_slot-keeps k.tcbs src idx (k.runqueues src) (vs src ls) lt u h (rw (← q) at w))
    | no q ↦ elim (ℕ_discrete dst c) [
      | yes p ↦
          rw (← p, transfer-dst src dst idx task k ne)
            (append_task-keeps task u (k.runqueues dst) (rw (← p) at w))
      | no p ↦ rw (transfer-other src dst idx task k ne c q p) w
    ]
  ]

  was : (c u : ℕ) → u ≢ task → Holds (after.runqueues c) u → Holds (k.runqueues c) u
  was c u h w = elim (ℕ_discrete src c) [
    | yes q ↦
        rw (← q)
          (remove_slot-only k.tcbs src idx (k.runqueues src) (vs src ls) lt u
            (rw (← q, transfer-src src dst idx task k ne) at w)).0
    | no q ↦ elim (ℕ_discrete dst c) [
      | yes p ↦
          rw (← p)
            (elim (append_task-Holds task u (k.runqueues dst)
              (rw (← p, transfer-dst src dst idx task k ne) at w)) [
                | inl w' ↦ w'
                | inr e ↦ absurd (h e)
              ])
      | no p ↦ rw (transfer-other src dst idx task k ne c q p) at w
    ]
  ]

  pub transfer-OnlyMoves : OnlyMoves src dst task k after
  transfer-OnlyMoves = record {
    left = λ w.
        (remove_slot-only k.tcbs src idx (k.runqueues src) (vs src ls) lt task
            (rw (transfer-src src dst idx task k ne) at w)).1
          refl;
    arrived = rw (transfer-dst src dst idx task k ne) (append_task-new task (k.runqueues dst));
    others = λ c u l h. (was c u h, stays c u h);
  }

Migration-OnlyMoves :
    {src dst t : ℕ} {k : Kernel} {out : Bool × Kernel}
    → Migration src dst t k out
    → src < max_cpus
    → src ≢ dst
    → IsValid k
    → ((out.0 ≡ false) × (out.1 ≡ k)) ⊎ ((out.0 ≡ true) × OnlyMoves src dst t k out.1)
Migration-OnlyMoves refused ls ne vs = inl (refl, refl)
Migration-OnlyMoves {src} {dst} {t} {k} (moved idx lt e m room) ls ne vs = inr (
  refl,
  subst (λ u. OnlyMoves src dst u k (transfer src dst idx u k)) e
      (transfer-OnlyMoves src dst idx k vs ls ne lt),
)

-- A migration that fails changes nothing. One that succeeds takes the task out of the source queue
-- and puts it in the other, and the four queues hold all other tasks as they did.
pub migrate_locked-OnlyMoves :
    (src dst t : ℕ) (k : Kernel)
    → src < max_cpus
    → src ≢ dst
    → IsValid k
    → let (ok, k') = migrate_locked src dst t k in
      ((ok ≡ false) × (k' ≡ k)) ⊎ ((ok ≡ true) × OnlyMoves src dst t k k')
migrate_locked-OnlyMoves src dst t k = Migration-OnlyMoves (migrate_locked-Migration src dst t k)

-- What a migration asks of the task and of the two queues: the task is READY, is not the one that runs
-- on the source core, and is in the source queue; the other queue has room.
abbrev pub CanMove : ℕ → ℕ → ℕ → Kernel → Type 0
CanMove src dst t k =
    ((k.tcbs t).state ≡ ready)
    × (t ≢ (k.cpu_locals src).curr)
    × Holds (k.runqueues src) t
    × ((k.runqueues dst).num_tasks < max_tasks)

Migration-moved :
    {src dst t : ℕ} {k : Kernel} {out : Bool × Kernel}
    → Migration src dst t k out
    → out.0 ≡ true
    → CanMove src dst t k
Migration-moved refused h = cc
Migration-moved (moved idx lt e m room) h =
    (ground (arith, m), ground (arith, m), (idx, lt, e), room)

pub enough :
    (src dst t : ℕ) (k : Kernel)
    → may_move src t k ≡ true
    → Holds (k.runqueues src) t
    → (k.runqueues dst).num_tasks < max_tasks
    → (migrate_locked src dst t k).0 ≡ true
unfolding migrate_locked
enough src dst t k m (i, lt, e) room =
    elim (Option-cases (find_slot (k.runqueues src).tasks t (k.runqueues src).num_tasks 0)) [
      | inl f ↦ absurd (
          find_slot-none (k.runqueues src).tasks t (k.runqueues src).num_tasks 0 i f (omega arith)
            (omega arith) e)
      | inr (idx, f) ↦ rw (m, f, lt→ltb _ _ room, migrate_locked)
    ]

-- A migration succeeds exactly when the task is READY, is not the one that runs on the source core,
-- is in the source queue, and the other queue has room.
pub migrate_locked_iff :
    (src dst t : ℕ) (k : Kernel)
    → ((migrate_locked src dst t k).0 ≡ true) ↔ (
        ((k.tcbs t).state ≡ ready)
        × (t ≢ (k.cpu_locals src).curr)
        × Holds (k.runqueues src) t
        × ((k.runqueues dst).num_tasks < max_tasks))
migrate_locked_iff src dst t k = (
  Migration-moved (migrate_locked-Migration src dst t k),
  λ (awake, idle, h, room). enough src dst t k (ground arith) h room,
)
