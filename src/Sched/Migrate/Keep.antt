-- ===== src/Sched/Migrate/Keep.antt =====
-- When `sched_migrate` of kernel/sched.c moves a task, and the run queues behind it.
use aarch64_rtos.Prelude.{
  ℕ, ◌<◌, ◌≡◌, ◌≢◌, inl, inr, Bool, true, false, arith, ltb, update, ℕ_discrete, Option-cases,
  Bool-cases, ap, sym, ◌∙◌, ltb→lt,
}
use aarch64_rtos.Kernel.{Kernel, Tcb, max_tasks, max_cpus}
use aarch64_rtos.Sched.Scan.{find_slot}
use aarch64_rtos.Sched.Scan.Find.{find_slot-some}
use aarch64_rtos.Sched.Valid.{IsValid}
use aarch64_rtos.Sched.Valid.Keep.{IsValidRq-tcbs}
use aarch64_rtos.Sched.Migrate.{transfer, migrate_locked, may_move, remove_slot, append_task}
use aarch64_rtos.Sched.Migrate.Queues.{remove_slot-IsValidRq, append_task-IsValidRq}

module _ (src dst idx t : ℕ) (k : Kernel) (ne : src ≢ dst) where
  -- The three kinds of queues after the transfer.
  pub transfer-src : (transfer src dst idx t k).runqueues src ≡ remove_slot idx (k.runqueues src)
  unfolding transfer update
  transfer-src = ground arith

  pub transfer-dst : (transfer src dst idx t k).runqueues dst ≡ append_task t (k.runqueues dst)
  unfolding transfer update
  transfer-dst = ground arith

  pub transfer-other :
      (c : ℕ) → src ≢ c → dst ≢ c → (transfer src dst idx t k).runqueues c ≡ k.runqueues c
  unfolding transfer update
  transfer-other c a b = ground arith

  pub transfer-cpu : dst < max_cpus → ((transfer src dst idx t k).tcbs t).cpu ≡ dst
  unfolding transfer update
  transfer-cpu lt = ground arith

  pub transfer-tcbs : (u : ℕ) → u ≢ t → (transfer src dst idx t k).tcbs u ≡ k.tcbs u
  unfolding transfer update
  transfer-tcbs u h = ground arith

-- The transfer of the task in a slot of `src` keeps the run queues valid.
pub transfer-IsValid :
    (src dst idx t : ℕ) (k : Kernel)
    → src < max_cpus
    → dst < max_cpus
    → src ≢ dst
    → (k.runqueues dst).num_tasks < max_tasks
    → idx < (k.runqueues src).num_tasks
    → (k.runqueues src).tasks idx ≡ t
    → IsValid k
    → IsValid (transfer src dst idx t k)
transfer-IsValid src dst idx t k ls ld ne room lt e vs c lc = elim (ℕ_discrete src c) [
  | yes q ↦
      rw (← q, transfer-src src dst idx t k ne)
        (remove_slot-IsValidRq k.tcbs src idx (k.runqueues src) (vs src ls) lt k'.tcbs
          (λ u h. ap (λ (b : Tcb). b.cpu) (others u (λ z. h (z ∙ sym e)))))
  | no q ↦ elim (ℕ_discrete dst c) [
    | yes p ↦
        rw (← p, transfer-dst src dst idx t k ne)
          (append_task-IsValidRq k.tcbs dst t (k.runqueues dst) (vs dst ld) k'.tcbs room
            (transfer-cpu src dst idx t k ne ld) (λ z. ne (sym home ∙ z))
            (λ u h. ap (λ (b : Tcb). b.cpu) (others u h)))
    | no p ↦ rw (transfer-other src dst idx t k ne c q p) (
        IsValidRq-tcbs k.tcbs k'.tcbs c (k.runqueues c)
          (λ i h.
            ap (λ (b : Tcb). b.cpu)
              (others _
                (λ z. q (sym home ∙ ap (λ u. (k.tcbs u).cpu) (sym z) ∙ (vs c lc).home i h))))
          (vs c lc))
  ]
]
  where
    k' : Kernel
    k' = transfer src dst idx t k

    others : (u : ℕ) → u ≢ t → k'.tcbs u ≡ k.tcbs u
    others = transfer-tcbs src dst idx t k ne

    home : (k.tcbs t).cpu ≡ src
    home = ap (λ u. (k.tcbs u).cpu) (sym e) ∙ (vs src ls).home idx lt

-- What the branches of `migrate_locked` come to: the state is as it was, or the transfer of a slot of
-- `src` that holds the task, which is READY and not running on `src`, to a queue with room.
pub data Migration (src dst t : ℕ) (k : Kernel) : Bool × Kernel → Type 0 where
  refused : Migration src dst t k (false, k)
  moved :
      (idx : ℕ)
      → idx < (k.runqueues src).num_tasks
      → (k.runqueues src).tasks idx ≡ t
      → may_move src t k ≡ true
      → (k.runqueues dst).num_tasks < max_tasks
      → Migration src dst t k (true, transfer src dst idx t k)

pub migrate_locked-Migration :
    (src dst t : ℕ) (k : Kernel) → Migration src dst t k (migrate_locked src dst t k)
unfolding migrate_locked
migrate_locked-Migration src dst t k = elim (Bool-cases (may_move src t k)) [
  | inr e ↦ rw (e, migrate_locked) refused
  | inl e ↦
      elim (Option-cases (find_slot (k.runqueues src).tasks t (k.runqueues src).num_tasks 0)) [
        | inl f ↦ rw (e, f, migrate_locked) refused
        | inr (idx, f) ↦ elim (Bool-cases (ltb (k.runqueues dst).num_tasks max_tasks)) [
          | inr g ↦ rw (e, f, g, migrate_locked) refused
          | inl g ↦
              let (a, b, c) =
                find_slot-some (k.runqueues src).tasks t (k.runqueues src).num_tasks 0 idx f in
              rw (e, f, g, migrate_locked) (moved idx (omega arith) c e (ltb→lt _ _ g))
        ]
      ]
]

Migration-IsValid :
    {src dst t : ℕ} {k : Kernel} {out : Bool × Kernel}
    → Migration src dst t k out
    → src < max_cpus
    → dst < max_cpus
    → src ≢ dst
    → IsValid k
    → IsValid out.1
Migration-IsValid refused ls ld ne vs = vs
Migration-IsValid {src} {dst} {t} {k} (moved idx lt e m room) ls ld ne vs =
    transfer-IsValid src dst idx t k ls ld ne room lt e vs

-- A migration between two different queues keeps all run queues valid, also where it is refused.
pub migrate_locked-IsValid :
    (src dst t : ℕ) (k : Kernel)
    → src < max_cpus
    → dst < max_cpus
    → src ≢ dst
    → IsValid k
    → IsValid (migrate_locked src dst t k).1
migrate_locked-IsValid src dst t k = Migration-IsValid (migrate_locked-Migration src dst t k)
