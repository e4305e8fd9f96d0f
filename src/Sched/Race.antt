-- ===== src/Sched/Race.antt =====
-- The gap between `pick_next_ready` and `current = next`, in which the lock of the queue is free and
-- another core may migrate a task.
use aarch64_rtos.Prelude.{
  ℕ, ◌<◌, ◌≡◌, ◌≢◌, refl, sym, ap, ◌∙◌, true, arith, some, ◌==◌, not, inl, inr, subst, update-at,
  update-ne, ne→==,
}
use aarch64_rtos.Kernel.{Kernel, Runqueue, CpuLocal, max_tasks, max_cpus}
use aarch64_rtos.Sched.Policy.{load_aware_select_next}
use aarch64_rtos.Sched.Policy.Choice.{load_aware_select_next_lem}
use aarch64_rtos.Sched.Valid.{IsValid}
use aarch64_rtos.Sched.Valid.Keep.{same_tasks, load_aware-IsValidRq, IsValid-set_rq}
use aarch64_rtos.Sched.Run.{this_cpu, current, set_current, set_rq, pick_next_ready}
use aarch64_rtos.Sched.Locked.{pick_next_ready_lem}
use aarch64_rtos.Sched.Migrate.{may_move, migrate_locked}
use aarch64_rtos.Sched.Migrate.Queues.{Holds}
use aarch64_rtos.Sched.Migrate.Moves.{enough, migrate_locked-OnlyMoves}

-- `next` is about to run on core `me`, and a migration to `dst` has just taken it.
abbrev pub Stolen : ℕ → ℕ → ℕ → Kernel → Type 0
Stolen me dst next k1 =
    let (ok, k2) = migrate_locked me dst next k1 in
    (ok ≡ true)
    × (current me (set_current me next k2) ≡ next)
    × (¬ Holds (k2.runqueues me) next)
    × Holds (k2.runqueues dst) next

movable-Stolen :
    (me dst next : ℕ) (k1 : Kernel)
    → IsValid k1
    → me < max_cpus
    → me ≢ dst
    → may_move me next k1 ≡ true
    → Holds (k1.runqueues me) next
    → (k1.runqueues dst).num_tasks < max_tasks
    → Stolen me dst next k1
movable-Stolen me dst next k1 vs lt ne m h room =
    let k2 = (migrate_locked me dst next k1).1 in
    let ok = enough me dst next k1 m h room in
    let here : current me (set_current me next k2) ≡ next =
      ap (λ (l : CpuLocal). l.curr)
        (update-at k2.cpu_locals me (record (k2.cpu_locals me) { curr = next })) in
    elim (migrate_locked-OnlyMoves me dst next k1 lt ne vs) [
      | inl (no_move, same) ↦ cc
      | inr (yes_move, o) ↦ (ok, here, o.left, o.arrived)
    ]

module _ (me dst : ℕ) (k : Kernel) (vs : IsValid k) (lt : me < max_cpus) (ne : me ≢ dst)
    (room : (k.runqueues dst).num_tasks < max_tasks) where
  abbrev out : ℕ × Runqueue
  out = load_aware_select_next k.tcbs (current me k) (k.runqueues me)

  chosen-Stolen : out.0 ≢ current me k → Stolen me dst out.0 (set_rq me out.1 k)
  chosen-Stolen other =
      elim (load_aware_select_next_lem k.tcbs (current me k) (k.runqueues me)
        (λ pos. omega (arith, (vs me lt).indexed))) [
          | inr (all, s, u) ↦ absurd (other s)
          | inl (idx, t, f) ↦
              let (tasks, num) = same_tasks k.tcbs (current me k) (k.runqueues me) in
              let valid =
                load_aware-IsValidRq k.tcbs (current me k) me (k.runqueues me) (vs me lt) in
              let free : not (out.0 == current me k) ≡ true = rw (ne→== _ _ other) refl in
              let m : may_move me out.0 (set_rq me out.1 k) ≡ true =
                rw (t.is_ready_task, free) refl in
              let here : Holds out.1 out.0 =
                (idx, omega (arith, num, t.inside), ap (λ f. f idx) tasks ∙ sym t.is_task) in
              movable-Stolen me dst out.0 (set_rq me out.1 k) (IsValid-set_rq me out.1 k valid vs)
                lt ne m (rw (update-at k.runqueues me out.1) here)
                (rw (update-ne k.runqueues me out.1 dst ne) room)
        ]

-- On a core whose choice is another task than its current one, a migration to a queue with room that
-- comes before `current = next` takes that very task: the core then runs a task that its own queue no
-- longer holds and the other core's queue does.
pub pick_then_migrate :
    (me dst next : ℕ) (k k1 : Kernel)
    → IsValid k
    → me < max_cpus
    → (this_cpu me k).cpu_id ≡ me
    → (k.runqueues me).lock ≡ 0
    → me ≢ dst
    → (k.runqueues dst).num_tasks < max_tasks
    → pick_next_ready me k ≡ some (next, k1)
    → next ≢ current me k
    → Stolen me dst next k1
pick_then_migrate me dst next k k1 vs lt id free ne room pick other =
    let o = out me dst k vs lt ne room in
    let choice : pick_next_ready me k ≡ some (o.0, set_rq me o.1 k) =
      rw id at (pick_next_ready_lem me k (rw id free)) in
    let same : (o.0, set_rq me o.1 k) ≡ (next, k1) = cc in
    subst (λ (r : ℕ × Kernel). r.0 ≢ current me k → Stolen me dst r.0 r.1) same
      (chosen-Stolen me dst k vs lt ne room) other
