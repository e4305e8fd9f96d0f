-- ===== src/Sched/Migrate/Locked.antt =====
-- The critical section of `sched_migrate` (kernel/sched.c), with the two queues' locks free before it.
use aarch64_rtos.Prelude.{
  ℕ, ◌≡◌, ◌≢◌, sym, ne→==, ◌∙◌, Bool, true, false, some, arith, ltb, update, update-update,
  update-ne, update_self, ap, Bool-cases, Option-cases, inl, inr, fun_ext,
}
use aarch64_rtos.Kernel.{Kernel, Runqueue, max_tasks}
use aarch64_rtos.Lock.{
  rq_unlock_irqrestore, irq_disable_save, irq_restore, rq_lock, rq_unlock, spin_lock, spin_unlock,
  mask_irq,
}
use aarch64_rtos.Sched.Scan.{find_slot}
use aarch64_rtos.Sched.Locked.{held, lock_free}
use aarch64_rtos.Sched.Migrate.{
  lock_pair, unlock_pair, report, sched_migrate, migrate_locked, may_move, transfer, remove_slot,
  append_task, lower, upper,
}

-- The queues while both locks are held.
both : ℕ → ℕ → (ℕ → Runqueue) → ℕ → Runqueue
both src dst rqs =
    update (update rqs src (record (rqs src) { lock = 1 })) dst (record (rqs dst) { lock = 1 })

-- The queues once both locks are released.
release : ℕ → ℕ → (ℕ → Runqueue) → ℕ → Runqueue
release src dst rqs =
    update (update rqs src (record (rqs src) { lock = 0 })) dst (record (rqs dst) { lock = 0 })

module _ (src dst : ℕ) (ne : src ≢ dst) where
  both-src : (rqs : ℕ → Runqueue) → both src dst rqs src ≡ record (rqs src) { lock = 1 }
  unfolding both update
  both-src rqs = ground arith

  both-dst : (rqs : ℕ → Runqueue) → both src dst rqs dst ≡ record (rqs dst) { lock = 1 }
  unfolding both update
  both-dst rqs = ground arith

  -- The order in which the locks are taken and given back does not matter for the result.
  lower-upper : (rqs : ℕ → Runqueue) → both (lower src dst) (upper src dst) rqs ≡ both src dst rqs
  unfolding both update
  lower-upper rqs = fun_ext λ c. ground arith

  upper-lower :
      (rqs : ℕ → Runqueue) → release (upper src dst) (lower src dst) rqs ≡ release src dst rqs
  unfolding release update
  upper-lower rqs = fun_ext λ c. ground arith

  module _ (k : Kernel) (hs : (k.runqueues src).lock ≡ 0) (hd : (k.runqueues dst).lock ≡ 0)
      (d : ℕ → ℕ) where
    -- The state inside the critical section, and the state after it.
    abbrev inside : Kernel
    inside = record k { runqueues = both src dst k.runqueues; daif = d }

    abbrev outside : Kernel → Kernel
    outside k' = record k' { runqueues = release src dst k'.runqueues; daif = k.daif }

    released : release src dst (both src dst k.runqueues) ≡ k.runqueues
    unfolding both release update
    released = fun_ext λ c. ground arith

    transferred :
        (idx t : ℕ)
        → release src dst (transfer src dst idx t inside).runqueues
          ≡ (transfer src dst idx t k).runqueues
    unfolding both release transfer remove_slot append_task update
    transferred idx t = fun_ext λ c. ground arith

    outside-transfer :
        (idx t : ℕ) → outside (transfer src dst idx t inside) ≡ transfer src dst idx t k
    unfolding transfer
    outside-transfer idx t =
        λ i. record (transfer src dst idx t k) { runqueues = transferred idx t i }

    section-migrate :
        (t : ℕ)
        → let (ok, k') = migrate_locked src dst t inside in
          (ok, outside k') ≡ migrate_locked src dst t k
    unfolding migrate_locked
    section-migrate t = elim (Bool-cases (may_move src t k)) [
      | inr e ↦ rw (e, migrate_locked) unchanged
      | inl e ↦
          elim (Option-cases (find_slot (k.runqueues src).tasks t (k.runqueues src).num_tasks 0)) [
            | inl f ↦ rw (migrate_locked, both-src k.runqueues, e, f) unchanged
            | inr (idx, f) ↦ elim (Bool-cases (ltb (k.runqueues dst).num_tasks max_tasks)) [
              | inr g ↦
                  rw (migrate_locked, both-src k.runqueues, e, f, both-dst k.runqueues, g) unchanged
              | inl g ↦
                  rw (migrate_locked, both-src k.runqueues, e, f, both-dst k.runqueues, g)
                    (ap (λ r. (true, r)) (outside-transfer idx t))
            ]
          ]
    ]
      where
        unchanged : ◌≡◌ {A = Bool × Kernel} (false, outside inside) (false, k)
        unchanged = ap (λ r. (false, record k { runqueues = r })) released

-- The state after a lock, and after an unlock, of a second queue.
took : ℕ → ℕ → ℕ → Kernel → Kernel
took me lo hi k = record k {
  runqueues = both lo hi k.runqueues;
  daif = update k.daif me (mask_irq (k.daif me));
}

take_both :
    (me lo hi : ℕ) (k : Kernel)
    → lo ≢ hi
    → (k.runqueues lo).lock ≡ 0
    → (k.runqueues hi).lock ≡ 0
    → lock_pair me lo hi k ≡ some (k.daif me, took me lo hi k)
unfolding lock_pair took both held rq_lock spin_lock irq_disable_save
take_both me lo hi k ne hl hh =
    rw (lock_free me lo k hl)
      (simp (update-ne k.runqueues lo (record (k.runqueues lo) { lock = 1 }) hi ne, hh))

give_both :
    (me lo hi f : ℕ) (k : Kernel)
    → lo ≢ hi
    → unlock_pair me lo hi f k
      ≡ record k { runqueues = release hi lo k.runqueues; daif = update k.daif me f }
unfolding unlock_pair release rq_unlock_irqrestore rq_unlock spin_unlock irq_restore
give_both me lo hi f k ne =
    simp (update-ne k.runqueues hi (record (k.runqueues hi) { lock = 0 }) lo (λ e. ne (sym e)))

same_daif : (src dst t : ℕ) (k : Kernel) → (migrate_locked src dst t k).1.daif ≡ k.daif
unfolding migrate_locked transfer
same_daif src dst t k = ground arith

module _ (me src dst t : ℕ) (k : Kernel) (ne : src ≢ dst) (hs : (k.runqueues src).lock ≡ 0)
    (hd : (k.runqueues dst).lock ≡ 0) where
  abbrev lo : ℕ
  lo = lower src dst

  abbrev hi : ℕ
  hi = upper src dst

  abbrev masked : ℕ → ℕ
  masked = update k.daif me (mask_irq (k.daif me))

  lo-ne-hi : lo ≢ hi
  lo-ne-hi = ground arith

  entered : took me lo hi k ≡ inside src dst ne k hs hd masked
  unfolding took
  entered = ap (λ r. record k { runqueues = r; daif = masked }) (lower-upper src dst ne k.runqueues)

  left_with :
      (k' : Kernel)
      → k'.daif ≡ masked
      → unlock_pair me lo hi (k.daif me) k' ≡ outside src dst ne k hs hd masked k'
  left_with k' e = give_both me lo hi (k.daif me) k' lo-ne-hi ∙ λ i. record k' {
    runqueues = upper-lower src dst ne k'.runqueues i;
    daif = restored i;
  }
    where
      restored : update k'.daif me (k.daif me) ≡ k.daif
      restored = rw e (update-update k.daif me _ _ ∙ update_self k.daif me)

  -- The critical section, with the lower lock taken first, is `migrate_locked`.
  critical :
      let (ok, k') = migrate_locked src dst t (took me lo hi k) in
      (ok, unlock_pair me lo hi (k.daif me) k') ≡ migrate_locked src dst t k
  critical = rw entered (
      ap (λ k'. (r.0, k')) (left_with r.1 (same_daif src dst t _))
      ∙ section-migrate src dst ne k hs hd masked t)
    where
      r : Bool × Kernel
      r = migrate_locked src dst t (inside src dst ne k hs hd masked)

  lower_free : (k.runqueues lo).lock ≡ 0
  lower_free = ground arith

  upper_free : (k.runqueues hi).lock ≡ 0
  upper_free = ground arith

  locked : lock_pair me lo hi k ≡ some (k.daif me, took me lo hi k)
  locked = take_both me lo hi k lo-ne-hi lower_free upper_free

-- With the two locks free, `sched_migrate` between two queues other than CPU0's as its target does
-- what `migrate_locked` does, and prints a line if it moved the task.
pub sched_migrate-eq :
    (me t dst : ℕ) (k : Kernel)
    → dst ≢ (k.tcbs t).cpu
    → dst ≢ 0
    → (k.runqueues (k.tcbs t).cpu).lock ≡ 0
    → (k.runqueues dst).lock ≡ 0
    → sched_migrate me t dst k
      ≡ report me (k.tcbs t).cpu dst (migrate_locked (k.tcbs t).cpu dst t k)
unfolding sched_migrate
sched_migrate-eq me t dst k ne nz hs hd =
    let src = (k.tcbs t).cpu in
    let ne' : src ≢ dst = λ e. ne (sym e) in
    rw (
      ne→== dst src ne,
      ne→== dst 0 nz,
      locked me src dst t k ne' hs hd,
      critical me src dst t k ne' hs hd,
    )
