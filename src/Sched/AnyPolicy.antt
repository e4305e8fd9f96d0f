-- ===== src/Sched/AnyPolicy.antt =====
-- The interface between `pick_next_ready` of kernel/sched.c and its policies (`sched_policy_t`): what a
-- policy promises, that the three policies keep it, and what `pick_next_ready` does with any that does.
use aarch64_rtos.Prelude.{ℕ, ◌-◌, ◌≤◌, ◌<◌, ◌≡◌, ◌⊎◌, inl, inr, ap, ◌∙◌, some, arith, update_self}
use aarch64_rtos.Kernel.{Kernel, Tcb, Runqueue, ready}
use aarch64_rtos.Lock.{rq_unlock_irqrestore, irq_disable_save, irq_restore, rq_unlock, spin_unlock}
use aarch64_rtos.Sched.Policy.{
  SchedPolicy, policy_roundrobin, policy_ewma, policy_load_aware, roundrobin_select_next, resync,
}
use aarch64_rtos.Sched.Policy.Choice.{
  IsIndexed, AllBlocked, Takes, roundrobin_select_next_lem, load_aware_select_next_lem,
}
use aarch64_rtos.Sched.Run.{this_cpu, current, set_rq, pick_with}
use aarch64_rtos.Sched.Locked.{
  held, lock_free, locking, resync-lock, load_aware-lock, same_lock, zero_lock,
}
use aarch64_rtos.Sched.Valid.{IsValidRq}
use aarch64_rtos.Sched.Valid.Keep.{IsValidRq-same, resync-le, load_aware-IsValidRq}

-- A policy hands out a READY task of the queue or, if there is none, the current task; it keeps the
-- queue well-formed, and neither reads nor writes the lock.
pub record IsPolicy (p : SchedPolicy) : Type 0 where
  pub chooses :
      (tcbs : ℕ → Tcb) (curr : ℕ) (rq : Runqueue)
      → IsIndexed rq
      → ((idx : ℕ) × Takes tcbs rq (p.select_next tcbs curr rq) idx)
        ⊎ AllBlocked tcbs rq × ((p.select_next tcbs curr rq).0 ≡ curr)
  pub keeps :
      (tcbs : ℕ → Tcb) (curr c : ℕ) (rq : Runqueue)
      → IsValidRq tcbs c rq
      → IsValidRq tcbs c (p.select_next tcbs curr rq).1
  pub blind :
      (tcbs : ℕ → Tcb) (curr l : ℕ) (rq : Runqueue)
      → let (n, rq') = p.select_next tcbs curr rq in
        p.select_next tcbs curr (record rq { lock = l }) ≡ (n, record rq' { lock = l })
  pub locked :
      (tcbs : ℕ → Tcb) (curr : ℕ) (rq : Runqueue) → (p.select_next tcbs curr rq).1.lock ≡ rq.lock

roundrobin-lock :
    (tcbs : ℕ → Tcb) (curr l : ℕ) (rq : Runqueue)
    → let (n, rq') = roundrobin_select_next tcbs curr rq in
      roundrobin_select_next tcbs curr (record rq { lock = l }) ≡ (n, record rq' { lock = l })
unfolding roundrobin_select_next
roundrobin-lock tcbs curr l rq = ground (arith, resync-lock curr l rq)

roundrobin-same :
    (tcbs : ℕ → Tcb) (curr : ℕ) (rq : Runqueue)
    → let rq' = (roundrobin_select_next tcbs curr rq).1 in
      (rq'.tasks ≡ rq.tasks) × (rq'.num_tasks ≡ rq.num_tasks) × (rq'.lock ≡ rq.lock)
unfolding roundrobin_select_next resync
roundrobin-same tcbs curr rq = ground arith

roundrobin-index :
    (tcbs : ℕ → Tcb) (curr : ℕ) (rq : Runqueue)
    → rq.current_idx ≤ rq.num_tasks - 1
    → (roundrobin_select_next tcbs curr rq).1.current_idx ≤ rq.num_tasks - 1
roundrobin-index tcbs curr rq h =
    elim (roundrobin_select_next_lem tcbs curr rq (λ pos. omega arith)) [
      | inl (idx, t, f) ↦ omega (arith, t.remembered, t.inside)
      | inr (b, s, u) ↦ rw u (resync-le curr rq h)
    ]

pub policy_load_aware-IsPolicy : IsPolicy policy_load_aware
policy_load_aware-IsPolicy = record {
  chooses = λ tcbs curr rq ix. elim (load_aware_select_next_lem tcbs curr rq ix) [
    | inl (idx, t, f) ↦ inl (idx, t)
    | inr (b, s, u) ↦ inr (b, s)
  ];
  keeps = λ tcbs curr c rq v. load_aware-IsValidRq tcbs curr c rq v;
  blind = load_aware-lock;
  locked = same_lock;
}

pub policy_roundrobin-IsPolicy : IsPolicy policy_roundrobin
policy_roundrobin-IsPolicy = record {
  chooses = λ tcbs curr rq ix. elim (roundrobin_select_next_lem tcbs curr rq ix) [
    | inl (idx, t, f) ↦ inl (idx, t)
    | inr (b, s, u) ↦ inr (b, s)
  ];
  keeps = λ tcbs curr c rq v.
      let (et, en, _) = roundrobin-same tcbs curr rq in
      IsValidRq-same tcbs c rq (roundrobin_select_next tcbs curr rq).1 et en
        (roundrobin-index tcbs curr rq v.indexed) v;
  blind = roundrobin-lock;
  locked = λ tcbs curr rq. (roundrobin-same tcbs curr rq).2;
}

-- It differs from the one above in its `on_tick` alone.
pub policy_ewma-IsPolicy : IsPolicy policy_ewma
policy_ewma-IsPolicy = record {
  chooses = policy_roundrobin-IsPolicy.chooses;
  keeps = policy_roundrobin-IsPolicy.keeps;
  blind = policy_roundrobin-IsPolicy.blind;
  locked = policy_roundrobin-IsPolicy.locked;
}

-- What `pick_next_ready` hands out of queue `c`.
pub data Picked (curr c : ℕ) (k : Kernel) (n : ℕ) : Type 0 where
  ready_task :
      (i : ℕ)
      → i < (k.runqueues c).num_tasks
      → n ≡ (k.runqueues c).tasks i
      → (k.tcbs n).state ≡ ready
      → Picked curr c k n
  own_task : AllBlocked k.tcbs (k.runqueues c) → n ≡ curr → Picked curr c k n

-- With a policy that keeps the promises, and the lock of the core's well-formed queue free:
-- `pick_next_ready` comes back with a READY task of that queue or, if there is none, with the current
-- task; it has replaced that queue by a well-formed one with its lock free, and changed nothing else.
pub pick_with_lem :
    (p : SchedPolicy) (me : ℕ) (k : Kernel)
    → IsPolicy p
    → (k.runqueues (this_cpu me k).cpu_id).lock ≡ 0
    → IsValidRq k.tcbs (this_cpu me k).cpu_id (k.runqueues (this_cpu me k).cpu_id)
    → (n : ℕ) × (rq : Runqueue) × (pick_with p me k ≡ some (n, set_rq (this_cpu me k).cpu_id rq k))
      × (rq.lock ≡ 0)
      × IsValidRq k.tcbs (this_cpu me k).cpu_id rq
      × Picked (current me k) (this_cpu me k).cpu_id k n
unfolding pick_with held rq_unlock_irqrestore irq_disable_save irq_restore rq_unlock spin_unlock
pick_with_lem p me k h free v =
    let c = (this_cpu me k).cpu_id in
    let out = p.select_next k.tcbs (current me k) (k.runqueues c) in
    let same = h.locked k.tcbs (current me k) (k.runqueues c) ∙ free in
    (
      out.0,
      out.1,
      rw (lock_free me c k free) (
          simp (locking, h.blind k.tcbs (current me k) 1 (k.runqueues c), update_self k.daif me)
            (ap (λ r. some (out.0, set_rq c r k)) (zero_lock out.1 same))),
      same,
      h.keeps k.tcbs (current me k) c (k.runqueues c) v,
      elim (h.chooses k.tcbs (current me k) (k.runqueues c) (λ pos. omega (arith, v.indexed))) [
        | inl (idx, t) ↦ ready_task idx t.inside t.is_task t.is_ready_task
        | inr (all, own) ↦ own_task all own
      ],
    )
