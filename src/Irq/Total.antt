-- ===== src/Irq/Total.antt =====
-- The steps of the handlers of kernel/main.c: whether they come back, and what they keep.
use aarch64_rtos.Prelude.{
  ℕ, ◌+◌, ◌≤◌, ◌<◌, ◌≡◌, ◌⊎◌, refl, sym, ◌∙◌, ◌/◌, some, inl, inr, update, arith, Bool-cases, leb,
  ◌%◌, ◌^◌,
}
use aarch64_rtos.Kernel.{Kernel, CpuLocal, Runqueue, ready, max_cpus}
use aarch64_rtos.Sched.Policy.{load_aware_select_next, ewma_on_tick}
use aarch64_rtos.Sched.Policy.Choice.{load_aware_select_next_lem}
use aarch64_rtos.Sched.Valid.{IsValidRq, IsValid}
use aarch64_rtos.Sched.Valid.Keep.{load_aware-IsValidRq, IsValid-set_rq, IsValid-set_tcb}
use aarch64_rtos.Sched.Run.{this_cpu, current, set_rq, sched_on_tick}
use aarch64_rtos.Sched.Locked.{pick_next_ready_lem, same_lock}
use aarch64_rtos.Sched.Migrate.{transfer}
use aarch64_rtos.Sched.Balance.Pass.{Balanced, even, stuck, moves, sched_load_balance_pass_lem}
use aarch64_rtos.Irq.{
  Soc, kernel, set_kernel, set_local, count_irq, timer_rearm, tick, balance_tick,
}

-- The queues are well-formed, no lock is held, and 1 to 4 cores are online.
pub record IsCalm (k : Kernel) : Type 0 where
  pub valid : IsValid k
  pub free : (q : ℕ) → (k.runqueues q).lock ≡ 0
  pub quiet : k.uart_lock ≡ 0
  pub online : (1 ≤ k.smp_online) × (k.smp_online ≤ max_cpus)

set_local-IsCalm : (me : ℕ) (l : CpuLocal) (k : Kernel) → IsCalm k → IsCalm (set_local me l k)
set_local-IsCalm me l k c = record {
  valid = c.valid;
  free = c.free;
  quiet = c.quiet;
  online = c.online;
}

sched_on_tick-IsCalm : (me : ℕ) (k : Kernel) → IsCalm k → IsCalm (sched_on_tick me k)
unfolding sched_on_tick ewma_on_tick
sched_on_tick-IsCalm me k c = record {
  valid = IsValid-set_tcb (current me k) (ewma_on_tick (k.tcbs (current me k))) k refl c.valid;
  free = c.free;
  quiet = c.quiet;
  online = c.online;
}

set_rq-IsCalm :
    (c : ℕ) (rq : Runqueue) (k : Kernel)
    → IsValidRq k.tcbs c rq
    → rq.lock ≡ 0
    → IsCalm k
    → IsCalm (set_rq c rq k)
unfolding update
set_rq-IsCalm c rq k v z calm = record {
  valid = IsValid-set_rq c rq k v calm.valid;
  free = λ q. ground (arith, calm.free q);
  quiet = calm.quiet;
  online = calm.online;
}

-- What the tick leaves: a choice that is the current task or a READY one, and all else calm.
pub record Ticked (me : ℕ) (s : Soc) (n : ℕ) (s' : Soc) : Type 0 where
  pub calm : IsCalm (kernel s')
  pub same_gic : s'.gic ≡ s.gic
  pub same_current : current me (kernel s') ≡ current me (kernel s)
  pub same_ids : (c : ℕ) → (this_cpu c (kernel s')).cpu_id ≡ (this_cpu c (kernel s)).cpu_id
  pub same_rest : (s'.dma.accel_lock ≡ s.dma.accel_lock) × (s'.dma.sems ≡ s.dma.sems)
  pub choice : (n ≡ current me (kernel s)) ⊎ (((kernel s).tcbs n).state ≡ ready)

count_irq-IsCalm : (me : ℕ) (k : Kernel) → IsCalm k → IsCalm (count_irq me k)
unfolding count_irq
count_irq-IsCalm me k c = set_local-IsCalm me _ k c

count_irq-local :
    (me : ℕ) (k : Kernel)
    → let k' = sched_on_tick me (count_irq me k) in
      ((this_cpu me k').cpu_id ≡ (this_cpu me k).cpu_id) × (current me k' ≡ current me k)
unfolding count_irq sched_on_tick update
count_irq-local me k = (ground arith, ground arith)

count_irq-id :
    (me c : ℕ) (k : Kernel)
    → (this_cpu c (sched_on_tick me (count_irq me k))).cpu_id ≡ (this_cpu c k).cpu_id
unfolding count_irq sched_on_tick update
count_irq-id me c k = ground arith

count_irq-state :
    (me n : ℕ) (k : Kernel) → ((sched_on_tick me (count_irq me k)).tcbs n).state ≡ (k.tcbs n).state
unfolding count_irq sched_on_tick ewma_on_tick update
count_irq-state me n k = ground arith

-- On a core whose `cpu_id` is one of the four, the tick comes back.
pub tick_lem :
    (me : ℕ) (s : Soc)
    → (this_cpu me (kernel s)).cpu_id < max_cpus
    → IsCalm (kernel s)
    → (n : ℕ) × (s' : Soc) × (tick me s ≡ some (n, s')) × Ticked me s n s'
unfolding tick timer_rearm
tick_lem me s lt calm = (
  out.0,
  set_kernel (set_rq c out.1 k)
      (timer_rearm me (s.tick_freq / 2000) (set_kernel (count_irq me (kernel s)) s)),
  rw (pick_next_ready_lem me k (calm'.free c)) refl,
  record {
    calm =
        set_rq-IsCalm c out.1 k (load_aware-IsValidRq k.tcbs (current me k) c (k.runqueues c) v)
          (same_lock k.tcbs (current me k) (k.runqueues c) ∙ calm'.free c) calm';
    same_gic = refl;
    same_current = (count_irq-local me (kernel s)).1;
    same_ids = λ d. count_irq-id me d (kernel s);
    same_rest = (refl, refl);
    choice = chosen;
  },
)
  where
    k : Kernel
    k = sched_on_tick me (count_irq me (kernel s))

    c : ℕ
    c = (this_cpu me k).cpu_id

    out : ℕ × Runqueue
    out = load_aware_select_next k.tcbs (current me k) (k.runqueues c)

    calm' : IsCalm k
    calm' = sched_on_tick-IsCalm me (count_irq me (kernel s)) (count_irq-IsCalm me (kernel s) calm)

    v : IsValidRq k.tcbs c (k.runqueues c)
    v = calm'.valid c (rw (count_irq-local me (kernel s)).0 lt)

    chosen : (out.0 ≡ current me (kernel s)) ⊎ (((kernel s).tcbs out.0).state ≡ ready)
    chosen =
        elim (load_aware_select_next_lem k.tcbs (current me k) (k.runqueues c)
          (λ pos. omega (arith, v.indexed))) [
            | inl (idx, t, f) ↦ inr (sym (count_irq-state me out.0 (kernel s)) ∙ t.is_ready_task)
            | inr (all, e, u) ↦ inl (e ∙ (count_irq-local me (kernel s)).1)
          ]

pub Balanced-locals : {k k' : Kernel} → Balanced k k' → k'.cpu_locals ≡ k.cpu_locals
unfolding transfer
Balanced-locals (even h) = refl
Balanced-locals (stuck e x n) = refl
Balanced-locals (moves e idx t out x gap lt q m) = refl

-- The throttled pass of the load balancer comes back, and leaves the current tasks and the interrupt
-- controller alone.
pub balance_tick_lem :
    (me : ℕ) (s : Soc)
    → IsCalm (kernel s)
    → (s' : Soc) × (balance_tick me s ≡ some s')
      × (s'.gic ≡ s.gic)
      × ((kernel s').cpu_locals ≡ (kernel s).cpu_locals)
unfolding balance_tick
balance_tick_lem me s calm = elim (Bool-cases (leb 200 ((s.lb_tick_count + 1) % 2 ^ 32))) [
  | inl due ↦
      let (k, e, b) =
        sched_load_balance_pass_lem me (kernel s) calm.valid calm.online (λ c lt. calm.free c)
          calm.quiet in
      (set_kernel k (record s { lb_tick_count = 0 }), rw (due, e) refl, refl, Balanced-locals b)
  | inr early ↦
      (record s { lb_tick_count = (s.lb_tick_count + 1) % 2 ^ 32 }, rw early refl, refl, refl)
]
