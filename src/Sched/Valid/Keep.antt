-- ===== src/Sched/Valid/Keep.antt =====
-- The operations on one queue and the well-formedness of the run queues.
use aarch64_rtos.Prelude.{
  ℕ, ◌-◌, ◌≤◌, ◌<◌, ◌≡◌, ◌≢◌, inl, inr, arith, update, update-at, update-ne, Option-cases, ◌∙◌,
  ℕ_discrete,
}
use aarch64_rtos.Kernel.{Kernel, Tcb, Runqueue, max_tasks, max_cpus}
use aarch64_rtos.Sched.Scan.{find_slot}
use aarch64_rtos.Sched.Scan.Find.{find_slot-some}
use aarch64_rtos.Sched.Policy.{load_aware_select_next, resync}
use aarch64_rtos.Sched.Policy.Choice.{load_aware_select_next_lem}
use aarch64_rtos.Sched.Run.{set_tcb, set_rq, enlist}
use aarch64_rtos.Sched.Valid.{IsValidRq, IsValid, IsUnlisted}

pub resync-le :
    (curr : ℕ) (rq : Runqueue)
    → rq.current_idx ≤ rq.num_tasks - 1
    → (resync curr rq).current_idx ≤ rq.num_tasks - 1
unfolding resync
resync-le curr rq h = elim (Option-cases (find_slot rq.tasks curr rq.num_tasks 0)) [
  | inl e ↦ rw (e, resync) h
  | inr (i, e) ↦ rw (e, resync) (omega (arith, find_slot-some rq.tasks curr rq.num_tasks 0 i e))
]

pub same_tasks :
    (tcbs : ℕ → Tcb) (curr : ℕ) (rq : Runqueue)
    → let rq' = (load_aware_select_next tcbs curr rq).1 in
      (rq'.tasks ≡ rq.tasks) × (rq'.num_tasks ≡ rq.num_tasks)
unfolding load_aware_select_next resync
same_tasks tcbs curr rq = ground arith

same_index :
    (tcbs : ℕ → Tcb) (curr : ℕ) (rq : Runqueue)
    → rq.current_idx ≤ rq.num_tasks - 1
    → (load_aware_select_next tcbs curr rq).1.current_idx ≤ rq.num_tasks - 1
same_index tcbs curr rq h = elim (load_aware_select_next_lem tcbs curr rq (λ pos. omega arith)) [
  | inl (idx, t, f) ↦ omega (arith, t.remembered, t.inside)
  | inr (b, s, u) ↦ rw u (resync-le curr rq h)
]

-- Queue `c` is valid whatever happens to the control blocks, as long as the home CPUs stay.
pub IsValidRq-tcbs :
    (tcbs tcbs' : ℕ → Tcb) (c : ℕ) (rq : Runqueue)
    → ((i : ℕ) → i < rq.num_tasks → (tcbs' (rq.tasks i)).cpu ≡ (tcbs (rq.tasks i)).cpu)
    → IsValidRq tcbs c rq
    → IsValidRq tcbs' c rq
IsValidRq-tcbs tcbs tcbs' c rq same v = record {
  few = v.few;
  indexed = v.indexed;
  home = λ i h. same i h ∙ v.home i h;
  distinct = v.distinct;
}

-- A queue is replaced by a valid one.
pub IsValid-set_rq :
    (c : ℕ) (rq : Runqueue) (k : Kernel)
    → IsValidRq k.tcbs c rq
    → IsValid k
    → IsValid (set_rq c rq k)
IsValid-set_rq c rq k v vs d lt = elim (ℕ_discrete c d) [
  | yes e ↦ rw (← e) (rw (update-at k.runqueues c rq) v)
  | no e ↦ rw (update-ne k.runqueues c rq d e) (vs d lt)
]

pub IsValidRq-same :
    (tcbs : ℕ → Tcb) (c : ℕ) (rq rq' : Runqueue)
    → rq'.tasks ≡ rq.tasks
    → rq'.num_tasks ≡ rq.num_tasks
    → rq'.current_idx ≤ rq.num_tasks - 1
    → IsValidRq tcbs c rq
    → IsValidRq tcbs c rq'
IsValidRq-same tcbs c rq rq' et en ix v = record {
  few = rw en v.few;
  indexed = rw en ix;
  home = λ i h. rw et (v.home i (rw en at h));
  distinct = λ i j a b e. v.distinct i j (rw en at a) (rw en at b) (rw et at e);
}

-- The choice of the next task keeps the queue valid.
pub load_aware-IsValidRq :
    (tcbs : ℕ → Tcb) (curr c : ℕ) (rq : Runqueue)
    → IsValidRq tcbs c rq
    → IsValidRq tcbs c (load_aware_select_next tcbs curr rq).1
load_aware-IsValidRq tcbs curr c rq v =
    let (et, en) = same_tasks tcbs curr rq in
    IsValidRq-same tcbs c rq (load_aware_select_next tcbs curr rq).1 et en
      (same_index tcbs curr rq v.indexed) v

-- A write to a control block that leaves its home CPU alone keeps the queues valid.
pub IsValidRq-set_tcb :
    (t c : ℕ) (b : Tcb) (rq : Runqueue) (k : Kernel)
    → b.cpu ≡ (k.tcbs t).cpu
    → IsValidRq k.tcbs c rq
    → IsValidRq (set_tcb t b k).tcbs c rq
unfolding update
IsValidRq-set_tcb t c b rq k e v =
    IsValidRq-tcbs k.tcbs (update k.tcbs t b) c rq (λ i h. ground arith) v

pub IsValid-set_tcb :
    (t : ℕ) (b : Tcb) (k : Kernel) → b.cpu ≡ (k.tcbs t).cpu → IsValid k → IsValid (set_tcb t b k)
IsValid-set_tcb t b k e vs c lt = IsValidRq-set_tcb t c b (k.runqueues c) k e (vs c lt)

-- A task that no queue holds is taken in by a queue with room.
enlist-here :
    (me c t : ℕ) (k : Kernel)
    → c < max_cpus
    → (k.runqueues c).num_tasks < max_tasks
    → IsUnlisted t k
    → IsValidRq k.tcbs c (k.runqueues c)
    → IsValidRq (enlist me c t k).tcbs c ((enlist me c t k).runqueues c)
unfolding enlist update
enlist-here me c t k lt room new v = record {
  few = ground arith;
  indexed = ground (arith, v.indexed);
  home = λ i h. ground (arith, v.home i, new c i);
  distinct = λ i j a b e. ground (arith, v.distinct i j, new c i, new c j);
}

enlist-other :
    (me c t d : ℕ) (k : Kernel)
    → c ≢ d
    → d < max_cpus
    → IsUnlisted t k
    → IsValidRq k.tcbs d (k.runqueues d)
    → IsValidRq (enlist me c t k).tcbs d ((enlist me c t k).runqueues d)
unfolding enlist update
enlist-other me c t d k ne lt new v = record {
  few = ground (arith, v.few);
  indexed = ground (arith, v.indexed);
  home = λ i h. ground (arith, v.home i, new d i);
  distinct = λ i j a b e. ground (arith, v.distinct i j);
}

-- `sched_register_on` keeps the run queues valid, for a task that no queue holds yet.
pub enlist-IsValid :
    (me c t : ℕ) (k : Kernel)
    → c < max_cpus
    → (k.runqueues c).num_tasks < max_tasks
    → IsUnlisted t k
    → IsValid k
    → IsValid (enlist me c t k)
enlist-IsValid me c t k lt room new vs d ltd = elim (ℕ_discrete c d) [
  | yes e ↦ rw (← e) (enlist-here me c t k lt room new (vs c lt))
  | no e ↦ enlist-other me c t d k e ltd new (vs d ltd)
]
