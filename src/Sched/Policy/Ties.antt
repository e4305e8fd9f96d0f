-- ===== src/Sched/Policy/Ties.antt =====
-- The load-aware policy of kernel/sched.c against round-robin.
use native.Mathlib.Nat.{mod-lt}
use aarch64_rtos.Prelude.{ℕ, zero, suc, ◌+◌, ◌≤◌, ◌<◌, ◌≡◌, refl, some, none, arith, true}
use aarch64_rtos.Kernel.{Tcb, Runqueue}
use aarch64_rtos.Sched.Scan.{slot, is_ready, next_ready, lightest}
use aarch64_rtos.Sched.Policy.{roundrobin_select_next, load_aware_select_next}

-- The READY tasks among the first `num` all have the load `l`.
abbrev pub EvenLoad : (ℕ → Tcb) → (ℕ → ℕ) → ℕ → ℕ → Type 0
EvenLoad tcbs tasks num l =
    (idx : ℕ) → idx < num → is_ready tcbs tasks idx ≡ true → (tcbs (tasks idx)).ewma_load ≡ l

module _ (tcbs : ℕ → Tcb) (tasks : ℕ → ℕ) (num cur l : ℕ) (pos : 0 < num)
    (even : EvenLoad tcbs tasks num l) where
  even_slot :
      (i : ℕ)
      → is_ready tcbs tasks (slot num cur i) ≡ true
      → (tcbs (tasks (slot num cur i))).ewma_load ≡ l
  even_slot i r = even (slot num cur i) (mod-lt (cur + i) pos) r

  lightest-some :
      (rounds i b : ℕ)
      → (tcbs (tasks b)).ewma_load ≡ l
      → lightest tcbs tasks num cur rounds i (some b) ≡ some b
  unfolding lightest
  lightest-some zero i b h = refl
  lightest-some (suc rounds) i b h = ground (arith, lightest-some rounds (i + 1) b, even_slot i)

  lightest-next_ready :
      (rounds i : ℕ)
      → lightest tcbs tasks num cur rounds i none ≡ next_ready tcbs tasks num cur rounds i
  unfolding lightest next_ready
  lightest-next_ready zero i = refl
  lightest-next_ready (suc rounds) i = ground (
    arith,
    even_slot i,
    lightest-next_ready rounds (i + 1),
    lightest-some rounds (i + 1) (slot num cur i),
  )

same_search :
    (tcbs : ℕ → Tcb) (tasks : ℕ → ℕ) (num cur l rounds : ℕ)
    → rounds ≤ num
    → EvenLoad tcbs tasks num l
    → lightest tcbs tasks num cur rounds 1 none ≡ next_ready tcbs tasks num cur rounds 1
unfolding lightest next_ready
same_search tcbs tasks num cur l zero h even = refl
same_search tcbs tasks num cur l (suc rounds) h even =
    lightest-next_ready tcbs tasks num cur l (omega arith) even (suc rounds) 1

-- While the READY tasks of a queue cannot be told apart by their loads, the load-aware policy makes
-- the choices of round-robin.
pub load_aware-eq-roundrobin :
    (tcbs : ℕ → Tcb) (curr : ℕ) (rq : Runqueue) (l : ℕ)
    → EvenLoad tcbs rq.tasks rq.num_tasks l
    → load_aware_select_next tcbs curr rq ≡ roundrobin_select_next tcbs curr rq
unfolding load_aware_select_next roundrobin_select_next
load_aware-eq-roundrobin tcbs curr rq l even = rw (
  same_search tcbs rq.tasks rq.num_tasks rq.current_idx l rq.num_tasks (omega arith) even,
  load_aware_select_next,
  roundrobin_select_next,
)
