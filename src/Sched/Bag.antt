-- ===== src/Sched/Bag.antt =====
-- The run queues without their order: which tasks are listed, and how often.
use mathlib.Core.Quot
use mathlib.Core.Quot.{Quot}
use aarch64_rtos.Prelude.{
  ℕ, zero, suc, ◌+◌, ◌-◌, ◌≤◌, ◌<◌, ◌≡◌, ◌≢◌, refl, subst, some, sym, ap, ◌∙◌, List, [], ◌∷◌, ◌++◌,
  ◌==◌, if◌then◌else◌, arith, ℕ_discrete, update, update-at, update-ne,
}
use aarch64_rtos.Kernel.{Kernel, Runqueue, max_cpus}
use aarch64_rtos.Sched.Migrate.Keep.{transfer-src, transfer-dst, transfer-other}
use aarch64_rtos.Sched.Valid.{IsValid}
use aarch64_rtos.Sched.Balance.{sched_load_balance_pass}
use aarch64_rtos.Sched.Balance.Pass.{Balanced, even, stuck, moves, sched_load_balance_pass_lem}
use aarch64_rtos.Sched.Migrate.{remove_slot, append_task, transfer}

abbrev pub one_if : ℕ → ℕ → ℕ
one_if a t = if t == a then 1 else 0

unfoldable pub count : ℕ → List ℕ → ℕ
count a [] = 0
count a (t ∷ ts) = one_if a t + count a ts

unfoldable pub upto : (ℕ → ℕ) → ℕ → List ℕ
upto f zero = []
upto f (suc n) = f n ∷ upto f n

-- The tasks that the queues of the four cores list.
abbrev pub listed : Kernel → List ℕ
listed k =
    upto (k.runqueues 0).tasks (k.runqueues 0).num_tasks
    ++ upto (k.runqueues 1).tasks (k.runqueues 1).num_tasks
    ++ upto (k.runqueues 2).tasks (k.runqueues 2).num_tasks
    ++ upto (k.runqueues 3).tasks (k.runqueues 3).num_tasks

abbrev pub SameTasks : List ℕ → List ℕ → Type 0
SameTasks xs ys = (a : ℕ) → count a xs ≡ count a ys

-- Lists of tasks up to their order
abbrev pub Bag : Type 0
Bag = Quot SameTasks

abbrev pub bag_of : Kernel → Bag
bag_of k = Quot.mk (listed k)

count-append : (a : ℕ) (xs ys : List ℕ) → count a (xs ++ ys) ≡ count a xs + count a ys
unfolding count
count-append a [] ys = omega arith
count-append a (x ∷ xs) ys = omega (arith, count-append a xs ys)

count-outside :
    (a : ℕ) (f : ℕ → ℕ) (i v n : ℕ) → n ≤ i → count a (upto (update f i v) n) ≡ count a (upto f n)
unfolding count upto update
count-outside a f i v zero le = refl
count-outside a f i v (suc n) le = ground (arith, count-outside a f i v n (omega arith))

count-inside :
    (a : ℕ) (f : ℕ → ℕ) (i v n : ℕ)
    → i < n
    → count a (upto (update f i v) n) + one_if a (f i) ≡ count a (upto f n) + one_if a v
unfolding count upto
count-inside a f i v zero lt = absurd (omega arith)
count-inside a f i v (suc n) lt = elim (ℕ_discrete i n) [
  | yes e ↦ rw (← e) (rw (update-at f i v, count-outside a f i v i (omega arith)) (omega arith))
  | no ne ↦ rw (update-ne f i v n ne) (omega (arith, count-inside a f i v n (omega arith)))
]

abbrev tally : ℕ → Runqueue → ℕ
tally a rq = count a (upto rq.tasks rq.num_tasks)

-- Off the end of a list that is not empty
tally-last :
    (a m n : ℕ) (f : ℕ → ℕ) → n ≡ suc m → count a (upto f n) ≡ one_if a (f m) + count a (upto f m)
unfolding count upto
tally-last a m n f e = rw e refl

remove_slot-tally :
    (a idx : ℕ) (rq : Runqueue)
    → idx < rq.num_tasks
    → tally a (remove_slot idx rq) + one_if a (rq.tasks idx) ≡ tally a rq
unfolding remove_slot
remove_slot-tally a idx rq lt =
    let n = rq.num_tasks in
    let last = tally-last a (n - 1) n rq.tasks (omega arith) in
    elim (ℕ_discrete idx (n - 1)) [
      | yes e ↦
          let same = ap (λ i. one_if a (rq.tasks i)) e in
          let out = count-outside a rq.tasks idx (rq.tasks (n - 1)) (n - 1) (omega (arith, e)) in
          omega (arith, last, out, same)
      | no ne ↦
          omega (arith, last, count-inside a rq.tasks idx (rq.tasks (n - 1)) (n - 1) (omega arith))
    ]

append_task-tally : (a t : ℕ) (rq : Runqueue) → tally a (append_task t rq) ≡ tally a rq + one_if a t
unfolding append_task
append_task-tally a t rq =
    let n = rq.num_tasks in
    let last = tally-last a n (n + 1) (update rq.tasks n t) (omega arith) in
    let out = count-outside a rq.tasks n t n (omega arith) in
    let at : update rq.tasks n t n ≡ t = update-at rq.tasks n t in
    omega (arith, last, out, ap (one_if a) at)

listed-count :
    (a : ℕ) (k : Kernel)
    → count a (listed k)
      ≡ tally a (k.runqueues 0)
        + tally a (k.runqueues 1)
        + tally a (k.runqueues 2)
        + tally a (k.runqueues 3)
listed-count a k =
    let q = λ (c : ℕ). upto (k.runqueues c).tasks (k.runqueues c).num_tasks in
    let whole : count a (listed k) ≡ count a (q 0 ++ q 1 ++ q 2) + count a (q 3) =
      count-append a (q 0 ++ q 1 ++ q 2) (q 3) in
    omega (arith, whole, count-append a (q 0 ++ q 1) (q 2), count-append a (q 0) (q 1))

-- What one place of a sum gives to another
sum_shift :
    (src dst x : ℕ) (f g : ℕ → ℕ)
    → src < 4
    → dst < 4
    → src ≢ dst
    → g src + x ≡ f src
    → g dst ≡ f dst + x
    → ((c : ℕ) → src ≢ c → dst ≢ c → g c ≡ f c)
    → g 0 + g 1 + g 2 + g 3 ≡ f 0 + f 1 + f 2 + f 3
sum_shift src dst x f g ls ld ne from to same =
    ground (arith, from, to, same 0, same 1, same 2, same 3)

transfer-SameTasks :
    (src dst idx : ℕ) (k : Kernel)
    → src < max_cpus
    → dst < max_cpus
    → src ≢ dst
    → idx < (k.runqueues src).num_tasks
    → let t = (k.runqueues src).tasks idx in
      SameTasks (listed (transfer src dst idx t k)) (listed k)
transfer-SameTasks src dst idx k ls ld ne lt a =
    let t = (k.runqueues src).tasks idx in
    let k' = transfer src dst idx t k in
    listed-count a k'
    ∙ sum_shift src dst (one_if a t) (λ c. tally a (k.runqueues c)) (λ c. tally a (k'.runqueues c))
        ls ld ne
        (ap (λ q. tally a q + one_if a t) (transfer-src src dst idx t k ne)
          ∙ remove_slot-tally a idx (k.runqueues src) lt)
        (ap (tally a) (transfer-dst src dst idx t k ne) ∙ append_task-tally a t (k.runqueues dst))
        (λ c n1 n2. ap (tally a) (transfer-other src dst idx t k ne c n1 n2))
    ∙ sym (listed-count a k)

Balanced-bag : (k k' : Kernel) → k.smp_online ≤ max_cpus → Balanced k k' → bag_of k' ≡ bag_of k
Balanced-bag k _ few (even e) = refl
Balanced-bag k _ few (stuck e x n) = refl
Balanced-bag k _ few (moves e idx t out x gap lt at m) =
    let different : e.busiest ≢ e.idlest = λ h.
      absurd
        (omega (arith, x.busiest_len, x.idlest_len, ap (λ c. (k.runqueues c).num_tasks) h, gap)) in
    Quot.sound (
      subst (λ u. SameTasks (listed (transfer e.busiest e.idlest idx u k)) (listed k)) at
        (transfer-SameTasks e.busiest e.idlest idx k (omega (arith, x.busiest_in))
          (omega (arith, x.idlest_in)) different lt))

-- With the tasks of the queues in view, but not their order and places, a pass of the load balancer
-- on well-formed queues with all locks free comes back and does nothing: no task is lost, none
-- doubled, none made up.
pub balance_pass-bag :
    (me : ℕ) (k : Kernel)
    → IsValid k
    → 1 ≤ k.smp_online
    → k.smp_online ≤ max_cpus
    → ((c : ℕ) → c < max_cpus → (k.runqueues c).lock ≡ 0)
    → k.uart_lock ≡ 0
    → (k' : Kernel) × (sched_load_balance_pass me k ≡ some k') × (bag_of k' ≡ bag_of k)
balance_pass-bag me k vs lo hi free quiet =
    let (k', e, b) = sched_load_balance_pass_lem me k vs (lo, hi) free quiet in
    (k', e, Balanced-bag k k' hi b)
