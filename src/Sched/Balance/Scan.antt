-- ===== src/Sched/Balance/Scan.antt =====
-- The two loops of `sched_load_balance_pass` (kernel/sched.c): the scan of the queue lengths, and the
-- search for a victim.
use aarch64_rtos.Prelude.{
  ℕ, zero, suc, ◌+◌, ◌-◌, ◌≤◌, ◌<◌, ◌≡◌, refl, inl, inr, Option, none, some, true, false, arith, ap,
  ◌≢◌, Bool-cases, ℕ_discrete,
}
use aarch64_rtos.Kernel.{Kernel, Runqueue, ready}
use aarch64_rtos.Sched.Balance.{
  Extremes, scan_queue, scan_queues, is_victim, is_uneven, find_victim,
}

module _ (rqs : ℕ → Runqueue) where
  -- Among the queues `lo … hi - 1`, `busiest` is a longest and `idlest` a shortest one.
  pub record IsExtreme (lo hi : ℕ) (e : Extremes) : Type 0 where
    pub busiest_in : (lo ≤ e.busiest) × (e.busiest < hi)
    pub idlest_in : (lo ≤ e.idlest) × (e.idlest < hi)
    pub busiest_len : e.busiest_n ≡ (rqs e.busiest).num_tasks
    pub idlest_len : e.idlest_n ≡ (rqs e.idlest).num_tasks
    pub longest : (c : ℕ) → lo ≤ c → c < hi → (rqs c).num_tasks ≤ e.busiest_n
    pub shortest : (c : ℕ) → lo ≤ c → c < hi → e.idlest_n ≤ (rqs c).num_tasks

  abbrev Seen : ℕ → ℕ → Option Extremes → Type 0
  Seen lo hi none = lo ≡ hi
  Seen lo hi (some e) = IsExtreme lo hi e

  Seen-scan_queue :
      (lo cpu : ℕ) (o : Option Extremes)
      → lo ≤ cpu
      → Seen lo cpu o
      → Seen lo (cpu + 1) (scan_queue rqs cpu o)
  unfolding scan_queue
  Seen-scan_queue lo cpu none le s = record {
    busiest_in = omega arith;
    idlest_in = omega arith;
    busiest_len = refl;
    idlest_len = refl;
    longest = λ c a b. let e : c ≡ cpu = omega arith in rw e (omega arith);
    shortest = λ c a b. let e : c ≡ cpu = omega arith in rw e (omega arith);
  }
  Seen-scan_queue lo cpu (some e) le s = record {
    busiest_in = ground (arith, s.busiest_in);
    idlest_in = ground (arith, s.idlest_in);
    busiest_len = ground (arith, s.busiest_len);
    idlest_len = ground (arith, s.idlest_len);
    longest = λ c a b. elim (ℕ_discrete c cpu) [
      | yes q ↦ rw q (ground arith)
      | no q ↦ ground (arith, s.longest c)
    ];
    shortest = λ c a b. elim (ℕ_discrete c cpu) [
      | yes q ↦ rw q (ground arith)
      | no q ↦ ground (arith, s.shortest c)
    ];
  }

  Seen-scan_queues :
      (lo rounds cpu hi : ℕ) (o : Option Extremes)
      → lo ≤ cpu
      → cpu + rounds ≡ hi
      → Seen lo cpu o
      → Seen lo hi (scan_queues rqs rounds cpu o)
  unfolding scan_queues
  Seen-scan_queues lo zero cpu hi o le e s = let e' : cpu ≡ hi = omega arith in rw (← e') s
  Seen-scan_queues lo (suc rounds) cpu hi o le e s =
      Seen-scan_queues lo rounds (cpu + 1) hi _ (omega arith) (omega arith)
        (Seen-scan_queue lo cpu o le s)

  -- The loop finds nothing only when there is no secondary core.
  pub scan_queues-none :
      (online : ℕ) → 1 ≤ online → scan_queues rqs (online - 1) 1 none ≡ none → 1 ≡ online
  scan_queues-none online h q =
      rw q at (Seen-scan_queues 1 (online - 1) 1 online none (omega arith) (omega arith) refl)

  -- The queues `lo … hi - 1` differ by one task at most.
  abbrev pub IsEven : ℕ → ℕ → Type 0
  IsEven lo hi =
      (c d : ℕ) → lo ≤ c → c < hi → lo ≤ d → d < hi → (rqs c).num_tasks ≤ (rqs d).num_tasks + 1

  pub IsExtreme-IsEven :
      (lo hi : ℕ) (e : Extremes) → IsExtreme lo hi e → is_uneven e ≡ false → IsEven lo hi
  IsExtreme-IsEven lo hi e x u c d a b a' b' =
      omega (arith, near, x.longest c a b, x.shortest d a' b')
    where
      near : e.busiest_n ≤ e.idlest_n + 1
      near = elim (ℕ_discrete e.busiest e.idlest) [
        | yes q ↦ omega (arith, x.busiest_len, x.idlest_len, ap (λ i. (rqs i).num_tasks) q)
        | no q ↦ ground (arith, u)
      ]

  -- What the loop over the secondary cores 1 … online - 1 finds.
  pub scan_queues-IsExtreme :
      (online : ℕ) {e : Extremes}
      → 1 ≤ online
      → scan_queues rqs (online - 1) 1 none ≡ some e
      → IsExtreme 1 online e
  scan_queues-IsExtreme online h q =
      rw q at (Seen-scan_queues 1 (online - 1) 1 online none (omega arith) (omega arith) refl)

-- The victim is the task of a slot of the queue, and passes the test.
pub find_victim-some :
    (busiest : ℕ) (k : Kernel) (rounds i t : ℕ)
    → find_victim busiest k rounds i ≡ some t
    → (j : ℕ) × (i ≤ j)
      × (j < i + rounds)
      × ((k.runqueues busiest).tasks j ≡ t)
      × (is_victim busiest t k ≡ true)
unfolding find_victim
find_victim-some busiest k zero i t e = cc
find_victim-some busiest k (suc rounds) i t e =
    elim (Bool-cases (is_victim busiest ((k.runqueues busiest).tasks i) k)) [
      | inl v ↦ (i, omega arith, omega arith, ground arith, ground arith)
      | inr v ↦
          let (j, a, b, c, d) = find_victim-some busiest k rounds (i + 1) t (ground arith) in
          (j, omega arith, omega arith, c, d)
    ]

-- A task that may be taken from the core `c`: READY, not the one that the core runs, and not pinned.
abbrev pub MayLeave : ℕ → ℕ → Kernel → Type 0
MayLeave c t k = ((k.tcbs t).state ≡ ready) × (t ≢ (k.cpu_locals c).curr) × ((k.tcbs t).pinned ≡ 0)

pub is_victim-MayLeave : (c t : ℕ) (k : Kernel) → is_victim c t k ≡ true → MayLeave c t k
is_victim-MayLeave c t k v = (ground (arith, v), ground (arith, v), ground (arith, v))

is_victim-false : (c t : ℕ) (k : Kernel) → is_victim c t k ≡ false → ¬ MayLeave c t k
is_victim-false c t k v (r, n, p) = ground arith

-- Without a victim no task of the slots searched may leave.
pub find_victim-none :
    (busiest : ℕ) (k : Kernel) (rounds i : ℕ)
    → find_victim busiest k rounds i ≡ none
    → (j : ℕ) → i ≤ j
    → j < i + rounds
    → ¬ MayLeave busiest ((k.runqueues busiest).tasks j) k
unfolding find_victim
find_victim-none busiest k zero i e j a b = absurd (omega arith)
find_victim-none busiest k (suc rounds) i e j a b =
    elim (Bool-cases (is_victim busiest ((k.runqueues busiest).tasks i) k)) [
      | inl v ↦ ground (arith, e, v)
      | inr v ↦ elim (ℕ_discrete j i) [
        | yes q ↦ rw q (is_victim-false busiest ((k.runqueues busiest).tasks i) k v)
        | no q ↦
            find_victim-none busiest k rounds (i + 1) (ground arith) j (omega arith) (omega arith)
      ]
    ]
