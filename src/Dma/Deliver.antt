-- ===== src/Dma/Deliver.antt =====
-- The delivery of one completion to the table of requests (kernel/main.c).
use aarch64_rtos.Prelude.{
  ℕ, zero, suc, ◌+◌, ◌≤◌, ◌<◌, ◌≡◌, ◌≢◌, none, some, arith, refl, Bool-cases, Option-cases, inl,
  inr, ℕ_discrete, update,
}
use aarch64_rtos.Sync.Sem.Laws.{posted, woken, sem_post_lem}
use aarch64_rtos.Accel.{Completion}
use aarch64_rtos.Dma.{Pending, Dma, num_workers, is_waiting, find_waiting, finish, deliver}

-- The request in a slot waits for the command `id`.
abbrev pub Awaits : ℕ → Pending → Type 0
Awaits id p = (p.used ≢ 0) × (p.done ≡ 0) × (p.cmd_id ≡ id)

pub find_waiting-some :
    (pending : ℕ → Pending) (id rounds i j : ℕ)
    → find_waiting pending id rounds i ≡ some j
    → (i ≤ j) × (j < i + rounds) × Awaits id (pending j)
unfolding find_waiting
find_waiting-some pending id zero i j e = cc
find_waiting-some pending id (suc rounds) i j e = elim (Bool-cases (is_waiting id (pending i))) [
  | inl v ↦ (ground (arith, e, v), ground (arith, e, v), ground (arith, e, v))
  | inr v ↦
      let r = find_waiting-some pending id rounds (i + 1) j (ground (arith, e, v)) in
      (omega (arith, r.0), omega (arith, r.1), r.2)
]

find_waiting-none :
    (pending : ℕ → Pending) (id rounds i : ℕ)
    → find_waiting pending id rounds i ≡ none
    → (j : ℕ) → i ≤ j
    → j < i + rounds
    → ¬ Awaits id (pending j)
unfolding find_waiting
find_waiting-none pending id zero i e j a b = absurd (omega arith)
find_waiting-none pending id (suc rounds) i e j a b =
    elim (Bool-cases (is_waiting id (pending i))) [
      | inl v ↦ ground (arith, e, v)
      | inr v ↦ elim (ℕ_discrete j i) [
        | yes q ↦ rw q (λ (u, d, m). ground (arith, v))
        | no q ↦
            find_waiting-none pending id rounds (i + 1) (ground (arith, e, v)) j (omega arith)
              (omega arith)
      ]
    ]

-- What a completion does: nothing if no request waits for it; else one such request is done, with the
-- completion as its result, and its semaphore is posted.
pub data Delivered (c : Completion) (d : Dma) : Dma → Type 0 where
  unclaimed : ((j : ℕ) → j < num_workers → ¬ Awaits c.cmd_id (d.pending j)) → Delivered c d d
  finished :
      (i : ℕ)
      → i < num_workers
      → Awaits c.cmd_id (d.pending i)
      → Delivered c d (record d {
        pending = update d.pending i (record (d.pending i) { result = c; done = 1 });
        sems = update d.sems (d.pending i).sem (posted (d.sems (d.pending i).sem));
        kernel = woken (d.sems (d.pending i).sem) d.kernel;
      })

-- With the locks of the semaphores and of the run queues free, delivering a completion comes back: it
-- finishes one request that waits for that command and posts its semaphore, or, if there is none,
-- changes nothing.
pub deliver_lem :
    (me : ℕ) (c : Completion) (d : Dma)
    → ((s : ℕ) → (d.sems s).lock ≡ 0)
    → ((q : ℕ) → (d.kernel.runqueues q).lock ≡ 0)
    → (d' : Dma) × (deliver me c d ≡ some d') × Delivered c d d'
unfolding deliver finish
deliver_lem me c d free quiet =
    elim (Option-cases (find_waiting d.pending c.cmd_id num_workers 0)) [
      | inl e ↦ (
        d,
        rw (e, deliver) refl,
        unclaimed (λ j lt.
            find_waiting-none d.pending c.cmd_id num_workers 0 e j (omega arith) (omega arith)),
      )
      | inr (i, e) ↦
          let (_, lt, w) = find_waiting-some d.pending c.cmd_id num_workers 0 i e in
          let s = d.sems (d.pending i).sem in
          let post =
            sem_post_lem me s d.kernel (free (d.pending i).sem)
              (λ n. quiet (d.kernel.tcbs s.waiter).cpu) in
          (_, rw (e, deliver, finish, post) refl, finished i (omega (arith, lt)) w)
    ]
