-- ===== src/Dma/Worker.antt =====
-- The request of a worker (`worker_entry` of kernel/main.c): its submission, and the completion that
-- it reads once its semaphore lets it go on.
use aarch64_rtos.Prelude.{
  ℕ, zero, suc, ◌+◌, ◌≤◌, ◌<◌, ◌≡◌, ◌≢◌, ◌>>=◌, ◌&&◌, not, Option, none, some, List, [], ◌∷◌, ◌==◌,
  if◌then◌else◌, update, arith, refl, sym, ap, ◌∙◌, subst, Option-cases, inl, inr, ℕ_discrete,
}
use aarch64_rtos.Lock.{spin_lock, spin_unlock, irq_disable_save, irq_restore}
use aarch64_rtos.Sync.Sem.{sem_post}
use aarch64_rtos.Accel.{
  Completion, Accel, Device, reg_write, advance, push_copy, accel_submit_copy,
  accel_drain_completions_multi,
}
use aarch64_rtos.Dma.Deliver.{find_waiting-some}
use aarch64_rtos.Dma.{
  Pending, Dma, num_workers, find_unused, pending_register, find_waiting, finish, deliver,
  deliver_all, dispatch_available_completions,
}

abbrev pub test_len : ℕ
test_len = 128

-- Submission and registration, in one critical section; the result is the command's number. The
-- worker's buffers are at `src` and `dst`, its semaphore is `sem`.
unfoldable pub submit_request : ℕ → ℕ → ℕ → ℕ → Dma → Option (ℕ × Dma)
submit_request me src dst sem d =
    let (flags, k1) = irq_disable_save me d.kernel in
    let (id, a, k2) = accel_submit_copy me src dst test_len d.accel k1 in
    do
      l ← spin_lock d.accel_lock
      some (
        id,
        record d {
          accel_lock = spin_unlock l;
          accel = a;
          pending = pending_register id sem d.pending;
          kernel = irq_restore me flags k2;
        },
      )

-- `for (…) if (pending[i].used && pending[i].cmd_id == cmd_id) { slot = i; break; }`
unfoldable pub find_slot_of : (ℕ → Pending) → ℕ → ℕ → ℕ → Option ℕ
find_slot_of pending id zero i = none
find_slot_of pending id (suc rounds) i =
    let rest = find_slot_of pending id rounds (i + 1) in
    if not ((pending i).used == 0) && (pending i).cmd_id == id then some i else rest

-- `pending[slot].result`; there is none with `slot` -1.
unfoldable pub read_result : (ℕ → Pending) → ℕ → Option Completion
read_result pending id = find_slot_of pending id num_workers 0 >>= λ i. some (pending i).result

-- Requests and dispatches, in any order and on any cores, from a table with no request in it. `n`
-- counts the requests.
pub data DmaRun (start : Dma) : ℕ → Dma → Type 0 where
  begin : DmaRun start 0 start
  request :
      (n me src dst sem id : ℕ) (d d' : Dma)
      → DmaRun start n d
      → n < num_workers
      → submit_request me src dst sem d ≡ some (id, d')
      → DmaRun start (n + 1) d'
  dispatch :
      (n me : ℕ) (dev : ℕ → Device) (d d' : Dma)
      → DmaRun start n d
      → dispatch_available_completions me dev d ≡ some d'
      → DmaRun start n d'

-- The table holds the requests in order, numbered from 1; a request that is done has a completion of
-- its own number.
pub record IsTable (n tail : ℕ) (pending : ℕ → Pending) : Type 0 where
  pub few : n ≤ num_workers
  pub numbered : (i : ℕ) → i < n → ((pending i).used ≢ 0) × ((pending i).cmd_id ≡ i + 1)
  pub open_slots : (i : ℕ) → n ≤ i → i < num_workers → (pending i).used ≡ 0
  pub answered : (i : ℕ) → i < n → (pending i).done ≢ 0 → (pending i).result.cmd_id ≡ i + 1
  pub counted : tail ≡ n

finished-IsTable :
    (n tail i : ℕ) (c : Completion) (pending : ℕ → Pending)
    → (pending i).cmd_id ≡ c.cmd_id
    → IsTable n tail pending
    → IsTable n tail (update pending i (record (pending i) { result = c; done = 1 }))
unfolding update
finished-IsTable n tail i c pending same t = record {
  few = t.few;
  numbered = λ j lt. (ground (arith, t.numbered j lt), ground (arith, t.numbered j lt));
  open_slots = λ j le lt. ground (arith, t.open_slots j le lt);
  answered = λ j lt done. ground (arith, same, t.numbered j lt, t.answered j lt);
  counted = t.counted;
}

-- What a finished request and a delivery leave in the table.
finish-pending :
    (me i : ℕ) (c : Completion) (d d' : Dma)
    → finish me c i d ≡ some d'
    → (d'.pending ≡ update d.pending i (record (d.pending i) { result = c; done = 1 }))
      × (d'.accel ≡ d.accel)
unfolding finish
finish-pending me i c d d' e =
    elim (Option-cases (sem_post me (d.sems (d.pending i).sem) d.kernel)) [
      | inl p ↦ ground (arith, e, p)
      | inr ((s, k), p) ↦
          let out : Dma = record d {
            pending = update d.pending i (record (d.pending i) { result = c; done = 1 });
            sems = update d.sems (d.pending i).sem s;
            kernel = k;
          } in
          let e' : some out ≡ some d' = rw p at e in
          let same : out ≡ d' = cc in
          (ap (λ (x : Dma). x.pending) (sym same), ap (λ (x : Dma). x.accel) (sym same))
    ]

deliver-IsTable :
    (n me : ℕ) (c : Completion) (d d' : Dma)
    → deliver me c d ≡ some d'
    → IsTable n d.accel.sq_tail_local d.pending
    → IsTable n d'.accel.sq_tail_local d'.pending
unfolding deliver
deliver-IsTable n me c d d' e t =
    elim (Option-cases (find_waiting d.pending c.cmd_id num_workers 0)) [
      | inl f ↦
          let e' : some d ≡ some d' = rw (f, deliver) at e in
          let same : d ≡ d' = cc in
          subst (λ (x : Dma). IsTable n x.accel.sq_tail_local x.pending) same t
      | inr (i, f) ↦
          let (_, _, (_, _, waits)) = find_waiting-some d.pending c.cmd_id num_workers 0 i f in
          let (p, a) = finish-pending me i c d d' (rw (f, deliver) at e) in
          rw (p, a) (finished-IsTable n d.accel.sq_tail_local i c d.pending waits t)
    ]

deliver_all-IsTable :
    (n me : ℕ) (comps : List Completion) (d d' : Dma)
    → deliver_all me comps d ≡ some d'
    → IsTable n d.accel.sq_tail_local d.pending
    → IsTable n d'.accel.sq_tail_local d'.pending
unfolding deliver_all
deliver_all-IsTable n me [] d d' e t =
    let same : d ≡ d' = cc in subst (λ (x : Dma). IsTable n x.accel.sq_tail_local x.pending) same t
deliver_all-IsTable n me (c ∷ comps) d d' e t = elim (Option-cases (deliver me c d)) [
  | inl f ↦ ground (arith, e, f)
  | inr (d1, f) ↦ deliver_all-IsTable n me comps d1 d' (rw f at e) (deliver-IsTable n me c d d1 f t)
]

-- The drain leaves the submission queue alone.
drain-tail :
    (dev : ℕ → Device) (left i : ℕ) (a : Accel)
    → (accel_drain_completions_multi dev i left a).1.sq_tail_local ≡ a.sq_tail_local
unfolding accel_drain_completions_multi advance reg_write
drain-tail dev zero i a = refl
drain-tail dev (suc left) i a = ground (arith, drain-tail dev left (i + 1) (advance a))

dispatch-IsTable :
    (n me : ℕ) (dev : ℕ → Device) (d d' : Dma)
    → dispatch_available_completions me dev d ≡ some d'
    → IsTable n d.accel.sq_tail_local d.pending
    → IsTable n d'.accel.sq_tail_local d'.pending
unfolding dispatch_available_completions irq_disable_save irq_restore
dispatch-IsTable n me dev d d' e t =
    let drained = accel_drain_completions_multi dev 0 num_workers d.accel in
    let start : ℕ → Dma = λ l. record d {
      accel_lock = l;
      accel = drained.1;
      kernel = (irq_disable_save me d.kernel).1;
    } in
    elim (Option-cases (spin_lock d.accel_lock)) [
      | inl f ↦ ground (arith, e, f)
      | inr (l, f) ↦ elim (Option-cases (deliver_all me drained.0 (start l))) [
        | inl g ↦ let e' : none ≡ some d' = rw (f, g) at e in ground (arith, e')
        | inr (d1, g) ↦
            let t1 =
              deliver_all-IsTable n me drained.0 (start l) d1 g (
                subst (λ m. IsTable n m d.pending) (sym (drain-tail dev num_workers 0 d.accel))
                  t) in
            let out : Dma = record d1 {
              accel_lock = spin_unlock d1.accel_lock;
              kernel = irq_restore me (d.kernel.daif me) d1.kernel;
            } in
            let e' : some out ≡ some d' = rw (f, g) at e in
            let same : out ≡ d' = cc in
            subst (λ (x : Dma). IsTable n x.accel.sq_tail_local x.pending) same t1
      ]
    ]

find_unused-first :
    (pending : ℕ → Pending) (rounds i n : ℕ)
    → i ≤ n
    → n < i + rounds
    → ((j : ℕ) → i ≤ j → j < n → (pending j).used ≢ 0)
    → (pending n).used ≡ 0
    → find_unused pending rounds i ≡ some n
unfolding find_unused
find_unused-first pending zero i n le lt used z = absurd (omega arith)
find_unused-first pending (suc rounds) i n le lt used z = elim (ℕ_discrete i n) [
  | yes e ↦ ground (arith, e, z)
  | no ne ↦ ground (
    arith,
    used i,
    find_unused-first pending rounds (i + 1) n (omega arith) (omega arith)
        (λ j a b. used j (omega arith) b) z,
  )
]

registered-IsTable :
    (n sem : ℕ) (pending : ℕ → Pending)
    → n < num_workers
    → IsTable n n pending
    → IsTable (n + 1) (n + 1) (pending_register (n + 1) sem pending)
unfolding pending_register update
registered-IsTable n sem pending lt t =
    let slot : find_unused pending num_workers 0 ≡ some n =
      find_unused-first pending num_workers 0 n (omega arith) (omega arith)
        (λ j a b. (t.numbered j b).0) (t.open_slots n (omega arith) lt) in
    rw (slot, pending_register)
      (record {
        few = omega arith;
        numbered = λ j h. (ground (arith, t.numbered j), ground (arith, t.numbered j));
        open_slots = λ j le h. ground (arith, t.open_slots j);
        answered = λ j h done. ground (arith, t.answered j);
        counted = refl;
      })

request-IsTable :
    (n me src dst sem id : ℕ) (d d' : Dma)
    → n < num_workers
    → submit_request me src dst sem d ≡ some (id, d')
    → IsTable n d.accel.sq_tail_local d.pending
    → (id ≡ n + 1) × IsTable (n + 1) d'.accel.sq_tail_local d'.pending
unfolding submit_request accel_submit_copy push_copy reg_write irq_disable_save
request-IsTable n me src dst sem id d d' lt e t = elim (Option-cases (spin_lock d.accel_lock)) [
  | inl f ↦ ground (arith, e, f)
  | inr (l, f) ↦
      let submitted =
        accel_submit_copy me src dst test_len d.accel (irq_disable_save me d.kernel).1 in
      let number : submitted.0 ≡ n + 1 = omega (arith, t.counted, lt) in
      let out : ℕ × Dma = (
        submitted.0,
        record d {
          accel_lock = spin_unlock l;
          accel = submitted.1;
          pending = pending_register submitted.0 sem d.pending;
          kernel = irq_restore me (d.kernel.daif me) submitted.2;
        },
      ) in
      let e' : some out ≡ some (id, d') = rw f at e in
      let same : out ≡ (id, d') = cc in
      let t' =
        registered-IsTable n sem d.pending lt (subst (λ m. IsTable n m d.pending) t.counted t) in
      subst (λ (x : ℕ × Dma). (x.0 ≡ n + 1) × IsTable (n + 1) x.1.accel.sq_tail_local x.1.pending)
        same
        (number, subst (λ m. IsTable (n + 1) m (pending_register m sem d.pending)) (sym number) t')
]

run-IsTable :
    (start : Dma) (n : ℕ) (d : Dma)
    → ((i : ℕ) → i < num_workers → (start.pending i).used ≡ 0)
    → start.accel.sq_tail_local ≡ 0
    → DmaRun start n d
    → IsTable n d.accel.sq_tail_local d.pending
run-IsTable start _ _ empty z begin = record {
  few = omega arith;
  numbered = λ i lt. absurd (omega arith);
  open_slots = λ i le lt. empty i lt;
  answered = λ i lt done. absurd (omega arith);
  counted = z;
}
run-IsTable start _ _ empty z (request m me src dst sem id d0 d r lt e) =
    (request-IsTable m me src dst sem id d0 d lt e (run-IsTable start m d0 empty z r)).1
run-IsTable start _ _ empty z (dispatch n me dev d0 d r e) =
    dispatch-IsTable n me dev d0 d e (run-IsTable start n d0 empty z r)

find_slot_of-at :
    (pending : ℕ → Pending) (n tail rounds i j : ℕ)
    → IsTable n tail pending
    → i ≤ j
    → j < n
    → j < i + rounds
    → find_slot_of pending (j + 1) rounds i ≡ some j
unfolding find_slot_of
find_slot_of-at pending n tail zero i j t le lt h = absurd (omega arith)
find_slot_of-at pending n tail (suc rounds) i j t le lt h = elim (ℕ_discrete i j) [
  | yes e ↦ ground (arith, e, t.numbered i (omega arith))
  | no ne ↦ ground (
    arith,
    t.numbered i (omega arith),
    find_slot_of-at pending n tail rounds (i + 1) j t (omega arith) lt (omega arith),
  )
]

-- From an empty table and a queue with no command in it, after any requests of the workers, three at
-- most, and any dispatches of completions in between, whatever the device sends: a request that is
-- done reads back a completion, and it is that of its own command.
pub read_result_lem :
    (start d : Dma) (n i : ℕ)
    → ((j : ℕ) → j < num_workers → (start.pending j).used ≡ 0)
    → start.accel.sq_tail_local ≡ 0
    → DmaRun start n d
    → i < n
    → (d.pending i).done ≢ 0
    → (c : Completion) × (read_result d.pending (d.pending i).cmd_id ≡ some c)
      × (c.cmd_id ≡ (d.pending i).cmd_id)
unfolding read_result
read_result_lem start d n i empty z r lt done =
    let t = run-IsTable start n d empty z r in
    let (_, id) = t.numbered i lt in
    let found : find_slot_of d.pending (i + 1) num_workers 0 ≡ some i =
      find_slot_of-at d.pending n d.accel.sq_tail_local num_workers 0 i t (omega arith) lt
        (omega (arith, t.few)) in
    ((d.pending i).result, rw (id, found) refl, t.answered i lt done ∙ sym id)
