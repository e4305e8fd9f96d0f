-- ===== src/Sync/Queue/Fifo.antt =====
-- Runs of `queue_send` and `queue_recv` of kernel/sync.c on one core, against a list.
use aarch64_rtos.Prelude.{
  ℕ, ◌+◌, ◌-◌, ◌%◌, ◌<◌, ◌≡◌, ◌≢◌, refl, sym, ap, ◌∙◌, some, none, List, [], ◌∷◌, ◌++◌, arith,
  update, Bool-cases, Option-cases, inl, inr, ltb, length, ◌≤◌,
}
use mathlib.Core.List.{append_assoc}
use aarch64_rtos.Kernel.{Kernel}
use aarch64_rtos.Lock.{irq_disable_save}
use aarch64_rtos.Sync.Block.{
  Progress, returns, mark_blocked, block_current_and_switch, never_returns,
}
use aarch64_rtos.Sync.Queue.{Queue, queue_cap, queue_init, queue_block, queue_send, queue_recv}
use aarch64_rtos.Sync.Queue.Contents.{
  items, contents, IsValidQueue, items-push, items-first, length-items,
}

-- The queue after a call that stores, that takes, and that blocks.
abbrev pub with_item : ℕ → Queue → Queue
with_item item q = record q {
  buf = update q.buf q.tail item;
  tail = (q.tail + 1) % queue_cap;
  count = q.count + 1;
  recv_waiter = 0;
}

abbrev pub without_first : Queue → Queue
without_first q = record q { head = (q.head + 1) % queue_cap; count = q.count - 1; send_waiter = 0 }

queue_send-returns :
    (me item : ℕ) (q q' : Queue) (k k' : Kernel)
    → queue_send me q item k ≡ some (returns, q', k')
    → (q.count < queue_cap) × (q' ≡ with_item item q)
unfolding queue_send queue_block irq_disable_save
queue_send-returns me item q q' k k' e = elim (Bool-cases (ltb q.count queue_cap)) [
  | inl l ↦ (ground arith, ground (arith, e, l))
  | inr n ↦
      elim (Option-cases
        (block_current_and_switch me (k.daif me) (mark_blocked me (irq_disable_save me k).1))) [
          | inl b ↦ ground (arith, e, n, b)
          | inr ((p, k1), b) ↦
              ground (arith, e, n, b, never_returns me (k.daif me) (irq_disable_save me k).1 k1)
        ]
]

queue_send-blocks :
    (me item : ℕ) (p : Progress) (q q' : Queue) (k k' : Kernel)
    → p ≢ returns
    → queue_send me q item k ≡ some (p, q', k')
    → (q.count ≡ q'.count) × (q.head ≡ q'.head) × (q.tail ≡ q'.tail) × (q.buf ≡ q'.buf)
unfolding queue_send queue_block irq_disable_save
queue_send-blocks me item p q q' k k' n e =
    (ground (arith, e), ground (arith, e), ground (arith, e), ground (arith, e))

queue_recv-some :
    (me item : ℕ) (p : Progress) (q q' : Queue) (k k' : Kernel)
    → queue_recv me q k ≡ some (p, some item, q', k')
    → (0 < q.count) × (item ≡ q.buf q.head) × (q' ≡ without_first q)
unfolding queue_recv queue_block irq_disable_save
queue_recv-some me item p q q' k k' e = (ground (arith, e), ground (arith, e), ground (arith, e))

queue_recv-none :
    (me : ℕ) (p : Progress) (q q' : Queue) (k k' : Kernel)
    → queue_recv me q k ≡ some (p, none, q', k')
    → (q.count ≡ q'.count) × (q.head ≡ q'.head) × (q.tail ≡ q'.tail) × (q.buf ≡ q'.buf)
unfolding queue_recv queue_block irq_disable_save
queue_recv-none me p q q' k k' e =
    (ground (arith, e), ground (arith, e), ground (arith, e), ground (arith, e))

-- A run of calls on a queue by tasks of the core `me`, with the items whose `queue_send` has come back
-- and those that a `queue_recv` has come back with, oldest first. Each call is one step, as the masked
-- IRQ makes it on that core. A call that blocks sends or receives nothing yet.
pub data QueueRun (me : ℕ) : (sent received : List ℕ) → Queue → Type 0 where
  start : (junk : Queue) → QueueRun me [] [] (queue_init junk)
  send :
      {sent received : List ℕ} {q q' : Queue} (item : ℕ) (k k' : Kernel)
      → QueueRun me sent received q
      → queue_send me q item k ≡ some (returns, q', k')
      → QueueRun me (sent ++ (item ∷ [])) received q'
  send_blocks :
      {sent received : List ℕ} {q q' : Queue} (item : ℕ) (k k' : Kernel) (p : Progress)
      → QueueRun me sent received q
      → p ≢ returns
      → queue_send me q item k ≡ some (p, q', k')
      → QueueRun me sent received q'
  receive :
      {sent received : List ℕ} {q q' : Queue} (item : ℕ) (k k' : Kernel) (p : Progress)
      → QueueRun me sent received q
      → queue_recv me q k ≡ some (p, some item, q', k')
      → QueueRun me sent (received ++ (item ∷ [])) q'
  receive_blocks :
      {sent received : List ℕ} {q q' : Queue} (k k' : Kernel) (p : Progress)
      → QueueRun me sent received q
      → queue_recv me q k ≡ some (p, none, q', k')
      → QueueRun me sent received q'

-- The queue is well-formed and holds what was sent and not yet received.
abbrev Carries : List ℕ → List ℕ → Queue → Type 0
Carries sent received q = IsValidQueue q × (sent ≡ received ++ contents q)

Carries-send :
    (sent received : List ℕ) (item : ℕ) (q : Queue)
    → q.count < queue_cap
    → Carries sent received q
    → Carries (sent ++ (item ∷ [])) received (with_item item q)
Carries-send sent received item q lt (v, c) = (
  record { room = omega arith; head_in = v.head_in; tail_at = omega (arith, v.tail_at, v.head_in) },
  rw (c, v.tail_at, items-push q.buf item q.head q.count v.head_in lt)
      (append_assoc received (contents q) (item ∷ [])),
)

Carries-receive :
    (sent received : List ℕ) (q : Queue)
    → 0 < q.count
    → Carries sent received q
    → Carries sent (received ++ (q.buf q.head ∷ [])) (without_first q)
Carries-receive sent received q lt (v, c) = (
  record {
    room = omega (arith, v.room);
    head_in = omega arith;
    tail_at = omega (arith, v.tail_at, v.head_in);
  },
  c
      ∙ ap (λ xs. received ++ xs) (items-first q.buf q.head q.count lt)
      ∙ sym (append_assoc received (q.buf q.head ∷ []) (contents (without_first q))),
)

Carries-same :
    (sent received : List ℕ) (q q' : Queue)
    → (q.count ≡ q'.count) × (q.head ≡ q'.head) × (q.tail ≡ q'.tail) × (q.buf ≡ q'.buf)
    → Carries sent received q
    → Carries sent received q'
Carries-same sent received q q' (ec, eh, et, eb) (v, c) = (
  record {
    room = omega (arith, v.room);
    head_in = omega (arith, v.head_in);
    tail_at = omega (arith, v.tail_at);
  },
  rw (← eb, ← eh, ← ec) c,
)

QueueRun-Carries :
    {me : ℕ} {sent received : List ℕ} {q : Queue}
    → QueueRun me sent received q
    → Carries sent received q
unfolding queue_init items
QueueRun-Carries (start junk) =
    (record { room = omega arith; head_in = omega arith; tail_at = omega arith }, refl)
QueueRun-Carries {me} {q = q'} (send {sent} {received} {q} item k k' r e) =
    let (lt, s) = queue_send-returns me item q q' k k' e in
    rw s (Carries-send sent received item q lt (QueueRun-Carries r))
QueueRun-Carries {me} {q = q'} (send_blocks {sent} {received} {q} item k k' p r n e) =
    Carries-same sent received q q' (queue_send-blocks me item p q q' k k' n e) (QueueRun-Carries r)
QueueRun-Carries {me} {q = q'} (receive {sent} {received} {q} item k k' p r e) =
    let (lt, i, s) = queue_recv-some me item p q q' k k' e in
    rw (s, i) (Carries-receive sent received q lt (QueueRun-Carries r))
QueueRun-Carries {me} {q = q'} (receive_blocks {sent} {received} {q} k k' p r e) =
    Carries-same sent received q q' (queue_recv-none me p q q' k k' e) (QueueRun-Carries r)

-- Over any run of sends and receives by the tasks of one core, whatever blocks in between, the items
-- received are the first ones sent, in the order sent; the rest, four at most, is in the queue.
pub queue_fifo :
    (me : ℕ) (sent received : List ℕ) (q : Queue)
    → QueueRun me sent received q
    → (sent ≡ received ++ contents q) × (length (contents q) ≤ queue_cap)
queue_fifo me sent received q r =
    let (v, c) = QueueRun-Carries r in (c, rw (length-items q.buf q.head q.count) v.room)
