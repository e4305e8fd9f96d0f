-- ===== src/Sched/Policy/Choice.antt =====
-- What the two policies choose.
use native.Mathlib.Nat.{mod-lt}
use aarch64_rtos.Prelude.{
  ℕ, ◌+◌, ◌≤◌, ◌<◌, ◌≡◌, ◌⊎◌, inl, inr, true, false, none, arith, Option-cases, ==→eq, refl,
}
use aarch64_rtos.Kernel.{Tcb, Runqueue}
use aarch64_rtos.Sched.Scan.{is_ready, slot, next_ready, lightest}
use aarch64_rtos.Sched.Scan.First.{
  slot_cover, FirstReady, NoneReady, next_ready-none, next_ready-some,
}
use aarch64_rtos.Sched.Scan.Lightest.{Lightest, Seen, lightest-Seen}
use aarch64_rtos.Sched.Policy.{roundrobin_select_next, load_aware_select_next, resync, take_slot}

-- `current_idx` is an index of the queue, unless the queue is empty.
abbrev pub IsIndexed : Runqueue → Type 0
IsIndexed rq = 0 < rq.num_tasks → rq.current_idx < rq.num_tasks

-- No task of the queue is READY.
abbrev pub AllBlocked : (ℕ → Tcb) → Runqueue → Type 0
AllBlocked tcbs rq = (idx : ℕ) → idx < rq.num_tasks → is_ready tcbs rq.tasks idx ≡ false

-- The queue hands out the READY task of slot `idx`, and remembers the slot.
pub record Takes (tcbs : ℕ → Tcb) (rq : Runqueue) (out : ℕ × Runqueue) (idx : ℕ) : Type 0 where
  pub inside : idx < rq.num_tasks
  pub is_task : out.0 ≡ rq.tasks idx
  pub is_ready_task : (tcbs out.0).state ≡ 0
  pub remembered : out.1.current_idx ≡ idx

-- Nothing is READY: the caller stays on its own task.
abbrev pub Stays : (ℕ → Tcb) → ℕ → Runqueue → ℕ × Runqueue → Type 0
Stays tcbs curr rq out = AllBlocked tcbs rq × (out.0 ≡ curr) × (out.1 ≡ resync curr rq)

abbrev pub Chooses : (ℕ → Type 0) → (ℕ → Tcb) → ℕ → Runqueue → ℕ × Runqueue → Type 0
Chooses P tcbs curr rq out = ((idx : ℕ) × Takes tcbs rq out idx × P idx) ⊎ Stays tcbs curr rq out

module _ (tcbs : ℕ → Tcb) (curr : ℕ) (rq : Runqueue) (ix : IsIndexed rq) where
  open rq use {tasks, num_tasks, current_idx}

  all_blocked : NoneReady tcbs tasks num_tasks current_idx 1 (1 + num_tasks) → AllBlocked tcbs rq
  all_blocked h idx lt =
      let (j, a, b, e) = slot_cover num_tasks current_idx idx (ix (omega arith)) lt in
      rw (← e) (h j a (omega arith))

  takes :
      (idx : ℕ)
      → idx < num_tasks
      → is_ready tcbs tasks idx ≡ true
      → Takes tcbs rq (take_slot idx rq) idx
  takes idx lt r = record {
    inside = lt;
    is_task = refl;
    is_ready_task = ==→eq _ _ r;
    remembered = refl;
  }

  slot-lt :
      (j idx : ℕ) → 1 ≤ j → j < 1 + num_tasks → slot num_tasks current_idx j ≡ idx → idx < num_tasks
  slot-lt j idx a b e = rw (← e) (mod-lt (current_idx + j) {m = num_tasks} (omega arith))

  Chooses-some :
      (P : ℕ → Type 0) (out : ℕ × Runqueue) (idx : ℕ)
      → out ≡ take_slot idx rq
      → idx < num_tasks
      → is_ready tcbs tasks idx ≡ true
      → P idx
      → Chooses P tcbs curr rq out
  Chooses-some P out idx e lt r p = rw e (inl (idx, takes idx lt r, p))

  Chooses-none :
      (P : ℕ → Type 0) (out : ℕ × Runqueue)
      → out ≡ (curr, resync curr rq)
      → NoneReady tcbs tasks num_tasks current_idx 1 (1 + num_tasks)
      → Chooses P tcbs curr rq out
  Chooses-none P out e h = rw e (inr (all_blocked h, refl, refl))

  -- With a READY task in the queue, round-robin hands out the first one after `current_idx`, going
  -- round, and remembers its slot; with none, it stays on the current task.
  pub roundrobin_select_next_lem :
      Chooses
        (FirstReady tcbs tasks num_tasks current_idx 1 (1 + num_tasks))
        tcbs
        curr
        rq
        (roundrobin_select_next tcbs curr rq)
  unfolding roundrobin_select_next
  roundrobin_select_next_lem =
      elim (Option-cases (next_ready tcbs tasks num_tasks current_idx num_tasks 1)) [
        | inl e ↦
            Chooses-none _ _ (rw (e, roundrobin_select_next))
              (next_ready-none tcbs tasks num_tasks current_idx num_tasks 1 e)
        | inr (idx, e) ↦
            let f = next_ready-some tcbs tasks num_tasks current_idx num_tasks 1 idx e in
            Chooses-some _ _ idx (rw (e, roundrobin_select_next))
              (slot-lt f.round idx f.from f.before f.here) f.found f
      ]

  seen :
      Seen tcbs tasks num_tasks current_idx 1
        (1 + num_tasks)
        (lightest tcbs tasks num_tasks current_idx num_tasks 1 none)
  seen =
      lightest-Seen tcbs tasks num_tasks current_idx 1 num_tasks 1 (1 + num_tasks) none
        (omega arith) refl (λ m a b. absurd (omega arith))

  -- With a READY task in the queue, the load-aware policy hands out one of the least load, the first
  -- of these after `current_idx`, going round, and remembers its slot; with none, it stays on the
  -- current task.
  pub load_aware_select_next_lem :
      Chooses
        (Lightest tcbs tasks num_tasks current_idx 1 (1 + num_tasks))
        tcbs
        curr
        rq
        (load_aware_select_next tcbs curr rq)
  unfolding load_aware_select_next
  load_aware_select_next_lem =
      elim (Option-cases (lightest tcbs tasks num_tasks current_idx num_tasks 1 none)) [
        | inl e ↦ Chooses-none _ _ (rw (e, load_aware_select_next)) (rw e at seen)
        | inr (idx, e) ↦
            let f : Lightest tcbs tasks num_tasks current_idx 1 (1 + num_tasks) idx =
              rw e at seen in
            Chooses-some _ _ idx (rw (e, load_aware_select_next))
              (slot-lt f.round idx f.from f.before f.here) f.found f
      ]

  -- The task that the load-aware policy hands out has the least load among the READY tasks of the
  -- queue.
  pub load_aware-least :
      (idx : ℕ)
      → idx < num_tasks
      → is_ready tcbs tasks idx ≡ true
      → (tcbs (load_aware_select_next tcbs curr rq).0).ewma_load ≤ (tcbs (tasks idx)).ewma_load
  load_aware-least idx lt r = elim load_aware_select_next_lem [
    | inr (b, s, u) ↦ cc (b idx lt)
    | inl (best, k, f) ↦
        let (j, a, b, e) = slot_cover num_tasks current_idx idx (ix (omega arith)) lt in
        rw (k.is_task) (rw (← e) (f.least j a (omega arith) (rw e r)))
  ]
