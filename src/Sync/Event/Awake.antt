-- ===== src/Sync/Event/Awake.antt =====
-- Runs of `event_set`, `event_clear` and `event_wait` of kernel/sync.c on one core, and what a set and
-- a wait come to.
use Prim.Native.Nat.{bit_and}
use aarch64_rtos.Prelude.{
  ℕ, ◌≡◌, ◌≢◌, ◌⊎◌, true, some, Option, ◌==◌, arith, Bool-cases, inl, inr, update,
}
use aarch64_rtos.Kernel.{Kernel, ready}
use aarch64_rtos.Lock.{irq_disable_save, irq_restore}
use aarch64_rtos.Sync.Block.{Progress}
use aarch64_rtos.Sync.Mutex.{make_ready}
use aarch64_rtos.Sync.Event.{
  Event, raised, event_init, event_satisfied, event_set, event_clear, event_wait,
}

-- The bits that a task waits for are there: all of them, or one at least.
abbrev pub IsAnswer : ℕ → ℕ → ℕ → Type 0
IsAnswer mask wait_all result = ((wait_all ≢ 0) × (result ≡ mask)) ⊎ ((wait_all ≡ 0) × (result ≢ 0))

satisfied-IsAnswer :
    (e : Event)
    → event_satisfied e ≡ true
    → IsAnswer e.wait_mask e.wait_all (bit_and e.flags e.wait_mask)
unfolding event_satisfied
satisfied-IsAnswer e h = elim (Bool-cases (e.wait_all == 0)) [
  | inl z ↦ inr (ground arith, ground (arith, h, z))
  | inr n ↦ inl (ground arith, ground (arith, h, n))
]

-- A run of calls on an event by tasks of the core `me`; each call is one step, as the masked IRQ makes
-- it on that core. A task waits only while no other one is registered: `event_wait` writes the mask of
-- the new wait over the old one.
pub data EventRun (me : ℕ) : Event → Type 0 where
  start : EventRun me event_init
  set :
      {e e' : Event} (bits : ℕ) (k k' : Kernel)
      → EventRun me e
      → event_set me e bits k ≡ (e', k')
      → EventRun me e'
  clear :
      {e e' : Event} (bits : ℕ) (k k' : Kernel)
      → EventRun me e
      → event_clear me e bits k ≡ (e', k')
      → EventRun me e'
  wait :
      {e e' : Event} (mask wait_all : ℕ) (k k' : Kernel) (p : Progress) (result : Option ℕ)
      → EventRun me e
      → e.waiter ≡ 0
      → event_wait me e mask wait_all k ≡ some (p, result, e', k')
      → EventRun me e'

-- A set that satisfies the waiting task makes it READY, takes it off the event, and leaves a result
-- that satisfies its wait: all the bits of its mask, or one of them at least.
pub event_set-wakes :
    (me : ℕ) (e : Event) (bits : ℕ) (k : Kernel)
    → e.waiter ≢ 0
    → event_satisfied (raised bits e) ≡ true
    → let out = event_set me e bits k in
      (out.0.waiter ≡ 0)
      × IsAnswer e.wait_mask e.wait_all out.0.wake_result
      × ((out.1.tcbs e.waiter).state ≡ ready)
unfolding event_set make_ready update irq_disable_save irq_restore
event_set-wakes me e bits k n s =
    let a = satisfied-IsAnswer (raised bits e) s in
    (ground (arith, n, s), ground (arith, n, s, a), ground (arith, n, s))

-- A wait that comes back with a result at once comes back with one that satisfies it, and leaves the
-- flags and the waiter alone.
pub event_wait-IsAnswer :
    (me mask wait_all result : ℕ) (e e' : Event) (k k' : Kernel) (p : Progress)
    → event_wait me e mask wait_all k ≡ some (p, some result, e', k')
    → IsAnswer mask wait_all result × (e'.flags ≡ e.flags) × (e'.waiter ≡ e.waiter)
unfolding event_wait irq_disable_save
event_wait-IsAnswer me mask wait_all result e e' k k' p q =
    elim (Bool-cases (event_satisfied (record e { wait_mask = mask; wait_all = wait_all }))) [
      | inl s ↦
          let a = satisfied-IsAnswer (record e { wait_mask = mask; wait_all = wait_all }) s in
          (ground (arith, q, s, a), ground (arith, q, s), ground (arith, q, s))
      | inr s ↦ absurd (ground (arith, q, s))
    ]
