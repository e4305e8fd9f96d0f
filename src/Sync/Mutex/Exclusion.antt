-- ===== src/Sync/Mutex/Exclusion.antt =====
-- Runs of `mutex_lock` and `mutex_unlock` of kernel/sync.c on one core, and who holds the mutex.
use aarch64_rtos.Prelude.{ℕ, ◌≡◌, ◌≢◌, some, List, [], ◌∷◌, ◌==◌, if◌then◌else◌}
use aarch64_rtos.Kernel.{Kernel}
use aarch64_rtos.Sched.Run.{current}
use aarch64_rtos.Sync.Block.{Progress, returns}
use aarch64_rtos.Sync.Mutex.{Mutex, mutex_init, mutex_lock, mutex_unlock}

-- The tasks inside after the holder has left: the waiter, if there is one, takes its place.
abbrev pub after : ℕ → List ℕ → List ℕ
after waiter others = if waiter == 0 then others else waiter ∷ others

-- A run of calls by tasks of the core `me`, with the tasks that hold the mutex: those whose `mutex_lock`
-- has come back, or that an unlock has woken, and that have not unlocked it since. Each call is one
-- step, as the masked IRQ makes it on that core. `mutex_unlock` checks no owner: in a run, the task
-- that calls it is the holder.
pub data MutexRun (me : ℕ) : List ℕ → Mutex → Type 0 where
  start : MutexRun me [] mutex_init
  take :
      {holders : List ℕ} {m m' : Mutex} (k k' : Kernel)
      → MutexRun me holders m
      → mutex_lock me m k ≡ some (returns, m', k')
      → MutexRun me (current me k ∷ holders) m'
  wait :
      {holders : List ℕ} {m m' : Mutex} (k k' : Kernel) (p : Progress)
      → MutexRun me holders m
      → p ≢ returns
      → mutex_lock me m k ≡ some (p, m', k')
      → MutexRun me holders m'
  release :
      {others : List ℕ} {m m' : Mutex} (k k' : Kernel)
      → MutexRun me (current me k ∷ others) m
      → mutex_unlock me m k ≡ (m', k')
      → MutexRun me (after m.waiter others) m'

-- The mutex is free, with nobody waiting, or has the one holder as its owner.
abbrev pub Exclusive : List ℕ → Mutex → Type 0
Exclusive [] m = (m.locked ≡ 0) × (m.owner ≡ 0) × (m.waiter ≡ 0)
Exclusive (t ∷ []) m = (m.locked ≡ 1) × (m.owner ≡ t)
Exclusive (t ∷ u ∷ rest) m = ⊥
