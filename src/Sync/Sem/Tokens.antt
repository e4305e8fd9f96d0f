-- ===== src/Sync/Sem/Tokens.antt =====
-- Runs of `sem_post` and `sem_wait` of kernel/sync.c, by any cores in any states of the kernel, and the
-- tokens of the semaphore.
use aarch64_rtos.Prelude.{
  ℕ, suc, ◌+◌, ◌-◌, ◌%◌, ◌^◌, ◌<◌, ◌≡◌, ◌≢◌, ◌⊎◌, some, true, false, ◌==◌, if◌then◌else◌, arith,
  refl,
}
use aarch64_rtos.Kernel.{Kernel}
use aarch64_rtos.Lock.{spin_lock, spin_unlock, irq_disable_save}
use aarch64_rtos.Sched.Run.{current}
use aarch64_rtos.Sync.Block.{Progress}
use aarch64_rtos.Sync.Sem.{
  Sem, is_positive, sem_init, sem_lock_irqsave, sem_block, sem_wait, sem_signal, sem_post,
}

pub sem_post-sem :
    (me : ℕ) (s s' : Sem) (k k' : Kernel)
    → sem_post me s k ≡ some (s', k')
    → (s.waiter ≡ 0 → s'.count ≡ (s.count + 1) % 2 ^ 32)
      × (s.waiter ≢ 0 → s'.count ≡ s.count)
      × (s'.waiter ≡ 0)
unfolding sem_post sem_signal sem_lock_irqsave spin_lock spin_unlock
sem_post-sem me s s' k k' e = (λ z. ground arith, λ z. ground arith, ground arith)

pub sem_wait-sem :
    (me : ℕ) (p : Progress) (s s' : Sem) (k k' : Kernel)
    → sem_wait me s k ≡ some (p, s', k')
    → (is_positive s.count ≡ true → (s'.count ≡ s.count - 1) × (s'.waiter ≡ s.waiter))
      × (is_positive s.count ≡ false → (s'.count ≡ s.count) × (s'.waiter ≡ current me k))
unfolding sem_wait sem_block sem_lock_irqsave spin_lock spin_unlock irq_disable_save
sem_wait-sem me p s s' k k' e = (λ z. ground arith, λ z. ground arith)

-- A run that starts with `sem_init(s, initial)` and makes `posts` calls of `sem_post` and `waits` of
-- `sem_wait`; a task waits only while no other one is registered: `sem_wait` writes the new
-- waiter over the old one.
pub data SemRun (initial : ℕ) : (posts waits : ℕ) → Sem → Type 0 where
  start : SemRun initial 0 0 (sem_init initial)
  post :
      {posts waits : ℕ} {s s' : Sem} (me : ℕ) (k k' : Kernel)
      → SemRun initial posts waits s
      → sem_post me s k ≡ some (s', k')
      → SemRun initial (suc posts) waits s'
  wait :
      {posts waits : ℕ} {s s' : Sem} (me : ℕ) (k k' : Kernel) (p : Progress)
      → SemRun initial posts waits s
      → s.waiter ≡ 0
      → current me k ≢ 0
      → sem_wait me s k ≡ some (p, s', k')
      → SemRun initial posts (suc waits) s'

-- 1 while a task is registered as waiting
abbrev pub debt : Sem → ℕ
debt s = if s.waiter == 0 then 0 else 1

record Tokens (initial posts waits : ℕ) (s : Sem) : Type 0 where
  total : s.count + waits ≡ initial + posts + debt s
  idle : s.waiter ≢ 0 → s.count ≡ 0

SemRun-Tokens :
    {initial posts waits : ℕ} {s : Sem}
    → SemRun initial posts waits s
    → initial + posts < 2 ^ 31
    → Tokens initial posts waits s
unfolding sem_init
SemRun-Tokens start h = record { total = omega arith; idle = λ n. absurd (n refl) }
SemRun-Tokens {s = s'} (post {s} me k k' r e) h =
    let t = SemRun-Tokens r (omega arith) in
    let f = sem_post-sem me s s' k k' e in
    record { total = ground (arith, t.total, t.idle, f); idle = λ n. absurd (n f.2) }
SemRun-Tokens {s = s'} (wait {s} me k k' p r free some_task e) h =
    let t = SemRun-Tokens r h in
    let f = sem_wait-sem me p s s' k k' e in
    record { total = ground (arith, t.total, f); idle = ground (arith, t.total, f) }

-- Over any run of posts and waits in which a task calls `sem_wait` only while no other one is
-- registered, and whose initial count fits an `int` with all the posts, a semaphore loses no token and
-- makes none up: the count and the waits make up the initial count and the posts, but for one wait that is
-- still unanswered while a task is registered; and a task is registered only at count 0.
pub sem_tokens :
    (initial posts waits : ℕ) (s : Sem)
    → initial + posts < 2 ^ 31
    → SemRun initial posts waits s
    → (s.count + waits ≡ initial + posts + debt s) × ((s.waiter ≡ 0) ⊎ (s.count ≡ 0))
sem_tokens initial posts waits s h r =
    let t = SemRun-Tokens r h in (t.total, ground (arith, t.idle))
