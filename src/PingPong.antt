-- ===== src/PingPong.antt =====
-- The ping task on core 1 and the pong task on core 2 (`pp_ping_task` and `pp_pong_task` of
-- kernel/smp.c): two tasks that wake each other through two semaphores. A step is one statement of one
-- of them; the state of the kernel at each call is arbitrary, since other tasks run in between.
pub mod Phases
pub mod Laws
use aarch64_rtos.Prelude.{ℕ, suc, ◌+◌, ◌%◌, ◌^◌, ◌≡◌, ◌≢◌, some, ltb, if◌then◌else◌}
use aarch64_rtos.Kernel.{Kernel}
use aarch64_rtos.Sched.Run.{current}
use aarch64_rtos.Sync.Block.{Progress, returns, idles, switches}
use aarch64_rtos.Sync.Sem.{Sem, sem_init, sem_wait, sem_post}

abbrev pub pp_rounds : ℕ
pp_rounds = 2000

-- Where the ping task stands in round `i`: before its `sem_post`, before its `sem_wait`, in that call
-- until it is woken, and behind it; or in the loop behind the rounds.
pub data Ping : Type 0 where
  posts : (i : ℕ) → Ping
  waits : (i : ℕ) → Ping
  sleeps : (i : ℕ) → Ping
  answered : (i : ℕ) → Ping
  stops : Ping

-- Where the pong task stands: before its `sem_wait`, in that call until it is woken, behind it, and
-- before its `sem_post`.
pub data Pong : Type 0 where
  waits : Pong
  sleeps : Pong
  called : Pong
  posts : Pong

pub record PingPong : Type 0 where
  pub ping : Ping
  pub pong : Pong
  pub to_pong : Sem
  pub to_ping : Sem
  pub rounds_done : ℕ
  pub pongs : ℕ

-- The semaphores are zero-initialised.
abbrev pub at_start : PingPong
at_start = record {
  ping = posts 0;
  pong = waits;
  to_pong = sem_init 0;
  to_ping = sem_init 0;
  rounds_done = 0;
  pongs = 0;
}

-- A task goes on behind `sem_wait` when the call comes back, and else sleeps in it.
unfoldable pub after_wait : {A : Type 0} → A → A → Progress → A
after_wait on off returns = on
after_wait on off idles = off
after_wait on off (switches prev next flags) = off

-- `i++` and the test of the loop
abbrev pub next_round : ℕ → Ping
next_round i = if ltb (i + 1) pp_rounds then posts (i + 1) else stops

-- The steps of the task at `a` (ping) and of the one at `b` (pong). A task that sleeps goes on once a
-- `sem_post` has taken it from the semaphore.
pub data Step (a b : ℕ) : PingPong → PingPong → Type 0 where
  ping_posts :
      {i : ℕ} {s : PingPong} {sem : Sem} (me : ℕ) (k k' : Kernel)
      → s.ping ≡ posts i
      → sem_post me s.to_pong k ≡ some (sem, k')
      → Step a b s (record s { ping = waits i; to_pong = sem })
  ping_waits :
      {i : ℕ} {s : PingPong} {sem : Sem} (me : ℕ) (p : Progress) (k k' : Kernel)
      → s.ping ≡ waits i
      → current me k ≡ a
      → sem_wait me s.to_ping k ≡ some (p, sem, k')
      → Step a b s (record s { ping = after_wait (answered i) (sleeps i) p; to_ping = sem })
  ping_wakes :
      {i : ℕ} {s : PingPong}
      → s.ping ≡ sleeps i
      → s.to_ping.waiter ≢ a
      → Step a b s (record s { ping = answered i })
  ping_counts :
      {i : ℕ} {s : PingPong}
      → s.ping ≡ answered i
      → Step a b s (record s { ping = next_round i; rounds_done = i + 1 })
  pong_waits :
      {s : PingPong} {sem : Sem} (me : ℕ) (p : Progress) (k k' : Kernel)
      → s.pong ≡ waits
      → current me k ≡ b
      → sem_wait me s.to_pong k ≡ some (p, sem, k')
      → Step a b s (record s { pong = after_wait called sleeps p; to_pong = sem })
  pong_wakes :
      {s : PingPong}
      → s.pong ≡ sleeps
      → s.to_pong.waiter ≢ b
      → Step a b s (record s { pong = called })
  pong_counts :
      {s : PingPong}
      → s.pong ≡ called
      → Step a b s (record s { pong = posts; pongs = (s.pongs + 1) % 2 ^ 64 })
  pong_posts :
      {s : PingPong} {sem : Sem} (me : ℕ) (k k' : Kernel)
      → s.pong ≡ posts
      → sem_post me s.to_ping k ≡ some (sem, k')
      → Step a b s (record s { pong = waits; to_ping = sem })

-- The states that the two tasks reach.
pub data Reached (a b : ℕ) : PingPong → Type 0 where
  start : Reached a b at_start
  step : {s s' : PingPong} → Reached a b s → Step a b s s' → Reached a b s'
