-- ===== src/PingPong/Phases.antt =====
-- What the two tasks know of their semaphores, and what a post and a wait do to it.
use aarch64_rtos.Prelude.{
  ℕ, ◌≡◌, ◌≢◌, inl, inr, refl, Bool, true, false, some, ◌==◌, Bool-cases, update, subst, ◌&&◌,
  if◌then◌else◌, arith,
}
use aarch64_rtos.Kernel.{Kernel}
use aarch64_rtos.Sched.Run.{current, pick_with, pick_next_ready}
use aarch64_rtos.Lock.{
  spin_lock, spin_unlock, irq_disable_save, irq_restore, rq_lock, rq_unlock, rq_lock_irqsave,
  rq_unlock_irqrestore,
}
use aarch64_rtos.Sync.Block.{
  block_current_and_switch, hand_over, Progress, returns, idles, switches,
}
use aarch64_rtos.Sync.Sem.{Sem, is_positive, sem_wait, sem_post, sem_block, sem_lock_irqsave}
use aarch64_rtos.Sync.Sem.Tokens.{sem_post-sem, sem_wait-sem}
use aarch64_rtos.PingPong.{
  pp_rounds, Ping, Pong, posts, waits, sleeps, answered, stops, called, after_wait,
}

abbrev pub is_empty : Sem → Bool
is_empty s = s.count == 0 && s.waiter == 0

-- What a task with address `t` in its wait knows of its semaphore: 1 when nothing was posted for it, 2
-- when something was; 0 is never reached.
abbrev pub awaiting : Sem → ℕ
awaiting s =
    if s.waiter == 0 then (if s.count == 0 then 1 else if s.count == 1 then 2 else 0) else 0

abbrev pub asleep : ℕ → Sem → ℕ
asleep t s =
    if s.count == 0 then (if s.waiter == t then 1 else if s.waiter == 0 then 2 else 0) else 0

-- The phase of the pong task: 1 not called, 2 called, 3 called and counted.
unfoldable pub pong_phase : ℕ → Pong → Sem → ℕ
pong_phase b waits s = awaiting s
pong_phase b sleeps s = asleep b s
pong_phase b called s = if is_empty s then 2 else 0
pong_phase b posts s = if is_empty s then 3 else 0

-- The phase of the ping task: 1 in wait of an answer, 2 answered, 3 before a call, 4 behind the rounds.
unfoldable pub ping_phase : ℕ → Ping → Sem → ℕ
ping_phase a (posts i) s = if is_empty s then 3 else 0
ping_phase a (waits i) s = awaiting s
ping_phase a (sleeps i) s = asleep a s
ping_phase a (answered i) s = if is_empty s then 2 else 0
ping_phase a stops s = if is_empty s then 4 else 0

unfoldable pub round_of : Ping → ℕ
round_of (posts i) = i
round_of (waits i) = i
round_of (sleeps i) = i
round_of (answered i) = i
round_of stops = pp_rounds

sem_wait-taken :
    (me : ℕ) (p : Progress) (s s' : Sem) (k k' : Kernel)
    → sem_wait me s k ≡ some (p, s', k')
    → is_positive s.count ≡ true
    → p ≡ returns
unfolding sem_wait sem_lock_irqsave spin_lock spin_unlock irq_disable_save irq_restore
sem_wait-taken me p s s' k k' e z = ground (arith, e, z)

sem_wait-asleep :
    (me : ℕ) (p : Progress) (s s' : Sem) (k k' : Kernel)
    → sem_wait me s k ≡ some (p, s', k')
    → is_positive s.count ≡ false
    → p ≢ returns
unfolding sem_wait sem_block sem_lock_irqsave spin_lock spin_unlock irq_disable_save
    block_current_and_switch hand_over pick_next_ready pick_with rq_lock_irqsave rq_lock
    rq_unlock_irqrestore rq_unlock irq_restore update
sem_wait-asleep me p s s' k k' e z same = ground (arith, e, z, same)

-- How a wait goes, for a task with address `t` that is in phase `m` of its wait.
pub data Waited (t : ℕ) (s' : Sem) (p : Progress) : ℕ → Type 0 where
  taken : p ≡ returns → s'.count ≡ 0 → s'.waiter ≡ 0 → Waited t s' p 2
  put_down : p ≢ returns → asleep t s' ≡ 1 → Waited t s' p 1

pub sem_wait-Waited :
    (me t : ℕ) (p : Progress) (s s' : Sem) (k k' : Kernel) (m : ℕ)
    → sem_wait me s k ≡ some (p, s', k')
    → current me k ≡ t
    → t ≢ 0
    → awaiting s ≡ m
    → m ≢ 0
    → Waited t s' p m
sem_wait-Waited me t p s s' k k' m e here some_task at ok =
    let f = sem_wait-sem me p s s' k k' e in
    elim (Bool-cases (is_positive s.count)) [
      | inl z ↦
          let two : 2 ≡ m = ground (arith, at, ok, z) in
          subst (Waited t s' p) two (
            taken (sem_wait-taken me p s s' k k' e z) (ground (arith, f.0 z, at, ok))
              (ground (arith, f.0 z, at, ok)))
      | inr z ↦
          let one : 1 ≡ m = ground (arith, at, ok, z) in
          subst (Waited t s' p) one
            (put_down (sem_wait-asleep me p s s' k k' e z) (ground (arith, f.1 z, at, ok, here)))
    ]

-- A post calls the task that waits.
pub post-pong_phase :
    (me b : ℕ) (pong : Pong) (s s' : Sem) (k k' : Kernel)
    → b ≢ 0
    → sem_post me s k ≡ some (s', k')
    → pong_phase b pong s ≡ 1
    → pong_phase b pong s' ≡ 2
unfolding pong_phase
post-pong_phase me b waits s s' k k' ne e h = ground (arith, h, sem_post-sem me s s' k k' e)
post-pong_phase me b sleeps s s' k k' ne e h = ground (arith, h, sem_post-sem me s s' k k' e)
post-pong_phase me b called s s' k k' ne e h = absurd (ground (arith, h))
post-pong_phase me b posts s s' k k' ne e h = absurd (ground (arith, h))

pub post-ping_phase :
    (me a : ℕ) (ping : Ping) (s s' : Sem) (k k' : Kernel)
    → a ≢ 0
    → sem_post me s k ≡ some (s', k')
    → ping_phase a ping s ≡ 1
    → ping_phase a ping s' ≡ 2
unfolding ping_phase
post-ping_phase me a (posts i) s s' k k' ne e h = absurd (ground (arith, h))
post-ping_phase me a (waits i) s s' k k' ne e h = ground (arith, h, sem_post-sem me s s' k k' e)
post-ping_phase me a (sleeps i) s s' k k' ne e h = ground (arith, h, sem_post-sem me s s' k k' e)
post-ping_phase me a (answered i) s s' k k' ne e h = absurd (ground (arith, h))
post-ping_phase me a stops s s' k k' ne e h = absurd (ground (arith, h))

pub Waited-ping_phase :
    (a i : ℕ) (s' : Sem) (p : Progress) (m : ℕ)
    → Waited a s' p m
    → (ping_phase a (after_wait (answered i) (sleeps i) p) s' ≡ m)
      × (round_of (after_wait (answered i) (sleeps i) p) ≡ i)
unfolding ping_phase after_wait round_of
Waited-ping_phase a i s' returns _ (taken e c w) = (ground arith, refl)
Waited-ping_phase a i s' idles _ (taken e c w) = absurd (cc e)
Waited-ping_phase a i s' (switches u v f) _ (taken e c w) = absurd (cc e)
Waited-ping_phase a i s' returns _ (put_down ne h) = absurd (ne refl)
Waited-ping_phase a i s' idles _ (put_down ne h) = (h, refl)
Waited-ping_phase a i s' (switches u v f) _ (put_down ne h) = (h, refl)

pub Waited-pong_phase :
    (b : ℕ) (s' : Sem) (p : Progress) (m : ℕ)
    → Waited b s' p m
    → pong_phase b (after_wait called sleeps p) s' ≡ m
unfolding pong_phase after_wait
Waited-pong_phase b s' returns _ (taken e c w) = ground arith
Waited-pong_phase b s' idles _ (taken e c w) = absurd (cc e)
Waited-pong_phase b s' (switches u v f) _ (taken e c w) = absurd (cc e)
Waited-pong_phase b s' returns _ (put_down ne h) = absurd (ne refl)
Waited-pong_phase b s' idles _ (put_down ne h) = h
Waited-pong_phase b s' (switches u v f) _ (put_down ne h) = h
