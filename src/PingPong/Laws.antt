-- ===== src/PingPong/Laws.antt =====
-- The ping and pong tasks of kernel/smp.c together: their counters, and who can go on.
use aarch64_rtos.Prelude.{
  ℕ, ◌+◌, ◌≤◌, ◌<◌, ◌≡◌, ◌≢◌, ◌⊎◌, inl, inr, refl, ◌==◌, ==→eq, Bool-cases, ap, ◌∙◌, sym, ltb,
  if◌then◌else◌, arith,
}
use aarch64_rtos.Sync.Sem.{Sem, sem_init}
use aarch64_rtos.PingPong.{
  pp_rounds, Ping, PingPong, posts, waits, sleeps, answered, stops, called, at_start, Step, Reached,
  start, step, ping_posts, ping_waits, ping_wakes, ping_counts, pong_waits, pong_wakes, pong_counts,
  pong_posts,
}
use aarch64_rtos.PingPong.Phases.{
  pong_phase, ping_phase, round_of, sem_wait-Waited, post-pong_phase, post-ping_phase,
  Waited-ping_phase, Waited-pong_phase,
}

-- The two phases fit, and so do the counters.
record IsInStep (a b : ℕ) (s : PingPong) : Type 0 where
  ping_phase_at : ℕ
  pong_phase_at : ℕ
  ping_in : ping_phase a s.ping s.to_ping ≡ ping_phase_at
  pong_in : pong_phase b s.pong s.to_pong ≡ pong_phase_at
  fit :
      (ping_phase_at ≡ 1) × (2 ≤ pong_phase_at) × (pong_phase_at ≤ 3)
      ⊎ (2 ≤ ping_phase_at) × (ping_phase_at ≤ 4) × (pong_phase_at ≡ 1)
  round : s.rounds_done ≡ round_of s.ping
  few : s.rounds_done ≤ pp_rounds
  more : ping_phase_at ≢ 4 → s.rounds_done < pp_rounds
  counted :
      s.pongs
      ≡ s.rounds_done + (if ping_phase_at == 2 then 1 else if pong_phase_at == 3 then 1 else 0)

start-IsInStep : (a b : ℕ) → IsInStep a b at_start
unfolding ping_phase pong_phase round_of sem_init
start-IsInStep a b = record {
  ping_phase_at = 3;
  pong_phase_at = 1;
  ping_in = refl;
  pong_in = refl;
  fit = inr (omega arith, omega arith, refl);
  round = refl;
  few = omega arith;
  more = λ n. omega arith;
  counted = refl;
}

Step-IsInStep :
    (a b : ℕ) {s s' : PingPong} → a ≢ 0 → b ≢ 0 → IsInStep a b s → Step a b s s' → IsInStep a b s'
unfolding ping_phase pong_phase round_of
Step-IsInStep a b {s} {s'} na nb t (ping_posts {i} {sem} me k k' e p) =
    let was : ping_phase a (posts i) s.to_ping ≡ t.ping_phase_at =
      ap (λ c. ping_phase a c s.to_ping) (sym e) ∙ t.ping_in in
    record {
      ping_phase_at = 1;
      pong_phase_at = 2;
      ping_in = ground (arith, was, t.fit);
      pong_in =
          post-pong_phase me b s.pong s.to_pong sem k k' nb p
            (t.pong_in ∙ ground (arith, was, t.fit));
      fit = inl (refl, omega arith, omega arith);
      round = t.round ∙ ap round_of e;
      few = t.few;
      more = λ n. t.more (ground (arith, was, t.fit));
      counted = ground (arith, t.counted, was, t.fit);
    }
Step-IsInStep a b {s} {s'} na nb t (ping_waits {i} {sem} me p k k' e here c) =
    let was : ping_phase a (waits i) s.to_ping ≡ t.ping_phase_at =
      ap (λ c. ping_phase a c s.to_ping) (sym e) ∙ t.ping_in in
    let w =
      sem_wait-Waited me a p s.to_ping sem k k' t.ping_phase_at c here na was
        (ground (arith, t.fit)) in
    let (phase, r) = Waited-ping_phase a i sem p t.ping_phase_at w in
    record {
      ping_phase_at = t.ping_phase_at;
      pong_phase_at = t.pong_phase_at;
      ping_in = phase;
      pong_in = t.pong_in;
      fit = t.fit;
      round = t.round ∙ ap round_of e ∙ sym r;
      few = t.few;
      more = t.more;
      counted = t.counted;
    }
Step-IsInStep a b {s} {s'} na nb t (ping_wakes {i} e free) =
    let was : ping_phase a (sleeps i) s.to_ping ≡ t.ping_phase_at =
      ap (λ c. ping_phase a c s.to_ping) (sym e) ∙ t.ping_in in
    record {
      ping_phase_at = t.ping_phase_at;
      pong_phase_at = t.pong_phase_at;
      ping_in = ground (arith, was, t.fit, free);
      pong_in = t.pong_in;
      fit = t.fit;
      round = t.round ∙ ap round_of e;
      few = t.few;
      more = t.more;
      counted = t.counted;
    }
Step-IsInStep a b {s} {s'} na nb t (ping_counts {i} e) =
    let was : ping_phase a (answered i) s.to_ping ≡ t.ping_phase_at =
      ap (λ c. ping_phase a c s.to_ping) (sym e) ∙ t.ping_in in
    let at : s.rounds_done ≡ i = t.round ∙ ap round_of e in
    elim (Bool-cases (ltb (i + 1) pp_rounds)) [
      | inl again ↦ rw again (record {
        ping_phase_at = 3;
        pong_phase_at = 1;
        ping_in = ground (arith, was, t.fit);
        pong_in = t.pong_in ∙ ground (arith, was, t.fit);
        fit = inr (omega arith, omega arith, refl);
        round = refl;
        few = ground (arith, again);
        more = λ n. ground (arith, again);
        counted = ground (arith, t.counted, was, t.fit, at);
      })
      | inr over ↦ rw over (record {
        ping_phase_at = 4;
        pong_phase_at = 1;
        ping_in = ground (arith, was, t.fit);
        pong_in = t.pong_in ∙ ground (arith, was, t.fit);
        fit = inr (omega arith, omega arith, refl);
        round = ground (arith, over, t.more, at, was, t.fit);
        few = ground (arith, t.more, at, was, t.fit);
        more = λ n. absurd (n refl);
        counted = ground (arith, t.counted, was, t.fit, at);
      })
    ]
Step-IsInStep a b {s} {s'} na nb t (pong_waits {sem} me p k k' e here c) =
    let was : pong_phase b waits s.to_pong ≡ t.pong_phase_at =
      ap (λ c. pong_phase b c s.to_pong) (sym e) ∙ t.pong_in in
    let w =
      sem_wait-Waited me b p s.to_pong sem k k' t.pong_phase_at c here nb was
        (ground (arith, t.fit)) in
    record {
      ping_phase_at = t.ping_phase_at;
      pong_phase_at = t.pong_phase_at;
      ping_in = t.ping_in;
      pong_in = Waited-pong_phase b sem p t.pong_phase_at w;
      fit = t.fit;
      round = t.round;
      few = t.few;
      more = t.more;
      counted = t.counted;
    }
Step-IsInStep a b {s} {s'} na nb t (pong_wakes e free) =
    let was : pong_phase b sleeps s.to_pong ≡ t.pong_phase_at =
      ap (λ c. pong_phase b c s.to_pong) (sym e) ∙ t.pong_in in
    record {
      ping_phase_at = t.ping_phase_at;
      pong_phase_at = t.pong_phase_at;
      ping_in = t.ping_in;
      pong_in = ground (arith, was, t.fit, free);
      fit = t.fit;
      round = t.round;
      few = t.few;
      more = t.more;
      counted = t.counted;
    }
Step-IsInStep a b {s} {s'} na nb t (pong_counts e) =
    let was : pong_phase b called s.to_pong ≡ t.pong_phase_at =
      ap (λ c. pong_phase b c s.to_pong) (sym e) ∙ t.pong_in in
    record {
      ping_phase_at = 1;
      pong_phase_at = 3;
      ping_in = t.ping_in ∙ ground (arith, was, t.fit);
      pong_in = ground (arith, was, t.fit);
      fit = inl (refl, omega arith, omega arith);
      round = t.round;
      few = t.few;
      more = λ n. t.more (ground (arith, was, t.fit));
      counted = ground (arith, t.counted, was, t.fit, t.few);
    }
Step-IsInStep a b {s} {s'} na nb t (pong_posts {sem} me k k' e p) =
    let was : pong_phase b posts s.to_pong ≡ t.pong_phase_at =
      ap (λ c. pong_phase b c s.to_pong) (sym e) ∙ t.pong_in in
    record {
      ping_phase_at = 2;
      pong_phase_at = 1;
      ping_in =
          post-ping_phase me a s.ping s.to_ping sem k k' na p
            (t.ping_in ∙ ground (arith, was, t.fit));
      pong_in = ground (arith, was, t.fit);
      fit = inr (omega arith, omega arith, refl);
      round = t.round;
      few = t.few;
      more = λ n. t.more (ground (arith, was, t.fit));
      counted = ground (arith, t.counted, was, t.fit);
    }

Reached-IsInStep : (a b : ℕ) {s : PingPong} → a ≢ 0 → b ≢ 0 → Reached a b s → IsInStep a b s
Reached-IsInStep a b na nb start = start-IsInStep a b
Reached-IsInStep a b na nb (step r q) = Step-IsInStep a b na nb (Reached-IsInStep a b na nb r) q

-- A task that is not in a wait that nobody has answered.
pub data CanMove (a b : ℕ) (s : PingPong) : Type 0 where
  ping_moves : s.ping ≢ stops → ((i : ℕ) → s.ping ≡ sleeps i → s.to_ping.waiter ≢ a) → CanMove a b s
  pong_moves : (s.pong ≡ sleeps → s.to_pong.waiter ≢ b) → CanMove a b s

behind_rounds : (a : ℕ) (ping : Ping) (s : Sem) → ping_phase a ping s ≡ 4 → ping ≡ stops
unfolding ping_phase
behind_rounds a (posts i) s h = absurd (ground (arith, h))
behind_rounds a (waits i) s h = absurd (ground (arith, h))
behind_rounds a (sleeps i) s h = absurd (ground (arith, h))
behind_rounds a (answered i) s h = absurd (ground (arith, h))
behind_rounds a stops s h = refl

ping_free :
    (a b : ℕ) (s : PingPong) (m : ℕ)
    → a ≢ 0
    → ping_phase a s.ping s.to_ping ≡ m
    → 2 ≤ m
    → m < 4
    → CanMove a b s
unfolding ping_phase
ping_free a b s m na h lo hi =
    ping_moves
      (λ e.
        let was : ping_phase a stops s.to_ping ≡ m =
          ap (λ c. ping_phase a c s.to_ping) (sym e) ∙ h in
        ground (arith, was, lo, hi))
      (λ i e w.
        let was : ping_phase a (sleeps i) s.to_ping ≡ m =
          ap (λ c. ping_phase a c s.to_ping) (sym e) ∙ h in
        ground (arith, was, lo, hi, w))

pong_free :
    (a b : ℕ) (s : PingPong) (m : ℕ) → pong_phase b s.pong s.to_pong ≡ m → 2 ≤ m → CanMove a b s
unfolding pong_phase
pong_free a b s m h lo = pong_moves (λ e w.
    let was : pong_phase b sleeps s.to_pong ≡ m = ap (λ c. pong_phase b c s.to_pong) (sym e) ∙ h in
    ground (arith, was, lo, w))

-- In every state that the ping task at `a` and the pong task at `b` reach, whatever the other tasks do
-- to the kernel in between: no round is counted without its pong, and no pong is more than one ahead
-- of the rounds; and either the ping task is behind its 2000 rounds with 2000 pongs counted, or one of
-- the two is not in an unanswered wait, so the two never wait for each other.
pub ping_pong_lem :
    (a b : ℕ) (s : PingPong)
    → a ≢ 0
    → b ≢ 0
    → Reached a b s
    → (s.rounds_done ≤ s.pongs)
      × (s.pongs ≤ s.rounds_done + 1)
      × (((s.ping ≡ stops) × (s.rounds_done ≡ pp_rounds) × (s.pongs ≡ pp_rounds)) ⊎ CanMove a b s)
unfolding round_of
ping_pong_lem a b s na nb r =
    let t = Reached-IsInStep a b na nb r in
    (
      ground (arith, t.counted),
      ground (arith, t.counted),
      elim t.fit [
        | inl (one, lo, hi) ↦ inr (pong_free a b s t.pong_phase_at t.pong_in lo)
        | inr (lo, hi, one) ↦ elim (Bool-cases (t.ping_phase_at == 4)) [
          | inl four ↦
              let over = behind_rounds a s.ping s.to_ping (t.ping_in ∙ ==→eq _ _ four) in
              let all : s.rounds_done ≡ pp_rounds = t.round ∙ ap round_of over in
              inl (over, all, ground (arith, t.counted, all, one, four))
          | inr going ↦
              inr (ping_free a b s t.ping_phase_at na t.ping_in lo (ground (arith, hi, going)))
        ]
      ],
    )
