-- ===== src/Sched/Scan/Lightest.antt =====
-- The load-aware search of kernel/sched.c.
use aarch64_rtos.Prelude.{
  ℕ, zero, suc, ◌+◌, ◌≤◌, ◌<◌, ◌≡◌, true, false, Option, none, some, arith, ltb, ltb→lt, refl,
  Bool-cases, inl, inr, ℕ_discrete,
}
use aarch64_rtos.Kernel.{Tcb}
use aarch64_rtos.Sched.Scan.{slot, is_ready, better, lightest}

-- A statement of the rounds before `i`, and of round `i`.
extend :
    (P : ℕ → Type 0) (lo i : ℕ)
    → ((m : ℕ) → lo ≤ m → m < i → P m)
    → P i
    → (m : ℕ) → lo ≤ m
    → m < i + 1
    → P m
extend P lo i old new m a b = elim (ℕ_discrete i m) [
  | yes q ↦ rw (← q) new
  | no q ↦ old m a (omega arith)
]

module _ (tcbs : ℕ → Tcb) (tasks : ℕ → ℕ) (num cur : ℕ) where
  abbrev pub load : ℕ → ℕ
  load idx = (tcbs (tasks idx)).ewma_load

  -- `idx` is READY, no READY slot of the rounds `lo … hi - 1` has a smaller load, and those of the
  -- earlier rounds have a greater one.
  pub record Lightest (lo hi idx : ℕ) : Type 0 where
    pub round : ℕ
    pub from : lo ≤ round
    pub before : round < hi
    pub here : slot num cur round ≡ idx
    pub found : is_ready tcbs tasks idx ≡ true
    pub least :
        (m : ℕ)
        → lo ≤ m
        → m < hi
        → is_ready tcbs tasks (slot num cur m) ≡ true
        → load idx ≤ load (slot num cur m)
    pub first :
        (m : ℕ)
        → lo ≤ m
        → m < round
        → is_ready tcbs tasks (slot num cur m) ≡ true
        → load idx < load (slot num cur m)

  abbrev pub Seen : ℕ → ℕ → Option ℕ → Type 0
  Seen lo hi none = (m : ℕ) → lo ≤ m → m < hi → is_ready tcbs tasks (slot num cur m) ≡ false
  Seen lo hi (some idx) = Lightest lo hi idx

  -- The slot of round `i` is READY, and lighter than what was READY before.
  Lightest-new :
      (lo i : ℕ)
      → lo ≤ i
      → is_ready tcbs tasks (slot num cur i) ≡ true
      → ((m : ℕ)
          → lo ≤ m
          → m < i
          → is_ready tcbs tasks (slot num cur m) ≡ true
          → load (slot num cur i) < load (slot num cur m))
      → Lightest lo (i + 1) (slot num cur i)
  Lightest-new lo i le r old = record {
    round = i;
    from = le;
    before = omega arith;
    here = refl;
    found = r;
    least =
        extend
          (λ m.
            is_ready tcbs tasks (slot num cur m) ≡ true
            → load (slot num cur i) ≤ load (slot num cur m))
          lo i (λ m a b q. omega (arith, old m a b q)) (λ q. omega arith);
    first = old;
  }

  -- The slot of round `i` is not READY, or not lighter.
  Lightest-old :
      (lo i b : ℕ)
      → (is_ready tcbs tasks (slot num cur i) ≡ true → load b ≤ load (slot num cur i))
      → Lightest lo i b
      → Lightest lo (i + 1) b
  Lightest-old lo i b h s = record {
    round = s.round;
    from = s.from;
    before = omega arith;
    here = s.here;
    found = s.found;
    least =
        extend (λ m. is_ready tcbs tasks (slot num cur m) ≡ true → load b ≤ load (slot num cur m))
          lo i s.least h;
    first = s.first;
  }

  -- One round of the loop.
  Seen-better :
      (lo i : ℕ) (best : Option ℕ)
      → lo ≤ i
      → Seen lo i best
      → Seen lo (i + 1) (better tcbs tasks (slot num cur i) best)
  Seen-better lo i none le s = elim (Bool-cases (is_ready tcbs tasks (slot num cur i))) [
    | inl r ↦ rw r (Lightest-new lo i le r (λ m a b q. cc (s m a b)))
    | inr r ↦ rw r (extend (λ m. is_ready tcbs tasks (slot num cur m) ≡ false) lo i s r)
  ]
  Seen-better lo i (some b) le s = elim (Bool-cases (is_ready tcbs tasks (slot num cur i))) [
    | inl r ↦ elim (Bool-cases (ltb (load (slot num cur i)) (load b))) [
      | inl l ↦
          rw (r, l)
            (Lightest-new lo i le r (λ m a c q.
              omega (arith, s.least m a c q, ltb→lt (load (slot num cur i)) (load b) l)))
      | inr l ↦ rw (r, l) (Lightest-old lo i b (λ q. ground arith) s)
    ]
    | inr r ↦ rw r (Lightest-old lo i b (λ q. cc) s)
  ]

  pub lightest-Seen :
      (lo rounds i hi : ℕ) (best : Option ℕ)
      → lo ≤ i
      → i + rounds ≡ hi
      → Seen lo i best
      → Seen lo hi (lightest tcbs tasks num cur rounds i best)
  unfolding lightest
  lightest-Seen lo zero i hi best le e s = let e' : i ≡ hi = omega arith in rw (← e') s
  lightest-Seen lo (suc rounds) i hi best le e s =
      lightest-Seen lo rounds (i + 1) hi _ (omega arith) (omega arith) (Seen-better lo i best le s)
