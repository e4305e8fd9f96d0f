-- ===== src/Sched/Scan/First.antt =====
-- The round-robin search of kernel/sched.c.
use native.Mathlib.Nat.{mod-eq_of_lt}
use aarch64_rtos.Prelude.{
  ℕ, zero, suc, ◌+◌, ◌-◌, ◌%◌, ◌≤◌, ◌<◌, ◌≡◌, true, false, none, some, arith, dec_lt, Bool-cases,
  inl, inr, ℕ_discrete, ap, ◌∙◌,
}
use aarch64_rtos.Kernel.{Tcb}
use aarch64_rtos.Sched.Scan.{slot, is_ready, next_ready}

mod_wrap : (x n : ℕ) → x < n → (x + n) % n ≡ x
mod_wrap x n h = grind arith

-- Every slot of the queue is looked at in one of the rounds 1 … num.
pub slot_cover :
    (num cur idx : ℕ)
    → cur < num
    → idx < num
    → (j : ℕ) × (1 ≤ j) × (j ≤ num) × (slot num cur j ≡ idx)
slot_cover num cur idx hc hi = elim (dec_lt cur idx) [
  | yes p ↦ (
    idx - cur,
    omega arith,
    omega arith,
    let e : cur + (idx - cur) ≡ idx = omega arith in ap (λ k. k % num) e ∙ mod-eq_of_lt hi,
  )
  | no p ↦ (
    idx + num - cur,
    omega arith,
    omega arith,
    let e : cur + (idx + num - cur) ≡ idx + num = omega arith in
        ap (λ k. k % num) e ∙ mod_wrap idx num hi,
  )
]

module _ (tcbs : ℕ → Tcb) (tasks : ℕ → ℕ) (num cur : ℕ) where
  -- No slot of the rounds `lo … hi - 1` is READY.
  abbrev pub NoneReady : ℕ → ℕ → Type 0
  NoneReady lo hi = (m : ℕ) → lo ≤ m → m < hi → is_ready tcbs tasks (slot num cur m) ≡ false

  -- `idx` is the READY slot of the earliest of these rounds that has one.
  pub record FirstReady (lo hi idx : ℕ) : Type 0 where
    pub round : ℕ
    pub from : lo ≤ round
    pub before : round < hi
    pub here : slot num cur round ≡ idx
    pub found : is_ready tcbs tasks idx ≡ true
    pub first : NoneReady lo round

  none_at :
      (rounds i m : ℕ)
      → next_ready tcbs tasks num cur rounds i ≡ none
      → i ≤ m
      → m < i + rounds
      → is_ready tcbs tasks (slot num cur m) ≡ false
  unfolding next_ready
  none_at zero i m e a b = absurd (omega arith)
  none_at (suc rounds) i m e a b = elim (ℕ_discrete i m) [
    | yes q ↦ rw (← q) (ground arith)
    | no q ↦ ground (arith, none_at rounds (i + 1) m)
  ]

  pub next_ready-none :
      (rounds i : ℕ) → next_ready tcbs tasks num cur rounds i ≡ none → NoneReady i (i + rounds)
  next_ready-none rounds i e m = none_at rounds i m e

  pub next_ready-some :
      (rounds i idx : ℕ)
      → next_ready tcbs tasks num cur rounds i ≡ some idx
      → FirstReady i (i + rounds) idx
  unfolding next_ready
  next_ready-some zero i idx e = cc
  next_ready-some (suc rounds) i idx e = elim (Bool-cases (is_ready tcbs tasks (slot num cur i))) [
    | inl r ↦ record {
      round = i;
      from = omega arith;
      before = omega arith;
      here = ground arith;
      found = ground arith;
      first = λ m a b. absurd (omega arith);
    }
    | inr r ↦
        let f = next_ready-some rounds (i + 1) idx (ground arith) in
        record {
          round = f.round;
          from = omega arith;
          before = omega arith;
          here = f.here;
          found = f.found;
          first = λ m a b. elim (ℕ_discrete i m) [
            | yes q ↦ rw (← q) r
            | no q ↦ f.first m (omega arith) b
          ];
        }
  ]
