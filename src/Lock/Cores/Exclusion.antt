-- ===== src/Lock/Cores/Exclusion.antt =====
-- Which cores are between `spin_lock` and the end of `spin_unlock` (kernel/spinlock.h).
use aarch64_rtos.Prelude.{ℕ, ◌≡◌, refl, Bool, true, false, List, [], ◌∷◌, ◌==◌, update, arith}
use aarch64_rtos.Lock.Cores.Defs.{
  Pc, cbnz_locked, stxr, cbnz_status, load, store, stlr, Machine, clear_others, execute, step, run,
  selftest_start,
}

-- The core has taken the lock and not yet given it back.
abbrev pub is_inside : Pc → Bool
is_inside (cbnz_status tmp) = tmp == 0
is_inside load = true
is_inside (store v) = true
is_inside stlr = true
is_inside _ = false

-- What a core knows of the lock while its monitor is set, and of the counter.
abbrev pub Knows : ℕ → ℕ → Bool → Pc → Type 0
Knows locked counter monitor (cbnz_locked tmp) = monitor ≡ true → tmp ≡ locked
Knows locked counter monitor stxr = monitor ≡ true → locked ≡ 0
Knows locked counter monitor (store v) = v ≡ counter
Knows locked counter monitor _ = Unit

pub record IsExclusive (m : Machine) : Type 0 where
  pub one : (a b : ℕ) → is_inside (m.cores a).pc ≡ true → is_inside (m.cores b).pc ≡ true → a ≡ b
  pub held : (a : ℕ) → is_inside (m.cores a).pc ≡ true → m.locked ≡ 1
  pub knows : (a : ℕ) → Knows m.locked m.counter (m.cores a).monitor (m.cores a).pc

module _ (a : ℕ) (luck : Bool) (m : Machine) (x : IsExclusive m) where
  execute-one :
      (p : Pc)
      → (m.cores a).pc ≡ p
      → let m' = execute a luck m p in
        (b c : ℕ) → is_inside (m'.cores b).pc ≡ true → is_inside (m'.cores c).pc ≡ true → b ≡ c
  unfolding execute clear_others update
  execute-one stxr e b c hb hc = ground (arith, x.one b c, x.held b, x.held c, x.knows a)
  execute-one p e b c hb hc = ground (arith, x.one b c)

  execute-held :
      (p : Pc)
      → (m.cores a).pc ≡ p
      → let m' = execute a luck m p in (b : ℕ) → is_inside (m'.cores b).pc ≡ true → m'.locked ≡ 1
  unfolding execute clear_others update
  execute-held p e b hb = ground (arith, x.one a b, x.held b)

  execute-Knows :
      (p : Pc)
      → (m.cores a).pc ≡ p
      → let m' = execute a luck m p in
        (b : ℕ) → Knows m'.locked m'.counter (m'.cores b).monitor (m'.cores b).pc
  unfolding execute clear_others update
  execute-Knows p e b = ground (arith, x.knows b, x.one a b)

  pub step-IsExclusive : IsExclusive (step a luck m)
  unfolding step
  step-IsExclusive = record {
    one = execute-one (m.cores a).pc refl;
    held = execute-held (m.cores a).pc refl;
    knows = execute-Knows (m.cores a).pc refl;
  }

pub selftest_start-IsExclusive : (rounds online : ℕ) → IsExclusive (selftest_start rounds online)
unfolding selftest_start
selftest_start-IsExclusive rounds online = record {
  one = λ a b ha hb. ground arith;
  held = λ a ha. ground arith;
  knows = λ a. ground arith;
}

run-IsExclusive :
    (schedule : List (ℕ × Bool)) (m : Machine) → IsExclusive m → IsExclusive (run schedule m)
unfolding run
run-IsExclusive [] m x = x
run-IsExclusive ((a, luck) ∷ rest) m x =
    run-IsExclusive rest (step a luck m) (step-IsExclusive a luck m x)

-- Any number of cores run the self-test, in any interleaving of their instructions and with any
-- failures of the store-exclusives: two cores that are inside, between a `spin_lock` that has
-- succeeded and the end of its `spin_unlock`, are the same core.
pub spin_lock_exclusion :
    (rounds online : ℕ) (schedule : List (ℕ × Bool)) (a b : ℕ)
    → is_inside ((run schedule (selftest_start rounds online)).cores a).pc ≡ true
    → is_inside ((run schedule (selftest_start rounds online)).cores b).pc ≡ true
    → a ≡ b
spin_lock_exclusion rounds online schedule =
    (run-IsExclusive schedule _ (selftest_start-IsExclusive rounds online)).one
