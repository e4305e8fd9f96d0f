-- ===== src/Lock/Cores/Selftest.antt =====
-- The counter that the self-test of kernel/smp.c keeps under the lock.
use aarch64_rtos.Prelude.{
  ℕ, ◌+◌, ◌*◌, ◌^◌, ◌≤◌, ◌<◌, ◌≡◌, ◌≢◌, refl, Bool, List, [], ◌∷◌, arith, update, dec_lt, sym, ◌∙◌,
}
use aarch64_rtos.Lock.Cores.Defs.{
  Pc, plain_test, plain_load, plain_store, locked_test, stlr, done, Core, Machine, clear_others,
  execute, step, run, selftest_start,
}
use aarch64_rtos.Lock.Cores.Sum.{total, total-change, total-le, total-const}
use aarch64_rtos.Lock.Cores.Exclusion.{IsExclusive, step-IsExclusive, selftest_start-IsExclusive}

-- The increments that a core has made.
abbrev counted : Core → ℕ
counted c = elim c.pc [
  | plain_test ↦ 0
  | plain_load ↦ 0
  | plain_store v ↦ 0
  | stlr ↦ c.i + 1
  | _ ↦ c.i
]

-- Where a core is in its loops: past the test of a loop it has a round to do.
abbrev InLoop : ℕ → Core → Type 0
InLoop rounds c = elim c.pc [
  | plain_test ↦ c.i ≤ rounds
  | plain_load ↦ c.i < rounds
  | plain_store v ↦ c.i < rounds
  | locked_test ↦ c.i ≤ rounds
  | done ↦ c.i ≤ rounds
  | _ ↦ c.i < rounds
]

record IsCounting (n : ℕ) (m : Machine) : Type 0 where
  exclusive : IsExclusive m
  sum : m.counter ≡ total counted n m.cores
  in_loop : (a : ℕ) → InLoop m.rounds (m.cores a)
  idle : (a : ℕ) → n ≤ a → (m.cores a).pc ≡ done
  ended : (a : ℕ) → a < n → (m.cores a).pc ≡ done → (m.cores a).i ≡ m.rounds
  small : n * m.rounds < 2 ^ 64

counted-le : (rounds : ℕ) (c : Core) → InLoop rounds c → counted c ≤ rounds
counted-le rounds c h = ground arith

module _ (n a : ℕ) (luck : Bool) (m : Machine) (x : IsCounting n m) where
  execute-elsewhere :
      (p : Pc) (b : ℕ) → b ≢ a → counted (m.cores b) ≡ counted ((execute a luck m p).cores b)
  unfolding execute clear_others update
  execute-elsewhere p b ne = ground arith

  execute-InLoop :
      (p : Pc)
      → (m.cores a).pc ≡ p
      → (b : ℕ) → InLoop (execute a luck m p).rounds ((execute a luck m p).cores b)
  unfolding execute clear_others update
  execute-InLoop p e b = ground (arith, x.in_loop b)

  execute-idle :
      (p : Pc) → (m.cores a).pc ≡ p → (b : ℕ) → n ≤ b → ((execute a luck m p).cores b).pc ≡ done
  unfolding execute clear_others update
  execute-idle p e b le = ground (arith, x.idle b)

  execute-ended :
      (p : Pc)
      → (m.cores a).pc ≡ p
      → let m' = execute a luck m p in
        (b : ℕ) → b < n → (m'.cores b).pc ≡ done → (m'.cores b).i ≡ m'.rounds
  unfolding execute clear_others update
  execute-ended p e b lt q = ground (arith, x.ended b, x.in_loop b)

  -- The counter follows the sum, as long as that does not wrap.
  execute-counter :
      (p : Pc)
      → (m.cores a).pc ≡ p
      → let m' = execute a luck m p in
        (sum' : ℕ)
        → sum' + counted (m.cores a) ≡ m.counter + counted (m'.cores a)
        → sum' < 2 ^ 64
        → m'.counter ≡ sum'
  unfolding execute clear_others update
  execute-counter p e sum' change fits = ground (arith, x.exclusive.knows a)

  execute-rounds : (p : Pc) → (execute a luck m p).rounds ≡ m.rounds
  unfolding execute
  execute-rounds p = ground arith

  execute-sum :
      (p : Pc)
      → (m.cores a).pc ≡ p
      → let m' = execute a luck m p in m'.counter ≡ total counted n m'.cores
  unfolding execute
  execute-sum p e = elim (dec_lt a n) [
    | yes lt ↦
        let m' : Machine = execute a luck m p in
        let change = total-change counted n m.cores m'.cores a lt (execute-elsewhere p) in
        let bound =
          total-le counted m'.rounds n m'.cores
            (λ b. counted-le m'.rounds (m'.cores b) (execute-InLoop p e b)) in
        let same = execute-rounds p in
        execute-counter p e (total counted n m'.cores) (omega (arith, change, x.sum))
          (omega (arith, rw same at bound, x.small))
    | no ge ↦ let stopped : done ≡ p = sym (x.idle a (omega arith)) ∙ e in rw (← stopped) x.sum
  ]

  step-IsCounting : IsCounting n (step a luck m)
  unfolding step
  step-IsCounting = record {
    exclusive = step-IsExclusive a luck m x.exclusive;
    sum = execute-sum (m.cores a).pc refl;
    in_loop = execute-InLoop (m.cores a).pc refl;
    idle = execute-idle (m.cores a).pc refl;
    ended = execute-ended (m.cores a).pc refl;
    small = rw (execute-rounds (m.cores a).pc) x.small;
  }

run-IsCounting :
    (n : ℕ) (schedule : List (ℕ × Bool)) (m : Machine)
    → IsCounting n m
    → IsCounting n (run schedule m) × ((run schedule m).rounds ≡ m.rounds)
unfolding run step
run-IsCounting n [] m x = (x, refl)
run-IsCounting n ((a, luck) ∷ rest) m x =
    let (y, r) = run-IsCounting n rest (step a luck m) (step-IsCounting n a luck m x) in
    (y, r ∙ execute-rounds n a luck m x (m.cores a).pc)

selftest_start-IsCounting :
    (rounds online : ℕ)
    → online * rounds < 2 ^ 64
    → IsCounting online (selftest_start rounds online)
unfolding selftest_start
selftest_start-IsCounting rounds online small = record {
  exclusive = selftest_start-IsExclusive rounds online;
  sum = omega (
    arith,
    total-const counted 0 online (selftest_start rounds online).cores (λ a lt. ground arith),
  );
  in_loop = λ a. ground arith;
  idle = λ a le. ground arith;
  ended = λ a lt e. ground arith;
  small = small;
}

-- Any number of cores run the self-test, in any interleaving of their instructions and with any
-- failures of the store-exclusives: once they have all finished, the counter kept under the lock is
-- the number of cores times the number of rounds, if that fits 64 bits: `LOCK_OK` is 1.
pub selftest_counter :
    (rounds online : ℕ) (schedule : List (ℕ × Bool))
    → online * rounds < 2 ^ 64
    → ((a : ℕ) → a < online → ((run schedule (selftest_start rounds online)).cores a).pc ≡ done)
    → (run schedule (selftest_start rounds online)).counter ≡ online * rounds
unfolding selftest_start
selftest_counter rounds online schedule small ended =
    let m : Machine = run schedule (selftest_start rounds online) in
    let (x, r) =
      run-IsCounting online schedule (selftest_start rounds online)
        (selftest_start-IsCounting rounds online small) in
    x.sum
    ∙ total-const counted rounds online m.cores
        (λ a lt. ground (arith, ended a lt, x.ended a lt, r))
