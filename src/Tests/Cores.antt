-- ===== src/Tests/Cores.antt =====
-- The spinlock's self-test on two cores with one round each.
use aarch64_rtos.Prelude.{
  ℕ, zero, suc, ◌*◌, ◌<◌, ◌≡◌, refl, arith, Bool, true, List, [], ◌∷◌, ◌++◌, update,
}
use aarch64_rtos.Lock.Cores.Defs.{done, Machine, clear_others, execute, step, run, selftest_start}
use aarch64_rtos.Lock.Cores.Exclusion.{is_inside, spin_lock_exclusion}
use aarch64_rtos.Lock.Cores.Selftest.{selftest_counter}

-- Both cores count without the lock, in turns.
abbrev plain_rounds : List (ℕ × Bool)
plain_rounds =
    (0, true)
    ∷ (1, true)
    ∷ (0, true)
    ∷ (1, true)
    ∷ (0, true)
    ∷ (1, true)
    ∷ (0, true)
    ∷ (1, true)
    ∷ []

-- Both cores read the lock as free; core 0 is the first to store.
abbrev contention : List (ℕ × Bool)
contention =
    (0, true)
    ∷ (1, true)
    ∷ (0, true)
    ∷ (1, true)
    ∷ (0, true)
    ∷ (1, true)
    ∷ (0, true)
    ∷ (1, true)
    ∷ (0, true)
    ∷ (1, true)
    ∷ (0, true)
    ∷ (1, true)
    ∷ []

-- Core `a` goes `n` steps.
goes : ℕ → ℕ → List (ℕ × Bool)
goes zero a = []
goes (suc n) a = (a, true) ∷ goes n a

abbrev whole : List (ℕ × Bool)
whole = plain_rounds ++ contention ++ goes 6 0 ++ goes 12 1

abbrev two_cores : Machine
two_cores = selftest_start 1 2

lost_update : (run whole two_cores).plain ≡ 1
unfolding run step execute selftest_start clear_others update goes
lost_update = refl

two_cores-done : (a : ℕ) → a < 2 → ((run whole two_cores).cores a).pc ≡ done
unfolding run step execute selftest_start clear_others update goes
two_cores-done zero lt = refl
two_cores-done (suc zero) lt = refl
two_cores-done (suc (suc a)) lt = absurd (omega arith)

selftest_counter_example : (run whole two_cores).counter ≡ 1 * 2
selftest_counter_example = selftest_counter 1 2 whole (omega arith) two_cores-done

-- After the contention core 0 is inside.
abbrev inside_0 : Machine
inside_0 = run (plain_rounds ++ contention) two_cores

abbrev winner : ℕ
winner = 0

core_0-inside : is_inside (inside_0.cores winner).pc ≡ true
unfolding run step execute selftest_start clear_others update
core_0-inside = refl

spin_lock_exclusion_example : winner ≡ winner
spin_lock_exclusion_example =
    spin_lock_exclusion 1 2 (plain_rounds ++ contention) winner winner core_0-inside core_0-inside
