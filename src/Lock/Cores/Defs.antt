-- ===== src/Lock/Cores/Defs.antt =====
-- The instructions of `spin_lock`, `spin_unlock` and `selftest_body`, one step of one core each.
use aarch64_rtos.Prelude.{
  ℕ, ◌+◌, ◌%◌, ◌^◌, Bool, true, false, List, [], ◌∷◌, ◌==◌, ltb, ◌&&◌, if◌then◌else◌, update,
}

-- What a core does next. `tmp` is the register of that name, `v` the value just loaded.
pub data Pc : Type 0 where
  plain_test plain_load : Pc
  plain_store : (v : ℕ) → Pc
  locked_test wfe ldaxr : Pc
  cbnz_locked : (tmp : ℕ) → Pc
  stxr : Pc
  cbnz_status : (tmp : ℕ) → Pc
  load : Pc
  store : (v : ℕ) → Pc
  stlr done : Pc

-- A core: its exclusive monitor for the lock, and `i` of the loop that it is in.
pub record Core : Type 0 where
  pub pc : Pc
  pub monitor : Bool
  pub i : ℕ

-- `st_lock.locked`, `st_plain`, `st_locked`, and the cores; `rounds` is `SELFTEST_N`, 200000 in the C
-- code.
pub record Machine : Type 0 where
  pub rounds : ℕ
  pub locked : ℕ
  pub plain : ℕ
  pub counter : ℕ
  pub cores : ℕ → Core

-- A store to the lock by core `a` clears the monitors of the others.
unfoldable pub clear_others : ℕ → (ℕ → Core) → ℕ → Core
clear_others a cores b = if a == b then cores b else record (cores b) { monitor = false }

abbrev goto : ℕ → Pc → Machine → Machine
goto a p m = record m { cores = update m.cores a (record (m.cores a) { pc = p }) }

abbrev restart : ℕ → ℕ → Pc → Machine → Machine
restart a i p m = record m { cores = update m.cores a (record (m.cores a) { pc = p; i = i }) }

abbrev watch : ℕ → Bool → Pc → Machine → Machine
watch a on p m = record m { cores = update m.cores a (record (m.cores a) { pc = p; monitor = on }) }

-- Core `a` executes the instruction `p`. A store-exclusive succeeds only with the monitor set, and
-- may fail all the same: `luck` says whether it does. `wfe` may come back at any time.
unfoldable pub execute : ℕ → Bool → Machine → Pc → Machine
execute a luck m plain_test =
    if ltb (m.cores a).i m.rounds then goto a plain_load m else restart a 0 locked_test m
execute a luck m plain_load = goto a (plain_store m.plain) m
execute a luck m (plain_store v) =
    restart a ((m.cores a).i + 1) plain_test (record m { plain = (v + 1) % 2 ^ 64 })
execute a luck m locked_test = if ltb (m.cores a).i m.rounds then goto a wfe m else goto a done m
execute a luck m wfe = goto a ldaxr m
execute a luck m ldaxr = watch a true (cbnz_locked m.locked) m
execute a luck m (cbnz_locked tmp) = if tmp == 0 then goto a stxr m else goto a wfe m
execute a luck m stxr =
    if luck && (m.cores a).monitor
    then watch a false (cbnz_status 0) (record m { locked = 1; cores = clear_others a m.cores })
    else watch a false (cbnz_status 1) m
execute a luck m (cbnz_status tmp) = if tmp == 0 then goto a load m else goto a ldaxr m
execute a luck m load = goto a (store m.counter) m
execute a luck m (store v) = goto a stlr (record m { counter = (v + 1) % 2 ^ 64 })
execute a luck m stlr =
    restart a ((m.cores a).i + 1) locked_test
      (record m { locked = 0; cores = clear_others a m.cores })
execute a luck m done = m

unfoldable pub step : ℕ → Bool → Machine → Machine
step a luck m = execute a luck m (m.cores a).pc

-- A schedule: which core goes next, and its luck. Every interleaving is one.
unfoldable pub run : List (ℕ × Bool) → Machine → Machine
run [] m = m
run ((a, luck) ∷ rest) m = run rest (step a luck m)

-- `online` cores enter the self-test with the lock free and both counters 0.
unfoldable pub selftest_start : ℕ → ℕ → Machine
selftest_start rounds online = record {
  rounds = rounds;
  locked = 0;
  plain = 0;
  counter = 0;
  cores = λ a. record { pc = (if ltb a online then plain_test else done); monitor = false; i = 0 };
}
