-- ===== src/Sched/Scan.antt =====
-- The loops of kernel/sched.c over one run queue, given by its fields: the search for the next READY
-- task, for the lightest READY task, and for a task by its pointer.
pub mod First
pub mod Lightest
pub mod Find
use aarch64_rtos.Prelude.{
  ℕ, zero, suc, ◌+◌, ◌%◌, Bool, true, Option, none, some, ◌==◌, ltb, if◌then◌else◌,
}
use aarch64_rtos.Kernel.{Tcb, ready}

-- The slot that round `i` looks at: `(rq->current_idx + i) % rq->num_tasks`.
abbrev pub slot : ℕ → ℕ → ℕ → ℕ
slot num cur i = (cur + i) % num

module _ (tcbs : ℕ → Tcb) (tasks : ℕ → ℕ) where
  abbrev pub is_ready : ℕ → Bool
  is_ready idx = (tcbs (tasks idx)).state == ready

  -- `for (i = 1; i <= num_tasks; i++)` of `roundrobin_select_next`, with `rounds` rounds left.
  unfoldable pub next_ready : ℕ → ℕ → ℕ → ℕ → Option ℕ
  next_ready num cur zero i = none
  next_ready num cur (suc rounds) i =
      let rest = next_ready num cur rounds (i + 1) in
      if is_ready (slot num cur i) then some (slot num cur i) else rest

  -- `best == 0 || tasks[idx]->ewma_load < best->ewma_load`, with the slot of `best`
  abbrev pub is_lighter : ℕ → Option ℕ → Bool
  is_lighter idx none = true
  is_lighter idx (some b) = ltb (tcbs (tasks idx)).ewma_load (tcbs (tasks b)).ewma_load

  abbrev pub better : ℕ → Option ℕ → Option ℕ
  better idx best = if is_ready idx then if is_lighter idx best then some idx else best else best

  -- The first loop of `load_aware_select_next`; `best` is the slot `best_idx`, once there is one.
  unfoldable pub lightest : ℕ → ℕ → ℕ → ℕ → Option ℕ → Option ℕ
  lightest num cur zero i best = best
  lightest num cur (suc rounds) i best =
      lightest num cur rounds (i + 1) (better (slot num cur i) best)

-- `for (i = 0; i < num_tasks; i++) if (tasks[i] == t) …; break;`: the first slot that holds `t`.
unfoldable pub find_slot : (ℕ → ℕ) → ℕ → ℕ → ℕ → Option ℕ
find_slot tasks t zero i = none
find_slot tasks t (suc rounds) i =
    let rest = find_slot tasks t rounds (i + 1) in if tasks i == t then some i else rest
