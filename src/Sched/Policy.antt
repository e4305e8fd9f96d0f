-- ===== src/Sched/Policy.antt =====
-- The scheduling policies of kernel/sched.c: which task runs next, and what a tick does to the load
-- estimate of the running one.
pub mod Choice
pub mod Ties
pub mod Ewma
use aarch64_rtos.Prelude.{ℕ, ◌+◌, ◌-◌, ◌*◌, ◌/◌, ◌%◌, ◌^◌, Option, none, some, update}
use aarch64_rtos.Kernel.{Tcb, Runqueue}
use aarch64_rtos.Sched.Scan.{next_ready, lightest, find_slot}

-- `rq->current_idx = idx; rq->select_count[idx]++; return rq->tasks[idx];`
abbrev pub take_slot : ℕ → Runqueue → ℕ × Runqueue
take_slot idx rq = (
  rq.tasks idx,
  record rq {
    current_idx = idx;
    select_count = update rq.select_count idx ((rq.select_count idx + 1) % 2 ^ 64);
  },
)

-- "Nobody else runnable - staying on current": `current_idx` is set to the slot of `current`.
unfoldable pub resync : ℕ → Runqueue → Runqueue
resync curr rq = elim (find_slot rq.tasks curr rq.num_tasks 0) [
  | some i ↦ record rq { current_idx = i }
  | none ↦ rq
]

unfoldable pub roundrobin_select_next : (ℕ → Tcb) → ℕ → Runqueue → ℕ × Runqueue
roundrobin_select_next tcbs curr rq =
    elim (next_ready tcbs rq.tasks rq.num_tasks rq.current_idx rq.num_tasks 1) [
      | some idx ↦ take_slot idx rq
      | none ↦ (curr, resync curr rq)
    ]

unfoldable pub load_aware_select_next : (ℕ → Tcb) → ℕ → Runqueue → ℕ × Runqueue
load_aware_select_next tcbs curr rq =
    elim (lightest tcbs rq.tasks rq.num_tasks rq.current_idx rq.num_tasks 1 none) [
      | some idx ↦ take_slot idx rq
      | none ↦ (curr, resync curr rq)
    ]

abbrev pub ewma_alpha_num : ℕ
ewma_alpha_num = 3

abbrev pub ewma_alpha_den : ℕ
ewma_alpha_den = 10

abbrev pub ewma_scale : ℕ
ewma_scale = 1000

-- The new `ewma_load`, in `unsigned int` arithmetic.
unfoldable pub ewma : ℕ → ℕ
ewma load =
    (ewma_alpha_num * ewma_scale + (ewma_alpha_den - ewma_alpha_num) * load)
    % 2 ^ 32
    / ewma_alpha_den

unfoldable pub ewma_on_tick : Tcb → Tcb
ewma_on_tick cur = record cur { ewma_load = ewma cur.ewma_load }

-- `sched_policy_t`; a null `on_tick` is `none`.
pub record SchedPolicy : Type 0 where
  pub select_next : (ℕ → Tcb) → ℕ → Runqueue → ℕ × Runqueue
  pub on_tick : Option (Tcb → Tcb)

abbrev pub policy_roundrobin : SchedPolicy
policy_roundrobin = record { select_next = roundrobin_select_next; on_tick = none }

abbrev pub policy_ewma : SchedPolicy
policy_ewma = record { select_next = roundrobin_select_next; on_tick = some ewma_on_tick }

abbrev pub policy_load_aware : SchedPolicy
policy_load_aware = record { select_next = load_aware_select_next; on_tick = some ewma_on_tick }

abbrev pub active_policy : SchedPolicy
active_policy = policy_load_aware
