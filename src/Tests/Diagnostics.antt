-- ===== src/Tests/Diagnostics.antt =====
-- The theorems on the debug hooks, the crash dump and the reports, at concrete states.
use mathlib.Core.List.{reverse}
use aarch64_rtos.Prelude.{ℕ, ◌/◌, ◌^◌, ◌≡◌, ◌>>=◌, refl, arith, some, List, [], ◌∷◌, codes, take}
use aarch64_rtos.Kernel.{Kernel}
use aarch64_rtos.Uart.{uart_puts}
use aarch64_rtos.Debug.{
  SwitchHist, Hook, switch_hist_len, record_switch, before_switch, after_switch, dump_switch_hist,
}
use aarch64_rtos.Debug.History.{Switch, history, print_switches, dump_switch_hist_lem}
use aarch64_rtos.Lines.Report.{hex}
use aarch64_rtos.Debug.First.{TaskNumber}
use aarch64_rtos.Debug.Hooks.{IsWords, record_switch-IsWords, InStack}
use aarch64_rtos.Debug.Checked.{HookEnd, pre_switch_lines, checked_switch_lem}
use aarch64_rtos.Sched.Run.{sched_debug_select_count_for}
use aarch64_rtos.Report.{Counters, busy_pass}
use aarch64_rtos.Report.Laws.{start, passed, busy_task_lem}
use aarch64_rtos.Tests.Fixtures.{demo}
use aarch64_rtos.Tests.Boot.{image}

-- Two switches between the first two workers, the later one first
abbrev switches : List Switch
switches =
    record { site = codes "sem_wait"; prev = image.address 15; next = image.address 14 }
    ∷ record { site = codes "yield"; prev = image.address 14; next = image.address 15 }
    ∷ []

switches-IsWords : IsWords (history image switches)
unfolding history
switches-IsWords =
    record_switch-IsWords image (codes "sem_wait") (image.address 15) (image.address 14) _ (
      record_switch-IsWords image (codes "yield") (image.address 14) (image.address 15) _
        (λ i. (omega arith, omega arith)))

dump_switch_hist_example : dump_switch_hist 0 (history image switches) demo ≡ (
    uart_puts 0 (codes "CORRUPT sp: recent switch history (oldest first)\r\n") demo
    >>= print_switches image 0 (reverse (take switch_hist_len switches)))
dump_switch_hist_example = dump_switch_hist_lem image 0 switches demo

checked_switch_example :
    let h = history image switches in
    let h1 = record_switch image (codes "yield") 1 2 h in
    (before : Hook (SwitchHist × Kernel)) × (after : Hook Kernel) × (id : ℕ) × (before_switch image
        0
        (codes "yield")
        1
        2
        h
        demo
      ≡ some before)
    × (after_switch 0 (codes "yield") 1 demo ≡ some after)
    × TaskNumber image 2 id
    × HookEnd
        (InStack 2 (demo.tcbs 2).sp)
        demo
        (h1, demo)
        (pre_switch_lines (codes "yield") id (demo.tcbs 2).sp h1)
        before
    × HookEnd
        (InStack 1 (demo.tcbs 1).sp)
        demo
        demo
        (hex (codes "yield") (demo.tcbs 1).sp ∷ [])
        after
checked_switch_example =
    checked_switch_lem image 0 (codes "yield") 1 2 (history image switches) demo refl
      switches-IsWords refl (λ t. ground arith)

abbrev counters : Counters
counters = record {
  counter = 0;
  calls = 0;
  dma_irq_count = λ _. 0;
  test_progress = λ _ _. 0;
  pp_rounds_done = 0;
  pp_pongs = 0;
}

busy_task_example :
    (counters.counter ≡ 0)
    × (counters.calls ≡ 0 / 2 ^ 20)
    × ((out : List ℕ) × (busy_pass image 0 counters demo
          ≡ some (passed counters, record demo { uart_out = out })))
unfolding sched_debug_select_count_for
busy_task_example =
    busy_task_lem image 0 0 counters demo (omega arith) (start counters refl refl)
      (record {
        dma = λ c. omega arith;
        progress = λ c i. omega arith;
        rounds = omega arith;
        pongs = omega arith;
      })
      refl
      (record {
        irqs = λ c. ground arith;
        loads = λ t. ground arith;
        selects = λ c t. ground arith;
      })
