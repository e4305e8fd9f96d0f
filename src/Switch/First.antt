-- ===== src/Switch/First.antt =====
-- The first activation of a task: `task_init` of kernel/task.c and `switch_to` of kernel/switch.S.
use aarch64_rtos.Prelude.{
  ℕ, ◌+◌, ◌-◌, ◌*◌, ◌%◌, ◌^◌, ◌≤◌, ◌<◌, ◌≡◌, ◌≢◌, ◌⊎◌, ap, ◌∙◌, arith, ◌==◌, if◌then◌else◌,
}
use aarch64_rtos.Kernel.{Tcb}
use aarch64_rtos.Task.{stack_words, stack_address, word_at, IsFirstFrame, task_init, task_init_lem}
use aarch64_rtos.Switch.{Cpu, switch_to}
use aarch64_rtos.Switch.Round.{IsFrame, Outside, switch_to-restores}

-- The core as a task first finds it.
abbrev fresh : ℕ → Cpu
fresh trampoline = record {
  x = λ i. if i == 30 then trampoline else 0;
  sp = 0;
  daif = 0;
  mem = λ _. 0;
}

first-IsFrame :
    (trampoline t entry : ℕ) (tcb : Tcb) (mem : ℕ → ℕ)
    → IsFirstFrame trampoline t entry tcb
    → ((i : ℕ) → i < stack_words → mem (stack_address t i) ≡ tcb.stack i)
    → IsFrame tcb.sp (fresh trampoline) mem
first-IsFrame trampoline t entry tcb mem f same = record {
  daif = daif_word;
  fp_lr = (zero_at 2 (omega arith) (omega arith), at 3 (omega arith) ∙ f.link);
  x27_28 = (zero_at 4 (omega arith) (omega arith), zero_at 5 (omega arith) (omega arith));
  x25_26 = (zero_at 6 (omega arith) (omega arith), zero_at 7 (omega arith) (omega arith));
  x23_24 = (zero_at 8 (omega arith) (omega arith), zero_at 9 (omega arith) (omega arith));
  x21_22 = (zero_at 10 (omega arith) (omega arith), zero_at 11 (omega arith) (omega arith));
  x19_20 = (zero_at 12 (omega arith) (omega arith), zero_at 13 (omega arith) (omega arith));
}
  where
    at : (i : ℕ) → i < 14 → mem (tcb.sp + 8 * i) ≡ tcb.stack (word_at t tcb.sp + i)
    at i lt =
        let place : tcb.sp + 8 * i ≡ stack_address t (word_at t tcb.sp + i) =
          omega (arith, f.inside) in
        ap mem place ∙ same (word_at t tcb.sp + i) (omega (arith, f.inside))

    zero_at : (i : ℕ) → i < 14 → i ≢ 3 → mem (tcb.sp + 8 * i) ≡ 0
    zero_at i lt ne = at i lt ∙ f.zeros i lt ne

    daif_word : mem tcb.sp ≡ 0
    daif_word =
        let place : tcb.sp ≡ stack_address t (word_at t tcb.sp) = omega (arith, f.inside) in
        ap mem place ∙ same (word_at t tcb.sp) (omega (arith, f.inside)) ∙ f.unmasked

-- A core that switches to a task whose block `task_init` has set up, and that is not touched since,
-- returns to the trampoline, with the IRQ unmasked, x19 to x29 zero, and a stack pointer that is
-- aligned to 16 bytes, at the canary on top of the task's stack. The block lies at an address aligned
-- to 16 bytes, and the core's own frame and the word that it stores its stack pointer in lie outside
-- the task's frame.
pub first_switch :
    (trampoline t entry : ℕ) (tcb : Tcb) (d : Cpu)
    → t % 16 ≡ 0
    → t + 4104 < 2 ^ 64
    → 112 ≤ d.sp
    → d.sp < 2 ^ 64
    → let made = task_init trampoline t entry tcb in
      d.x 1 ≡ made.sp
      → Outside made.sp (d.x 0)
      → (d.sp ≤ made.sp) ⊎ (made.sp + 112 ≤ d.sp - 112)
      → ((i : ℕ) → i < stack_words → d.mem (stack_address t i) ≡ made.stack i)
      → let r = switch_to d in
        (r.x 30 ≡ trampoline)
        × (r.daif ≡ 0)
        × ((i : ℕ) → 19 ≤ i → i ≤ 29 → r.x i ≡ 0)
        × (r.sp ≡ stack_address t (stack_words - 1))
        × (r.sp % 16 ≡ 0)
first_switch trampoline t entry tcb d aligned top lo hi new out apart same =
    let made : Tcb = task_init trampoline t entry tcb in
    let f = task_init_lem trampoline t entry tcb aligned in
    let frame = first-IsFrame trampoline t entry made d.mem f same in
    let (kept, sp, daif) =
      switch_to-restores made.sp (fresh trampoline) d lo hi (omega (arith, f.inside)) new out apart
        frame in
    let at_top : (switch_to d).sp ≡ stack_address t (stack_words - 1) = sp ∙ f.inside.1 in
    (
      kept 30 (omega arith) (omega arith),
      daif,
      λ i a b. kept i a (omega arith) ∙ ground arith,
      at_top,
      omega (arith, at_top, aligned),
    )
