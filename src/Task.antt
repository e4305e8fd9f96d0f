-- ===== src/Task.antt =====
-- `task_init` of kernel/task.c. The task block stands at the address `t`; its stack's words follow
-- the saved stack pointer (kernel/tcb.h).
use aarch64_rtos.Prelude.{
  ℕ, zero, suc, ◌+◌, ◌-◌, ◌*◌, ◌/◌, ◌%◌, ◌<◌, ◌≡◌, ◌≢◌, arith, ltb, if◌then◌else◌, update, refl,
}
use aarch64_rtos.Kernel.{Tcb}

abbrev pub canary : ℕ
canary = 0xC0FFEEDEADBEEF

abbrev pub stack_words : ℕ
stack_words = 512

-- `&t->stack[i]`, and the word at an address inside the stack
abbrev pub stack_address : ℕ → ℕ → ℕ
stack_address t i = t + 8 + 8 * i

abbrev pub word_at : ℕ → ℕ → ℕ
word_at t address = (address - (t + 8)) / 8

-- `for (i = 0; i < 14; i++) sp[i] = 0;`, with `rounds` rounds left, on the word `w` and those after it
unfoldable pub clear_words : ℕ → ℕ → (ℕ → ℕ) → ℕ → ℕ
clear_words zero w stack = stack
clear_words (suc rounds) w stack = clear_words rounds (w + 1) (update stack w 0)

-- `trampoline` is the address of `task_trampoline`.
unfoldable pub task_init : ℕ → ℕ → ℕ → Tcb → Tcb
task_init trampoline t entry tcb =
    let stack1 = update (update tcb.stack 0 canary) (stack_words - 1) canary in
    let sp = stack_address t (stack_words - 1) - 112 in
    let w = word_at t sp in
    let stack2 = clear_words 14 w stack1 in
    let stack3 = update (update stack2 w 0) (w + 3) trampoline in
    record tcb { entry = entry; stack = stack3; sp = sp }

clear_words-at :
    (rounds w : ℕ) (stack : ℕ → ℕ) (j : ℕ)
    → clear_words rounds w stack j
      ≡ (if ltb j w then stack j else if ltb j (w + rounds) then 0 else stack j)
unfolding clear_words update
clear_words-at zero w stack j = ground arith
clear_words-at (suc rounds) w stack j =
    ground (arith, clear_words-at rounds (w + 1) (update stack w 0) j)

-- The frame that `switch_to` restores from at a task's first activation.
pub record IsFirstFrame (trampoline t entry : ℕ) (tcb : Tcb) : Type 0 where
  pub aligned : tcb.sp % 16 ≡ 0
  pub inside : (stack_address t 0 < tcb.sp) × (tcb.sp + 112 ≡ stack_address t (stack_words - 1))
  pub unmasked : tcb.stack (word_at t tcb.sp) ≡ 0
  pub link : tcb.stack (word_at t tcb.sp + 3) ≡ trampoline
  pub zeros : (i : ℕ) → i < 14 → i ≢ 3 → tcb.stack (word_at t tcb.sp + i) ≡ 0
  pub low_canary : tcb.stack 0 ≡ canary
  pub high_canary : tcb.stack (stack_words - 1) ≡ canary
  pub entered : tcb.entry ≡ entry

-- For a block at an address aligned to 16 bytes, whatever it held before: the saved stack pointer is
-- aligned to 16 bytes, the frame of 14 words ends at the top canary, its link register is the
-- trampoline and its other words are 0 (the IRQ mask among them), and both canaries are in place.
pub task_init_lem :
    (trampoline t entry : ℕ) (tcb : Tcb)
    → t % 16 ≡ 0
    → IsFirstFrame trampoline t entry (task_init trampoline t entry tcb)
unfolding task_init update
task_init_lem trampoline t entry tcb h = record {
  aligned = omega (arith, h);
  inside = (omega arith, omega arith);
  unmasked = ground (arith, at 497);
  link = ground arith;
  zeros = λ i lt ne. ground (arith, at (497 + i));
  low_canary = ground (arith, at 0);
  high_canary = ground (arith, at 511);
  entered = refl;
}
  where
    at :
        (j : ℕ)
        → clear_words 14 497 (update (update tcb.stack 0 canary) 511 canary) j ≡ (
            if ltb j 497
            then update (update tcb.stack 0 canary) 511 canary j
            else if ltb j 511
            then 0
            else update (update tcb.stack 0 canary) 511 canary j)
    at j = clear_words-at 14 497 (update (update tcb.stack 0 canary) 511 canary) j
