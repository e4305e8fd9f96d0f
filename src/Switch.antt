-- ===== src/Switch.antt =====
-- `switch_to` of kernel/switch.S, instruction by instruction, without DEBUG_HOOKS. Memory is a
-- function of the address of a word.
pub mod Round
pub mod First
use aarch64_rtos.Prelude.{ℕ, ◌+◌, ◌-◌, ◌%◌, ◌^◌, ◌==◌, if◌then◌else◌, update}
use aarch64_rtos.Lock.{mask_irq}

-- The general registers by number, the stack pointer, DAIF, and the memory.
pub record Cpu : Type 0 where
  pub x : ℕ → ℕ
  pub sp : ℕ
  pub daif : ℕ
  pub mem : ℕ → ℕ

abbrev pub set_x : ℕ → ℕ → Cpu → Cpu
set_x r v c = record c { x = update c.x r v }

abbrev pub below : ℕ → ℕ
below sp = (sp + 2 ^ 64 - 16) % 2 ^ 64

-- `str xr, [sp, #-16]!`
unfoldable pub push : ℕ → Cpu → Cpu
push r c = record c { sp = below c.sp; mem = update c.mem (below c.sp) (c.x r) }

-- `stp xr, xq, [sp, #-16]!`
unfoldable pub push_pair : ℕ → ℕ → Cpu → Cpu
push_pair r q c = record c {
  sp = below c.sp;
  mem = update (update c.mem (below c.sp) (c.x r)) (below c.sp + 8) (c.x q);
}

-- `ldr xr, [sp], #16`
unfoldable pub pop : ℕ → Cpu → Cpu
pop r c = record c { sp = (c.sp + 16) % 2 ^ 64; x = update c.x r (c.mem c.sp) }

-- `ldp xr, xq, [sp], #16`
unfoldable pub pop_pair : ℕ → ℕ → Cpu → Cpu
pop_pair r q c = record c {
  sp = (c.sp + 16) % 2 ^ 64;
  x = update (update c.x r (c.mem c.sp)) q (c.mem (c.sp + 8));
}

-- Up to `str x3`: DAIF is read into x3, the IRQ is masked, and x19 to x30 and x3 go to the stack.
unfoldable pub save : Cpu → Cpu
save c =
    let c0 = record c { x = update c.x 3 c.daif; daif = mask_irq c.daif } in
    let c1 = push_pair 23 24 (push_pair 21 22 (push_pair 19 20 c0)) in
    push 3 (push_pair 29 30 (push_pair 27 28 (push_pair 25 26 c1)))

-- From `ldr x3` to `msr daif, x3`; `ret` goes to x30.
unfoldable pub restore : Cpu → Cpu
restore c =
    let c1 = pop_pair 25 26 (pop_pair 27 28 (pop_pair 29 30 (pop 3 c))) in
    let c2 = pop_pair 19 20 (pop_pair 21 22 (pop_pair 23 24 c1)) in record c2 { daif = c2.x 3 }

-- x0 is `old_sp_ptr`, x1 is `new_sp`: they and the stack pointer go to x19 to x21, the stack pointer is
-- stored at the first, and the second becomes the stack pointer.
unfoldable pub exchange : Cpu → Cpu
exchange c =
    let c1 = set_x 21 c.sp (set_x 20 (c.x 1) (set_x 19 (c.x 0) c)) in
    record c1 { mem = update c1.mem (c1.x 19) (c1.x 21); sp = c1.x 20 }

unfoldable pub switch_to : Cpu → Cpu
switch_to c = restore (exchange (save c))
