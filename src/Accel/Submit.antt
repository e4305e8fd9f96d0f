-- ===== src/Accel/Submit.antt =====
-- The submission ring of kernel/accel.c over a run of submissions.
use aarch64_rtos.Prelude.{
  ℕ, suc, ◌+◌, ◌%◌, ◌^◌, ◌≤◌, ◌<◌, ◌≡◌, ◌∙◌, ap, arith, update-at, update-ne, ℕ_discrete,
}
use aarch64_rtos.Kernel.{Kernel}
use aarch64_rtos.Accel.{
  Cmd, Accel, dma_accel_queue_depth, opcode_copy, reg_write, push_copy, accel_submit_copy,
}

-- What a task asks for, and the descriptor that the device should find for it.
pub record Request : Type 0 where
  pub src : ℕ
  pub dst : ℕ
  pub len : ℕ

abbrev pub command : Request → ℕ → Cmd
command r id = record {
  opcode = opcode_copy;
  len = r.len % 2 ^ 32;
  src_addr = r.src;
  dst_addr = r.dst;
  cmd_id = id;
  src2_addr = 0;
  scalar_bits = 0;
  reserved = 0;
}

-- A run of `n` submissions from any cores, of `req 0`, `req 1`, …, from the driver's state `a₀` on.
pub data SubmitRun (req : ℕ → Request) (a₀ : Accel) : ℕ → Accel → Type 0 where
  start : SubmitRun req a₀ 0 a₀
  submit :
      {n : ℕ} {a a' : Accel} (me id : ℕ) (k k' : Kernel)
      → SubmitRun req a₀ n a
      → accel_submit_copy me (req n).src (req n).dst (req n).len a k ≡ (id, a', k')
      → SubmitRun req a₀ (suc n) a'

-- The driver's state after `n` submissions.
pub record IsSubmitted (req : ℕ → Request) (n : ℕ) (a : Accel) : Type 0 where
  pub tail : a.sq_tail_local ≡ n % 2 ^ 32
  pub kept :
      (i : ℕ)
      → i < n
      → n ≤ i + dma_accel_queue_depth
      → a.sq_ring (i % dma_accel_queue_depth) ≡ command (req i) ((i + 1) % 2 ^ 32)

push-IsSubmitted :
    (req : ℕ → Request) (n : ℕ) (a : Accel)
    → IsSubmitted req n a
    → IsSubmitted req (suc n) (push_copy (req n).src (req n).dst (req n).len a).1
unfolding push_copy reg_write
push-IsSubmitted req n a s = record {
  tail = omega (arith, s.tail);
  kept = λ i lt le. elim (ℕ_discrete i n) [
    | yes e ↦
        let slot : a.sq_tail_local % dma_accel_queue_depth ≡ i % dma_accel_queue_depth =
          omega (arith, s.tail, e) in
        let id : (a.sq_tail_local + 1) % 2 ^ 32 ≡ (i + 1) % 2 ^ 32 = omega (arith, s.tail, e) in
        rw (slot, id, ← e)
          (update-at a.sq_ring (i % dma_accel_queue_depth) (command (req i) ((i + 1) % 2 ^ 32)))
    | no ne ↦
        update-ne a.sq_ring _ _ (i % dma_accel_queue_depth) (omega (arith, s.tail, ne, lt, le))
        ∙ s.kept i (omega (arith, ne, lt)) (omega (arith, le))
  ];
}

-- After any run of `n` submissions from a driver that has made none, the tail is `n` in 32 bits, and
-- the ring holds each of the last sixteen requests in its slot, with all its fields and its number,
-- counted from 1 in 32 bits.
pub submissions :
    (req : ℕ → Request) (a₀ : Accel)
    → a₀.sq_tail_local ≡ 0
    → (n : ℕ) (a : Accel) → SubmitRun req a₀ n a
    → IsSubmitted req n a
unfolding accel_submit_copy
submissions req a₀ z _ _ start = record {
  tail = omega (arith, z);
  kept = λ i lt le. absurd (omega arith);
}
submissions req a₀ z _ a' (submit {n} {a} me id k k' r e) =
    let same : (push_copy (req n).src (req n).dst (req n).len a).1 ≡ a' = ap (λ out. out.1) e in
    rw (← same) (push-IsSubmitted req n a (submissions req a₀ z n a r))
