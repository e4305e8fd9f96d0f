-- ===== src/Accel/Polled.antt =====
-- The rest of kernel/accel.c: queue set-up, the polled path, the unbounded drain, and the interrupt
-- acknowledgement. What the device shows at each look is a parameter.
use aarch64_rtos.Prelude.{
  ℕ, zero, suc, ◌+◌, ◌/◌, ◌%◌, ◌^◌, ◌≤◌, ◌<◌, ◌≡◌, Option, none, some, ◌>>=◌, ◌==◌, if◌then◌else◌,
  arith, refl, Bool-cases, inl, inr, false, ◌∙◌,
}
use aarch64_rtos.Accel.{Completion, Accel, Device, dma_accel_queue_depth, reg_write, advance}
use aarch64_rtos.Accel.Drain.{IsProducing}

-- `sq_addr` and `cq_addr` are the addresses of the rings.
unfoldable pub accel_setup_queues : ℕ → ℕ → Accel → Accel
accel_setup_queues sq_addr cq_addr a =
    let a1 = reg_write 0x40 (sq_addr % 2 ^ 32) a in
    let a2 = reg_write 0x44 (sq_addr / 2 ^ 32 % 2 ^ 32) a1 in
    let a3 = reg_write 0x48 dma_accel_queue_depth a2 in
    let a4 = reg_write 0x50 (cq_addr % 2 ^ 32) a3 in
    let a5 = reg_write 0x54 (cq_addr / 2 ^ 32 % 2 ^ 32) a4 in
    let a6 = reg_write 0x58 dma_accel_queue_depth a5 in reg_write 0x38 7 a6

-- `REG_IRQ_STATUS` clears the bits that are written as 1.
unfoldable pub accel_irq_ack : ℕ → Accel → Accel
accel_irq_ack bits a = reg_write 0x34 bits a

-- The first look at which the tail differs from the driver's head.
unfoldable pub await_tail : (ℕ → Device) → ℕ → ℕ → ℕ → Option ℕ
await_tail dev head zero i = none
await_tail dev head (suc looks) i =
    let later = await_tail dev head looks (i + 1) in
    if (dev i).cq_tail == head then later else some i

-- The loop gives up once it has looked `max_spins + 1` times in vain.
unfoldable pub accel_poll_completion : (ℕ → Device) → ℕ → Accel → Option (Completion × Accel)
accel_poll_completion dev max_spins a = await_tail dev a.cq_head_local (suc max_spins) 0 >>= λ i.
    some ((dev i).cq_ring (a.cq_head_local % dma_accel_queue_depth), advance a)

-- The number of completions drained; `none` when `fuel` rounds do not end it.
unfoldable pub accel_drain_completions : (ℕ → Device) → ℕ → ℕ → Accel → Option (ℕ × Accel)
accel_drain_completions dev zero i a = none
accel_drain_completions dev (suc fuel) i a =
    let last = (dev i).cq_ring (a.cq_head_local % dma_accel_queue_depth) in
    let rest =
      accel_drain_completions dev fuel (i + 1) (advance (record a { last_completion = last })) in
    if (dev i).cq_tail == a.cq_head_local
    then some (0, a)
    else (rest >>= λ (n, a'). some (suc n, a'))

-- The drain took `n` completions, and then there was none left.
pub record DrainedAll (dev : ℕ → Device) (made : ℕ → ℕ) (h i fuel : ℕ) (a : Accel) : Type 0 where
  pub n : ℕ
  pub left : Accel
  pub ends : accel_drain_completions dev fuel i a ≡ some (n, left)
  pub head : left.cq_head_local ≡ (h + i + n) % 2 ^ 32
  pub all : made (i + n) ≡ h + i + n

DrainedAll-suc :
    (made : ℕ → ℕ) (h fuel i : ℕ) (a : Accel) (dev : ℕ → Device)
    → (dev i).cq_tail == a.cq_head_local ≡ false
    → let last = (dev i).cq_ring (a.cq_head_local % dma_accel_queue_depth) in
      DrainedAll dev made h (i + 1) fuel (advance (record a { last_completion = last }))
      → DrainedAll dev made h i (suc fuel) a
unfolding accel_drain_completions
DrainedAll-suc made h fuel i a dev z d = record {
  n = suc d.n;
  left = d.left;
  ends = rw (z, d.ends) refl;
  head = d.head ∙ rw total refl;
  all = rw (← round, ← total) d.all;
}
  where
    total : h + (i + 1) + d.n ≡ h + i + suc d.n
    total = omega arith

    round : i + 1 + d.n ≡ i + suc d.n
    round = omega arith

module _ (done : ℕ → Completion) (made : ℕ → ℕ) (h : ℕ) (dev : ℕ → Device)
    (p : IsProducing done made h dev) (most : ℕ) (stops : (i : ℕ) → made i ≤ most) where
  drain-DrainedAll :
      (fuel i : ℕ) (a : Accel)
      → a.cq_head_local ≡ (h + i) % 2 ^ 32
      → h + i ≤ made i
      → most < h + i + fuel
      → DrainedAll dev made h i fuel a
  unfolding accel_drain_completions advance reg_write
  drain-DrainedAll zero i a e le lt = absurd (omega (arith, stops i))
  drain-DrainedAll (suc fuel) i a e le lt = elim (Bool-cases ((dev i).cq_tail == a.cq_head_local)) [
    | inl z ↦ record {
      n = 0;
      left = a;
      ends = rw z refl;
      head = omega (arith, e);
      all = ground (arith, z, e, le, p.tail i, p.bounded i);
    }
    | inr z ↦
        let more : h + i < made i = ground (arith, z, e, le, p.tail i) in
        let last = (dev i).cq_ring (a.cq_head_local % dma_accel_queue_depth) in
        let d =
          drain-DrainedAll fuel (i + 1) (advance (record a { last_completion = last }))
            (omega (arith, e)) (omega (arith, more, p.grows i)) (omega (arith, lt)) in
        DrainedAll-suc made h fuel i a dev z d
  ]

  -- If the device produces no more than `most` completions in all, the unbounded drain comes to an end
  -- within `most - h + 1` rounds, `h` being those taken before: it has taken all that there were, and
  -- its head is past them.
  pub drain_all :
      (fuel : ℕ) (a : Accel)
      → a.cq_head_local ≡ h % 2 ^ 32
      → most < h + fuel
      → DrainedAll dev made h 0 fuel a
  drain_all fuel a e lt =
      drain-DrainedAll fuel 0 a (omega (arith, e)) (omega (arith, p.begins)) (omega (arith, lt))
