-- ===== src/Accel/Drain.antt =====
-- Draining the completion ring (kernel/accel.c).
use aarch64_rtos.Prelude.{
  ℕ, zero, suc, ◌+◌, ◌%◌, ◌^◌, ◌≤◌, ◌<◌, ◌≡◌, ◌∙◌, ◌⊎◌, refl, ap₂, List, [], ◌∷◌, ◌==◌, arith,
  Bool-cases, inl, inr,
}
use aarch64_rtos.Accel.{
  Completion, Accel, Device, dma_accel_queue_depth, reg_write, advance,
  accel_drain_completions_multi,
}

-- The device has produced the completions `done 0`, `done 1`, …: `made i` of them by round `i` of a
-- call that starts after the first `h`. It publishes their number, wrapped to 32 bits, as its tail, never takes one back, never runs more than the
-- ring ahead of the driver, and keeps in the ring those that the driver has not taken.
pub record IsProducing (done : ℕ → Completion) (made : ℕ → ℕ) (h : ℕ) (dev : ℕ → Device)
    : Type 0 where
  pub tail : (i : ℕ) → (dev i).cq_tail ≡ made i % 2 ^ 32
  pub grows : (i : ℕ) → made i ≤ made (i + 1)
  pub begins : h ≤ made 0
  pub bounded : (i : ℕ) → made i ≤ h + i + dma_accel_queue_depth
  pub stored :
      (i n : ℕ) → h + i ≤ n → n < made i → (dev i).cq_ring (n % dma_accel_queue_depth) ≡ done n

-- `done h`, `done (h + 1)`, …, `n` of them
unfoldable pub stretch : (ℕ → Completion) → ℕ → ℕ → List Completion
stretch done h zero = []
stretch done h (suc n) = done h ∷ stretch done (h + 1) n

-- The call took `n` completions from `done from` on: as many as fit, or all that there were.
pub record Drained (done : ℕ → Completion) (made : ℕ → ℕ) (h i left : ℕ)
    (out : List Completion × Accel) : Type 0 where
  pub n : ℕ
  pub fits : n ≤ left
  pub items : out.0 ≡ stretch done (h + i) n
  pub head : out.1.cq_head_local ≡ (h + i + n) % 2 ^ 32
  pub exhausts : (n ≡ left) ⊎ (made (i + n) ≡ h + i + n)

module _ (done : ℕ → Completion) (made : ℕ → ℕ) (h : ℕ) (dev : ℕ → Device)
    (p : IsProducing done made h dev) where
  Drained-cons :
      (left i : ℕ) (c : Completion) (out : List Completion × Accel)
      → c ≡ done (h + i)
      → Drained done made h (i + 1) left out
      → Drained done made h i (suc left) (c ∷ out.0, out.1)
  unfolding stretch
  Drained-cons left i c out e d = record {
    n = suc d.n;
    fits = omega (arith, d.fits);
    items = ap₂ (λ x xs. x ∷ xs) e (d.items ∙ rw index refl);
    head = d.head ∙ rw total refl;
    exhausts = elim d.exhausts [
      | inl x ↦ inl (omega (arith, x))
      | inr x ↦ inr (rw (← round, ← total) x)
    ];
  }
    where
      index : h + (i + 1) ≡ h + i + 1
      index = omega arith

      total : h + (i + 1) + d.n ≡ h + i + suc d.n
      total = omega arith

      round : i + 1 + d.n ≡ i + suc d.n
      round = omega arith

  drain-Drained :
      (left i : ℕ) (a : Accel)
      → a.cq_head_local ≡ (h + i) % 2 ^ 32
      → h + i ≤ made i
      → Drained done made h i left (accel_drain_completions_multi dev i left a)
  unfolding accel_drain_completions_multi advance reg_write stretch
  drain-Drained zero i a e le = record {
    n = 0;
    fits = omega arith;
    items = refl;
    head = omega (arith, e);
    exhausts = inl refl;
  }
  drain-Drained (suc left) i a e le = elim (Bool-cases ((dev i).cq_tail == a.cq_head_local)) [
    | inl z ↦ rw z (record {
      n = 0;
      fits = omega arith;
      items = refl;
      head = omega (arith, e);
      exhausts = inr (ground (arith, z, e, le, p.tail i, p.bounded i));
    })
    | inr z ↦
        let more : h + i < made i = ground (arith, z, e, le, p.tail i) in
        let taken : (dev i).cq_ring (a.cq_head_local % dma_accel_queue_depth) ≡ done (h + i) =
          let slot : a.cq_head_local % dma_accel_queue_depth ≡ (h + i) % dma_accel_queue_depth =
            omega (arith, e) in
          rw slot (p.stored i (h + i) (omega arith) more) in
        let d =
          drain-Drained left (i + 1) (advance a) (omega (arith, e))
            (omega (arith, more, p.grows i)) in
        rw z (Drained-cons left i _ _ taken d)
  ]

  -- With a device that produces completions as `IsProducing` says and a driver that has taken the
  -- first `h`, a drain comes back with completions `h`, `h + 1`, … in order, each once, and with its
  -- head moved past them: as many as `max_out`, or all that the device had produced by then.
  pub drain_lem :
      (max_out : ℕ) (a : Accel)
      → a.cq_head_local ≡ h % 2 ^ 32
      → Drained done made h 0 max_out (accel_drain_completions_multi dev 0 max_out a)
  drain_lem max_out a e = drain-Drained max_out 0 a (omega (arith, e)) (omega (arith, p.begins))
