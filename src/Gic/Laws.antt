-- ===== src/Gic/Laws.antt =====
-- Which registers enabling an interrupt writes.
use aarch64_rtos.Prelude.{
  ℕ, ◌+◌, ◌-◌, ◌*◌, ◌%◌, ◌^◌, ◌≤◌, ◌<◌, ◌≡◌, ◌⊎◌, refl, inl, inr, List, [], ◌∷◌, ◌++◌, arith,
  Bool-cases, leb,
}
use aarch64_rtos.Gic.{
  GicWrite, gicd_base, gicd_itargetsr, gicd_ipriorityr, gicd_isenabler, write8, write32,
  gic_enable_irq_target,
}

-- The set-enable bit of an interrupt: bit `bit` of the word at `addr`.
pub record EnableBit (id : ℕ) (w : GicWrite) : Type 0 where
  pub bit : ℕ
  pub is_bit : w.value ≡ 2 ^ bit
  pub in_word : (bit < 32) × (w.bytes ≡ 4)
  pub in_bank : (gicd_base + 0x100 ≤ w.addr) × (w.addr < gicd_base + 0x180)
  pub own : 8 * (w.addr - (gicd_base + 0x100)) + bit ≡ id

-- The byte of an interrupt in a bank of byte registers that starts at `base`
pub record ByteOf (base id : ℕ) (w : GicWrite) : Type 0 where
  pub in_byte : (w.bytes ≡ 1) × (w.value < 256)
  pub in_bank : w.addr < base + 0x400
  pub own : w.addr ≡ base + id

-- For an interrupt of the controller, enabling it writes its own priority byte and then exactly its
-- own set-enable bit; a shared one (32 and above) gets its own target byte first, so that it is never
-- enabled for a stale target, and a core's private one (below 32) no target at all. No write leaves
-- its bank of registers.
pub gic_enable_lem :
    (id mask : ℕ) (log : List GicWrite)
    → id < 1020
    → (p e : GicWrite) × ByteOf (gicd_base + 0x400) id p
      × EnableBit id e
      × ((id < 32) × (gic_enable_irq_target id mask log ≡ log ++ (p ∷ e ∷ []))
          ⊎ (32 ≤ id)
            × ((t : GicWrite) × ByteOf (gicd_base + 0x800) id t
                × (t.value ≡ mask % 256)
                × (gic_enable_irq_target id mask log ≡ log ++ (t ∷ p ∷ e ∷ []))))
unfolding gic_enable_irq_target
gic_enable_lem id mask log lt = (
  write8 (gicd_ipriorityr id) 0x80,
  write32 (gicd_isenabler id) (2 ^ (id % 32)),
  record { in_byte = (refl, omega arith); in_bank = omega arith; own = refl },
  record {
    bit = id % 32;
    is_bit = refl;
    in_word = (omega arith, refl);
    in_bank = (omega arith, omega arith);
    own = omega arith;
  },
  elim (Bool-cases (leb 32 id)) [
    | inl s ↦ inr (
      ground (arith, s),
      (
        write8 (gicd_itargetsr id) (mask % 256),
        record { in_byte = (refl, omega arith); in_bank = omega arith; own = refl },
        refl,
        rw s refl,
      ),
    )
    | inr p ↦ inl (ground (arith, p), rw p refl)
  ],
)
