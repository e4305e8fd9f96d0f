-- ===== src/Gic.antt =====
-- kernel/gic.c: the writes to the interrupt controller, in order. What a register reads back as is the
-- device's business and is a parameter.
pub mod Laws
use aarch64_rtos.Prelude.{ℕ, ◌+◌, ◌*◌, ◌/◌, ◌%◌, ◌^◌, ◌≤◌, List, [], ◌∷◌, ◌++◌, leb, if◌then◌else◌}

abbrev pub gicd_base : ℕ
gicd_base = 0x08000000

abbrev pub gicc_base : ℕ
gicc_base = 0x08010000

-- A store of `bytes` bytes
pub record GicWrite : Type 0 where
  pub addr : ℕ
  pub bytes : ℕ
  pub value : ℕ

abbrev pub gicd_itargetsr : ℕ → ℕ
gicd_itargetsr n = gicd_base + 0x800 + n

abbrev pub gicd_ipriorityr : ℕ → ℕ
gicd_ipriorityr n = gicd_base + 0x400 + n

abbrev pub gicd_isenabler : ℕ → ℕ
gicd_isenabler n = gicd_base + 0x100 + 4 * (n / 32)

abbrev pub write8 : ℕ → ℕ → GicWrite
write8 addr value = record { addr = addr; bytes = 1; value = value }

abbrev pub write32 : ℕ → ℕ → GicWrite
write32 addr value = record { addr = addr; bytes = 4; value = value }

unfoldable pub gic_init : List GicWrite → List GicWrite
gic_init log =
    log ++ (write32 gicd_base 1 ∷ write32 (gicc_base + 4) 0xFF ∷ write32 gicc_base 1 ∷ [])

unfoldable pub gic_init_secondary : List GicWrite → List GicWrite
gic_init_secondary log = log ++ (write32 (gicc_base + 4) 0xFF ∷ write32 gicc_base 1 ∷ [])

-- The last write's value is `1U << (id % 32)`.
unfoldable pub gic_enable_irq_target : ℕ → ℕ → List GicWrite → List GicWrite
gic_enable_irq_target id target_mask log =
    let enable =
      write8 (gicd_ipriorityr id) 0x80 ∷ write32 (gicd_isenabler id) (2 ^ (id % 32)) ∷ [] in
    if leb 32 id
    then log ++ (write8 (gicd_itargetsr id) (target_mask % 256) ∷ enable)
    else log ++ enable

unfoldable pub gic_enable_irq : ℕ → List GicWrite → List GicWrite
gic_enable_irq id log = gic_enable_irq_target id 1 log

-- `keeps` is what the target register of `id` keeps of a byte, `old` what it holds. The result is
-- what was read back, the register afterwards, and the writes.
unfoldable pub gic_probe_target : (ℕ → ℕ) → ℕ → ℕ → ℕ → List GicWrite → ℕ × ℕ × List GicWrite
gic_probe_target keeps id mask old log =
    let rb = keeps (mask % 256) in
    (
      rb,
      keeps old,
      log ++ (write8 (gicd_itargetsr id) (mask % 256) ∷ write8 (gicd_itargetsr id) old ∷ []),
    )

unfoldable pub gic_eoi : ℕ → List GicWrite → List GicWrite
gic_eoi id log = log ++ (write32 (gicc_base + 0x10) id ∷ [])
