-- ===== src/Pci/Find.antt =====
-- The scan of bus 0 (`pci_find_dma_accel` of kernel/pci.c).
use aarch64_rtos.Prelude.{
  ℕ, zero, suc, ◌+◌, ◌≤◌, ◌<◌, ◌≡◌, refl, ◌==◌, arith, Bool-cases, inl, inr, ℕ_discrete,
}
use aarch64_rtos.Pci.{
  Bus, PciDev, pci_vendor_id, pci_device_id, ecam_addr, is_accel, configure, scan_slots,
  pci_find_dma_accel,
}

module _ (B : Bus) (s : B.State) where
  -- The slot has a device that says it is the accelerator.
  abbrev pub IsAccel : ℕ → Type 0
  IsAccel dev =
      (B.read16 s (ecam_addr 0 dev 0 pci_vendor_id) ≡ 0x1234)
      × (B.read16 s (ecam_addr 0 dev 0 pci_device_id) ≡ 0xda00)

  -- Where the scan of the slots from `lo` to `hi - 1` ends.
  pub data Scanned (out : PciDev) (lo hi : ℕ) : PciDev × B.State → Type 0 where
    absent : ((dev : ℕ) → lo ≤ dev → dev < hi → ¬ IsAccel dev) → Scanned out lo hi (out, s)
    present :
        (dev : ℕ)
        → lo ≤ dev
        → dev < hi
        → IsAccel dev
        → ((e : ℕ) → lo ≤ e → e < dev → ¬ IsAccel e)
        → Scanned out lo hi (configure B dev s)

  -- A slot that holds something else, or nothing, is passed over.
  Scanned-skip :
      (out : PciDev) (lo hi : ℕ) {r : PciDev × B.State}
      → ¬ IsAccel lo
      → Scanned out (lo + 1) hi r
      → Scanned out lo hi r
  Scanned-skip out lo hi n (absent none) =
      absent (λ dev le lt. elim (ℕ_discrete dev lo) [
        | yes e ↦ rw e n
        | no ne ↦ none dev (omega arith) lt
      ])
  Scanned-skip out lo hi n (present dev le lt a first) =
      present dev (omega arith) lt a
        (λ e le' lt'. elim (ℕ_discrete e lo) [ yes q ↦ rw q n | no ne ↦ first e (omega arith) lt' ])

  scan_slots-Scanned :
      (out : PciDev) (slots dev hi : ℕ)
      → dev + slots ≡ hi
      → Scanned out dev hi (scan_slots B out slots dev s)
  unfolding scan_slots is_accel
  scan_slots-Scanned out zero dev hi e = absent (λ d le lt. absurd (omega arith))
  scan_slots-Scanned out (suc slots) dev hi e =
      let rest = scan_slots-Scanned out slots (dev + 1) hi (omega arith) in
      elim (Bool-cases (B.read16 s (ecam_addr 0 dev 0 pci_vendor_id) == 0xFFFF)) [
        | inl v ↦ rw v (Scanned-skip out dev hi (λ (a, b). ground (arith, v)) rest)
        | inr v ↦ elim (Bool-cases (is_accel B dev s)) [
          | inl a ↦
              rw (v, a)
                (present dev (omega arith) (omega arith) (ground (arith, a), ground (arith, a))
                  (λ e' le lt. absurd (omega arith)))
          | inr a ↦ rw (v, a) (Scanned-skip out dev hi (λ (p, q). ground (arith, a)) rest)
        ]
      ]

  pub pci_find_lem :
      (junk : PciDev) → Scanned (record junk { found = 0 }) 0 32 (pci_find_dma_accel B junk s)
  unfolding pci_find_dma_accel
  pci_find_lem junk = scan_slots-Scanned (record junk { found = 0 }) 32 0 32 refl
