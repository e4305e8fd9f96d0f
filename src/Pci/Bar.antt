-- ===== src/Pci/Bar.antt =====
-- Sizing BAR0 and giving it its address, on a device with a 32-bit memory BAR.
use Prim.Native.Nat.{bit_and, bit_or}
use aarch64_rtos.Prelude.{
  ℕ, ◌+◌, ◌-◌, ◌*◌, ◌/◌, ◌^◌, ◌≤◌, ◌<◌, ◌≡◌, ◌⊎◌, inl, inr, Bool-cases, leb, ◌&&◌, refl, ap, ◌∙◌,
  Bool, true, ltb, ◌==◌, ◌||◌, ==→eq, arith, all_below, all_below-lt, bit_and_step, bit_and-le,
  bit_or_step,
}
use aarch64_rtos.Pci.{
  Bus, pcie_mmio32_base, pci_command, pci_bar0, pci_interrupt_pin, ecam_addr, decode_size, swizzle,
  pci_bar0_size, configure,
}

-- What PCI documents of function 0 of the device in slot `dev` of bus 0, whose BAR0 is for a memory of
-- `2 ^ k` bytes: the low `k` bits of the BAR read as 0 and the others hold what is written; the
-- interrupt pin is read-only; the command register holds memory decoding and bus mastering, and writing
-- it leaves the BAR alone.
pub record HasBar (B : Bus) (dev k : ℕ) : Type 0 where
  pub holds :
      (s : B.State) (v : ℕ)
      → let addr = ecam_addr 0 dev 0 pci_bar0 in
        B.read32 (B.write32 s addr v) addr ≡ v / 2 ^ k * 2 ^ k
  pub aligned :
      (s : B.State) → let v = B.read32 s (ecam_addr 0 dev 0 pci_bar0) in v / 2 ^ k * 2 ^ k ≡ v
  pub pin32 :
      (s : B.State) (a v : ℕ)
      → let pin = ecam_addr 0 dev 0 pci_interrupt_pin in
        B.read8 (B.write32 s a v) pin ≡ B.read8 s pin
  pub pin16 :
      (s : B.State) (a v : ℕ)
      → let pin = ecam_addr 0 dev 0 pci_interrupt_pin in
        B.read8 (B.write16 s a v) pin ≡ B.read8 s pin
  pub bar16 :
      (s : B.State) (v : ℕ)
      → let bar = ecam_addr 0 dev 0 pci_bar0 in
        B.read32 (B.write16 s (ecam_addr 0 dev 0 pci_command) v) bar ≡ B.read32 s bar
  pub command :
      (s : B.State) (v : ℕ)
      → let addr = ecam_addr 0 dev 0 pci_command in
        bit_and (B.read16 (B.write16 s addr v) addr) 6 ≡ bit_and v 6

abbrev is_sized : ℕ → Bool
is_sized k = ltb k 4 || decode_size ((2 ^ 32 - 1) / 2 ^ k * 2 ^ k) == 2 ^ k

abbrev is_multiple : ℕ → Bool
is_multiple k = pcie_mmio32_base / 2 ^ k * 2 ^ k == pcie_mmio32_base

sizes : all_below 29 is_sized ≡ true
unfolding decode_size
sizes = refl

decode_size-mask : (k : ℕ) → 4 ≤ k → k ≤ 28 → decode_size ((2 ^ 32 - 1) / 2 ^ k * 2 ^ k) ≡ 2 ^ k
decode_size-mask k lo hi =
    let t = all_below-lt 29 is_sized k sizes (omega arith) in ground (arith, t)

bases : all_below 29 is_multiple ≡ true
bases = refl

-- The base of the MMIO window is a multiple of the size.
base-aligned : (k : ℕ) → k ≤ 28 → pcie_mmio32_base / 2 ^ k * 2 ^ k ≡ pcie_mmio32_base
base-aligned k hi = ==→eq _ _ (all_below-lt 29 is_multiple k bases (omega arith))

enabled : (c : ℕ) → bit_and (bit_or c 6) 6 ≡ 6
enabled c =
    let o0 = bit_or_step c 6 in
    let o1 = bit_or_step (c / 2) 3 in
    let o2 = bit_or_step (c / 2 / 2) 1 in
    let w : ℕ = bit_or c 6 in
    omega (
      arith,
      o0,
      o1,
      o2,
      bit_and_step w 6,
      bit_and_step (w / 2) 3,
      bit_and_step (w / 2 / 2) 1,
      bit_and-le (w / 2 / 2 / 2) 0,
    )

-- The interrupt of a pin: the lines 3 to 6 are taken in turn, from slot 0 and INTA (pin 1) on, one
-- further with each slot and each pin. Without a pin INTA to INTD it is the largest 32-bit word.
pub data IsLine (dev pin spi : ℕ) : Type 0 where
  in_turn :
      (turns : ℕ)
      → 1 ≤ pin
      → pin ≤ 4
      → 3 ≤ spi
      → spi ≤ 6
      → spi + 4 * turns ≡ 3 + dev + (pin - 1)
      → IsLine dev pin spi
  no_line : (pin ≡ 0) ⊎ (4 < pin) → spi ≡ 0xFFFFFFFF → IsLine dev pin spi

swizzle-IsLine : (dev pin : ℕ) → IsLine dev pin (swizzle dev pin)
unfolding swizzle
swizzle-IsLine dev pin = elim (Bool-cases (leb 1 pin && leb pin 4)) [
  | inl e ↦
      let lo : 1 ≤ pin = ground (arith, e) in
      let hi : pin ≤ 4 = ground (arith, e) in
      rw e (in_turn ((dev + pin - 1) / 4) lo hi (omega arith) (omega arith) (omega (arith, lo)))
  | inr e ↦ rw e (no_line (ground (arith, e)) refl)
]

same_pin-IsLine : (dev pin read : ℕ) → read ≡ pin → IsLine dev pin (swizzle dev read)
same_pin-IsLine dev pin read e = rw e (swizzle-IsLine dev pin)

module _ (B : Bus) (dev k : ℕ) (h : HasBar B dev k) (lo : 4 ≤ k) (hi : k ≤ 28) where
  -- For a memory BAR of 16 bytes to 256 MB, sizing gives its size and leaves the BAR as it was.
  pub pci_bar0_size_lem :
      (s : B.State)
      → let out = pci_bar0_size B 0 dev 0 s in
        let bar = ecam_addr 0 dev 0 pci_bar0 in
        (out.0 ≡ 2 ^ k) × (B.read32 out.1 bar ≡ B.read32 s bar)
  unfolding pci_bar0_size
  pci_bar0_size_lem s =
      let bar = ecam_addr 0 dev 0 pci_bar0 in
      let s1 = B.write32 s bar (2 ^ 32 - 1) in
      (
        ap decode_size (h.holds s (2 ^ 32 - 1)) ∙ decode_size-mask k lo hi,
        h.holds s1 (B.read32 s bar) ∙ h.aligned s,
      )

  pci_bar0_size-pin :
      (s : B.State)
      → let pin = ecam_addr 0 dev 0 pci_interrupt_pin in
        B.read8 (pci_bar0_size B 0 dev 0 s).1 pin ≡ B.read8 s pin
  unfolding pci_bar0_size
  pci_bar0_size-pin s = h.pin32 _ _ _ ∙ h.pin32 _ _ _

  pub configure_lem :
      (s : B.State)
      → let (d, s') = configure B dev s in
        (d.bar0_size ≡ 2 ^ k)
        × (d.bar0_readback ≡ d.bar0_phys)
        × (d.bar0_phys ≡ pcie_mmio32_base)
        × (B.read32 s' (ecam_addr 0 dev 0 pci_bar0) ≡ pcie_mmio32_base)
        × IsLine dev (B.read8 s (ecam_addr 0 dev 0 pci_interrupt_pin)) d.gic_spi
        × (bit_and (B.read16 s' (ecam_addr 0 dev 0 pci_command)) 6 ≡ 6)
  unfolding configure
  configure_lem s = (
    (pci_bar0_size_lem _).0,
    h.holds _ pcie_mmio32_base ∙ base-aligned k hi,
    refl,
    h.bar16 _ _ ∙ h.holds _ pcie_mmio32_base ∙ base-aligned k hi,
    same_pin-IsLine dev _ _ (h.pin16 _ _ _ ∙ h.pin32 _ _ _ ∙ pci_bar0_size-pin _ ∙ h.pin16 _ _ _),
    h.command _ _ ∙ enabled _,
  )
