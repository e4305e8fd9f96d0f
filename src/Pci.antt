-- ===== src/Pci.antt =====
-- kernel/pci.c: the search for the accelerator on PCI bus 0 and the set-up of its BAR0. What stands
-- behind the configuration space is not in the repository: a `Bus` is a parameter.
pub mod Ecam
pub mod Bar
pub mod Find
use Prim.Native.Nat.{bit_and, bit_or}
use aarch64_rtos.Prelude.{
  ℕ, zero, suc, ◌+◌, ◌-◌, ◌*◌, ◌/◌, ◌%◌, ◌^◌, Bool, ◌==◌, leb, ◌&&◌, not, if◌then◌else◌,
}

abbrev pub pcie_ecam_base : ℕ
pcie_ecam_base = 0x4010000000

abbrev pub pcie_mmio32_base : ℕ
pcie_mmio32_base = 0x10000000

abbrev pub pci_vendor_id : ℕ
pci_vendor_id = 0

abbrev pub pci_device_id : ℕ
pci_device_id = 2

abbrev pub pci_command : ℕ
pci_command = 4

abbrev pub pci_bar0 : ℕ
pci_bar0 = 0x10

abbrev pub pci_interrupt_pin : ℕ
pci_interrupt_pin = 0x3D

-- `PCIE_ECAM_BASE | bus << 20 | dev << 15 | func << 12 | reg`
unfoldable pub ecam_addr : ℕ → ℕ → ℕ → ℕ → ℕ
ecam_addr bus dev func reg =
    bit_or (bit_or (bit_or (bit_or pcie_ecam_base (bus * 2 ^ 20)) (dev * 2 ^ 15)) (func * 2 ^ 12))
      reg

-- Loads and stores of 8, 16 and 32 bits at an address of the configuration space, and what the
-- devices there remember.
pub record Bus : Type 1 where
  pub State : Type 0
  pub read8 : State → ℕ → ℕ
  pub read16 : State → ℕ → ℕ
  pub read32 : State → ℕ → ℕ
  pub write16 : State → ℕ → ℕ → State
  pub write32 : State → ℕ → ℕ → State

-- `pci_dev_t`
pub record PciDev : Type 0 where
  pub bus : ℕ
  pub dev : ℕ
  pub func : ℕ
  pub bar0_phys : ℕ
  pub bar0_size : ℕ
  pub bar0_readback : ℕ
  pub gic_spi : ℕ
  pub found : ℕ

-- `mask &= ~0xFu; if (mask == 0) return 0; return (~mask) + 1;`, for 32-bit words
unfoldable pub decode_size : ℕ → ℕ
decode_size mask =
    let high = mask / 16 * 16 in if high == 0 then 0 else (2 ^ 32 - 1 - high + 1) % 2 ^ 32

-- `3 + ((dev + pin - 1) % 4)` for a pin, and else the largest 32-bit word
unfoldable pub swizzle : ℕ → ℕ → ℕ
swizzle dev pin = if leb 1 pin && leb pin 4 then 3 + (dev + pin - 1) % 4 else 2 ^ 32 - 1

module _ (B : Bus) where
  open B use {State, read8, read16, read32, write16, write32}

  unfoldable pub pci_bar0_size : ℕ → ℕ → ℕ → State → ℕ × State
  pci_bar0_size bus dev func s =
      let addr = ecam_addr bus dev func pci_bar0 in
      let orig = read32 s addr in
      let s1 = write32 s addr (2 ^ 32 - 1) in
      let mask = read32 s1 addr in (decode_size mask, write32 s1 addr orig)

  -- `vendor == 0x1234 && device == 0xda00`, in the slot `dev`
  unfoldable pub is_accel : ℕ → State → Bool
  is_accel dev s =
      read16 s (ecam_addr 0 dev 0 pci_vendor_id) == 0x1234
      && read16 s (ecam_addr 0 dev 0 pci_device_id) == 0xda00

  -- What the loop does at the slot that it looks for: the command register without memory decoding,
  -- the size of BAR0, its address, and the command register with memory decoding and bus mastering.
  unfoldable pub configure : ℕ → State → PciDev × State
  configure dev s =
      let command = ecam_addr 0 dev 0 pci_command in
      let bar = ecam_addr 0 dev 0 pci_bar0 in
      let s1 = write16 s command (bit_and (read16 s command) (2 ^ 32 - 1 - 2)) in
      let (size, s2) = pci_bar0_size 0 dev 0 s1 in
      let s3 = write32 s2 bar pcie_mmio32_base in
      let readback = read32 s3 bar in
      let s4 = write16 s3 command (bit_or (read16 s3 command) 6) in
      let pin = read8 s4 (ecam_addr 0 dev 0 pci_interrupt_pin) in
      (
        record {
          bus = 0;
          dev = dev;
          func = 0;
          bar0_phys = pcie_mmio32_base;
          bar0_size = size;
          bar0_readback = readback;
          gic_spi = swizzle dev pin;
          found = 1;
        },
        s4,
      )

  -- The scan, with `slots` slots left from `dev` on. A slot with no device reads 0xFFFF as its vendor.
  unfoldable pub scan_slots : PciDev → ℕ → ℕ → State → PciDev × State
  scan_slots out zero dev s = (out, s)
  scan_slots out (suc slots) dev s =
      let rest = scan_slots out slots (dev + 1) s in
      let here = configure dev s in
      if read16 s (ecam_addr 0 dev 0 pci_vendor_id) == 0xFFFF
      then rest
      else if is_accel dev s
      then here
      else rest

  -- `junk` is what the structure held before.
  unfoldable pub pci_find_dma_accel : PciDev → State → PciDev × State
  pci_find_dma_accel junk s = scan_slots (record junk { found = 0 }) 32 0 s
