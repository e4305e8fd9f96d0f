-- ===== src/Pci/Ecam.antt =====
-- The addresses of the configuration space.
use Prim.Native.Nat.{bit_or}
use aarch64_rtos.Prelude.{ℕ, ◌+◌, ◌-◌, ◌*◌, ◌/◌, ◌%◌, ◌^◌, ◌<◌, ◌≡◌, ap, ◌∙◌, arith, bit_or-add}
use aarch64_rtos.Pci.{pcie_ecam_base, ecam_addr}

-- The fields do not overlap: the address is their sum.
pub ecam_addr-add :
    (bus dev func reg : ℕ)
    → bus < 256
    → dev < 32
    → func < 8
    → reg < 4096
    → ecam_addr bus dev func reg
      ≡ pcie_ecam_base + bus * 2 ^ 20 + dev * 2 ^ 15 + func * 2 ^ 12 + reg
unfolding ecam_addr
ecam_addr-add bus dev func reg b d f r =
    let e0 = bit_or-add 28 1025 (bus * 2 ^ 20) (omega arith) in
    let e1 = bit_or-add 20 (1025 * 2 ^ 8 + bus) (dev * 2 ^ 15) (omega arith) in
    let e2 = bit_or-add 15 ((1025 * 2 ^ 8 + bus) * 2 ^ 5 + dev) (func * 2 ^ 12) (omega arith) in
    let e3 = bit_or-add 12 (((1025 * 2 ^ 8 + bus) * 2 ^ 5 + dev) * 2 ^ 3 + func) reg r in
    let m1 : 1025 * 2 ^ 28 + bus * 2 ^ 20 ≡ (1025 * 2 ^ 8 + bus) * 2 ^ 20 = omega arith in
    let m2 : (1025 * 2 ^ 8 + bus) * 2 ^ 20 + dev * 2 ^ 15
        ≡ ((1025 * 2 ^ 8 + bus) * 2 ^ 5 + dev) * 2 ^ 15 =
      omega arith in
    let m3 : ((1025 * 2 ^ 8 + bus) * 2 ^ 5 + dev) * 2 ^ 15 + func * 2 ^ 12
        ≡ (((1025 * 2 ^ 8 + bus) * 2 ^ 5 + dev) * 2 ^ 3 + func) * 2 ^ 12 =
      omega arith in
    ap (λ x. bit_or (bit_or (bit_or x (dev * 2 ^ 15)) (func * 2 ^ 12)) reg) (e0 ∙ m1)
    ∙ ap (λ x. bit_or (bit_or x (func * 2 ^ 12)) reg) (e1 ∙ m2)
    ∙ ap (λ x. bit_or x reg) (e2 ∙ m3)
    ∙ e3
    ∙ omega arith

-- Each register of each function has an address of its own: bus, device, function and register are
-- read back from it.
pub ecam_round_trip :
    (bus dev func reg : ℕ)
    → bus < 256
    → dev < 32
    → func < 8
    → reg < 4096
    → let offset = ecam_addr bus dev func reg - pcie_ecam_base in
      (offset / 2 ^ 20 ≡ bus)
      × (offset / 2 ^ 15 % 32 ≡ dev)
      × (offset / 2 ^ 12 % 8 ≡ func)
      × (offset % 2 ^ 12 ≡ reg)
ecam_round_trip bus dev func reg b d f r = rw (ecam_addr-add bus dev func reg b d f r) (omega arith)
