-- ===== src/Boot/Start.antt =====
-- How many cores `smp_boot_secondaries` counts.
use aarch64_rtos.Prelude.{
  ℕ, zero, suc, ◌+◌, ◌^◌, ◌≤◌, ◌<◌, ◌≡◌, refl, sym, ap, ◌∙◌, Bool, true, ◌&&◌, some, List, [], ◌++◌,
  ◌==◌, if◌then◌else◌, arith, Bool-cases, inl, inr, codes, update,
}
use aarch64_rtos.Kernel.{Kernel, max_cpus}
use aarch64_rtos.Uart.{uart_putc, klog}
use aarch64_rtos.Uart.Laws.{uart_puts_lem, klog_lem}
use aarch64_rtos.Sched.Migrate.{crlf}
use aarch64_rtos.Irq.{kernel, set_kernel}
use aarch64_rtos.Boot.{
  Firmware, Seen, Smp, spin_limit, await_alive, psci_cpu_on, is_negative, magnitude, put_nibbles,
  put_hex, log_alive, log_timeout, wait_for, start_cpu, start_cpus, smp_boot_secondaries,
}

-- A step that changes nothing but what the UART has sent.
abbrev pub Prints : {A : Type 0} → (Kernel → A) → Kernel → A → Type 0
Prints f k a = (out : List ℕ) × (a ≡ f (record k { uart_out = out }))

abbrev pub count : Bool → ℕ → ℕ
count b n = if b then n + 1 else n

klog-Prints :
    (prefix : List ℕ) (v : ℕ) (suffix : List ℕ) (k : Kernel)
    → k.uart_lock ≡ 0
    → v < 2 ^ 64
    → Prints some k (klog 0 prefix v true suffix k)
klog-Prints prefix v suffix k free lt =
    let (digits, n, s, e) = klog_lem 0 prefix v suffix k free lt in
    (k.uart_out ++ prefix ++ digits ++ suffix, e)

put_nibbles-Prints : (rounds v : ℕ) (k : Kernel) → Prints (λ x. x) k (put_nibbles rounds v k)
unfolding put_nibbles uart_putc
put_nibbles-Prints zero v k = (k.uart_out, refl)
put_nibbles-Prints (suc rounds) v k = put_nibbles-Prints rounds v (uart_putc _ k)

put_hex-Prints : (v : ℕ) (k : Kernel) → k.uart_lock ≡ 0 → Prints some k (put_hex v k)
unfolding put_hex
put_hex-Prints v k free =
    let sent = uart_puts_lem 0 (codes "0x") k free in
    let (out, e) = put_nibbles-Prints 16 v (record k { uart_out = k.uart_out ++ codes "0x" }) in
    (out, rw sent (ap some e))

module _ (call : Firmware) (entry : ℕ) (seen : Seen) (small : (c : ℕ) → seen.id c < 2 ^ 64)
    (stays : (c n : ℕ) → seen.alive c n ≡ true → seen.alive c (n + 1) ≡ true) where
  -- The firmware took the call, and the core's flag is set within the limit.
  abbrev pub came_up : ℕ → Bool
  came_up c = psci_cpu_on call c entry == 0 && seen.alive c spin_limit

  stays_on : (c n m : ℕ) → seen.alive c n ≡ true → seen.alive c (n + m) ≡ true
  stays_on c n zero h = let same : n ≡ n + 0 = omega arith in ap (seen.alive c) (sym same) ∙ h
  stays_on c n (suc m) h =
      let next : n + suc m ≡ n + m + 1 = omega arith in
      ap (seen.alive c) next ∙ stays c (n + m) (stays_on c n m h)

  -- The look after the wait shows what a look at the end of the longest wait would.
  await_alive_lem :
      (left c n : ℕ) → seen.alive c (await_alive left (seen.alive c) n) ≡ seen.alive c (n + left)
  unfolding await_alive
  await_alive_lem zero c n = let same : n ≡ n + 0 = omega arith in ap (seen.alive c) same
  await_alive_lem (suc left) c n = elim (Bool-cases (seen.alive c n)) [
    | inl e ↦ rw (await_alive, e) (stays c n e ∙ sym (stays_on c n (suc left) e))
    | inr e ↦
        let place : n + 1 + left ≡ n + suc left = omega arith in
        rw (await_alive, e) (await_alive_lem left c (n + 1) ∙ ap (seen.alive c) place)
  ]

  log_alive-Prints :
      (c : ℕ) (k : Kernel) → c < 4 → k.uart_lock ≡ 0 → Prints some k (log_alive seen c k)
  unfolding log_alive
  log_alive-Prints c k lt free =
      let (o1, e1) =
        klog-Prints (codes "CPU") c (codes ": alive, MPIDR_EL1=") k free (omega arith) in
      let (o2, e2) = put_hex-Prints (seen.mpidr c) (record k { uart_out = o1 }) free in
      let (o3, e3) =
        klog-Prints (codes " this_cpu()->cpu_id=") (seen.id c) crlf (record k { uart_out = o2 })
          free (small c) in
      (o3, rw (e1, e2) e3)

  wait_for-Prints :
      (c online : ℕ) (k : Kernel)
      → c < 4
      → k.uart_lock ≡ 0
      → Prints
          (λ k'. some (count (seen.alive c spin_limit) online, k'))
          k
          (wait_for seen c online k)
  unfolding wait_for log_timeout
  wait_for-Prints c online k lt free =
      let looks = await_alive_lem spin_limit c 0 in
      elim (Bool-cases (seen.alive c spin_limit)) [
        | inl e ↦ let (o, s) = log_alive-Prints c k lt free in (o, rw (looks ∙ e, e, s) refl)
        | inr e ↦
            let (o, s) =
              klog-Prints (codes "CPU") c (codes ": did NOT come up (timeout)\r\n") k free
                (omega arith) in
            (o, rw (looks ∙ e, e, s) refl)
      ]

  psci_cpu_on-small : (c : ℕ) → magnitude (psci_cpu_on call c entry) < 2 ^ 64
  unfolding psci_cpu_on
  psci_cpu_on-small c = ground arith

  start_cpu-Prints :
      (c online : ℕ) (k : Kernel)
      → c < 4
      → k.uart_lock ≡ 0
      → Prints (λ k'. some (count (came_up c) online, k')) k (start_cpu call entry seen c online k)
  unfolding start_cpu
  start_cpu-Prints c online k lt free =
      let rc = psci_cpu_on call c entry in
      let (o1, e1) =
        klog-Prints (codes "CPU0: psci_cpu_on target=") c
          (if is_negative rc then codes " rc=-" else codes " rc=") k free (omega arith) in
      let (o2, e2) =
        klog-Prints [] (magnitude rc) crlf (record k { uart_out = o1 }) free
          (psci_cpu_on-small c) in
      elim (Bool-cases (rc == 0)) [
        | inl z ↦
            let (o3, e3) = wait_for-Prints c online (record k { uart_out = o2 }) lt free in
            (o3, rw (e1, e2, z) e3)
        | inr z ↦ (o2, rw (e1, e2, z) refl)
      ]

  -- The cores that came up, core 0 among them.
  abbrev pub cores_up : ℕ
  cores_up = count (came_up 3) (count (came_up 2) (count (came_up 1) 1))

  start_cpus-Prints :
      (k : Kernel)
      → k.uart_lock ≡ 0
      → Prints (λ k'. some (cores_up, k')) k (start_cpus 3 call entry seen 1 1 k)
  unfolding start_cpus
  start_cpus-Prints k free =
      let n1 = count (came_up 1) 1 in
      let n2 = count (came_up 2) n1 in
      let (o1, e1) = start_cpu-Prints 1 1 k (omega arith) free in
      let (o2, e2) = start_cpu-Prints 2 n1 (record k { uart_out = o1 }) (omega arith) free in
      let (o3, e3) = start_cpu-Prints 3 n2 (record k { uart_out = o2 }) (omega arith) free in
      (o3, rw (e1, e2, e3) refl)

  cores_up-few : (1 ≤ cores_up) × (cores_up ≤ max_cpus)
  cores_up-few = (
    ground (arith, Bool-cases (came_up 1), Bool-cases (came_up 2), Bool-cases (came_up 3)),
    ground (arith, Bool-cases (came_up 1), Bool-cases (came_up 2), Bool-cases (came_up 3)),
  )

-- With the UART free and a flag that stays set once it is, `smp_boot_secondaries` comes back, whatever
-- the firmware answers and whichever cores start. `smp_online` is 1 and the number of cores 1 to 3 whose
-- call the firmware took and whose flag is set within 50,000,000 looks: 1 to 4 in all. In the kernel's
-- state only that number and the output change.
pub smp_boot_secondaries_lem :
    (call : Firmware) (entry mpidr : ℕ) (seen : Seen) (s : Smp)
    → ((c : ℕ) → seen.id c < 2 ^ 64)
    → ((c n : ℕ) → seen.alive c n ≡ true → seen.alive c (n + 1) ≡ true)
    → (kernel s.soc).uart_lock ≡ 0
    → let came_up = λ (c : ℕ). psci_cpu_on call c entry == 0 && seen.alive c spin_limit in
      let online = count (came_up 3) (count (came_up 2) (count (came_up 1) 1)) in
      (1 ≤ online)
      × (online ≤ max_cpus)
      × ((s' : Smp) × (out : List ℕ) × (smp_boot_secondaries call entry seen mpidr s ≡ some s')
          × (kernel s'.soc ≡ record (kernel s.soc) { smp_online = online; uart_out = out })
          × (s'.soc.dma.accel ≡ s.soc.dma.accel))
unfolding smp_boot_secondaries
smp_boot_secondaries_lem call entry mpidr seen s small stays free =
    let (lo, hi) = cores_up-few call entry seen small stays in
    let online = cores_up call entry seen small stays in
    let (o1, e1) = start_cpus-Prints call entry seen small stays (kernel s.soc) free in
    let (o2, e2) =
      klog-Prints (codes "CPUs online: ") online crlf (record (kernel s.soc) { uart_out = o1 }) free
        (omega (arith, hi)) in
    let k1 : Kernel = record (kernel s.soc) { smp_online = online; uart_out = o2 } in
    (
      lo,
      hi,
      (
        record s {
          soc = set_kernel k1 s.soc;
          boot_vbar = s.vbar 0;
          cpu_mpidr = update s.cpu_mpidr 0 mpidr;
          cpu_alive = update s.cpu_alive 0 1;
        },
        o2,
        rw (e1, e2) refl,
        refl,
        refl,
      ),
    )
