-- ===== src/Boot/Tasks.antt =====
-- The run queues after bring-up, and the tasks that `kernel_main` registers.
use Prim.Native.String.{String}
use aarch64_rtos.Prelude.{
  ℕ, bind-some, zero, suc, ◌+◌, ◌-◌, ◌%◌, ◌^◌, ◌≤◌, ◌<◌, ◌≡◌, refl, sym, ap, ◌∙◌, subst, Bool, true,
  false, ◌&&◌, ◌||◌, Option, some, List, [], ◌∷◌, ◌++◌, ◌==◌, ltb, leb, if◌then◌else◌, arith,
  all_below, all_below-lt, take, Bool-cases, inl, inr, codes, update,
}
use aarch64_rtos.Kernel.{Kernel, max_cpus}
use aarch64_rtos.Lines.{print_hexline}
use aarch64_rtos.Lines.Buffer.{text-NoNul}
use aarch64_rtos.Lines.Laws.{print_hexline_lem}
use aarch64_rtos.Sched.Run.{this_cpu, sched_register, sched_register_on}
use aarch64_rtos.Sched.Migrate.Queues.{Holds}
use aarch64_rtos.Irq.{kernel, set_kernel}
use aarch64_rtos.Irq.Total.{IsCalm}
use aarch64_rtos.Boot.{
  Image, Smp, Firmware, Seen, spin_limit, psci_cpu_on, test_tcb, pp_tcb, task_worker, busy_task,
  pin, percpu_init, set_daif, adopt_idle, add_task, add_pinned, add_ping_pong, adopt_tasks,
  start_interrupts, secondary_main, create_tasks, start_tasks, place_worker, place_tasks,
  run_secondaries, boot,
}
use aarch64_rtos.Boot.Start.{Prints, count, smp_boot_secondaries_lem}
use aarch64_rtos.Boot.Listed.{
  IsListed, can_join, can_all, after, can_all-append, after-append, has_task, has_on, count_on,
  join, set_tcb-IsListed, set_current-IsListed, percpu_init-IsListed, set_daif-IsListed,
  counted-IsListed, create-IsListed,
}

-- The tasks that a secondary core registers, and those that `kernel_main` places on `n` cores.
abbrev pub core_tasks : ℕ → List (ℕ × ℕ)
core_tasks cpu =
    (cpu, cpu)
    ∷ (cpu, test_tcb cpu 0)
    ∷ (cpu, test_tcb cpu 1)
    ∷ (if cpu == 1 then (cpu, pp_tcb 0) ∷ [] else if cpu == 2 then (cpu, pp_tcb 1) ∷ [] else [])

abbrev pub placed_tasks : ℕ → List (ℕ × ℕ)
placed_tasks n =
    (0 % n, task_worker 0) ∷ (1 % n, task_worker 1) ∷ (2 % n, task_worker 2) ∷ (0, busy_task) ∷ []

unfoldable secondary_tasks : ℕ → ℕ → List (ℕ × ℕ)
secondary_tasks zero cpu = []
secondary_tasks (suc rounds) cpu = core_tasks cpu ++ secondary_tasks rounds (cpu + 1)

-- The bring-up of `n` cores may register its tasks in this order.
unfoldable fits : ℕ → Bool
fits n = n == 0 || can_all (secondary_tasks (n - 1) 1 ++ placed_tasks n) []

module _ (img : Image) (own : (a b : ℕ) → img.address a ≡ img.address b → a ≡ b) where
  -- The registration of a core's tasks succeeds, from a kernel that holds those of `done`.
  abbrev Joins : ℕ → ℕ → List (ℕ × ℕ) → Option Kernel → Type 0
  Joins up n done result = (k' : Kernel) × (result ≡ some k') × IsListed img up n done k'

  module _ {up n : ℕ} {done : List (ℕ × ℕ)} (k : Kernel) (l : IsListed img up n done k) where
    adopt_idle-Joins :
        (cpu : ℕ)
        → can_join cpu cpu done ≡ true
        → Joins up n ((cpu, cpu) ∷ done) (adopt_idle img cpu k)
    unfolding adopt_idle
    adopt_idle-Joins cpu ok =
        join img own cpu cpu cpu _
          (set_current-IsListed _ (set_tcb-IsListed k l (img.address cpu) _ refl) cpu
            (img.address cpu))
          ok

    add_task-Joins :
        (cpu t : ℕ) (name : String)
        → can_join cpu t done ≡ true
        → Joins up n ((cpu, t) ∷ done) (add_task img cpu t name k)
    unfolding add_task
    add_task-Joins cpu t name ok = join img own cpu cpu t _ (create-IsListed k l t name) ok

    add_pinned-Joins :
        (cpu t : ℕ) (name : String)
        → can_join cpu t done ≡ true
        → Joins up n ((cpu, t) ∷ done) (add_pinned img cpu t name k)
    unfolding add_pinned pin
    add_pinned-Joins cpu t name ok =
        join img own cpu cpu t _
          (set_tcb-IsListed _ (create-IsListed k l t name) (img.address t) _ refl) ok

    place_worker-Joins :
        (i : ℕ)
        → can_join (i % n) (task_worker i) done ≡ true
        → Joins up n ((i % n, task_worker i) ∷ done) (place_worker img i k)
    unfolding place_worker
    place_worker-Joins i ok =
        let (k', e, l') = join img own 0 (i % n) (task_worker i) k l ok in
        let t = img.address (task_worker i) in
        (k', ap (λ m. sched_register_on 0 (i % m) t k) l.online ∙ e, l')

  place_tasks-Joins :
      {up n : ℕ} {done : List (ℕ × ℕ)} (k : Kernel)
      → IsListed img (suc up) n done k
      → can_all (placed_tasks n) done ≡ true
      → Joins (suc up) n (after (placed_tasks n) done) (place_tasks img k)
  unfolding place_tasks sched_register can_all after
  place_tasks-Joins k l ok =
      let (k1, e1, l1) = place_worker-Joins k l 0 (ground (arith, ok)) in
      let (k2, e2, l2) = place_worker-Joins k1 l1 1 (ground (arith, ok)) in
      let (k3, e3, l3) = place_worker-Joins k2 l2 2 (ground (arith, ok)) in
      let (k4, e4, l4) = join img own 0 0 busy_task k3 l3 (ground (arith, ok)) in
      (k4, rw (e1, e2, e3, l3.ids 0 (omega arith)) e4, l4)

  adopt_tasks-Joins :
      {up n : ℕ} {done : List (ℕ × ℕ)} (cpu : ℕ) (k : Kernel)
      → IsListed img up n done k
      → can_all (core_tasks cpu) done ≡ true
      → Joins up n (after (core_tasks cpu) done) (adopt_tasks img cpu k)
  unfolding adopt_tasks add_ping_pong can_all after
  adopt_tasks-Joins {done} cpu k l ok =
      let (k1, e1, l1) = adopt_idle-Joins k l cpu (ground (arith, ok)) in
      let (k2, e2, l2) = add_task-Joins k1 l1 cpu (test_tcb cpu 0) "sectest" (ground (arith, ok)) in
      let (k3, e3, l3) = add_task-Joins k2 l2 cpu (test_tcb cpu 1) "sectest" (ground (arith, ok)) in
      elim (Bool-cases (cpu == 1)) [
        | inl one ↦
            let (k4, e4, l4) =
              add_pinned-Joins k3 l3 cpu (pp_tcb 0) "ping" (ground (arith, ok, one)) in
            (k4, rw (e1, e2, e3, one) e4, rw one l4)
        | inr not_one ↦ elim (Bool-cases (cpu == 2)) [
          | inl two ↦
              let (k4, e4, l4) =
                add_pinned-Joins k3 l3 cpu (pp_tcb 1) "pong" (ground (arith, ok, not_one, two)) in
              (k4, rw (e1, e2, e3, not_one, two) e4, rw (not_one, two) l4)
          | inr not_two ↦ (k3, rw (e1, e2, e3, not_one, not_two) refl, rw (not_one, not_two) l3)
        ]
      ]

  secondary_main-Joins :
      {n : ℕ} {done : List (ℕ × ℕ)} (mpidr freq cpu : ℕ) (s : Smp)
      → IsListed img cpu n done (kernel s.soc)
      → cpu < max_cpus
      → can_all (core_tasks cpu) done ≡ true
      → (s' : Smp) × (secondary_main img mpidr freq cpu s ≡ some s')
        × IsListed img (cpu + 1) n (after (core_tasks cpu) done) (kernel s'.soc)
        × (s'.soc.dma.accel ≡ s.soc.dma.accel)
  unfolding secondary_main start_interrupts
  secondary_main-Joins mpidr freq cpu s l lt ok =
      let start : Kernel = percpu_init cpu (set_daif cpu 960 (kernel s.soc)) in
      let l1 = percpu_init-IsListed _ (set_daif-IsListed (kernel s.soc) l cpu 960) in
      let (k2, e2, l2) = adopt_tasks-Joins cpu start l1 ok in
      let in_range : leb max_cpus cpu ≡ false = ground arith in
      let here : Smp = record s {
        soc = set_kernel k2 s.soc;
        vbar = update s.vbar cpu s.boot_vbar;
        cpu_alive = update s.cpu_alive cpu 1;
        cpu_mpidr = update s.cpu_mpidr cpu mpidr;
        cpu_seen_id = update s.cpu_seen_id cpu (this_cpu cpu start).cpu_id;
      } in
      (
        start_interrupts cpu freq here,
        rw (in_range, e2) refl,
        set_daif-IsListed k2 l2 cpu (960 - 128),
        refl,
      )

  run_secondaries-Joins :
      {n : ℕ} (mpidr : ℕ → ℕ) (freq rounds cpu : ℕ) (done : List (ℕ × ℕ)) (s : Smp)
      → IsListed img cpu n done (kernel s.soc)
      → cpu + rounds ≤ max_cpus
      → can_all (secondary_tasks rounds cpu) done ≡ true
      → (s' : Smp) × (run_secondaries img mpidr freq rounds cpu s ≡ some s')
        × IsListed img (cpu + rounds) n (after (secondary_tasks rounds cpu) done) (kernel s'.soc)
        × (s'.soc.dma.accel ≡ s.soc.dma.accel)
  unfolding run_secondaries secondary_tasks after
  run_secondaries-Joins {n} mpidr freq zero cpu done s l lt ok =
      let same : cpu ≡ cpu + 0 = omega arith in
      (s, refl, subst (λ u. IsListed img u n done (kernel s.soc)) same l, refl)
  run_secondaries-Joins {n} mpidr freq (suc rounds) cpu done s l lt ok =
      let later = secondary_tasks rounds (cpu + 1) in
      let (first, rest) = can_all-append (core_tasks cpu) later done ok in
      let (s1, e1, l1, a1) = secondary_main-Joins (mpidr cpu) freq cpu s l (omega arith) first in
      let (s2, e2, l2, a2) =
        run_secondaries-Joins mpidr freq rounds (cpu + 1) (after (core_tasks cpu) done) s1 l1
          (omega arith) rest in
      let same : cpu + 1 + rounds ≡ cpu + suc rounds = omega arith in
      let both = sym (after-append (core_tasks cpu) later done) in
      (
        s2,
        rw e1 e2,
        subst (λ u. IsListed img u n (after (core_tasks cpu ++ later) done) (kernel s2.soc)) same
            (subst (λ d. IsListed img (cpu + 1 + rounds) n d (kernel s2.soc)) both l2),
        a2 ∙ a1,
      )

  start_tasks-IsListed :
      {n : ℕ} (freq : ℕ) (s : Smp)
      → IsListed img 1 n [] (kernel s.soc)
      → IsListed img 1 n [] (kernel (start_tasks img freq s).soc)
  unfolding start_tasks create_tasks
  start_tasks-IsListed freq s l =
      let l1 = create-IsListed (kernel s.soc) l (task_worker 0) "worker" in
      let l2 = create-IsListed _ l1 (task_worker 1) "worker" in
      let l3 = create-IsListed _ l2 (task_worker 2) "worker" in
      set_current-IsListed _ (create-IsListed _ l3 busy_task "busy") 0 (img.address (task_worker 0))

fits-all : all_below 5 fits ≡ true
unfolding fits secondary_tasks can_all can_join has_task count_on
fits-all = refl

fits_lem :
    (n : ℕ)
    → 1 ≤ n
    → n ≤ 4
    → (can_all (secondary_tasks (n - 1) 1) [] ≡ true)
      × (can_all (placed_tasks n) (after (secondary_tasks (n - 1) 1) []) ≡ true)
unfolding fits
fits_lem n lo hi =
    let t = all_below-lt 5 fits n fits-all (omega arith) in
    can_all-append (secondary_tasks (n - 1) 1) (placed_tasks n) [] (ground (arith, t))

worker_placed :
    (n i : ℕ) (done : List (ℕ × ℕ))
    → i < 3
    → has_on (i % n) (task_worker i) (after (placed_tasks n) done) ≡ true
unfolding after has_on
worker_placed n zero done lt = ground arith
worker_placed n (suc zero) done lt = ground arith
worker_placed n (suc (suc zero)) done lt = ground arith
worker_placed n (suc (suc (suc i))) done lt = absurd (omega arith)

busy_placed :
    (n : ℕ) (done : List (ℕ × ℕ)) → has_on 0 busy_task (after (placed_tasks n) done) ≡ true
unfolding after has_on
busy_placed n done = ground arith

-- The kernel after bring-up: calm, with the tasks of `kernel_main` in the queues of the `n` cores.
pub record IsUp (img : Image) (n : ℕ) (k : Kernel) : Type 0 where
  pub calm : IsCalm k
  pub numbered : (c : ℕ) → c < n → (this_cpu c k).cpu_id ≡ c
  pub workers : (i : ℕ) → i < 3 → Holds (k.runqueues (i % n)) (img.address (task_worker i))
  pub busy : Holds (k.runqueues 0) (img.address busy_task)

placed-IsUp :
    (img : Image) (n : ℕ) (done : List (ℕ × ℕ)) (k : Kernel)
    → 1 ≤ n
    → n ≤ 4
    → IsListed img (suc (n - 1)) n (after (placed_tasks n) done) k
    → IsUp img n k
placed-IsUp img n done k lo hi l = record {
  calm = record {
    valid = l.valid;
    free = l.free;
    quiet = l.quiet;
    online = (omega (arith, l.online), omega (arith, l.online));
  };
  numbered = λ c lt. l.ids c (omega arith);
  workers = λ i lt. l.holds (i % n) (task_worker i) (worker_placed n i done lt);
  busy = l.holds 0 busy_task (busy_placed n done);
}

print_hexline-Prints :
    (junk : ℕ → ℕ) (v : ℕ) (k : Kernel)
    → k.uart_lock ≡ 0
    → v < 2 ^ 64
    → Prints some k (print_hexline junk 0 (codes "CPU0: MPIDR_EL1=") v k)
print_hexline-Prints junk v k free lt =
    let prefix = codes "CPU0: MPIDR_EL1=" in
    let (digits, e, _, _) = print_hexline_lem junk 0 v prefix k (text-NoNul prefix refl) free lt in
    (k.uart_out ++ (take 40 prefix ++ codes "0x" ++ digits ++ (13 ∷ 10 ∷ [])), e)

-- From empty queues with no lock held and core 0 with its number, when the tasks have blocks of their
-- own and the cores that come up are the first `n`, bring-up comes to its end, with the accelerator's
-- driver as it was. Every queue is then well-formed, no lock is held,
-- each core knows its number, and worker `i` is in the queue of core `i % n`, the busy task in that of
-- core 0.
pub boot_lem :
    (junk : ℕ → ℕ) (img : Image) (call : Firmware) (entry : ℕ) (seen : Seen) (mpidr : ℕ → ℕ)
    (freq n m : ℕ) (s : Smp)
    → ((a b : ℕ) → img.address a ≡ img.address b → a ≡ b)
    → ((c : ℕ) → seen.id c < 2 ^ 64)
    → ((c i : ℕ) → seen.alive c i ≡ true → seen.alive c (i + 1) ≡ true)
    → mpidr 0 < 2 ^ 64
    → 1 ≤ n
    → n ≤ 4
    → ((c : ℕ)
        → 1 ≤ c
        → c < 4
        → (psci_cpu_on call c entry == 0 && seen.alive c spin_limit) ≡ ltb c n)
    → IsListed img 1 m [] (kernel s.soc)
    → (s' : Smp) × (boot junk img call entry seen mpidr freq n s ≡ some s')
      × IsUp img n (kernel s'.soc)
      × (s'.soc.dma.accel ≡ s.soc.dma.accel)
unfolding boot start_tasks
boot_lem junk img call entry seen mpidr freq n m s own small stays fits_mpidr lo hi started l =
    let up = λ (c : ℕ). psci_cpu_on call c entry == 0 && seen.alive c spin_limit in
    let s1 : Smp = start_tasks img freq s in
    let l1 = start_tasks-IsListed img own freq s l in
    let (log, e2) = print_hexline-Prints junk (mpidr 0) (kernel s1.soc) l1.quiet fits_mpidr in
    let l2 = counted-IsListed (kernel s1.soc) l1 (kernel s1.soc).smp_online log in
    let k2 : Kernel = record (kernel s1.soc) { uart_out = log } in
    let s2 : Smp = record s1 { soc = set_kernel k2 s1.soc } in
    let (_, _, (s3, out, e3, same, a3)) =
      smp_boot_secondaries_lem call entry (mpidr 0) seen s2 small stays l2.quiet in
    let number : count (up 3) (count (up 2) (count (up 1) 1)) ≡ n =
      ground (arith, started 1, started 2, started 3) in
    let l3 = counted-IsListed k2 l2 (count (up 3) (count (up 2) (count (up 1) 1))) out in
    let l3' : IsListed img 1 n [] (kernel s3.soc) =
      subst (λ k. IsListed img 1 n [] k) (sym same)
        (subst
          (λ c. IsListed img 1 c [] (record k2 {
            smp_online = count (up 3) (count (up 2) (count (up 1) 1));
            uart_out = out;
          }))
          number l3) in
    let (room, room') = fits_lem n lo hi in
    let (s4, e4, l4, a4) =
      run_secondaries-Joins img own mpidr freq (n - 1) 1 [] s3 l3' (omega arith) room in
    let cores : 1 + (n - 1) ≡ suc (n - 1) = omega arith in
    let done = after (secondary_tasks (n - 1) 1) [] in
    let l4' = subst (λ u. IsListed img u n done (kernel s4.soc)) cores l4 in
    let (k5, e5, l5) = place_tasks-Joins img own (kernel s4.soc) l4' room' in
    (
      record s4 { soc = set_kernel k5 s4.soc },
      bind-some _ e2 (bind-some _ e3 (bind-some _ e4 (bind-some _ e5 refl))),
      placed-IsUp img n done k5 lo hi l5,
      a4 ∙ a3,
    )
