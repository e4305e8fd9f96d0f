-- ===== src/Boot/Listed.antt =====
-- What the run queues hold during bring-up.
use Prim.Native.String.{String}
use aarch64_rtos.Prelude.{
  ℕ, ◌+◌, ◌<◌, ◌≡◌, refl, sym, ap, ◌∙◌, Bool, true, false, not, ◌&&◌, ◌||◌, some, List, [], ◌∷◌,
  ◌++◌, ◌==◌, ltb, if◌then◌else◌, arith, Bool-cases, inl, inr, update, lt→ltb,
}
use aarch64_rtos.Kernel.{Kernel, Tcb, max_cpus, max_tasks}
use aarch64_rtos.Sched.Run.{set_tcb, set_current, enlist, sched_register_on}
use aarch64_rtos.Sched.Locked.{sched_register_on_lem}
use aarch64_rtos.Sched.Valid.{IsValid, IsUnlisted}
use aarch64_rtos.Sched.Valid.Keep.{enlist-IsValid, IsValid-set_tcb}
use aarch64_rtos.Sched.Migrate.Queues.{Holds}
use aarch64_rtos.Task.{task_init}
use aarch64_rtos.Boot.{Image, create, percpu_init, set_daif}

-- A list of registrations: cores with tasks.
unfoldable pub has_task : ℕ → List (ℕ × ℕ) → Bool
has_task t [] = false
has_task t ((c, u) ∷ done) = t == u || has_task t done

unfoldable pub has_on : ℕ → ℕ → List (ℕ × ℕ) → Bool
has_on c t [] = false
has_on c t ((d, u) ∷ done) = (c == d && t == u) || has_on c t done

unfoldable pub count_on : ℕ → List (ℕ × ℕ) → ℕ
count_on c [] = 0
count_on c ((d, u) ∷ done) = if c == d then count_on c done + 1 else count_on c done

-- A task may be registered after those of `done`, and tasks one after the other.
unfoldable pub can_join : ℕ → ℕ → List (ℕ × ℕ) → Bool
can_join c t done = not (has_task t done) && ltb (count_on c done) max_tasks && ltb c max_cpus

unfoldable pub can_all : List (ℕ × ℕ) → List (ℕ × ℕ) → Bool
can_all [] done = true
can_all ((c, t) ∷ rest) done = can_join c t done && can_all rest ((c, t) ∷ done)

unfoldable pub after : List (ℕ × ℕ) → List (ℕ × ℕ) → List (ℕ × ℕ)
after [] done = done
after ((c, t) ∷ rest) done = after rest ((c, t) ∷ done)

pub can_all-append :
    (a b done : List (ℕ × ℕ))
    → can_all (a ++ b) done ≡ true
    → (can_all a done ≡ true) × (can_all b (after a done) ≡ true)
unfolding can_all after
can_all-append [] b done ok = (refl, ok)
can_all-append ((c, t) ∷ a) b done ok =
    let (first, rest) = can_all-append a b ((c, t) ∷ done) (ground (arith, ok)) in
    (ground (arith, ok, first), rest)

pub after-append : (a b done : List (ℕ × ℕ)) → after (a ++ b) done ≡ after b (after a done)
unfolding after
after-append [] b done = refl
after-append ((c, t) ∷ a) b done = after-append a b ((c, t) ∷ done)

-- The queues are well-formed and hold just the tasks of `done`, no lock is held, the first `up` cores
-- know their number, and `smp_online` is `n`.
pub record IsListed (img : Image) (up n : ℕ) (done : List (ℕ × ℕ)) (k : Kernel) : Type 0 where
  pub valid : IsValid k
  pub free : (q : ℕ) → (k.runqueues q).lock ≡ 0
  pub quiet : k.uart_lock ≡ 0
  pub counts : (c : ℕ) → (k.runqueues c).num_tasks ≡ count_on c done
  pub listed :
      (c i : ℕ)
      → i < (k.runqueues c).num_tasks
      → (t : ℕ) × (has_task t done ≡ true) × ((k.runqueues c).tasks i ≡ img.address t)
  pub holds : (c t : ℕ) → has_on c t done ≡ true → Holds (k.runqueues c) (img.address t)
  pub ids : (c : ℕ) → c < up → (k.cpu_locals c).cpu_id ≡ c
  pub online : k.smp_online ≡ n

module _ (img : Image) (own : (a b : ℕ) → img.address a ≡ img.address b → a ≡ b) where
  unlisted :
      {up n : ℕ} {done : List (ℕ × ℕ)} (t : ℕ) (k : Kernel)
      → IsListed img up n done k
      → has_task t done ≡ false
      → IsUnlisted (img.address t) k
  unlisted t k l fresh c i lt h e =
      let (u, has, at) = l.listed c i h in
      let same : t ≡ u = own t u (sym e ∙ at) in ground (arith, fresh, has, same)

  enlist-IsListed :
      {up n : ℕ} {done : List (ℕ × ℕ)} (me c t : ℕ) (k : Kernel)
      → IsListed img up n done k
      → c < max_cpus
      → has_task t done ≡ false
      → count_on c done < max_tasks
      → IsListed img up n ((c, t) ∷ done) (enlist me c (img.address t) k)
  unfolding enlist update has_task has_on count_on
  enlist-IsListed {done} me c t k l lt fresh room = record {
    valid =
        enlist-IsValid me c (img.address t) k lt (omega (arith, l.counts c)) (unlisted t k l fresh)
          l.valid;
    free = λ q. ground (arith, l.free q);
    quiet = l.quiet;
    counts = λ d. ground (arith, l.counts d);
    listed = λ d i h. elim (Bool-cases (c == d && i == (k.runqueues c).num_tasks)) [
      | inl e ↦ (t, ground arith, ground (arith, e))
      | inr e ↦
          let (u, has, at) = l.listed d i (ground (arith, e, h)) in
          (u, ground (arith, has), ground (arith, e, at, h))
    ];
    holds = λ d u h. elim (Bool-cases (c == d && u == t)) [
      | inl e ↦
          let same : img.address t ≡ img.address u = ap img.address (ground (arith, e)) in
          ((k.runqueues d).num_tasks, ground (arith, e), ground (arith, e, same))
      | inr e ↦
          let (i, lt', at) = l.holds d u (ground (arith, h, e)) in
          (i, ground (arith, lt'), ground (arith, at, lt'))
    ];
    ids = l.ids;
    online = l.online;
  }

  -- A task that is not registered yet is taken in by a queue with room.
  pub join :
      {up n : ℕ} {done : List (ℕ × ℕ)} (me c t : ℕ) (k : Kernel)
      → IsListed img up n done k
      → can_join c t done ≡ true
      → (k' : Kernel) × (sched_register_on me c (img.address t) k ≡ some k')
        × IsListed img up n ((c, t) ∷ done) k'
  unfolding can_join
  join {done} me c t k l ok =
      let fresh : has_task t done ≡ false = ground (arith, ok) in
      let room : count_on c done < max_tasks = ground (arith, ok) in
      let lt : c < max_cpus = ground (arith, ok) in
      (
        enlist me c (img.address t) k,
        sched_register_on_lem me c (img.address t) k (l.free c)
            ∙ rw (lt→ltb (k.runqueues c).num_tasks max_tasks (omega (arith, l.counts c))) refl,
        enlist-IsListed me c t k l lt fresh room,
      )

module _ {img : Image} {up n : ℕ} {done : List (ℕ × ℕ)} (k : Kernel)
    (l : IsListed img up n done k) where
  pub set_tcb-IsListed :
      (t : ℕ) (b : Tcb) → b.cpu ≡ (k.tcbs t).cpu → IsListed img up n done (set_tcb t b k)
  set_tcb-IsListed t b e = record {
    valid = IsValid-set_tcb t b k e l.valid;
    free = l.free;
    quiet = l.quiet;
    counts = l.counts;
    listed = l.listed;
    holds = l.holds;
    ids = l.ids;
    online = l.online;
  }

  pub set_current-IsListed : (me t : ℕ) → IsListed img up n done (set_current me t k)
  unfolding update
  set_current-IsListed me t = record {
    valid = l.valid;
    free = l.free;
    quiet = l.quiet;
    counts = l.counts;
    listed = l.listed;
    holds = l.holds;
    ids = λ c lt. ground (arith, l.ids c);
    online = l.online;
  }

  -- The next core takes its number.
  pub percpu_init-IsListed : IsListed img (up + 1) n done (percpu_init up k)
  unfolding percpu_init update
  percpu_init-IsListed = record {
    valid = l.valid;
    free = l.free;
    quiet = l.quiet;
    counts = l.counts;
    listed = l.listed;
    holds = l.holds;
    ids = λ c lt. ground (arith, l.ids c);
    online = l.online;
  }

  pub set_daif-IsListed : (me d : ℕ) → IsListed img up n done (set_daif me d k)
  set_daif-IsListed me d = record {
    valid = l.valid;
    free = l.free;
    quiet = l.quiet;
    counts = l.counts;
    listed = l.listed;
    holds = l.holds;
    ids = l.ids;
    online = l.online;
  }

  -- Output, and a new number of cores.
  pub counted-IsListed :
      (m : ℕ) (out : List ℕ) → IsListed img up m done (record k { smp_online = m; uart_out = out })
  counted-IsListed m out = record {
    valid = l.valid;
    free = l.free;
    quiet = l.quiet;
    counts = l.counts;
    listed = l.listed;
    holds = l.holds;
    ids = l.ids;
    online = refl;
  }

  -- A new task, which no queue holds yet.
  pub create-IsListed : (t : ℕ) (name : String) → IsListed img up n done (create img t name k)
  unfolding create task_init
  create-IsListed t name = set_tcb-IsListed (img.address t) _ refl
