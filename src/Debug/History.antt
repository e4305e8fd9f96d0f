-- ===== src/Debug/History.antt =====
-- The history of switches of kernel/main.c as a ring, and its dump.
use aarch64_rtos.Prelude.{
  ℕ, zero, suc, ◌+◌, ◌-◌, ◌%◌, ◌<◌, ◌≡◌, ◌≢◌, ◌>>=◌, refl, sym, ap, ◌∙◌, fun_ext, Option, none,
  some, List, [], ◌∷◌, ◌++◌, arith, take, take-nil, update, codes, Option-cases, inl, inr,
}
use mathlib.Core.List.{reverse, reverse-cons}
use aarch64_rtos.Kernel.{Kernel}
use aarch64_rtos.Uart.{uart_puts}
use aarch64_rtos.Boot.{Image}
use aarch64_rtos.Debug.{
  SwitchEntry, SwitchHist, switch_hist_len, task_id, put_entry, record_switch, print_entry,
  print_slot, dump_slots, dump_switch_hist,
}

-- A switch: where, from which task, to which.
pub record Switch : Type 0 where
  pub site : List ℕ
  pub prev : ℕ
  pub next : ℕ

abbrev pub no_entry : SwitchEntry
no_entry = record { site = none; prev_id = 0; next_id = 0 }

-- The history of a list of switches, the last one first in the list.
unfoldable pub history : Image → List Switch → SwitchHist
history img [] = record { entries = λ _. no_entry; idx = 0 }
history img (s ∷ before) = record_switch img s.site s.prev s.next (history img before)

abbrev pub entry_of : Image → Switch → SwitchEntry
entry_of img s = record {
  site = some s.site;
  prev_id = task_id img s.prev;
  next_id = task_id img s.next;
}

-- The entry of the switch that is `age` switches old
aged : Image → ℕ → List Switch → SwitchEntry
aged img age [] = no_entry
aged img zero (s ∷ before) = entry_of img s
aged img (suc age) (s ∷ before) = aged img age before

history-idx : (img : Image) (switches : List Switch) → (history img switches).idx < switch_hist_len
unfolding history record_switch put_entry
history-idx img [] = omega arith
history-idx img (s ∷ before) = omega arith

-- Each age has a slot of its own.
history-aged :
    (img : Image) (switches : List Switch) (age : ℕ)
    → age < switch_hist_len
    → (history img switches).entries (((history img switches).idx + 15 - age) % switch_hist_len)
      ≡ aged img age switches
unfolding history record_switch put_entry aged update
history-aged img [] age lt = refl
history-aged img (s ∷ before) zero lt = ground (arith, history-idx img before)
history-aged img (s ∷ before) (suc age) lt =
    let idx = (history img before).idx in
    let same : ((idx + 1) % switch_hist_len + 15 - suc age) % switch_hist_len
        ≡ (idx + 15 - age) % switch_hist_len =
      omega (arith, history-idx img before) in
    let other : idx ≢ (idx + 15 - age) % switch_hist_len = omega (arith, history-idx img before) in
    rw same (ground (arith, other, history-aged img before age (omega arith)))

-- The switch that is `age` switches old, if there are so many
unfoldable nth : ℕ → List Switch → Option Switch
nth age [] = none
nth zero (s ∷ before) = some s
nth (suc age) (s ∷ before) = nth age before

unfoldable pub print_switches : Image → ℕ → List Switch → Kernel → Option Kernel
print_switches img me [] k = some k
print_switches img me (s ∷ later) k =
    print_entry me s.site (entry_of img s) k >>= print_switches img me later

-- The switches younger than `n`, the oldest first
oldest_first : ℕ → List Switch → List Switch
oldest_first zero switches = []
oldest_first (suc n) switches = elim (nth n switches) [
  | none ↦ oldest_first n switches
  | some s ↦ s ∷ oldest_first n switches
]

print_slot-aged :
    (img : Image) (me age : ℕ) (switches : List Switch) (k : Kernel)
    → print_slot me (aged img age switches) k ≡ (elim (nth age switches) [
      | none ↦ some k
      | some s ↦ print_entry me s.site (entry_of img s) k
    ])
unfolding print_slot aged nth
print_slot-aged img me age [] k = refl
print_slot-aged img me zero (s ∷ before) k = refl
print_slot-aged img me (suc age) (s ∷ before) k = print_slot-aged img me age before k

dump_slots-oldest_first :
    (img : Image) (me : ℕ) (switches : List Switch) (rounds i : ℕ) (k : Kernel)
    → rounds + i ≡ switch_hist_len
    → dump_slots me (history img switches) rounds i k
      ≡ print_switches img me (oldest_first rounds switches) k
unfolding dump_slots oldest_first print_switches
dump_slots-oldest_first img me switches zero i k e = refl
dump_slots-oldest_first img me switches (suc rounds) i k e =
    let idx = (history img switches).idx in
    let place : idx + i ≡ idx + 15 - rounds = omega (arith, e) in
    let slot : (history img switches).entries ((idx + i) % switch_hist_len)
        ≡ aged img rounds switches =
      ap (λ p. (history img switches).entries (p % switch_hist_len)) place
      ∙ history-aged img switches rounds (omega arith) in
    let later : (k' : Kernel)
        → dump_slots me (history img switches) rounds (i + 1) k'
          ≡ print_switches img me (oldest_first rounds switches) k' =
      λ k'. dump_slots-oldest_first img me switches rounds (i + 1) k' (omega arith) in
    ap (λ s. print_slot me s k >>= dump_slots me (history img switches) rounds (i + 1)) slot
    ∙ ap (λ o. o >>= dump_slots me (history img switches) rounds (i + 1))
        (print_slot-aged img me rounds switches k)
    ∙ elim (Option-cases (nth rounds switches)) [
      | inl h ↦ rw (h, oldest_first) (later k)
      | inr (s, h) ↦
          rw (h, oldest_first, print_switches)
            (ap (λ f. print_entry me s.site (entry_of img s) k >>= f) (fun_ext later))
    ]

oldest_first-cons :
    (n : ℕ) (s : Switch) (before : List Switch)
    → oldest_first (suc n) (s ∷ before) ≡ oldest_first n before ++ (s ∷ [])
unfolding oldest_first nth
oldest_first-cons zero s before = refl
oldest_first-cons (suc n) s before = elim (Option-cases (nth n before)) [
  | inl h ↦ rw (h, oldest_first) (oldest_first-cons n s before)
  | inr (x, h) ↦ rw (h, oldest_first) (ap (λ l. x ∷ l) (oldest_first-cons n s before))
]

oldest_first-take :
    (n : ℕ) (switches : List Switch) → oldest_first n switches ≡ reverse (take n switches)
unfolding oldest_first nth
oldest_first-take zero switches = refl
oldest_first-take (suc n) [] = oldest_first-take n [] ∙ ap reverse (take-nil n)
oldest_first-take (suc n) (s ∷ before) =
    oldest_first-cons n s before
    ∙ ap (λ l. l ++ (s ∷ [])) (oldest_first-take n before)
    ∙ sym (reverse-cons s (take n before))

-- After any list of switches, the dump prints its heading and then the last sixteen of them, or all
-- if they are fewer, each with its site and its two task numbers, the oldest one first.
pub dump_switch_hist_lem :
    (img : Image) (me : ℕ) (switches : List Switch) (k : Kernel)
    → dump_switch_hist me (history img switches) k ≡ (
        uart_puts me (codes "CORRUPT sp: recent switch history (oldest first)\r\n") k
        >>= print_switches img me (reverse (take switch_hist_len switches)))
unfolding dump_switch_hist
dump_switch_hist_lem img me switches k =
    ap (λ f. uart_puts me (codes "CORRUPT sp: recent switch history (oldest first)\r\n") k >>= f)
      (fun_ext (λ k'.
        dump_slots-oldest_first img me switches switch_hist_len 0 k' (omega arith)
        ∙ ap (λ l. print_switches img me l k') (oldest_first-take switch_hist_len switches)))
