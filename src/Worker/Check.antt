-- ===== src/Worker/Check.antt =====
-- What a worker says of its copy when it runs again (`worker_entry` of kernel/main.c).
use mathlib.Core.List.{append-nil}
use aarch64_rtos.Prelude.{
  ℕ, bind-some, zero, suc, ◌+◌, ◌^◌, ◌≤◌, ◌<◌, ◌≡◌, ◌≢◌, ◌⊎◌, ◌>>=◌, refl, sym, ap, Bool, true,
  false, Bool-cases, inl, inr, some, List, [], ◌∷◌, ◌++◌, ◌==◌, ==→eq, ==→ne, if◌then◌else◌, update,
  codes, take, arith, ℕ_discrete,
}
use aarch64_rtos.Uart.{uart_puts}
use aarch64_rtos.Uart.Decimal.{IsNumeral, value_from}
use aarch64_rtos.Uart.Laws.{uart_puts_lem}
use aarch64_rtos.Lines.Buffer.{is_text, text-NoNul}
use aarch64_rtos.Debug.{decline}
use aarch64_rtos.Lines.Laws.{print_decline_lem}
use aarch64_rtos.Sched.Run.{current}
use aarch64_rtos.Accel.{Completion}
use aarch64_rtos.Dma.Worker.{test_len, read_result}
use aarch64_rtos.Worker.{
  Workers, set_kernel, prints, same_data, is_wrong, wrong_text, verdict_text, worker_check,
}

-- The verdict on the two buffers.
data Verdict (dst src : ℕ → ℕ) (lo hi : ℕ) : Bool → Type 0 where
  same : ((i : ℕ) → lo ≤ i → i < hi → dst i ≡ src i) → Verdict dst src lo hi true
  differ : (i : ℕ) → lo ≤ i → i < hi → dst i ≢ src i → Verdict dst src lo hi false

Verdict-below :
    (dst src : ℕ → ℕ) (lo hi : ℕ) (b : Bool)
    → dst lo ≡ src lo
    → Verdict dst src (lo + 1) hi b
    → Verdict dst src lo hi b
Verdict-below dst src lo hi _ e (same all) =
    same (λ i le lt. elim (ℕ_discrete i lo) [ yes at ↦ rw at e | no ne ↦ all i (omega arith) lt ])
Verdict-below dst src lo hi _ e (differ i le lt ne) = differ i (omega arith) lt ne

same_data-Verdict :
    (dst src : ℕ → ℕ) (rounds lo hi : ℕ)
    → hi ≡ lo + rounds
    → Verdict dst src lo hi (same_data dst src rounds lo)
unfolding same_data
same_data-Verdict dst src zero lo hi e = same (λ i le lt. absurd (omega arith))
same_data-Verdict dst src (suc rounds) lo hi e = elim (Bool-cases (dst lo == src lo)) [
  | inl z ↦ rw z (
      Verdict-below dst src lo hi _ (==→eq _ _ z)
        (same_data-Verdict dst src rounds (lo + 1) hi (omega arith)))
  | inr z ↦ rw z (differ lo (omega arith) (omega arith) (==→ne _ _ z))
]

-- What is said of a completion: nothing if it is the command's and has the status 0, else a warning.
pub data Complaint (cmd_id : ℕ) (c : Completion) : List ℕ → Type 0 where
  fine : c.cmd_id ≡ cmd_id → c.status ≡ 0 → Complaint cmd_id c []
  wrong :
      (c.cmd_id ≢ cmd_id) ⊎ (c.status ≢ 0)
      → Complaint cmd_id c (codes "P4 M7: !!! worker got wrong/bad completion !!!\r\n")

-- What is said of the copy: DATA OK if all 128 bytes have arrived, and DATA MISMATCH if one has not.
pub data Says (dst src : ℕ → ℕ) : List ℕ → Type 0 where
  data_ok :
      ((i : ℕ) → i < 128 → dst i ≡ src i) → Says dst src (codes "P4 M7: worker DATA OK, cmd_id=")
  mismatch :
      (i : ℕ)
      → i < 128
      → dst i ≢ src i
      → Says dst src (codes "P4 M7: worker DATA MISMATCH, cmd_id=")

Verdict-Says :
    (dst src : ℕ → ℕ) (ok : Bool) → Verdict dst src 0 128 ok → Says dst src (verdict_text ok)
Verdict-Says dst src _ (same all) = data_ok (λ i lt. all i (omega arith) lt)
Verdict-Says dst src _ (differ i le lt ne) = mismatch i lt ne

warn_lem :
    (me cmd_id : ℕ) (c : Completion) (w : Workers)
    → w.dma.kernel.uart_lock ≡ 0
    → (text : List ℕ) × Complaint cmd_id c text
      × ((if is_wrong cmd_id c then prints (uart_puts me wrong_text) w else some w)
          ≡ some (set_kernel (record w.dma.kernel { uart_out = w.dma.kernel.uart_out ++ text }) w))
warn_lem me cmd_id c w free = elim (Bool-cases (is_wrong cmd_id c)) [
  | inl z ↦ (
    wrong_text,
    wrong (elim (ℕ_discrete c.cmd_id cmd_id) [ yes e ↦ inr (ground (arith, z)) | no ne ↦ inl ne ]),
    rw (z, uart_puts_lem me wrong_text w.dma.kernel free) refl,
  )
  | inr z ↦ (
    [],
    fine (ground (arith, z)) (ground (arith, z)),
    rw z (
        ap (λ o. some (set_kernel (record w.dma.kernel { uart_out = o }) w))
          (sym (append-nil w.dma.kernel.uart_out))),
  )
]

decline_lem :
    (me v : ℕ) (prefix : List ℕ) (w : Workers)
    → is_text prefix ≡ true
    → w.dma.kernel.uart_lock ≡ 0
    → v < 2 ^ 64
    → (digits : List ℕ) × IsNumeral digits
      × (value_from 0 digits ≡ v)
      × (prints (decline me prefix v) w
          ≡ some (
              set_kernel
                (record w.dma.kernel {
                  uart_out = w.dma.kernel.uart_out ++ (take 40 prefix ++ digits ++ (13 ∷ 10 ∷ []));
                })
                w))
decline_lem me v prefix w text free small =
    let (digits, e, numeral, value) =
      print_decline_lem (λ _ _. 0) me v prefix w.dma.kernel (text-NoNul prefix text) free small in
    (digits, numeral, value, ap (λ o. o >>= λ k. some (set_kernel k w)) e)

verdict-text : (ok : Bool) → is_text (verdict_text ok) ≡ true
verdict-text true = refl
verdict-text false = refl

-- A line with a number
abbrev pub line : List ℕ → List ℕ → List ℕ
line prefix digits = take 40 prefix ++ digits ++ (13 ∷ 10 ∷ [])

-- With the UART free, a worker whose command has an entry in the table, with numbers that fit their
-- types, reports once and then counts as done, with nothing else changed: a warning if the completion is
-- not that of its command or has a status other than 0, and none if it is and has not; DATA OK with the
-- command's number if all 128 bytes have arrived, and DATA MISMATCH with it if one has not; and its load.
pub worker_check_lem :
    (me id cmd_id : ℕ) (comp : Completion) (w : Workers)
    → w.dma.kernel.uart_lock ≡ 0
    → read_result w.dma.pending cmd_id ≡ some comp
    → cmd_id < 2 ^ 64
    → (w.dma.kernel.tcbs (current me w.dma.kernel)).ewma_load < 2 ^ 32
    → (complaint verdict number load : List ℕ) × Complaint cmd_id comp complaint
      × Says (w.dst_buf id) (w.src_buf id) verdict
      × (value_from 0 number ≡ cmd_id)
      × (value_from 0 load ≡ (w.dma.kernel.tcbs (current me w.dma.kernel)).ewma_load)
      × (worker_check me id cmd_id w
          ≡ some (record w {
            loops_seen = update w.loops_seen id 1;
            dma = record w.dma {
              kernel = record w.dma.kernel {
                uart_out =
                    ((w.dma.kernel.uart_out ++ complaint) ++ line verdict number)
                    ++ line (codes "WORKER ewma=") load;
              };
            };
          }))
unfolding worker_check
worker_check_lem me id cmd_id comp w free found small load_small =
    let k = w.dma.kernel in
    let (complaint, said, e0) = warn_lem me cmd_id comp w free in
    let w1 = set_kernel (record k { uart_out = k.uart_out ++ complaint }) w in
    let ok = same_data (w.dst_buf id) (w.src_buf id) test_len 0 in
    let (number, _, v1, e1) =
      decline_lem me cmd_id (verdict_text ok) w1 (verdict-text ok) free small in
    let w2 =
      set_kernel
        (record k { uart_out = (k.uart_out ++ complaint) ++ line (verdict_text ok) number }) w in
    let w3 = record w2 { loops_seen = update w2.loops_seen id 1 } in
    let (load, _, v2, e2) =
      decline_lem me (k.tcbs (current me k)).ewma_load (codes "WORKER ewma=") w3 refl free
        (omega (arith, load_small)) in
    (
      complaint,
      verdict_text ok,
      number,
      load,
      said,
      Verdict-Says _ _ ok
          (same_data-Verdict (w.dst_buf id) (w.src_buf id) test_len 0 test_len refl),
      v1,
      v2,
      bind-some _ found (bind-some _ e0 (bind-some _ e1 e2)),
    )
