-- ===== src/Crash/Laws.antt =====
-- The dump of a fault (kernel/main.c): what is printed, and when.
use aarch64_rtos.Prelude.{
  ℕ, zero, suc, ◌+◌, ◌^◌, ◌<◌, ◌≡◌, ◌≢◌, Option, none, some, List, [], ◌∷◌, ◌++◌, codes,
}
use aarch64_rtos.Kernel.{Kernel}
use aarch64_rtos.Sched.Run.{current}
use aarch64_rtos.Lines.Report.{Part, hex, dec, Rendered}
use aarch64_rtos.Dma.{Pending}
use aarch64_rtos.Boot.{Image}
use aarch64_rtos.Debug.{widen}
use aarch64_rtos.Debug.First.{FirstOf}
use aarch64_rtos.Crash.{register_name}
use aarch64_rtos.Crash.Who.{InStackOf, CurrentCode}

-- The words of a table of requests fit their types.
pub record IsWordTable (sem_address : ℕ → ℕ) (pending : ℕ → Pending) : Type 0 where
  pub used : (i : ℕ) → (pending i).used < 2 ^ 32
  pub done : (i : ℕ) → (pending i).done < 2 ^ 32
  pub cmd_id : (i : ℕ) → (pending i).cmd_id < 2 ^ 64
  pub sem : (i : ℕ) → sem_address i < 2 ^ 64

-- A line for each register, with the names from the `i`-th on
unfoldable pub named_lines : (ℕ → ℕ) → List (List ℕ) → ℕ → List Part
named_lines regs [] i = []
named_lines regs (name ∷ names) i = hex name (regs i) ∷ named_lines regs names (i + 1)

abbrev pub register_labels : List (List ℕ)
register_labels =
    codes " x0"
    ∷ codes " x1"
    ∷ codes " x2"
    ∷ codes " x3"
    ∷ codes " x4"
    ∷ codes " x5"
    ∷ codes " x6"
    ∷ codes " x7"
    ∷ codes " x8"
    ∷ codes " x9"
    ∷ codes " x10"
    ∷ codes " x11"
    ∷ codes " x12"
    ∷ codes " x13"
    ∷ codes " x14"
    ∷ codes " x15"
    ∷ codes " x16"
    ∷ codes " x17"
    ∷ codes " x18"
    ∷ codes " x19"
    ∷ codes " x20"
    ∷ codes " x21"
    ∷ codes " x22"
    ∷ codes " x23"
    ∷ codes " x24"
    ∷ codes " x25"
    ∷ codes " x26"
    ∷ codes " x27"
    ∷ codes " x28"
    ∷ codes " x29"
    ∷ codes " x30"
    ∷ []

-- The four lines of a request
abbrev pub request_lines : (ℕ → ℕ) → Pending → List Part
request_lines sem_address p =
    dec (codes "P4 M7: pending[i].used=") (widen p.used)
    ∷ dec (codes "P4 M7: pending[i].done=") (widen p.done)
    ∷ dec (codes "P4 M7: pending[i].cmd_id=") p.cmd_id
    ∷ hex (codes "P4 M7: pending[i].sem ptr=") (sem_address p.sem)
    ∷ []

-- The whole dump: ESR, ELR and the stack pointer, the worker that it is put down to, the 31 registers,
-- the current task, and the three requests.
abbrev pub dump_lines : (matched code : ℕ) → (sem_address regs : ℕ → ℕ) → (ℕ → Pending) → List Part
dump_lines matched code sem_address regs pending =
    hex (codes "SYNC EXCEPTION ESR=") (regs 31)
    ∷ hex (codes "SYNC EXCEPTION ELR=") (regs 32)
    ∷ hex (codes "SYNC EXCEPTION SP=") (regs 33)
    ∷ dec (codes "SYNC EXCEPTION SP belongs to worker (-1=none)=") (widen matched)
    ∷ (named_lines regs register_labels 0
        ++ (dec (codes "P4 M7: current task = ") code
            ∷ (request_lines sem_address (pending 0)
                ++ (request_lines sem_address (pending 1)
                    ++ (request_lines sem_address (pending 2) ++ [])))))

-- The same lines, with the names that the loop builds
unfoldable loop_lines : (ℕ → ℕ) → ℕ → ℕ → List Part
loop_lines regs zero i = []
loop_lines regs (suc rounds) i =
    hex (b' ' ∷ register_name i) (regs i) ∷ loop_lines regs rounds (i + 1)

-- Where the handler stays: in the loop behind its dump, or in the wait for the UART's lock.
pub data Crashed (img : Image) (me : ℕ) (sem_address regs : ℕ → ℕ) (pending : ℕ → Pending)
    (k : Kernel) : Option Kernel → Type 0 where
  stays :
      k.uart_lock ≡ 0
      → (matched code : ℕ) → FirstOf (InStackOf img (regs 33)) 0 3 matched
      → CurrentCode img (current me k) code
      → (out : List ℕ) → Rendered (dump_lines matched code sem_address regs pending) out
      → Crashed img me sem_address regs pending k (some (record k { uart_out = k.uart_out ++ out }))
  waits : k.uart_lock ≢ 0 → Crashed img me sem_address regs pending k none
