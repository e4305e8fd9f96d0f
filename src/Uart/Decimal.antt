-- ===== src/Uart/Decimal.antt =====
-- `uart_print_dec` of kernel/uart.c: the digits are written from the end of a buffer of 21 bytes.
use native.Mathlib.Nat.{pow-suc}
use native.Mathlib.Numerals.{add-one}
use aarch64_rtos.Prelude.{
  ℕ, zero, suc, ◌+◌, ◌-◌, ◌*◌, ◌/◌, ◌%◌, ◌^◌, ◌≤◌, ◌<◌, ◌≡◌, refl, ◌>>=◌, Option, none, some, List,
  [], ◌∷◌, arith, ◌==◌, if◌then◌else◌, update, Bool-cases, inl, inr, ==→eq, ap, ◌∙◌, sym,
}

-- `while (v > 0) { buf[--i] = '0' + (v % 10); v /= 10; }`; `none` is a write below the buffer.
unfoldable pub fill_dec : ℕ → ℕ → (ℕ → ℕ) → Option (ℕ × (ℕ → ℕ))
fill_dec zero v buf = if v == 0 then some (0, buf) else none
fill_dec (suc i) v buf =
    let rest = fill_dec i (v / 10) (update buf i (b'0' + v % 10)) in
    if v == 0 then some (suc i, buf) else rest

-- `while (buf[i]) uart_putc(buf[i++]);`; `none` is a read past the `n` bytes that are left.
unfoldable pub read_string : ℕ → ℕ → (ℕ → ℕ) → Option (List ℕ)
read_string zero i buf = none
read_string (suc n) i buf =
    let rest = read_string n (i + 1) buf in
    if buf i == 0 then some [] else (rest >>= λ s. some (buf i ∷ s))

-- The bytes that `uart_print_dec` sends. `junk` is what the buffer held before.
unfoldable pub print_dec : (ℕ → ℕ) → ℕ → Option (List ℕ)
print_dec junk v =
    let loop = fill_dec 20 v (update junk 20 0) >>= λ (i, buf). read_string (21 - i) i buf in
    if v == 0 then some (b'0' ∷ []) else loop

-- The number that a row of digits stands for, read after a number `acc`.
unfoldable pub value_from : ℕ → List ℕ → ℕ
value_from acc [] = acc
value_from acc (c ∷ s) = value_from (acc * 10 + (c - b'0')) s

abbrev pub IsNumeral : List ℕ → Type 0
IsNumeral [] = Unit {0}
IsNumeral (c ∷ s) = (b'0' ≤ c) × (c ≤ b'9') × IsNumeral s

-- A write below `i` does not change the string at `i`.
read_string-update :
    (n i j c : ℕ) (buf : ℕ → ℕ) → j < i → read_string n i (update buf j c) ≡ read_string n i buf
unfolding read_string update
read_string-update zero i j c buf h = refl
read_string-update (suc n) i j c buf h =
    ground (arith, read_string-update n (i + 1) j c buf (omega arith))

-- What the filled buffer holds from `i` on, where it held `s` when `v` was still to be written.
pub record Filled (v : ℕ) (s : List ℕ) (top : ℕ) (out : ℕ × (ℕ → ℕ)) : Type 0 where
  pub text : List ℕ
  pub reads : read_string (top - out.0) out.0 out.1 ≡ some text
  pub stands : value_from 0 text ≡ value_from v s
  pub numeral : IsNumeral text
  pub within : out.0 ≤ top

-- A byte put before the string at `i + 1`.
read_string-push :
    (n i c : ℕ) (buf : ℕ → ℕ) (s : List ℕ)
    → 0 < c
    → read_string n (suc i) buf ≡ some s
    → read_string (suc n) i (update buf i c) ≡ some (c ∷ s)
unfolding read_string update
read_string-push n i c buf s h r = ground (
  arith,
  read_string-update n (suc i) i c buf (omega arith),
  ap (λ j. read_string n j (update buf i c)) (add-one i),
)

value_from_step : (v : ℕ) (s : List ℕ) → value_from (v / 10) ((b'0' + v % 10) ∷ s) ≡ value_from v s
unfolding value_from
value_from_step v s = ap (λ a. value_from a s) (omega arith)

fill_dec-Filled :
    (i v : ℕ) (buf : ℕ → ℕ) (s : List ℕ) (top : ℕ)
    → v < 10 ^ i
    → i ≤ top
    → read_string (top - i) i buf ≡ some s
    → IsNumeral s
    → (out : ℕ × (ℕ → ℕ)) × (fill_dec i v buf ≡ some out) × Filled v s top out
unfolding fill_dec
fill_dec-Filled zero v buf s top h le r num =
    let e : v ≡ 0 = omega arith in
    (
      (0, buf),
      ground arith,
      record { text = s; reads = r; stands = rw e; numeral = num; within = le },
    )
fill_dec-Filled (suc i) v buf s top h le r num = elim (Bool-cases (v == 0)) [
  | inl e ↦ (
    (suc i, buf),
    rw e,
    record { text = s; reads = r; stands = rw (==→eq v 0 e); numeral = num; within = le },
  )
  | inr e ↦
      let c : ℕ = b'0' + v % 10 in
      let small : v / 10 < 10 ^ i = omega (arith, pow-suc 10 i) in
      let shift : suc (top - suc i) ≡ top - i = omega arith in
      let (out, eq, f) =
        fill_dec-Filled i (v / 10) (update buf i c) (c ∷ s) top small (omega arith)
          (rw (← shift) (read_string-push (top - suc i) i c buf s (omega arith) r))
          (omega arith, omega arith, num) in
      (
        out,
        rw e eq,
        record {
          text = f.text;
          reads = f.reads;
          stands = f.stands ∙ value_from_step v s;
          numeral = f.numeral;
          within = f.within;
        },
      )
]

-- Every 64-bit value is printed without a write or a read outside the buffer, and what is printed is
-- a row of decimal digits that stands for the value, whatever the buffer held before.
pub print_dec_lem :
    (junk : ℕ → ℕ) (v : ℕ)
    → v < 2 ^ 64
    → (s : List ℕ) × (print_dec junk v ≡ some s) × IsNumeral s × (value_from 0 s ≡ v)
unfolding print_dec value_from read_string update
print_dec_lem junk v h = elim (Bool-cases (v == 0)) [
  | inl e ↦ (b'0' ∷ [], rw e, omega arith, sym (==→eq v 0 e))
  | inr e ↦
      let (out, eq, f) =
        fill_dec-Filled 20 v (update junk 20 0) [] 21 (omega arith) (omega arith) refl tt in
      (f.text, rw (e, eq) f.reads, f.numeral, f.stands)
]
