-- ===== src/Lines/Laws.antt =====
-- What `print_hexline` and `print_decline` send.
use native.Mathlib.Nat.{div-div-eq-div-mul, pow-suc}
use aarch64_rtos.Prelude.{
  ℕ, zero, suc, ◌+◌, ◌-◌, ◌*◌, ◌/◌, ◌%◌, ◌^◌, ◌≤◌, ◌<◌, ◌≡◌, refl, sym, ap, ◌∙◌, some, List, [],
  ◌∷◌, ◌++◌, arith, ltb, if◌then◌else◌, length, length-append, take, length-take-le, codes, ◌==◌,
  Bool-cases, Option-cases, inl, inr, update,
}
use aarch64_rtos.Kernel.{Kernel}
use aarch64_rtos.Uart.Decimal.{
  read_string, fill_dec, print_dec, print_dec_lem, value_from, IsNumeral,
}
use aarch64_rtos.Uart.Laws.{uart_puts_lem}
use aarch64_rtos.Lines.{
  Cursor, line_size, hex_digit, print_dec_into, finish_line, print_hexline, print_decline,
}
use aarch64_rtos.Lines.Buffer.{
  Holds, chars, emit_all-Holds, copy_prefix-Holds, put-Holds, print_hex_into-Holds, hex_digits,
  length-hex_digits, NoNul, NoNul-append, NoNul-take, read-Holds,
}

-- The number that hexadecimal digits stand for, read after a number `acc`.
abbrev pub digit_value : ℕ → ℕ
digit_value c = if ltb c b'a' then c - b'0' else c - b'a' + 10

unfoldable pub hex_value : ℕ → List ℕ → ℕ
hex_value acc [] = acc
hex_value acc (c ∷ s) = hex_value (acc * 16 + digit_value c) s

digit_value-hex_digit : (d : ℕ) → d < 16 → digit_value (hex_digit d) ≡ d
unfolding hex_digit
digit_value-hex_digit d h = ground arith

next_place : (rounds v : ℕ) → v / 2 ^ (suc rounds * 4) ≡ v / 2 ^ (rounds * 4) / 16
next_place rounds v =
    let four : suc rounds * 4 ≡ suc (suc (suc (suc (rounds * 4)))) = omega arith in
    let e : 2 ^ (suc rounds * 4) ≡ 2 ^ (rounds * 4) * 16 = rw four (simp pow-suc (omega arith)) in
    rw e (sym (div-div-eq-div-mul v (2 ^ (rounds * 4)) 16))

-- Read after the places above, the digits give the whole number.
hex_value-hex_digits : (rounds v : ℕ) → hex_value (v / 2 ^ (rounds * 4)) (hex_digits rounds v) ≡ v
unfolding hex_value hex_digits
hex_value-hex_digits zero v = omega arith
hex_value-hex_digits (suc rounds) v =
    let q = v / 2 ^ (rounds * 4) in
    let whole : v / 2 ^ (suc rounds * 4) * 16 + digit_value (hex_digit (q % 16)) ≡ q =
      rw (next_place rounds v, digit_value-hex_digit (q % 16) (omega arith)) (omega arith) in
    ap (λ acc. hex_value acc (hex_digits rounds v)) whole ∙ hex_value-hex_digits rounds v

NoNul-hex_digits : (rounds v : ℕ) → NoNul (hex_digits rounds v)
unfolding hex_digits hex_digit
NoNul-hex_digits zero v = tt
NoNul-hex_digits (suc rounds) v = (ground arith, NoNul-hex_digits rounds v)

start-Holds : (junk : ℕ → ℕ) (size : ℕ) → Holds size [] (0, junk)
unfolding chars
start-Holds junk size = record { place = refl; room = omega arith; chars_are = refl }

finish_line_lem :
    (me : ℕ) (text : List ℕ) (at : Cursor) (k : Kernel)
    → Holds line_size text at
    → length text + 2 < line_size
    → NoNul text
    → k.uart_lock ≡ 0
    → finish_line me at k ≡ some (record k { uart_out = k.uart_out ++ (text ++ (13 ∷ 10 ∷ [])) })
unfolding finish_line
finish_line_lem me text at k h lt p free =
    let line = text ++ (13 ∷ 10 ∷ []) in
    let (end, e, h1) = emit_all-Holds line_size (13 ∷ 10 ∷ []) text at h (omega arith) in
    let short : length line < line_size = omega (arith, length-append text (13 ∷ 10 ∷ [])) in
    let whole : NoNul line = NoNul-append text (13 ∷ 10 ∷ []) p (omega arith, (omega arith, tt)) in
    let (w, h2) = put-Holds line_size 0 line end h1 short in
    rw (e, w, read-Holds line_size line end h1 short whole) (uart_puts_lem me line k free)

pub print_hexline_lem :
    (junk : ℕ → ℕ) (me v : ℕ) (prefix : List ℕ) (k : Kernel)
    → NoNul prefix
    → k.uart_lock ≡ 0
    → v < 2 ^ 64
    → (digits : List ℕ) × (print_hexline junk me prefix v k
        ≡ some (record k {
          uart_out = k.uart_out ++ (take 40 prefix ++ codes "0x" ++ digits ++ (13 ∷ 10 ∷ []));
        }))
      × (length digits ≡ 16)
      × (hex_value 0 digits ≡ v)
unfolding print_hexline
print_hexline_lem junk me v prefix k p free small =
    let (at, e, h) =
      copy_prefix-Holds prefix [] (0, junk) (start-Holds junk line_size) (omega arith) in
    let len = length-take-le 40 prefix in
    let (at1, e1, h1) = emit_all-Holds line_size (codes "0x") (take 40 prefix) at h (omega arith) in
    let len1 = length-append (take 40 prefix) (codes "0x") in
    let (at2, e2, h2) =
      print_hex_into-Holds v (take 40 prefix ++ codes "0x") at1 h1 (omega arith) in
    let len2 = length-append (take 40 prefix ++ codes "0x") (hex_digits 16 v) in
    let sent =
      finish_line_lem me (take 40 prefix ++ codes "0x" ++ hex_digits 16 v) at2 k h2
        (omega (arith, length-hex_digits 16 v))
        (NoNul-append (take 40 prefix ++ codes "0x") (hex_digits 16 v)
          (NoNul-append (take 40 prefix) (codes "0x") (NoNul-take 40 prefix p)
            (omega arith, (omega arith, tt)))
          (NoNul-hex_digits 16 v))
        free in
    let high : v / 2 ^ (16 * 4) ≡ 0 = omega arith in
    (
      hex_digits 16 v,
      rw (e, e1, e2) sent,
      length-hex_digits 16 v,
      rw high at (hex_value-hex_digits 16 v),
    )

-- Digits are no zero bytes.
numeral-NoNul : (s : List ℕ) → IsNumeral s → NoNul s
numeral-NoNul [] n = tt
numeral-NoNul (c ∷ s) n = (omega (arith, n), numeral-NoNul s n.2)

-- What is read from a string of `n` bytes is shorter.
read_string-length :
    (n i : ℕ) (buf : ℕ → ℕ) (s : List ℕ) → read_string n i buf ≡ some s → length s < n
unfolding read_string
read_string-length zero i buf s e = cc
read_string-length (suc n) i buf s e = elim (Bool-cases (buf i == 0)) [
  | inl z ↦ let empty : s ≡ [] = ground (arith, e, z) in rw empty (omega arith)
  | inr z ↦ elim (Option-cases (read_string n (i + 1) buf)) [
    | inl r ↦ ground (arith, e, z, r)
    | inr (t, r) ↦
        let whole : s ≡ buf i ∷ t = ground (arith, e, z, r) in
        rw whole (omega (arith, read_string-length n (i + 1) buf t r))
  ]
]

print_dec-length : (junk : ℕ → ℕ) (v : ℕ) (s : List ℕ) → print_dec junk v ≡ some s → length s ≤ 20
unfolding print_dec
print_dec-length junk v s e = elim (Bool-cases (v == 0)) [
  | inl z ↦ let zero_digit : s ≡ b'0' ∷ [] = ground (arith, e, z) in rw zero_digit (omega arith)
  | inr z ↦ elim (Option-cases (fill_dec 20 v (update junk 20 0))) [
    | inl f ↦ ground (arith, e, z, f)
    | inr ((i, buf), f) ↦
        omega (arith, read_string-length (21 - i) i buf s (ground (arith, e, z, f)))
  ]
]

-- For a prefix with no zero byte in it and the UART's lock free, `print_decline` comes back: within its
-- buffers it builds the first 40 bytes of the prefix, decimal digits and the end of the line, and
-- sends just that; the digits, read back, are the value, whatever the buffers held before.
pub print_decline_lem :
    (junk : ℕ → ℕ → ℕ) (me v : ℕ) (prefix : List ℕ) (k : Kernel)
    → NoNul prefix
    → k.uart_lock ≡ 0
    → v < 2 ^ 64
    → (digits : List ℕ) × (print_decline junk me prefix v k
        ≡ some (record k { uart_out = k.uart_out ++ (take 40 prefix ++ digits ++ (13 ∷ 10 ∷ [])) }))
      × IsNumeral digits
      × (value_from 0 digits ≡ v)
unfolding print_decline print_dec_into
print_decline_lem junk me v prefix k p free small =
    let (at, e, h) =
      copy_prefix-Holds prefix [] (0, junk 0) (start-Holds (junk 0) line_size) (omega arith) in
    let len = length-take-le 40 prefix in
    let (digits, d, numeral, value) = print_dec_lem (junk 1) v small in
    let few = print_dec-length (junk 1) v digits d in
    let (num, n, hn) =
      emit_all-Holds 21 digits [] (0, junk 2) (start-Holds (junk 2) 21) (omega arith) in
    let (w, _) = put-Holds 21 0 digits num hn (omega arith) in
    let r = read-Holds 21 digits num hn (omega arith) (numeral-NoNul digits numeral) in
    let (at1, e1, h1) = emit_all-Holds line_size digits (take 40 prefix) at h (omega arith) in
    let sent =
      finish_line_lem me (take 40 prefix ++ digits) at1 k h1
        (omega (arith, length-append (take 40 prefix) digits))
        (NoNul-append (take 40 prefix) digits (NoNul-take 40 prefix p)
          (numeral-NoNul digits numeral))
        free in
    (digits, rw (e, d, n, w, r, e1) sent, numeral, value)
