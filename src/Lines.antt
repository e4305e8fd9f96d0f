-- ===== src/Lines.antt =====
-- `print_hexline` and `print_decline` of kernel/main.c: a line is built in a buffer of 64 bytes and
-- sent as one string. A write outside the buffer is `none`.
pub mod Buffer
pub mod Laws
pub mod Printer
pub mod Report
use aarch64_rtos.Prelude.{
  ℕ, zero, suc, ◌+◌, ◌-◌, ◌*◌, ◌/◌, ◌%◌, ◌^◌, ◌>>=◌, Option, none, some, List, [], ◌∷◌, ltb,
  if◌then◌else◌, update, codes,
}
use aarch64_rtos.Kernel.{Kernel}
use aarch64_rtos.Uart.{uart_puts}
use aarch64_rtos.Uart.Decimal.{read_string, print_dec}

-- A buffer and the place of the next byte in it.
abbrev pub Cursor : Type 0
Cursor = ℕ × (ℕ → ℕ)

abbrev pub line_size : ℕ
line_size = 64

-- `line[i] = c`
unfoldable pub put : ℕ → ℕ → Cursor → Option (ℕ → ℕ)
put size c (i, buf) = if ltb i size then some (update buf i c) else none

-- `line[i++] = c`
unfoldable pub emit : ℕ → ℕ → Cursor → Option Cursor
emit size c at = put size c at >>= λ buf. some (at.0 + 1, buf)

unfoldable pub emit_all : ℕ → List ℕ → Cursor → Option Cursor
emit_all size [] at = some at
emit_all size (c ∷ s) at = emit size c at >>= emit_all size s

-- `while (prefix[i] && i < 40) { line[i] = prefix[i]; i++; }`, from the rest of the prefix
unfoldable pub copy_prefix : List ℕ → Cursor → Option Cursor
copy_prefix [] at = some at
copy_prefix (c ∷ s) at =
    let rest = emit line_size c at >>= copy_prefix s in if ltb at.0 40 then rest else some at

-- "0123456789abcdef"[d]
unfoldable pub hex_digit : ℕ → ℕ
hex_digit d = if ltb d 10 then b'0' + d else b'a' + d - 10

-- `for (i = 0; i < 16; i++) out[i] = hex[(v >> ((15 - i) * 4)) & 0xf];`, with `rounds` rounds left
unfoldable pub emit_hex : ℕ → ℕ → Cursor → Option Cursor
emit_hex zero v at = some at
emit_hex (suc rounds) v at =
    emit line_size (hex_digit (v / 2 ^ (rounds * 4) % 16)) at >>= emit_hex rounds v

-- `print_hex_into(&line[i], v); i += 16;`
unfoldable pub print_hex_into : ℕ → Cursor → Option Cursor
print_hex_into v at = do
  (i, buf) ← emit_hex 16 v at
  buf1 ← put line_size 0 (i, buf)
  some (i, buf1)

-- `print_dec_into(numbuf, v)`, with `numbuf` and `tmp` of 21 bytes, which hold `junk`
unfoldable pub print_dec_into : (ℕ → ℕ) → (ℕ → ℕ) → ℕ → Option (ℕ → ℕ)
print_dec_into junk numbuf v = do
  digits ← print_dec junk v
  at ← emit_all 21 digits (0, numbuf)
  put 21 0 at

-- `line[i++] = '\r'; line[i++] = '\n'; line[i] = 0; uart_puts(line);`
unfoldable pub finish_line : ℕ → Cursor → Kernel → Option Kernel
finish_line me at k = do
  end ← emit_all line_size (13 ∷ 10 ∷ []) at
  line ← put line_size 0 end
  text ← read_string line_size 0 line
  uart_puts me text k

-- `junk` is what the line's buffer held before.
unfoldable pub print_hexline : (ℕ → ℕ) → ℕ → List ℕ → ℕ → Kernel → Option Kernel
print_hexline junk me prefix v k = do
  at ← copy_prefix prefix (0, junk)
  at1 ← emit_all line_size (codes "0x") at
  at2 ← print_hex_into v at1
  finish_line me at2 k

-- `junk` is what the three buffers held before: the line, `tmp` and `numbuf`.
unfoldable pub print_decline : (ℕ → ℕ → ℕ) → ℕ → List ℕ → ℕ → Kernel → Option Kernel
print_decline junk me prefix v k = do
  at ← copy_prefix prefix (0, junk 0)
  numbuf ← print_dec_into (junk 1) (junk 2) v
  digits ← read_string 21 0 numbuf
  at1 ← emit_all line_size digits at
  finish_line me at1 k
