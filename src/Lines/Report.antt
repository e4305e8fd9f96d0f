-- ===== src/Lines/Report.antt =====
-- Reports of several lines: what a program sends that prints one line after the other with
-- `uart_puts`, `print_hexline` and `print_decline`.
use mathlib.Core.List.{append_assoc, append-nil}
use aarch64_rtos.Prelude.{
  ℕ, ◌^◌, ◌<◌, ◌≡◌, ◌>>=◌, ap, sym, ◌∙◌, subst, true, Option, some, List, [], ◌∷◌, ◌++◌, codes,
  take, length,
}
use aarch64_rtos.Kernel.{Kernel}
use aarch64_rtos.Uart.{uart_puts}
use aarch64_rtos.Uart.Decimal.{value_from, IsNumeral}
use aarch64_rtos.Uart.Laws.{uart_puts_lem}
use aarch64_rtos.Lines.{print_hexline, print_decline}
use aarch64_rtos.Lines.Buffer.{is_text, text-NoNul}
use aarch64_rtos.Lines.Laws.{hex_value, print_hexline_lem, print_decline_lem}

-- A part of a report: a text as it is, or a line with a label and a number.
pub data Part : Type 0 where
  text : List ℕ → Part
  hex : (label : List ℕ) (value : ℕ) → Part
  dec : (label : List ℕ) (value : ℕ) → Part

-- The bytes of a part. A line has the first 40 bytes of its label, the digits that stand for the number,
-- and the end of the line.
pub data Bytes : Part → List ℕ → Type 0 where
  as_text : (s : List ℕ) → Bytes (text s) s
  as_hex :
      (label : List ℕ) (value : ℕ) (digits : List ℕ)
      → length digits ≡ 16
      → hex_value 0 digits ≡ value
      → Bytes (hex label value) (take 40 label ++ codes "0x" ++ digits ++ (13 ∷ 10 ∷ []))
  as_dec :
      (label : List ℕ) (value : ℕ) (digits : List ℕ)
      → IsNumeral digits
      → value_from 0 digits ≡ value
      → Bytes (dec label value) (take 40 label ++ digits ++ (13 ∷ 10 ∷ []))

-- The bytes of a report, part after part
pub data Rendered : List Part → List ℕ → Type 0 where
  nothing : Rendered [] []
  then_part :
      {p : Part} {a : List ℕ} {parts : List Part} {out : List ℕ}
      → Bytes p a
      → Rendered parts out
      → Rendered (p ∷ parts) (a ++ out)

Rendered-append :
    {ps qs : List Part} {a b : List ℕ}
    → Rendered ps a
    → Rendered qs b
    → Rendered (ps ++ qs) (a ++ b)
Rendered-append nothing s = s
Rendered-append {qs = qs} {b = b} (then_part {p} {a} {parts} {out} x r) s =
    subst (Rendered (p ∷ (parts ++ qs))) (sym (append_assoc a out b))
      (then_part x (Rendered-append r s))

module _ (k : Kernel) where
  -- The kernel with some output
  abbrev pub saying : List ℕ → Kernel
  saying out = record k { uart_out = out }

  -- Whatever was sent before, the program comes back after sending the report, with nothing else
  -- changed.
  pub record Prints (parts : List Part) (f : Kernel → Option Kernel) : Type 0 where
    pub sends :
        (before : List ℕ)
        → (out : List ℕ) × Rendered parts out × (f (saying before) ≡ some (saying (before ++ out)))

  pub some-Prints : Prints [] some
  some-Prints = record {
    sends = λ before. ([], nothing, ap (λ o. some (saying o)) (sym (append-nil before)));
  }

  pub then-Prints :
      (ps qs : List Part) (f g : Kernel → Option Kernel)
      → Prints ps f
      → Prints qs g
      → Prints (ps ++ qs) (λ k1. f k1 >>= g)
  then-Prints ps qs f g p q = record {
    sends = λ before.
        let (o1, r1, e1) = p.sends before in
        let (o2, r2, e2) = q.sends (before ++ o1) in
        (
          o1 ++ o2,
          Rendered-append r1 r2,
          ap (λ o. o >>= g) e1 ∙ e2 ∙ ap (λ o. some (saying o)) (append_assoc before o1 o2),
        );
  }

  one_part :
      (p : Part) (a before : List ℕ) (f : Kernel → Option Kernel)
      → Bytes p a
      → f (saying before) ≡ some (saying (before ++ a))
      → (out : List ℕ) × Rendered (p ∷ []) out × (f (saying before) ≡ some (saying (before ++ out)))
  one_part p a before f b e =
      (a ++ [], then_part b nothing, e ∙ ap (λ o. some (saying (before ++ o))) (sym (append-nil a)))

  module _ (me : ℕ) (free : k.uart_lock ≡ 0) where
    pub uart_puts-Prints : (s : List ℕ) → Prints (text s ∷ []) (uart_puts me s)
    uart_puts-Prints s = record {
      sends = λ before.
          one_part (text s) s before (uart_puts me s) (as_text s)
            (uart_puts_lem me s (saying before) free);
    }

    pub hexline-Prints :
        (label : List ℕ) (v : ℕ)
        → is_text label ≡ true
        → v < 2 ^ 64
        → Prints (hex label v ∷ []) (print_hexline (λ _. 0) me label v)
    hexline-Prints label v nul lt = record {
      sends = λ before.
          let (digits, e, n, value) =
            print_hexline_lem (λ _. 0) me v label (saying before) (text-NoNul label nul) free lt in
          one_part (hex label v) _ before (print_hexline (λ _. 0) me label v)
            (as_hex label v digits n value) e;
    }

    pub decline-Prints :
        (label : List ℕ) (v : ℕ)
        → is_text label ≡ true
        → v < 2 ^ 64
        → Prints (dec label v ∷ []) (print_decline (λ _ _. 0) me label v)
    decline-Prints label v nul lt = record {
      sends = λ before.
          let (digits, e, n, value) =
            print_decline_lem (λ _ _. 0) me v label (saying before) (text-NoNul label nul) free
              lt in
          one_part (dec label v) _ before (print_decline (λ _ _. 0) me label v)
            (as_dec label v digits n value) e;
    }
