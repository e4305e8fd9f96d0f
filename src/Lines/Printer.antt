-- ===== src/Lines/Printer.antt =====
-- Programs that only print, with the UART free and with its lock held.
use aarch64_rtos.Prelude.{
  ℕ, ◌^◌, ◌<◌, ◌≡◌, ◌≢◌, ◌>>=◌, ap, ◌∙◌, refl, Option, none, some, true, List, ◌++◌, [], ◌∷◌, codes,
  take, ne→==,
}
use aarch64_rtos.Kernel.{Kernel}
use aarch64_rtos.Lock.{spin_lock, irq_disable_save}
use aarch64_rtos.Uart.{uart_puts, uart_lock_irqsave, klog}
use aarch64_rtos.Uart.Laws.{uart_puts_lem, klog_lem}
use aarch64_rtos.Lines.{
  print_hexline, print_decline, finish_line, copy_prefix, emit_all, line_size, put, print_hex_into,
  Cursor,
}
use aarch64_rtos.Uart.Decimal.{read_string}
use aarch64_rtos.Lines.Buffer.{is_text, text-NoNul}
use aarch64_rtos.Lines.Laws.{print_hexline_lem, print_decline_lem}

abbrev pub IsPrinter : (Kernel → Option Kernel) → Type 0
IsPrinter f =
    (k : Kernel) → k.uart_lock ≡ 0 → (out : List ℕ) × (f k ≡ some (record k { uart_out = out }))

-- One printing program after the other
pub then-IsPrinter :
    (f g : Kernel → Option Kernel) → IsPrinter f → IsPrinter g → IsPrinter (λ k. f k >>= g)
then-IsPrinter f g p q k free =
    let (o1, e1) = p k free in
    let (o2, e2) = q (record k { uart_out = o1 }) free in (o2, ap (λ o. o >>= g) e1 ∙ e2)

pub some-IsPrinter : IsPrinter some
some-IsPrinter k free = (k.uart_out, refl)

pub uart_puts-IsPrinter : (me : ℕ) (s : List ℕ) → IsPrinter (uart_puts me s)
uart_puts-IsPrinter me s k free = (k.uart_out ++ s, uart_puts_lem me s k free)

pub klog-IsPrinter :
    (me : ℕ) (prefix : List ℕ) (v : ℕ) (suffix : List ℕ)
    → v < 2 ^ 64
    → IsPrinter (klog me prefix v true suffix)
klog-IsPrinter me prefix v suffix lt k free =
    let (digits, n, s, e) = klog_lem me prefix v suffix k free lt in
    (k.uart_out ++ prefix ++ digits ++ suffix, e)

pub print_hexline-IsPrinter :
    (junk : ℕ → ℕ) (me : ℕ) (prefix : List ℕ) (v : ℕ)
    → is_text prefix ≡ true
    → v < 2 ^ 64
    → IsPrinter (print_hexline junk me prefix v)
print_hexline-IsPrinter junk me prefix v text lt k free =
    let (digits, e, _, _) = print_hexline_lem junk me v prefix k (text-NoNul prefix text) free lt in
    (k.uart_out ++ (take 40 prefix ++ codes "0x" ++ digits ++ (13 ∷ 10 ∷ [])), e)

pub print_decline-IsPrinter :
    (junk : ℕ → ℕ → ℕ) (me : ℕ) (prefix : List ℕ) (v : ℕ)
    → is_text prefix ≡ true
    → v < 2 ^ 64
    → IsPrinter (print_decline junk me prefix v)
print_decline-IsPrinter junk me prefix v text lt k free =
    let (digits, e, _, _) = print_decline_lem junk me v prefix k (text-NoNul prefix text) free lt in
    (k.uart_out ++ (take 40 prefix ++ digits ++ (13 ∷ 10 ∷ [])), e)

-- A caller that holds the UART's lock itself waits for it for ever.
pub uart_puts-held : (me : ℕ) (s : List ℕ) (k : Kernel) → k.uart_lock ≢ 0 → uart_puts me s k ≡ none
unfolding uart_puts uart_lock_irqsave spin_lock irq_disable_save
uart_puts-held me s k held = rw (ne→== k.uart_lock 0 held) refl

bind-none :
    {A : Type 0} (o : Option A) (f : A → Option Kernel) → ((a : A) → f a ≡ none) → (o >>= f) ≡ none
bind-none none f h = refl
bind-none (some a) f h = h a

finish_line-held :
    (me : ℕ) (at : Cursor) (k : Kernel) → k.uart_lock ≢ 0 → finish_line me at k ≡ none
unfolding finish_line
finish_line-held me at k held = bind-none (emit_all line_size (13 ∷ 10 ∷ []) at) _ (λ end.
    bind-none (put line_size 0 end) _ (λ line.
      bind-none (read_string line_size 0 line) (λ text. uart_puts me text k)
        (λ text. uart_puts-held me text k held)))

pub print_hexline-held :
    (junk : ℕ → ℕ) (me : ℕ) (prefix : List ℕ) (v : ℕ) (k : Kernel)
    → k.uart_lock ≢ 0
    → print_hexline junk me prefix v k ≡ none
unfolding print_hexline
print_hexline-held junk me prefix v k held = bind-none (copy_prefix prefix (0, junk)) _ (λ at.
    bind-none (emit_all line_size (codes "0x") at) _ (λ at1.
      bind-none (print_hex_into v at1) (λ at2. finish_line me at2 k)
        (λ at2. finish_line-held me at2 k held)))
