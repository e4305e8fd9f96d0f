-- ===== src/Uart/Laws.antt =====
-- What `klog` sends.
use aarch64_rtos.Prelude.{
  ℕ, ◌^◌, ◌<◌, ◌≡◌, true, false, some, List, [], ◌∷◌, ◌++◌, update-update, update_self, sym, ap,
  ◌∙◌,
}
use mathlib.Core.List.{append_assoc, append-nil}
use aarch64_rtos.Kernel.{Kernel}
use aarch64_rtos.Lock.{spin_lock, spin_unlock, irq_disable_save, irq_restore}
use aarch64_rtos.Uart.{
  uart_putc, put_all, uart_lock_irqsave, uart_unlock_irqrestore, uart_puts, klog,
}
use aarch64_rtos.Uart.Decimal.{print_dec_lem, value_from, IsNumeral}

pub put_all_lem : (s : List ℕ) (k : Kernel) → put_all s k ≡ record k { uart_out = k.uart_out ++ s }
unfolding put_all uart_putc
put_all_lem [] k = ap (λ o. record k { uart_out = o }) (sym (append-nil k.uart_out))
put_all_lem (c ∷ s) k =
    put_all_lem s (uart_putc c k)
    ∙ ap (λ o. record k { uart_out = o }) (append_assoc k.uart_out (c ∷ []) s)

-- With the lock free, `uart_puts` comes back after sending the text, with the lock free and the IRQ
-- mask as it was.
pub uart_puts_lem :
    (me : ℕ) (s : List ℕ) (k : Kernel)
    → k.uart_lock ≡ 0
    → uart_puts me s k ≡ some (record k { uart_out = k.uart_out ++ s })
unfolding uart_puts uart_lock_irqsave uart_unlock_irqrestore spin_lock spin_unlock irq_disable_save
    irq_restore
uart_puts_lem me s k h = rw h (simp (put_all_lem, update-update, update_self k.daif me))

-- With the lock free, `klog` with a value comes back after sending the prefix, the value in decimal
-- digits and the suffix, in this order and with nothing between them, and leaves the lock free and
-- the IRQ mask as it was.
pub klog_lem :
    (me : ℕ) (prefix : List ℕ) (val : ℕ) (suffix : List ℕ) (k : Kernel)
    → k.uart_lock ≡ 0
    → val < 2 ^ 64
    → (digits : List ℕ) × IsNumeral digits
      × (value_from 0 digits ≡ val)
      × (klog me prefix val true suffix k
          ≡ some (record k { uart_out = k.uart_out ++ prefix ++ digits ++ suffix }))
unfolding klog uart_lock_irqsave uart_unlock_irqrestore spin_lock spin_unlock irq_disable_save
    irq_restore
klog_lem me prefix val suffix k h lt =
    let (digits, e, num, stands) = print_dec_lem (λ _. 0) val lt in
    (digits, num, stands, rw h (simp (e, put_all_lem, update-update, update_self k.daif me)))

-- Without a number
pub klog-plain :
    (me : ℕ) (prefix : List ℕ) (val : ℕ) (suffix : List ℕ) (k : Kernel)
    → k.uart_lock ≡ 0
    → klog me prefix val false suffix k
      ≡ some (record k { uart_out = k.uart_out ++ prefix ++ [] ++ suffix })
unfolding klog uart_lock_irqsave uart_unlock_irqrestore spin_lock spin_unlock irq_disable_save
    irq_restore put_all
klog-plain me prefix val suffix k h =
    rw h (simp (put_all_lem, update-update, update_self k.daif me))
