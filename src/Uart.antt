-- ===== src/Uart.antt =====
-- kernel/uart.c: the serial output. The wait for room in the transmit FIFO (`UART_FR_TXFF`) is the
-- device's business and is taken to end; the bytes that go out are recorded in order.
pub mod Decimal
pub mod Laws
use aarch64_rtos.Prelude.{ℕ, ◌>>=◌, Bool, Option, some, List, [], ◌∷◌, ◌++◌, if◌then◌else◌}
use aarch64_rtos.Kernel.{Kernel}
use aarch64_rtos.Lock.{spin_lock, spin_unlock, irq_disable_save, irq_restore}
use Decimal.{print_dec}

unfoldable pub uart_putc : ℕ → Kernel → Kernel
uart_putc c k = record k { uart_out = k.uart_out ++ (c ∷ []) }

-- `while (*s) uart_putc(*s++);`
unfoldable pub put_all : List ℕ → Kernel → Kernel
put_all [] k = k
put_all (c ∷ s) k = put_all s (uart_putc c k)

-- `spin_lock_irqsave(&uart_lock)` on core `me`, and its inverse
unfoldable pub uart_lock_irqsave : ℕ → Kernel → Option (ℕ × Kernel)
uart_lock_irqsave me k =
    let (f, k1) = irq_disable_save me k in
    do l ← spin_lock k1.uart_lock; some (f, record k1 { uart_lock = l })

unfoldable pub uart_unlock_irqrestore : ℕ → ℕ → Kernel → Kernel
uart_unlock_irqrestore me f k = irq_restore me f (record k { uart_lock = spin_unlock k.uart_lock })

unfoldable pub uart_puts : ℕ → List ℕ → Kernel → Option Kernel
uart_puts me s k = do
  (f, k1) ← uart_lock_irqsave me k
  some (uart_unlock_irqrestore me f (put_all s k1))

-- `val` is the bit pattern of the `long`, which is printed as an `unsigned long`. The digits' buffer
-- is not initialised; `print_dec` gives the same bytes whatever it holds.
unfoldable pub klog : ℕ → List ℕ → ℕ → Bool → List ℕ → Kernel → Option Kernel
klog me prefix val has_val suffix k = do
  (f, k1) ← uart_lock_irqsave me k
  digits ← if has_val then print_dec (λ _. 0) val else some []
  some (uart_unlock_irqrestore me f (put_all suffix (put_all digits (put_all prefix k1))))
