-- ===== src/Tests/Primitives.antt =====
-- The theorems on the blocking primitives and on the UART at the kernel of the fixtures.
use aarch64_rtos.Prelude.{◌+◌, ◌-◌, ◌≡◌, ◌⊎◌, refl, arith, some, codes, update}
use aarch64_rtos.Uart.Decimal.{fill_dec, read_string, print_dec}
use aarch64_rtos.Sync.Block.{returns}
use aarch64_rtos.Sync.Sem.{Sem, sem_init}
use aarch64_rtos.Sync.Sem.Laws.{posted, woken, sem_post_lem, sem_wait-positive}
use aarch64_rtos.Sync.Sem.Tokens.{SemRun, start, post, wait, debt, sem_tokens}
use aarch64_rtos.Tests.Fixtures.{demo}

print_dec_runs : print_dec (λ _. 7) 4096 ≡ some (codes "4096")
unfolding print_dec fill_dec read_string update
print_dec_runs = refl

-- A post, and then a wait that takes the token.
abbrev one : Sem
one = record { count = 1; waiter = 0; lock = 0 }

abbrev none_left : Sem
none_left = record { count = 1 - 1; waiter = 0; lock = 0 }

post_then_wait : SemRun 0 1 1 none_left
unfolding posted woken sem_init
post_then_wait =
    wait 1 demo demo returns
      (post {s' = one} 0 demo demo start
        (sem_post_lem 0 (sem_init 0) demo refl (λ n. absurd (n refl))))
      refl (omega arith) (sem_wait-positive 1 one demo refl refl)

sem_tokens_example :
    (none_left.count + 1 ≡ 0 + 1 + debt none_left)
    × ((none_left.waiter ≡ 0) ⊎ (none_left.count ≡ 0))
sem_tokens_example = sem_tokens 0 1 1 none_left (omega arith) post_then_wait
