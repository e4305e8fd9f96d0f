-- ===== src/Lock/Cores.antt =====
-- The spinlock of kernel/spinlock.h as several cores execute it, instruction by instruction, in the
-- self-test of kernel/smp.c (`selftest_body`): each core adds to a plain counter `selftest_n` times,
-- and then to another one under the lock. The exclusive monitors are those of the architecture.
pub mod Defs
pub mod Sum
pub mod Exclusion
pub mod Selftest
