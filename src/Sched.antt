-- ===== src/Sched.antt =====
-- kernel/sched.c: the scheduler.
pub mod Scan
pub mod Policy
pub mod Run
pub mod Locked
pub mod Valid
pub mod Migrate
pub mod Balance
pub mod Yield
pub mod Race
pub mod AnyPolicy
pub mod Bag
