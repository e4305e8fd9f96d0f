-- ===== src/Tests/Valid.antt =====
-- The queues of the fixtures are well-formed.
use aarch64_rtos.Prelude.{arith}
use aarch64_rtos.Sched.Valid.{IsValidRq, IsValid}
use aarch64_rtos.Tests.Fixtures.{demo}

pub queue_1-IsValidRq : IsValidRq demo.tcbs 1 (demo.runqueues 1)
queue_1-IsValidRq = record {
  few = ground arith;
  indexed = ground arith;
  home = λ i h. ground arith;
  distinct = λ i j a b e. ground arith;
}

pub demo-IsValid : IsValid demo
demo-IsValid c lt = record {
  few = ground arith;
  indexed = ground arith;
  home = λ i h. ground arith;
  distinct = λ i j a b e. ground arith;
}
