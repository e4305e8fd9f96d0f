-- ===== src/Tests.antt =====
-- The theorems at concrete states of the kernel, and runs of the definitions.
mod Fixtures
mod Scheduler
mod Valid
mod Primitives
mod Objects
mod Devices
mod Cores
mod Hardware
mod Boot
mod Requests
mod Switches
mod Diagnostics
mod Programs
