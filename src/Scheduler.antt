-- ===== src/Scheduler.antt =====
-- libraries/lib_dd/include/dd/ukern and libraries/lib_dd/source/ukern: the user-mode scheduler. Each
-- operation runs under the scheduler's lock, so it is one step of the state, up to the switch to
-- another fiber.
pub mod State
pub mod Lists
pub mod Waits
pub mod Threads
pub mod Locks
pub mod Addresses
pub mod Main
pub mod Links
pub mod Visits
pub mod Pick
pub mod Pass
pub mod NewFiber
pub mod Create
pub mod Tests
mod PassTests
mod RequestTests
mod UnlockTests
mod CreateTests
