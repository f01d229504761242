-- ===== src/Process.antt =====
-- kernel/process.c: the scheduler, the life of processes and their priorities.
-- A system call that gives up the processor is modelled up to the switch and, where it goes on
-- afterwards, by a second function that runs when the process is chosen again. `change_cr3` and
-- `ctx_sw` change no part of this state.
pub mod Scheduler
pub mod Life
pub mod Image
pub mod Start
pub mod Invariant
pub mod Steady
pub mod Switch
pub mod Schedule
pub mod Prio
pub mod Family
pub mod Dying
pub mod Death
pub mod Listing
