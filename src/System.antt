-- ===== src/System.antt =====
-- The system calls together: the steps of the kernel, and what holds in every state they reach.
pub mod Alike
pub mod Wait
pub mod Reap
pub mod Death
pub mod Newborn
pub mod Birth
pub mod Partner
pub mod Messages
pub mod Calls
pub mod Reach
