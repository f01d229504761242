-- ===== src/Tests.antt =====
-- The theorems at concrete states of the kernel, and runs of the model.
mod Queues
mod Pages
mod Frees
mod Screens
mod Schedules
mod Systems
mod Shares
mod Tables
mod Traps
mod Boots
mod Messages
mod Consoles
