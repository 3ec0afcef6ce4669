-- ===== src/Tests.antt =====
-- Tests of the model at concrete inputs, and the theorems at inputs that meet their hypotheses.
mod Lists
mod Scheduler
mod Locks
mod Devices
mod Images
mod Files
mod Disks
mod Shells
mod Interrupts
