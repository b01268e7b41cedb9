-- ===== src/Tests.antt =====
-- Concrete inputs, and the theorems at them.
mod Rounding
mod Shmem
mod Tracker
mod Timer
pub mod Guest
pub mod Files
pub mod Threads
pub mod Idle
pub mod History
pub mod Register
pub mod Load
pub mod Tools
pub mod RegisterVm
pub mod Loaders
