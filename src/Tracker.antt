-- ===== src/Tracker.antt =====
-- The phantom tracker of the host: pvsched-ebpf/host/ebpf and the maps that its programs share.
pub mod State
pub mod Keys
pub mod Counter
pub mod Switch
pub mod Average
pub mod Watermark
pub mod Timer
pub mod Idle
pub mod Register
pub mod History
