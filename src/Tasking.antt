-- ===== src/Tasking.antt =====
-- tasking/: the scheduler and signals.
pub mod Sleep
pub mod Groups
pub mod Signal
