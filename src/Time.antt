-- ===== src/Time.antt =====
-- time/: dates.
pub mod Date
pub mod Readable
