-- ===== src/Schedule.antt =====
-- codes/src/swat_m_block/content_schedule.py, second half: plans bound to block contents, sampled
-- interior points, and the abstract merge schedule.
pub mod Bins
pub mod Allocation
pub mod Binding
pub mod Sampling
pub mod Reads
pub mod Order
pub mod Merge
