-- ===== src/Allocator.antt =====
-- codes/src/swat_m_block/bin_allocator.py, the block-bin allocation planner.
pub mod Config
pub mod Prefix
pub mod Plan
pub mod Allocate
