-- ===== src/Content.antt =====
-- codes/src/swat_m_block/content_schedule.py, first half: snapshots of blocks, the view of a run, and
-- interior points.
pub mod Snapshot
pub mod RunView
pub mod Interior
