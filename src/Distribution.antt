-- ===== src/Distribution.antt =====
-- codes/src/swat_m_block/distribution.py, the distribution and sizing kernel in block units.
pub mod Numbers
pub mod Weights
pub mod Sizing
pub mod Streams
pub mod Samplers
