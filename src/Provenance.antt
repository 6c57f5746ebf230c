-- ===== src/Provenance.antt =====
-- provenance/verify_manifest.py: the check that the frozen snapshot is the recorded one.
pub mod Text
pub mod Manifest
pub mod Hash
pub mod Verify
