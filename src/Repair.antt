-- ===== src/Repair.antt =====
-- internal/repair: hinted handoff, read repair and anti-entropy.
pub mod Hints
pub mod Scan
