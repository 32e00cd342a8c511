-- ===== src/Detector.antt =====
-- seif/detector.py: the parts of the rule layer that do not depend on its patterns.
pub mod Order
pub mod Resolve
pub mod Checksums
pub mod Tails
