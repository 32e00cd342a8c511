-- ===== src/Transform.antt =====
-- seif/transform.py: reversible replacement of spans, and restoration of the original text.
pub mod Values
pub mod Masking
pub mod Restoring
pub mod Totality
pub mod Rounds
pub mod RoundTrip
pub mod Shape
pub mod Tokens
pub mod TokenRules
