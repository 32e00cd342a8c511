-- ===== src/App.antt =====
-- seif/app.py: what a request goes through, between the HTTP framework and the vault. Strings of the
-- policies and headers are `String`, texts that are counted or cut are `Text`. The detection is a
-- parameter, and the digests of the vault are parameters too.
pub mod Policies
pub mod Types
pub mod Limiter
pub mod Records
pub mod Execution
pub mod Answers
pub mod Reuse
pub mod RoundTrip
pub mod Race
pub mod Safety
pub mod Selection
pub mod Boundary
pub mod Slots
