-- ===== src/Tests.antt =====
-- Runs of the definitions and instances of the theorems, at concrete inputs.
mod TransformTests
mod DetectorTests
mod BoundariesTests
mod VaultTests
mod AppModel
mod AppTests
mod NerTests
mod BatchingTests
mod ChecksumTests
mod ConfigTests
mod SlotsTests
mod SharedTests
mod DecoderTests
mod DecoderModel
mod CaptureTests
mod LoadingTests
mod TailsTests
