-- ===== src/Capture.antt =====
-- seif/request_capture.py: the bounded queue of `RequestCapture` and its writer. What runs under the lock, or
-- between two operations of the queue or the stream, is one step. Files are lists of lines.
pub mod Metadata
pub mod Writer
pub mod Bounds
pub mod Preserving
pub mod Accounting
pub mod Draining
