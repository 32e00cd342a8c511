-- ===== src/Ner.antt =====
-- The client of the private model: seif/ner_contract.py, and of seif/ner.py what it does with a text
-- and with the answers, without HTTP, waits and retries.
pub mod Contract
pub mod Chunks
pub mod Covering
pub mod Parsing
pub mod Detection
