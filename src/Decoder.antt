-- ===== src/Decoder.antt =====
-- seif/rubert_decoder.py and seif/rubert_batch.py: the labels of words, window by window, over what the
-- tokenizer and the model answer.
pub mod Words
pub mod Slicing
pub mod Windows
pub mod Prepared
pub mod Coverage
pub mod Budget
pub mod Owned
pub mod Assigning
pub mod Predicting
pub mod Reading
pub mod Entities
pub mod Sequential
pub mod Batch
pub mod Replay
pub mod Counting
pub mod Model
pub mod Predicted
pub mod Grouping
pub mod Replaying
pub mod Outside
pub mod Alone
pub mod Equivalence
pub mod Placing
pub mod Graphs
pub mod Capping
