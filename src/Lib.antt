-- ===== src/Lib.antt =====
-- SEIF: masking of personal data in texts, and the way back
--
-- The service takes a text under an id of its caller, finds the spans of personal data in it, replaces
-- them, keeps what it takes to undo the replacements in an encrypted store for a while, and returns the
-- masked text; with that text it later returns the original. The parts and the files that model them:
--
-- * seif/transform.py, in Transform: `shape_mask` and `synthetic_value` in Values; `mask` in Masking,
--   its loop as `mask_from` and the function as `mask_text`; `restore_exact`, the pattern `_TOKEN` and
--   `restore_tokens` in Restoring.
-- * seif/detector.py, in Detector: `_PRIORITY`, `_cluster_priority` and the sort keys in Order;
--   `_select_cluster` and `_resolve` in Resolve, as `select_cluster` and `resolve`. `Span` is in Span.
-- * seif/ner_boundaries.py, in Boundaries: all of it, `preserve_model_boundaries` under its own name.
-- * seif/vault.py, in Vault: the store in memory. `get` and `put_if_absent` take the readings of the clock
--   and the nonce as arguments, and return a result and the next store. Shared has the two methods over Redis,
--   whose commands `SET` and `GET` are an interface with their documented laws.
-- * seif/app.py and the records of seif/config.py, in App: `authorize` and `_select_spans` in Policies;
--   the stored record and `_restore_record`, `_detect_and_transform`, `_resolve_record` in Records;
--   `execute` in Execution; the middleware `Boundary` as a step relation in Boundary, and
--   `_detect_large` as one in Slots.
-- * seif/ner_contract.py and seif/ner.py, in Ner: `validate_entity` in Contract; `chunks`,
--   `_parse_entities` and `NerClient.detect` in Chunks, over what the model answers on a chunk.
-- * seif/ner_batching.py, in Batching: `BatchExecutor` as a step relation, the worker's waits being the
--   choice of the next step; in Draining the worker alone, going from step to step as `_work` does.
-- * seif/rubert_decoder.py and seif/rubert_batch.py, in Decoder: `words_with_offsets` in Words, the windows
--   and `_predict_words` in Windows, what is asked of the tokenizer and the model in Reading, `_entities` in
--   Entities, `word_predict` in Sequential; `word_predict_batch` in Prepared, Batch and Replay, and
--   `BatchGraphBackend` in Graphs.
-- * seif/request_capture.py, in Capture: the metadata and the record of `_write` in Metadata; `submit`, the
--   writer and `close` in Writer, as a step relation in which the requests and the writer interleave. The
--   parser and printer of JSON are parameters. The buffered stream is kept as the lines its `write` took and
--   those that a `flush` put into the file; what of a line a failing `write` or `flush` leaves is not modelled.
-- * seif/config.py, in Config: `parse_sentinels` in Sentinels, the policies in Loading, and in Checks the other
--   checks before the start, those of the policies in seif/app.py and of custom rules in seif/detector.py too.
-- * `_preserve_address_tails` of seif/detector.py and what it calls, in Detector.Tails, over the answers of two
--   patterns.
-- * `_luhn` and `_valid_inn` of seif/detector.py, in Detector.Checksums.
--
-- `execute` authorizes, reads the vault, and lets `resolve_record` decide: restore, repeat, or make a new
-- record by detection, `select_spans` and `mask_text`, and put it into the vault, where the first record
-- under a key stays. A text is a list of code points (Text), and offsets count code points, as in Python.
--
-- Parameters stand for what is not in the repository: the character classes of the Unicode database
-- (`Unicode`; the theorems on model boundaries suppose that no alphanumeric character is a space), the
-- draws of `secrets.token_hex` (a list; theorems that a token is found suppose draws whose tokens do not
-- occur in the text, and that there is one for each span), `ipaddress` (tests), the decimal digits of
-- Unicode (a partial function), and AES-GCM
-- with JSON (`Cipher`, whose one law is that opening under a key what was sealed under it gives the record
-- back). HMAC digests are functions of the text; the theorem on the way back supposes no collision between the
-- two texts at hand. The detection is a parameter of the request handling, supposed to give spans in order,
-- which is what `_resolve` is shown to give.
--
-- The word decoder takes the tokenizer and the model as one record (`Runtime`): argmax and softmax of a row of
-- logits are a function of the row. The theorem that a batch gives what the texts give alone supposes a model
-- that answers each row of a batch by itself, whatever the padding behind it (`IsModel`).
--
-- A confidence is a double between 0 and 1 that is only compared, and is kept as its bit pattern. The balance of the
-- limiter is kept in ticks, so that it is a whole number: rounding of floats is not modelled. Loops are
-- structural, but for the scan for tokens, which runs on fuel for the length of its text; each round takes at
-- least one character, and for the chunks of a text, each of which begins behind the one before.
-- The windows of the word decoder run on fuel for its words, and each begins behind the one before.
-- `out_of_draws` stands for the loop of `mask` that goes on drawing.
--
-- Not modelled: the regular expressions of the detector and of the field recognizers, which are data for the
-- library `re`; the model runtimes and HTTP; the limiter over Redis; files and the environment; logs and metrics; the
-- scripts, benchmarks and tests.
pub mod Base
pub mod Text
pub mod Span
pub mod Transform
pub mod Capture
pub mod Decoder
pub mod Detector
pub mod Boundaries
pub mod Vault
pub mod App
pub mod Ner
pub mod Batching
pub mod Config
mod Tests
