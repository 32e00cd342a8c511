-- ===== src/Capture/Writer.antt =====
-- seif/request_capture.py: `submit`, the writer and `close`, as steps of one state.
use seif_pii.Base.{
  ℕ, suc, ◌+◌, ◌-◌, ◌^◌, ◌≡◌, Bool, true, false, ◌&&◌, ◌||◌, Option, none, some, List, [], ◌∷◌,
  ◌++◌, length, leb, ltb, if◌then◌else◌, null,
}
use seif_pii.Base.Maybe.{◌>>=◌}
use seif_pii.Text.{Text}
use seif_pii.Capture.Metadata.{Pair, Parsed, Field, copy_metadata, record_of}

-- `_max_queued_bytes`, the size of the queue and `_max_disk_bytes`.
pub record Limits : Type 0 where
  pub max_queued_bytes : ℕ
  pub max_records : ℕ
  pub max_disk_bytes : ℕ

-- What the queue holds: the copied metadata, the body and the size.
pub record Queued : Type 0 where
  pub metadata : List Pair
  pub body : Text
  pub size : ℕ

-- Where the writer is: at the queue, with an item, about to write its line, in `finally`, behind its loop, or
-- at its end.
pub data Stage : Type 0 where
  waiting finishing ended : Stage
  taken : Queued → Stage
  writing : Queued → Text → Stage
  releasing : ℕ → Stage

-- Besides the fields of the source, what the buffered `_stream` has done: `stream` are the lines that its
-- `write` took, and `file` those of them that a `flush` which returned has put into the file.
pub record Capture : Type 0 where
  pub queue : List Queued
  pub queued_bytes : ℕ
  pub submitted : ℕ
  pub written : ℕ
  pub dropped : ℕ
  pub write_errors : ℕ
  pub bytes : ℕ
  pub disk_limit_reached : Bool
  pub closed : Bool
  pub stage : Stage
  pub stream : List Text
  pub file : List Text

-- `__init__`, once its files are open; a limit that is not positive is a `ValueError`.
abbrev pub opened_capture : Capture
opened_capture = record {
  queue = [];
  queued_bytes = 0;
  submitted = 0;
  written = 0;
  dropped = 0;
  write_errors = 0;
  bytes = 0;
  disk_limit_reached = false;
  closed = false;
  stage = waiting;
  stream = [];
  file = [];
}

unfoldable pub new_capture : Limits → Option Capture
new_capture l =
    if leb 1 l.max_queued_bytes && leb 1 l.max_records && leb 1 l.max_disk_bytes
    then some opened_capture
    else none

-- `_positive_env`: `number` is the value that `int` gives to the variable or to the default, and none where
-- it raises or the value is negative; `none` is the `ValueError`.
unfoldable pub positive_env : Option ℕ → ℕ → Option ℕ
positive_env none maximum = none
positive_env (some value) maximum = if leb 1 value && leb value maximum then some value else none

-- `from_env`: no directory gives no capture. `opens` is whether its files can be opened safely.
unfoldable pub from_env :
    Text → Option ℕ → Option ℕ → Option ℕ → Bool → Option (Option (Limits × Capture))
from_env directory queued records disk opens = if null directory then some none else (do
  max_queued_bytes ← positive_env queued (2 ^ 30)
  max_records ← positive_env records 1000000
  max_disk_bytes ← positive_env disk (2 ^ 40)
  let l : Limits = record {
    max_queued_bytes = max_queued_bytes;
    max_records = max_records;
    max_disk_bytes = max_disk_bytes;
  }
  s ← new_capture l
  if opens then some (some (l, s)) else none)

abbrev pub drop_one : Capture → Capture
drop_one s = record s { dropped = s.dropped + 1 }

-- The part of `submit` under the lock.
unfoldable pub enqueue : Limits → Queued → Capture → Bool × Capture
enqueue l item s =
    if s.closed || ltb l.max_queued_bytes (s.queued_bytes + item.size)
    then (false, drop_one s)
    else if leb l.max_records (length s.queue)
    then (false, drop_one s)
    else (
      true,
      record s {
        queue = s.queue ++ item ∷ [];
        queued_bytes = s.queued_bytes + item.size;
        submitted = s.submitted + 1;
      },
    )

unfoldable pub submit_request : Limits → Option (List Pair) → Option Text → Capture → Bool × Capture
submit_request l metadata body s = elim (copy_metadata metadata body) [
  | none ↦ (false, drop_one s)
  | some (copied, content, size) ↦
      enqueue l (record { metadata = copied; body = content; size = size }) s
]

-- `queue.get` of `_drain_one`; without a record it ends by its timeout.
unfoldable pub take_queued : Capture → Capture
take_queued s = elim s.queue [
  | [] ↦ s
  | item ∷ rest ↦ record s { queue = rest; stage = taken item }
]

-- An exception in `_write`: `_drain_one` counts the record and the error.
abbrev pub fail_write : Queued → Capture → Capture
fail_write item s = record (drop_one s) {
  write_errors = s.write_errors + 1;
  stage = releasing item.size;
}

module _ {Json : Type 0} (parse : Text → Option (Parsed Json))
    (dumps : List (Text × Field Json) → Option Text) where
  -- `_write` up to the line and the test of the limit; `none` of `dumps` is its exception.
  unfoldable pub check_line : Limits → Queued → Capture → Capture
  check_line l item s = elim (dumps (record_of item.metadata (parse item.body))) [
    | none ↦ fail_write item s
    | some line ↦
        if ltb l.max_disk_bytes (s.bytes + length line)
        then record (drop_one s) { disk_limit_reached = true; stage = releasing item.size }
        else record s { stage = writing item line }
  ]

-- `_stream.write`, which may raise, and the counts behind it.
unfoldable pub write_line : Bool → Queued → Text → Capture → Capture
write_line works item line s =
    if works
    then record s {
      written = s.written + 1;
      bytes = s.bytes + length line;
      stage = releasing item.size;
      stream = s.stream ++ line ∷ [];
    }
    else fail_write item s

-- `finally` of `_drain_one`.
unfoldable pub release : ℕ → Capture → Capture
release size s = record s { queued_bytes = s.queued_bytes - size; stage = waiting }

-- The test of the loop of `_run`: the writer leaves it once it is told to stop and the queue is empty.
unfoldable pub end_writer : Capture → Capture
end_writer s = if s.closed && null s.queue then record s { stage = finishing } else s

-- `flush` of `_publish_periodic`, and `flush` and `fsync` of `_shutdown`; either may raise.
unfoldable pub flush_stream : Bool → Capture → Capture
flush_stream works s =
    if works then record s { file = s.stream } else record s { write_errors = s.write_errors + 1 }

unfoldable pub shut_down : Bool → Capture → Capture
unfolding flush_stream
shut_down works s = record (flush_stream works s) { stage = ended }

-- `close`, and another error of `_publish_periodic` or `_shutdown`.
unfoldable pub close_capture : Capture → Capture
close_capture s = record s { closed = true }

unfoldable pub count_error : Capture → Capture
count_error s = record s { write_errors = s.write_errors + 1 }

module _ {Json : Type 0} (parse : Text → Option (Parsed Json))
    (dumps : List (Text × Field Json) → Option Text) (l : Limits) where
  -- The states after a number of calls of `submit`, however the requests and the writer interleave.
  pub data Reachable : ℕ → Capture → Type 0 where
    start : (s : Capture) → new_capture l ≡ some s → Reachable 0 s
    submits :
        (n : ℕ) (s : Capture) (metadata : Option (List Pair)) (body : Option Text)
        → Reachable n s
        → Reachable (suc n) (submit_request l metadata body s).1
    takes : (n : ℕ) (s : Capture) → Reachable n s → s.stage ≡ waiting → Reachable n (take_queued s)
    checks :
        (n : ℕ) (s : Capture) (item : Queued)
        → Reachable n s
        → s.stage ≡ taken item
        → Reachable n (check_line parse dumps l item s)
    writes :
        (n : ℕ) (s : Capture) (works : Bool) (item : Queued) (line : Text)
        → Reachable n s
        → s.stage ≡ writing item line
        → Reachable n (write_line works item line s)
    releases :
        (n : ℕ) (s : Capture) (size : ℕ)
        → Reachable n s
        → s.stage ≡ releasing size
        → Reachable n (release size s)
    ends : (n : ℕ) (s : Capture) → Reachable n s → s.stage ≡ waiting → Reachable n (end_writer s)
    flushes :
        (n : ℕ) (s : Capture) (works : Bool)
        → Reachable n s
        → s.stage ≡ waiting
        → Reachable n (flush_stream works s)
    shuts :
        (n : ℕ) (s : Capture) (works : Bool)
        → Reachable n s
        → s.stage ≡ finishing
        → Reachable n (shut_down works s)
    closes : (n : ℕ) (s : Capture) → Reachable n s → Reachable n (close_capture s)
    errs : (n : ℕ) (s : Capture) → Reachable n s → Reachable n (count_error s)
