-- ===== src/Tests/CaptureTests.antt =====
-- Instances of the theorems on seif/request_capture.py: one request that is written and one that is refused.
use seif_pii.Base.{ℕ, ◌+◌, ◌≤◌, ◌⊎◌, ◌≡◌, refl, true, Option, none, some, List, [], ◌∷◌, length}
use seif_pii.Text.{Text, codes}
use seif_pii.Capture.Metadata.{
  Pair, text, Parsed, Field, copy_metadata, total_size, metadata_item_size, value_size, record_of,
  put_field,
}
use seif_pii.Capture.Writer.{
  Limits, Queued, Capture, opened_capture, new_capture, ended, submit_request, enqueue, take_queued,
  check_line, write_line, release, end_writer, flush_stream, shut_down, shuts, close_capture,
  Reachable, start, submits, takes, checks, writes, releases, ends, closes,
}
use seif_pii.Capture.Bounds.{IsMeasured}
use seif_pii.Capture.Accounting.{Reachable-IsMeasured}
use seif_pii.Capture.Draining.{ended-counts}

abbrev small : Limits
small = record { max_queued_bytes = 1000; max_records = 2; max_disk_bytes = 100 }

abbrev parse_none : Text → Option (Parsed ℕ)
parse_none body = none

abbrev dump_two : List (Text × Field ℕ) → Option Text
dump_two fields = some (codes "{}")

abbrev meta : List Pair
meta = (some (codes "id"), text (codes "7")) ∷ []

abbrev held_item : Queued
held_item = record { metadata = meta; body = codes "x"; size = 653 }

abbrev accepted_one : Capture
accepted_one = record opened_capture { queue = held_item ∷ []; queued_bytes = 653; submitted = 1 }

opens : new_capture small ≡ some opened_capture
unfolding new_capture
opens = refl

first_call : Reachable parse_none dump_two small 1 accepted_one
unfolding submit_request copy_metadata total_size metadata_item_size value_size enqueue
first_call = submits 0 opened_capture (some meta) (some (codes "x")) (start opened_capture opens)

-- A second record of the same size does not fit into the queue.
abbrev refused_two : Capture
refused_two = record accepted_one { dropped = 1 }

second_call : Reachable parse_none dump_two small 2 refused_two
unfolding submit_request copy_metadata total_size metadata_item_size value_size enqueue
second_call = submits 1 accepted_one (some meta) (some (codes "x")) first_call

abbrev drained : Capture
drained = record refused_two {
  queue = [];
  queued_bytes = 0;
  written = 1;
  bytes = 2;
  closed = true;
  stage = ended;
  stream = codes "{}" ∷ [];
  file = codes "{}" ∷ [];
}

drained_call : Reachable parse_none dump_two small 2 drained
unfolding take_queued check_line write_line release end_writer flush_stream shut_down close_capture
    record_of put_field
drained_call =
    let s1 = take_queued refused_two in
    let r1 : Reachable parse_none dump_two small 2 s1 = takes 2 refused_two second_call refl in
    let s2 = check_line parse_none dump_two small held_item s1 in
    let r2 : Reachable parse_none dump_two small 2 s2 = checks 2 s1 held_item r1 refl in
    let s3 = write_line true held_item (codes "{}") s2 in
    let r3 : Reachable parse_none dump_two small 2 s3 =
      writes 2 s2 true held_item (codes "{}") r2 refl in
    let s4 = release 653 s3 in
    let r4 : Reachable parse_none dump_two small 2 s4 = releases 2 s3 653 r3 refl in
    let s5 = end_writer (close_capture s4) in
    let r5 : Reachable parse_none dump_two small 2 s5 =
      ends 2 (close_capture s4) (closes 2 s4 r4) refl in
    shuts 2 s5 true r5 refl

Reachable-IsMeasured_example : IsMeasured small 2 drained
Reachable-IsMeasured_example = Reachable-IsMeasured parse_none dump_two small 2 drained drained_call

ended-counts_example :
    (drained.closed ≡ true)
    × (drained.queue ≡ [])
    × (drained.queued_bytes ≡ 0)
    × (drained.written + drained.dropped ≡ 2)
    × (drained.written ≡ length drained.stream)
    × ((1 ≤ drained.write_errors) ⊎ (drained.file ≡ drained.stream))
ended-counts_example = ended-counts parse_none dump_two small 2 drained drained_call refl
