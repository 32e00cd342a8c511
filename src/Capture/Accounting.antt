-- ===== src/Capture/Accounting.antt =====
-- The counts of `RequestCapture` in every interleaving.
use seif_pii.Base.{ℕ, ◌+◌, true, Option, List}
use seif_pii.Text.{Text}
use seif_pii.Capture.Metadata.{Parsed, Field}
use seif_pii.Capture.Writer.{
  Limits, Capture, close_capture, count_error, Reachable, start, submits, takes, checks, writes,
  releases, ends, flushes, shuts, closes, errs,
}
use seif_pii.Capture.Bounds.{IsMeasured}
use seif_pii.Capture.Preserving.{
  new_capture-IsMeasured, submit_request-IsMeasured, take_queued-IsMeasured, check_line-IsMeasured,
  write_line-IsMeasured, release-IsMeasured, end_writer-IsMeasured, flush_stream-IsMeasured,
  shut_down-IsMeasured, same_counts,
}

module _ {Json : Type 0} (parse : Text → Option (Parsed Json))
    (dumps : List (Text × Field Json) → Option Text) (l : Limits) where
  -- In every state after `n` calls of `submit`: `queued_bytes` is the size of what is queued and of what the
  -- writer holds, and within `max_queued_bytes`; the queue has at most `max_records` records; `bytes` is the
  -- size of the lines that `write` of the stream took, `written` their number, and with the line about to be
  -- written they are within `max_disk_bytes`; and each call is counted as written or as dropped, or its record
  -- is in the queue or with the writer. `submitted` is at most `n`, at least what is written, in the queue or
  -- with the writer, and with `dropped` at least `n`.
  pub Reachable-IsMeasured : (n : ℕ) (s : Capture) → Reachable parse dumps l n s → IsMeasured l n s
  unfolding close_capture count_error
  Reachable-IsMeasured n s (start s' e) = new_capture-IsMeasured l s e
  Reachable-IsMeasured n s (submits m s' metadata body r) =
      submit_request-IsMeasured l m metadata body s' (Reachable-IsMeasured m s' r)
  Reachable-IsMeasured n s (takes m s' r e) =
      take_queued-IsMeasured l m s' e (Reachable-IsMeasured m s' r)
  Reachable-IsMeasured n s (checks m s' item r e) =
      check_line-IsMeasured parse dumps l m item s' e (Reachable-IsMeasured m s' r)
  Reachable-IsMeasured n s (writes m s' works item line r e) =
      write_line-IsMeasured l m works item line s' e (Reachable-IsMeasured m s' r)
  Reachable-IsMeasured n s (releases m s' size r e) =
      release-IsMeasured l m size s' e (Reachable-IsMeasured m s' r)
  Reachable-IsMeasured n s (ends m s' r e) =
      end_writer-IsMeasured l m s' e (Reachable-IsMeasured m s' r)
  Reachable-IsMeasured n s (flushes m s' works r e) =
      flush_stream-IsMeasured l m works s' (Reachable-IsMeasured m s' r)
  Reachable-IsMeasured n s (shuts m s' works r e) =
      shut_down-IsMeasured l m works s' e (Reachable-IsMeasured m s' r)
  Reachable-IsMeasured n s (closes m s' r) =
      same_counts l m s' true s'.write_errors s'.file (Reachable-IsMeasured m s' r)
  Reachable-IsMeasured n s (errs m s' r) =
      same_counts l m s' s'.closed (s'.write_errors + 1) s'.file (Reachable-IsMeasured m s' r)
