-- ===== src/Capture/Preserving.antt =====
-- Each step of the capture keeps the bounds.
use seif_pii.Base.{
  List-cases, ℕ, suc, ◌+◌, ◌≡◌, refl, ◌∙◌, Bool, true, false, ◌&&◌, inl, inr, Bool-cases,
  Option-cases, Option, some, List, [], ◌∷◌, length, length-append, leb, ltb, null, arith,
}
use seif_pii.Text.{Text}
use seif_pii.Capture.Metadata.{Pair, Parsed, Field, copy_metadata, record_of}
use seif_pii.Capture.Writer.{
  Limits, Queued, waiting, taken, writing, releasing, Capture, opened_capture, new_capture,
  submit_request, take_queued, fail_write, check_line, write_line, release, end_writer,
  flush_stream, shut_down, finishing,
}
use seif_pii.Capture.Bounds.{
  IsMeasured, sizes, total_bytes-append, held, open_records, reserved, submit_wrong, submit_good,
  take_nothing, take_something, check_raises, check_full, check_fits, drop_one-IsMeasured,
  enqueue-IsMeasured,
}

pub new_capture-IsMeasured : (l : Limits) (s : Capture) → new_capture l ≡ some s → IsMeasured l 0 s
unfolding new_capture
new_capture-IsMeasured l s e =
    elim (Bool-cases (leb 1 l.max_queued_bytes && leb 1 l.max_records && leb 1 l.max_disk_bytes)) [
      | inl positive ↦
          let same : opened_capture ≡ s = ground arith in
          rw (← same) (record {
            queued = refl;
            queued_within = omega arith;
            records_within = omega arith;
            taken_bytes = refl;
            taken_lines = refl;
            disk_within = omega arith;
            counted = refl;
            accepted = omega arith;
            calls = omega arith;
            answered = omega arith;
          })
      | inr not_positive ↦ absurd (ground arith)
    ]

pub submit_request-IsMeasured :
    (l : Limits) (n : ℕ) (metadata : Option (List Pair)) (body : Option Text) (s : Capture)
    → IsMeasured l n s
    → IsMeasured l (suc n) (submit_request l metadata body s).1
submit_request-IsMeasured l n metadata body s k =
    elim (Option-cases (copy_metadata metadata body)) [
      | inl wrong ↦ rw (submit_wrong l metadata body s wrong) (drop_one-IsMeasured l n s k)
      | inr ((copied, content, size), good) ↦
          rw (submit_good l metadata body s copied content size good)
            (enqueue-IsMeasured l n (record { metadata = copied; body = content; size = size }) s k)
    ]

pub take_queued-IsMeasured :
    (l : Limits) (n : ℕ) (s : Capture)
    → s.stage ≡ waiting
    → IsMeasured l n s
    → IsMeasured l n (take_queued s)
take_queued-IsMeasured l n s e k = elim (List-cases s.queue) [
  | inl none_left ↦ rw (take_nothing s none_left) k
  | inr (item, rest, more) ↦
      let h1 : held s.stage ≡ 0 = rw e refl in
      let h2 : open_records s.stage ≡ 0 = rw e refl in
      let size : length s.queue ≡ suc (length rest) = rw more refl in
      let sum : sizes s.queue ≡ item.size + sizes rest = rw more refl in
      rw (take_something s item rest more) (record {
        queued = omega (arith, k.queued, h1, sum);
        queued_within = k.queued_within;
        records_within = omega (arith, k.records_within, size);
        taken_bytes = k.taken_bytes;
        taken_lines = k.taken_lines;
        disk_within = omega (arith, k.disk_within);
        counted = omega (arith, k.counted, h2, size);
        accepted = omega (arith, k.accepted, h2, size);
        calls = k.calls;
        answered = omega (arith, k.answered);
      })
]

fail_write-IsMeasured :
    (l : Limits) (n : ℕ) (item : Queued) (s : Capture)
    → held s.stage ≡ item.size
    → open_records s.stage ≡ 1
    → IsMeasured l n s
    → IsMeasured l n (fail_write item s)
fail_write-IsMeasured l n item s e f k = record {
  queued = omega (arith, k.queued, e);
  queued_within = k.queued_within;
  records_within = k.records_within;
  taken_bytes = k.taken_bytes;
  taken_lines = k.taken_lines;
  disk_within = omega (arith, k.disk_within);
  counted = omega (arith, k.counted, f);
  accepted = omega (arith, k.accepted, f);
  calls = k.calls;
  answered = omega (arith, k.answered);
}

module _ {Json : Type 0} (parse : Text → Option (Parsed Json))
    (dumps : List (Text × Field Json) → Option Text) where
  pub check_line-IsMeasured :
      (l : Limits) (n : ℕ) (item : Queued) (s : Capture)
      → s.stage ≡ taken item
      → IsMeasured l n s
      → IsMeasured l n (check_line parse dumps l item s)
  check_line-IsMeasured l n item s e k =
      let h1 : held s.stage ≡ item.size = rw e refl in
      let h2 : open_records s.stage ≡ 1 = rw e refl in
      elim (Option-cases (dumps (record_of item.metadata (parse item.body)))) [
        | inl raises ↦
            rw (check_raises parse dumps l item s raises) (fail_write-IsMeasured l n item s h1 h2 k)
        | inr (line, made) ↦ elim (Bool-cases (ltb l.max_disk_bytes (s.bytes + length line))) [
          | inl full ↦ rw (check_full parse dumps l item s line made full) (record {
            queued = omega (arith, k.queued, h1);
            queued_within = k.queued_within;
            records_within = k.records_within;
            taken_bytes = k.taken_bytes;
            taken_lines = k.taken_lines;
            disk_within = omega (arith, k.disk_within);
            counted = omega (arith, k.counted, h2);
            accepted = omega (arith, k.accepted, h2);
            calls = k.calls;
            answered = omega (arith, k.answered);
          })
          | inr fits ↦ rw (check_fits parse dumps l item s line made fits) (record {
            queued = omega (arith, k.queued, h1);
            queued_within = k.queued_within;
            records_within = k.records_within;
            taken_bytes = k.taken_bytes;
            taken_lines = k.taken_lines;
            disk_within = ground arith;
            counted = omega (arith, k.counted, h2);
            accepted = omega (arith, k.accepted, h2);
            calls = k.calls;
            answered = omega (arith, k.answered);
          })
        ]
      ]

pub write_line-IsMeasured :
    (l : Limits) (n : ℕ) (works : Bool) (item : Queued) (line : Text) (s : Capture)
    → s.stage ≡ writing item line
    → IsMeasured l n s
    → IsMeasured l n (write_line works item line s)
unfolding write_line
write_line-IsMeasured l n works item line s e k =
    let h1 : held s.stage ≡ item.size = rw e refl in
    let h2 : open_records s.stage ≡ 1 = rw e refl in
    let h3 : reserved s.stage ≡ length line = rw e refl in
    elim (Bool-cases works) [
      | inl good ↦ rw good (record {
        queued = omega (arith, k.queued, h1);
        queued_within = k.queued_within;
        records_within = k.records_within;
        taken_bytes = omega (arith, k.taken_bytes, total_bytes-append s.stream line);
        taken_lines = omega (arith, k.taken_lines, length-append s.stream (line ∷ []));
        disk_within = omega (arith, k.disk_within, h3);
        counted = omega (arith, k.counted, h2);
        accepted = omega (arith, k.accepted, h2);
        calls = k.calls;
        answered = omega (arith, k.answered);
      })
      | inr bad ↦ rw bad (fail_write-IsMeasured l n item s h1 h2 k)
    ]

pub release-IsMeasured :
    (l : Limits) (n : ℕ) (size : ℕ) (s : Capture)
    → s.stage ≡ releasing size
    → IsMeasured l n s
    → IsMeasured l n (release size s)
unfolding release
release-IsMeasured l n size s e k =
    let h1 : held s.stage ≡ size = rw e refl in
    let h2 : open_records s.stage ≡ 0 = rw e refl in
    record {
      queued = omega (arith, k.queued, h1);
      queued_within = omega (arith, k.queued_within);
      records_within = k.records_within;
      taken_bytes = k.taken_bytes;
      taken_lines = k.taken_lines;
      disk_within = omega (arith, k.disk_within);
      counted = omega (arith, k.counted, h2);
      accepted = omega (arith, k.accepted, h2);
      calls = k.calls;
      answered = omega (arith, k.answered);
    }

pub end_writer-IsMeasured :
    (l : Limits) (n : ℕ) (s : Capture)
    → s.stage ≡ waiting
    → IsMeasured l n s
    → IsMeasured l n (end_writer s)
unfolding end_writer
end_writer-IsMeasured l n s e k =
    let h1 : held s.stage ≡ 0 = rw e refl in
    let h2 : open_records s.stage ≡ 0 = rw e refl in
    elim (Bool-cases (s.closed && null s.queue)) [
      | inl done ↦ rw done (record {
        queued = omega (arith, k.queued, h1);
        queued_within = k.queued_within;
        records_within = k.records_within;
        taken_bytes = k.taken_bytes;
        taken_lines = k.taken_lines;
        disk_within = omega (arith, k.disk_within);
        counted = omega (arith, k.counted, h2);
        accepted = omega (arith, k.accepted, h2);
        calls = k.calls;
        answered = omega (arith, k.answered);
      })
      | inr more ↦ rw more k
    ]

-- Neither the flag of `close` nor errors nor a flush matter to the bounds.
pub same_counts :
    (l : Limits) (n : ℕ) (s : Capture) (closed : Bool) (errors : ℕ) (file : List Text)
    → IsMeasured l n s
    → IsMeasured l n (record s { closed = closed; write_errors = errors; file = file })
same_counts l n s closed errors file k = record {
  queued = k.queued;
  queued_within = k.queued_within;
  records_within = k.records_within;
  taken_bytes = k.taken_bytes;
  taken_lines = k.taken_lines;
  disk_within = k.disk_within;
  counted = k.counted;
  accepted = k.accepted;
  calls = k.calls;
  answered = k.answered;
}

pub flush_stream-IsMeasured :
    (l : Limits) (n : ℕ) (works : Bool) (s : Capture)
    → IsMeasured l n s
    → IsMeasured l n (flush_stream works s)
unfolding flush_stream
flush_stream-IsMeasured l n true s k = same_counts l n s s.closed s.write_errors s.stream k
flush_stream-IsMeasured l n false s k = same_counts l n s s.closed (s.write_errors + 1) s.file k

flush_stream-stage : (works : Bool) (s : Capture) → (flush_stream works s).stage ≡ s.stage
unfolding flush_stream
flush_stream-stage true s = refl
flush_stream-stage false s = refl

pub shut_down-IsMeasured :
    (l : Limits) (n : ℕ) (works : Bool) (s : Capture)
    → s.stage ≡ finishing
    → IsMeasured l n s
    → IsMeasured l n (shut_down works s)
unfolding shut_down
shut_down-IsMeasured l n works s e k' =
    let k = flush_stream-IsMeasured l n works s k' in
    let there = flush_stream-stage works s ∙ e in
    let h1 : held (flush_stream works s).stage ≡ 0 = rw there refl in
    let h2 : open_records (flush_stream works s).stage ≡ 0 = rw there refl in
    record {
      queued = omega (arith, k.queued, h1);
      queued_within = k.queued_within;
      records_within = k.records_within;
      taken_bytes = k.taken_bytes;
      taken_lines = k.taken_lines;
      disk_within = omega (arith, k.disk_within);
      counted = omega (arith, k.counted, h2);
      accepted = omega (arith, k.accepted, h2);
      calls = k.calls;
      answered = k.answered;
    }
