-- ===== src/Capture/Draining.antt =====
-- What `close` leaves: the writer ends with an empty queue, and every record is counted.
use seif_pii.Base.{
  ℕ, ◌+◌, ◌≤◌, ◌⊎◌, ◌≡◌, refl, ap, ◌∙◌, Bool, true, false, ◌&&◌, ◌||◌, inl, inr, Bool-cases,
  List-cases, Option, some, List, [], arith, null, Option-cases, leb, ltb, length,
}
use seif_pii.Text.{Text}
use seif_pii.Capture.Metadata.{Pair, Parsed, Field, copy_metadata, record_of}
use seif_pii.Capture.Writer.{
  Limits, Queued, Stage, waiting, ended, Capture, opened_capture, drop_one, new_capture, enqueue,
  submit_request, take_queued, check_line, write_line, release, end_writer, flush_stream, shut_down,
  finishing, taken, writing, releasing, close_capture, count_error, Reachable, start, submits,
  takes, checks, writes, releases, ends, flushes, shuts, closes, errs,
}
use seif_pii.Capture.Accounting.{Reachable-IsMeasured}
use seif_pii.Capture.Bounds.{
  sizes, held, open_records, take_nothing, take_something, submit_wrong, submit_good, check_raises,
  check_full, check_fits,
}

abbrev is_ended : Stage → Bool
is_ended ended = true
is_ended stage = false

abbrev is_over : Stage → Bool
is_over finishing = true
is_over ended = true
is_over stage = false

is_ended-over : (stage : Stage) → is_ended stage ≡ true → is_over stage ≡ true
is_ended-over waiting h = absurd (ground arith)
is_ended-over finishing h = refl
is_ended-over ended h = refl
is_ended-over (taken item) h = absurd (ground arith)
is_ended-over (writing item line) h = absurd (ground arith)
is_ended-over (releasing size) h = absurd (ground arith)

-- Behind its loop the writer was told to stop and has left no record, and at its end it has left no line out of
-- the file, unless it counted an error.
record IsDrained (s : Capture) : Type 0 where
  told : is_over s.stage ≡ true → s.closed ≡ true
  left : is_over s.stage ≡ true → s.queue ≡ []
  saved : is_ended s.stage ≡ true → s.write_errors ≡ 0 → s.file ≡ s.stream

not_ended-IsDrained : (s : Capture) → is_over s.stage ≡ false → IsDrained s
not_ended-IsDrained s h = record {
  told = λ e. absurd (ground arith);
  left = λ e. absurd (ground arith);
  saved = λ e none_failed. absurd (ground (arith, h, is_ended-over s.stage e));
}

enqueue-closed :
    (l : Limits) (item : Queued) (s : Capture) → s.closed ≡ true → (enqueue l item s).1 ≡ drop_one s
unfolding enqueue
enqueue-closed l item s e = rw e refl

submit_request-closed :
    (l : Limits) (metadata : Option (List Pair)) (body : Option Text) (s : Capture)
    → s.closed ≡ true
    → (submit_request l metadata body s).1 ≡ drop_one s
submit_request-closed l metadata body s e = elim (Option-cases (copy_metadata metadata body)) [
  | inl wrong ↦ submit_wrong l metadata body s wrong
  | inr ((copied, content, size), good) ↦
      submit_good l metadata body s copied content size good
      ∙ enqueue-closed l (record { metadata = copied; body = content; size = size }) s e
]

enqueue-stage : (l : Limits) (item : Queued) (s : Capture) → (enqueue l item s).1.stage ≡ s.stage
unfolding enqueue
enqueue-stage l item s =
    elim (Bool-cases (s.closed || ltb l.max_queued_bytes (s.queued_bytes + item.size))) [
      | inl refused ↦ rw refused refl
      | inr fits ↦ elim (Bool-cases (leb l.max_records (length s.queue))) [
        | inl full ↦ rw (fits, full) refl
        | inr room ↦ rw (fits, room) refl
      ]
    ]

submit_request-stage :
    (l : Limits) (metadata : Option (List Pair)) (body : Option Text) (s : Capture)
    → (submit_request l metadata body s).1.stage ≡ s.stage
submit_request-stage l metadata body s = elim (Option-cases (copy_metadata metadata body)) [
  | inl wrong ↦ ap (λ (x : Capture). x.stage) (submit_wrong l metadata body s wrong)
  | inr ((copied, content, size), good) ↦
      ap (λ (x : Capture). x.stage) (submit_good l metadata body s copied content size good)
      ∙ enqueue-stage l (record { metadata = copied; body = content; size = size }) s
]

submit_request-IsDrained :
    (l : Limits) (metadata : Option (List Pair)) (body : Option Text) (s : Capture)
    → IsDrained s
    → IsDrained (submit_request l metadata body s).1
submit_request-IsDrained l metadata body s k = elim (Bool-cases (is_over s.stage)) [
  | inl there ↦
      rw (submit_request-closed l metadata body s (k.told there))
        (record { told = k.told; left = k.left; saved = k.saved })
  | inr busy ↦
      not_ended-IsDrained (submit_request l metadata body s).1
        (rw (submit_request-stage l metadata body s) busy)
]

new_capture-waiting : (l : Limits) (s : Capture) → new_capture l ≡ some s → s.stage ≡ waiting
unfolding new_capture
new_capture-waiting l s e =
    elim (Bool-cases (leb 1 l.max_queued_bytes && leb 1 l.max_records && leb 1 l.max_disk_bytes)) [
      | inl positive ↦ let same : opened_capture ≡ s = ground arith in rw (← same) refl
      | inr not_positive ↦ absurd (ground arith)
    ]

end_writer-IsDrained : (s : Capture) → s.stage ≡ waiting → IsDrained (end_writer s)
unfolding end_writer
end_writer-IsDrained s e = elim (Bool-cases (s.closed && null s.queue)) [
  | inl done ↦ elim (List-cases s.queue) [
    | inl none_left ↦ rw done (record {
      told = λ h. ground arith;
      left = λ h. none_left;
      saved = λ h none_failed. absurd (ground arith);
    })
    | inr (item, rest, more) ↦ absurd (ground (arith, more))
  ]
  | inr more ↦ rw more (not_ended-IsDrained s (rw e refl))
]

take_queued-IsDrained : (s : Capture) → s.stage ≡ waiting → IsDrained (take_queued s)
take_queued-IsDrained s e = elim (List-cases s.queue) [
  | inl none_left ↦ rw (take_nothing s none_left) (not_ended-IsDrained s (rw e refl))
  | inr (item, rest, more) ↦ rw (take_something s item rest more) (not_ended-IsDrained _ refl)
]

flush_stream-IsDrained :
    (works : Bool) (s : Capture) → s.stage ≡ waiting → IsDrained (flush_stream works s)
unfolding flush_stream
flush_stream-IsDrained true s e = not_ended-IsDrained _ (rw e refl)
flush_stream-IsDrained false s e = not_ended-IsDrained _ (rw e refl)

shut_down-IsDrained :
    (works : Bool) (s : Capture) → s.stage ≡ finishing → IsDrained s → IsDrained (shut_down works s)
unfolding shut_down flush_stream
shut_down-IsDrained true s e k = record {
  told = λ h. k.told (rw e refl);
  left = λ h. k.left (rw e refl);
  saved = λ h none_failed. refl;
}
shut_down-IsDrained false s e k = record {
  told = λ h. k.told (rw e refl);
  left = λ h. k.left (rw e refl);
  saved = λ h none_failed. absurd (omega (arith, none_failed));
}

module _ {Json : Type 0} (parse : Text → Option (Parsed Json))
    (dumps : List (Text × Field Json) → Option Text) (l : Limits) where
  check_line-IsDrained : (item : Queued) (s : Capture) → IsDrained (check_line parse dumps l item s)
  check_line-IsDrained item s =
      elim (Option-cases (dumps (record_of item.metadata (parse item.body)))) [
        | inl raises ↦ rw (check_raises parse dumps l item s raises) (not_ended-IsDrained _ refl)
        | inr (line, made) ↦ elim (Bool-cases (ltb l.max_disk_bytes (s.bytes + length line))) [
          | inl full ↦
              rw (check_full parse dumps l item s line made full) (not_ended-IsDrained _ refl)
          | inr fits ↦
              rw (check_fits parse dumps l item s line made fits) (not_ended-IsDrained _ refl)
        ]
      ]

  write_line-IsDrained :
      (works : Bool) (item : Queued) (line : Text) (s : Capture)
      → IsDrained (write_line works item line s)
  unfolding write_line
  write_line-IsDrained true item line s = not_ended-IsDrained _ refl
  write_line-IsDrained false item line s = not_ended-IsDrained _ refl

  Reachable-IsDrained : (n : ℕ) (s : Capture) → Reachable parse dumps l n s → IsDrained s
  unfolding release close_capture count_error
  Reachable-IsDrained n s (start s' e) =
      let k = new_capture-waiting l s e in not_ended-IsDrained s (rw k refl)
  Reachable-IsDrained n s (submits m s' metadata body r) =
      submit_request-IsDrained l metadata body s' (Reachable-IsDrained m s' r)
  Reachable-IsDrained n s (takes m s' r e) = take_queued-IsDrained s' e
  Reachable-IsDrained n s (checks m s' item r e) = check_line-IsDrained item s'
  Reachable-IsDrained n s (writes m s' works item line r e) =
      write_line-IsDrained works item line s'
  Reachable-IsDrained n s (releases m s' size r e) = not_ended-IsDrained _ refl
  Reachable-IsDrained n s (ends m s' r e) = end_writer-IsDrained s' e
  Reachable-IsDrained n s (flushes m s' works r e) = flush_stream-IsDrained works s' e
  Reachable-IsDrained n s (shuts m s' works r e) =
      shut_down-IsDrained works s' e (Reachable-IsDrained m s' r)
  Reachable-IsDrained n s (closes m s' r) = record {
    told = λ h. refl;
    left = (Reachable-IsDrained m s' r).left;
    saved = (Reachable-IsDrained m s' r).saved;
  }
  Reachable-IsDrained n s (errs m s' r) = record {
    told = (Reachable-IsDrained m s' r).told;
    left = (Reachable-IsDrained m s' r).left;
    saved = λ h none_failed. absurd (omega (arith, none_failed));
  }

  -- When the writer has ended, after `close` was called: the queue is empty and holds no bytes, and each of
  -- the `n` calls of `submit` is counted as written, and then its line was taken by the stream, or as dropped.
  -- An error was counted, or the lines that the stream took are in the file.
  pub ended-counts :
      (n : ℕ) (s : Capture)
      → Reachable parse dumps l n s
      → s.stage ≡ ended
      → (s.closed ≡ true)
        × (s.queue ≡ [])
        × (s.queued_bytes ≡ 0)
        × (s.written + s.dropped ≡ n)
        × (s.written ≡ length s.stream)
        × ((1 ≤ s.write_errors) ⊎ (s.file ≡ s.stream))
  ended-counts n s r e =
      let k = Reachable-IsMeasured parse dumps l n s r in
      let d = Reachable-IsDrained n s r in
      let there : is_over s.stage ≡ true = rw e refl in
      let none_left = d.left there in
      let h1 : held s.stage ≡ 0 = rw e refl in
      let h2 : open_records s.stage ≡ 0 = rw e refl in
      let h3 : sizes s.queue ≡ 0 = rw none_left refl in
      let h4 : length s.queue ≡ 0 = rw none_left refl in
      (
        d.told there,
        none_left,
        omega (arith, k.queued, h1, h3),
        omega (arith, k.counted, h2, h4),
        k.taken_lines,
        elim (Bool-cases (leb 1 s.write_errors)) [
          | inl failed ↦ inl (ground arith)
          | inr none_failed ↦ inr (d.saved (rw e refl) (ground arith))
        ],
      )
