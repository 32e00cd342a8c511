-- ===== src/Capture/Bounds.antt =====
-- What is captured stays within the limits, and every call of `submit` is counted once.
use seif_pii.Base.{
  ℕ, suc, ◌+◌, ◌≤◌, ◌≡◌, refl, true, false, ◌||◌, inl, inr, Bool-cases, Option, none, some, List,
  [], ◌∷◌, ◌++◌, length, length-append, leb, ltb, arith,
}
use seif_pii.Text.{Text}
use seif_pii.Capture.Metadata.{Pair, Parsed, Field, copy_metadata, record_of}
use seif_pii.Capture.Writer.{
  Limits, Queued, Stage, waiting, finishing, taken, writing, releasing, ended, Capture, drop_one,
  enqueue, submit_request, take_queued, fail_write, check_line,
}

-- The sizes of what is queued, and the bytes of lines.
abbrev pub sizes : List Queued → ℕ
sizes [] = 0
sizes (item ∷ items) = item.size + sizes items

abbrev pub total_bytes : List Text → ℕ
total_bytes [] = 0
total_bytes (line ∷ lines) = length line + total_bytes lines

pub sizes-append :
    (xs : List Queued) (item : Queued) → sizes (xs ++ item ∷ []) ≡ sizes xs + item.size
sizes-append [] item = omega arith
sizes-append (x ∷ xs) item = omega (arith, sizes-append xs item)

pub total_bytes-append :
    (xs : List Text) (line : Text) → total_bytes (xs ++ line ∷ []) ≡ total_bytes xs + length line
total_bytes-append [] line = omega arith
total_bytes-append (x ∷ xs) line = omega (arith, total_bytes-append xs line)

-- The size that the writer still holds, and whether its record is still to be counted.
abbrev pub held : Stage → ℕ
held waiting = 0
held finishing = 0
held ended = 0
held (taken item) = item.size
held (writing item line) = item.size
held (releasing size) = size

abbrev pub open_records : Stage → ℕ
open_records (taken item) = 1
open_records (writing item line) = 1
open_records stage = 0

-- What the line that is being written still needs of the disk.
abbrev pub reserved : Stage → ℕ
reserved (writing item line) = length line
reserved stage = 0

pub record IsMeasured (l : Limits) (n : ℕ) (s : Capture) : Type 0 where
  pub queued : s.queued_bytes ≡ sizes s.queue + held s.stage
  pub queued_within : s.queued_bytes ≤ l.max_queued_bytes
  pub records_within : length s.queue ≤ l.max_records
  pub taken_bytes : s.bytes ≡ total_bytes s.stream
  pub taken_lines : s.written ≡ length s.stream
  pub disk_within : s.bytes + reserved s.stage ≤ l.max_disk_bytes
  pub counted : s.written + s.dropped + length s.queue + open_records s.stage ≡ n
  pub accepted : s.written + length s.queue + open_records s.stage ≤ s.submitted
  pub calls : s.submitted ≤ n
  pub answered : n ≤ s.submitted + s.dropped

pub submit_wrong :
    (l : Limits) (metadata : Option (List Pair)) (body : Option Text) (s : Capture)
    → copy_metadata metadata body ≡ none
    → (submit_request l metadata body s).1 ≡ drop_one s
unfolding submit_request
submit_wrong l metadata body s e = ground (arith, e)

pub submit_good :
    (l : Limits) (metadata : Option (List Pair)) (body : Option Text) (s : Capture)
    (copied : List Pair) (content : Text) (size : ℕ)
    → copy_metadata metadata body ≡ some (copied, content, size)
    → (submit_request l metadata body s).1
      ≡ (enqueue l (record { metadata = copied; body = content; size = size }) s).1
unfolding submit_request
submit_good l metadata body s copied content size e = rw (submit_request, e) refl

pub take_nothing : (s : Capture) → s.queue ≡ [] → take_queued s ≡ s
unfolding take_queued
take_nothing s e = ground (arith, e)

pub take_something :
    (s : Capture) (item : Queued) (rest : List Queued)
    → s.queue ≡ item ∷ rest
    → take_queued s ≡ record s { queue = rest; stage = taken item }
unfolding take_queued
take_something s item rest e = ground (arith, e)

module _ {Json : Type 0} (parse : Text → Option (Parsed Json))
    (dumps : List (Text × Field Json) → Option Text) (l : Limits) (item : Queued)
    (s : Capture) where
  pub check_raises :
      dumps (record_of item.metadata (parse item.body)) ≡ none
      → check_line parse dumps l item s ≡ fail_write item s
  unfolding check_line
  check_raises e = ground (arith, e)

  module _ (line : Text)
      (made : dumps (record_of item.metadata (parse item.body)) ≡ some line) where
    pub check_full :
        ltb l.max_disk_bytes (s.bytes + length line) ≡ true
        → check_line parse dumps l item s
          ≡ record (drop_one s) { disk_limit_reached = true; stage = releasing item.size }
    unfolding check_line
    check_full e = ground (arith, made, e)

    pub check_fits :
        ltb l.max_disk_bytes (s.bytes + length line) ≡ false
        → check_line parse dumps l item s ≡ record s { stage = writing item line }
    unfolding check_line
    check_fits e = ground (arith, made, e)

pub drop_one-IsMeasured :
    (l : Limits) (n : ℕ) (s : Capture) → IsMeasured l n s → IsMeasured l (suc n) (drop_one s)
drop_one-IsMeasured l n s k = record {
  queued = k.queued;
  queued_within = k.queued_within;
  records_within = k.records_within;
  taken_bytes = k.taken_bytes;
  taken_lines = k.taken_lines;
  disk_within = k.disk_within;
  counted = omega (arith, k.counted);
  accepted = k.accepted;
  calls = omega (arith, k.calls);
  answered = omega (arith, k.answered);
}

pub enqueue-IsMeasured :
    (l : Limits) (n : ℕ) (item : Queued) (s : Capture)
    → IsMeasured l n s
    → IsMeasured l (suc n) (enqueue l item s).1
unfolding enqueue
enqueue-IsMeasured l n item s k =
    elim (Bool-cases (s.closed || ltb l.max_queued_bytes (s.queued_bytes + item.size))) [
      | inl refused ↦ rw refused (drop_one-IsMeasured l n s k)
      | inr fits ↦ elim (Bool-cases (leb l.max_records (length s.queue))) [
        | inl full ↦ rw (fits, full) (drop_one-IsMeasured l n s k)
        | inr room ↦
            let more = length-append s.queue (item ∷ []) in
            rw (fits, room)
              (record {
                queued = omega (arith, k.queued, sizes-append s.queue item);
                queued_within = ground arith;
                records_within = ground (arith, more);
                taken_bytes = k.taken_bytes;
                taken_lines = k.taken_lines;
                disk_within = k.disk_within;
                counted = omega (arith, k.counted, more);
                accepted = omega (arith, k.accepted, more);
                calls = omega (arith, k.calls);
                answered = omega (arith, k.answered);
              })
      ]
    ]
