-- ===== src/Ner/Detection.antt =====
-- What `NerClient.detect` finds, and where.
use seif_pii.Base.{
  ℕ, zero, suc, ◌+◌, ◌-◌, ◌≤◌, ◌<◌, String, ◌≡◌, subst, inl, inr, false, some, List, [], ◌∷◌, arith,
  min, length, slice, length-slice, ltb, ◌==◌, In, All, All-append, Bool-cases,
}
use seif_pii.Text.{Text}
use seif_pii.Span.{Span}
use seif_pii.Ner.Contract.{Item, Entity, validate_entity, max_entity_chars, max_ner_span}
use seif_pii.Ner.Chunks.{chunks_from, chunks, Answer, clipped, detect_chunks, detect}
use seif_pii.Ner.Covering.{Holds, chunks_from-Holds}
use seif_pii.Ner.Parsing.{span_of, parse_items-All, detect_chunk, detect_chunks-In}

-- The places of a span that `detect` may return.
pub record IsEntity (total : ℕ) (s : Span) : Type 0 where
  pub starts : s.start < s.end
  pub ends : s.end ≤ total
  pub small : s.end - s.start ≤ max_entity_chars s.type

detect_chunks-All :
    (model : Text → Answer) (total : ℕ) (cs : List (ℕ × Text)) (out : List Span)
    → All (λ (x : ℕ × Text). x.0 + length x.1 ≤ total) cs
    → detect_chunks model total cs ≡ some out
    → All (IsEntity total) out
unfolding detect_chunks
detect_chunks-All model total [] out h e =
    let empty : [] ≡ out = ground arith in subst (λ x. All (IsEntity total) x) empty tt
detect_chunks-All model total ((o, p) ∷ cs) out (h, hs) e =
    let (items, found, rest, given, parsed, others, whole) =
      detect_chunk model total o p cs out e in
    let ih = detect_chunks-All model total cs rest hs others in
    let first =
      parse_items-All (IsEntity total) o (length p) total items found
        (λ x a. record {
          starts = omega (arith, a.starts);
          ends = omega (arith, a.ends);
          small = ground (arith, a.small);
        })
        parsed in
    rw whole (All-append (IsEntity total) found rest first ih)

chunks_from-All :
    (size overlap : ℕ) (text : Text) (fuel start : ℕ)
    → All
        (λ (x : ℕ × Text). x.0 + length x.1 ≤ length text)
        (chunks_from fuel size overlap text start)
unfolding chunks_from
chunks_from-All size overlap text zero start = tt
chunks_from-All size overlap text (suc fuel) start =
    let end = min (length text) (start + size) in
    elim (Bool-cases (ltb start (length text))) [
      | inr past ↦ rw past tt
      | inl going ↦
          let here : length (slice text start end) ≡ end - start =
            length-slice text start end (ground arith) (ground arith) in
          let fits : start + length (slice text start end) ≤ length text = ground arith in
          elim (Bool-cases (end == length text)) [
            | inl last ↦ rw (going, last) (fits, tt)
            | inr more ↦
                rw (going, more) (fits, chunks_from-All size overlap text fuel (end - overlap))
          ]
    ]

detect_all :
    (model : Text → Answer) (text : Text) (out : List Span)
    → detect model text ≡ some out
    → (detect_chunks model
          (length text)
          (chunks_from (length text) 16000 (max_ner_span + 32) text 0)
        ≡ some out)
unfolding detect chunks
detect_all model text out h = h

-- Each span that `detect` returns is a piece of the text, no longer than its type may be.
pub detect-IsEntity :
    (model : Text → Answer) (text : Text) (out : List Span)
    → detect model text ≡ some out
    → All (IsEntity (length text)) out
detect-IsEntity model text out h =
    detect_chunks-All model (length text)
      (chunks_from (length text) 16000 (max_ner_span + 32) text 0) out
      (chunks_from-All 16000 (max_ner_span + 32) text (length text) 0) (detect_all model text out h)

-- The model names the piece from `s` to `e` of the text, with this kind and score, in each part that has
-- it away from inner edges.
abbrev pub Names : (Text → Answer) → Text → ℕ → ℕ → ℕ → String → Type 0
Names model text s e score kind =
    (offset : ℕ) (part : Text)
    → part ≡ slice text offset (offset + length part)
    → offset ≤ s
    → e ≤ offset + length part
    → (0 < offset → offset < s)
    → (offset + length part < length text → e < offset + length part)
    → (items : List Item) × (item : Item) × (model part ≡ some items)
      × In item items
      × (validate_entity item (length part)
          ≡ some (record { start = s - offset; end = e - offset; score = score; kind = kind }))

clipped_inside :
    (offset size total s e score : ℕ) (kind : String)
    → s < e
    → offset ≤ s
    → (0 < offset → offset < s)
    → (offset + size < total → e < offset + size)
    → clipped offset size total
        (record { start = s - offset; end = e - offset; score = score; kind = kind })
      ≡ false
unfolding clipped
clipped_inside offset size total s e score kind proper left inner outer =
    elim (Bool-cases (ltb 0 offset)) [
      | inl later ↦
          let strict : offset < s = inner (ground arith) in
          elim (Bool-cases (ltb (offset + size) total)) [
            | inl before ↦ let strict' : e < offset + size = outer (ground arith) in ground arith
            | inr last ↦ ground arith
          ]
      | inr first ↦ elim (Bool-cases (ltb (offset + size) total)) [
        | inl before ↦ let strict' : e < offset + size = outer (ground arith) in ground arith
        | inr last ↦ ground arith
      ]
    ]

span_of_inside :
    (offset s e score : ℕ) (kind : String)
    → s < e
    → offset ≤ s
    → span_of offset (record { start = s - offset; end = e - offset; score = score; kind = kind })
      ≡ (record { start = s; end = e; type = kind; confidence = score; reason = "private-ner" })
span_of_inside offset s e score kind proper left =
    let first : offset + (s - offset) ≡ s = omega arith in
    let last : offset + (e - offset) ≡ e = omega arith in rw (first, last)

Names-In :
    (model : Text → Answer) (text : Text) (cs : List (ℕ × Text)) (out : List Span) (s e score : ℕ)
    (kind : String) (k : Holds text s e cs)
    → detect_chunks model (length text) cs ≡ some out
    → s < e
    → Names model text s e score kind
    → In
        (record { start = s; end = e; type = kind; confidence = score; reason = "private-ner" })
        out
Names-In model text cs out s e score kind k h proper names =
    let (items, item, given, listed, valid) =
      names k.offset k.part k.is_part k.left k.right k.left_edge k.right_edge in
    let entity : Entity = record {
      start = s - k.offset;
      end = e - k.offset;
      score = score;
      kind = kind;
    } in
    subst (λ x. In x out) (span_of_inside k.offset s e score kind proper k.left)
      (detect_chunks-In model (length text) k.offset k.part cs out items item entity h k.is_chunk
        given listed valid
        (clipped_inside k.offset (length k.part) (length text) s e score kind proper k.left
          k.left_edge k.right_edge))

-- A piece of the text, at most `MAX_NER_SPAN` characters long, that the model names in each part that has
-- it, is among the spans that `detect` returns, though `detect` looks at parts of the text only and drops
-- what touches their inner edges.
pub detect-Names :
    (model : Text → Answer) (text : Text) (out : List Span) (s e score : ℕ) (kind : String)
    → detect model text ≡ some out
    → s < e
    → e ≤ length text
    → e - s ≤ max_ner_span
    → Names model text s e score kind
    → In
        (record { start = s; end = e; type = kind; confidence = score; reason = "private-ner" })
        out
detect-Names model text out s e score kind h proper within short names =
    Names-In model text (chunks_from (length text) 16000 (max_ner_span + 32) text 0) out s e score
      kind
      (chunks_from-Holds text 16000 (max_ner_span + 32) s e proper within (omega arith)
        (omega arith) (length text) 0 (omega arith) (omega arith) (λ h. absurd (omega arith)))
      (detect_all model text out h) proper names
