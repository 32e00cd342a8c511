-- ===== src/Ner/Parsing.antt =====
-- What the answers of the model become, item by item and chunk by chunk.
use seif_pii.Base.{
  ℕ, ◌+◌, ◌≡◌, refl, subst, ap, inl, inr, false, some, List, [], ◌∷◌, ◌++◌, arith, length, ltb,
  if◌then◌else◌, In, In-append_left, In-append_right, All, Bool-cases, Option-cases,
}
use seif_pii.Text.{Text}
use seif_pii.Span.{Span}
use seif_pii.Ner.Contract.{
  Item, Entity, validate_entity, max_entities, IsAccepted, validate_entity-IsAccepted,
}
use seif_pii.Ner.Chunks.{Answer, clipped, parse_items, parse_entities, detect_chunks}

-- The span of an entity in a chunk.
abbrev pub span_of : ℕ → Entity → Span
span_of offset e = record {
  start = offset + e.start;
  end = offset + e.end;
  type = e.kind;
  confidence = e.score;
  reason = "private-ner";
}

-- One item: what it adds to the rest.
pub parse_item :
    (offset size total : ℕ) (item : Item) (items : List Item) (out : List Span)
    → parse_items offset size total (item ∷ items) ≡ some out
    → (e : Entity) × (rest : List Span) × (validate_entity item size ≡ some e)
      × (parse_items offset size total items ≡ some rest)
      × (out ≡ (if clipped offset size total e then rest else span_of offset e ∷ rest))
unfolding parse_items
parse_item offset size total item items out h = elim (Option-cases (validate_entity item size)) [
  | inl bad ↦ absurd (ground arith)
  | inr (e, good) ↦ elim (Option-cases (parse_items offset size total items)) [
    | inl bad ↦ absurd (ground arith)
    | inr (rest, others) ↦ (e, rest, good, others, ground arith)
  ]
]

pub parse_items-In :
    (offset size total : ℕ) (items : List Item) (out : List Span) (item : Item) (e : Entity)
    → parse_items offset size total items ≡ some out
    → In item items
    → validate_entity item size ≡ some e
    → clipped offset size total e ≡ false
    → In (span_of offset e) out
parse_items-In offset size total [] out item e h m v c = absurd m
parse_items-In offset size total (x ∷ items) out item e h (inl here) v c =
    let (e', rest, good, others, whole) = parse_item offset size total x items out h in
    let good' : validate_entity item size ≡ some e' = rw here good in
    let same : e' ≡ e = ground arith in rw (whole, same, c) (inl refl)
parse_items-In offset size total (x ∷ items) out item e h (inr there) v c =
    let (e', rest, good, others, whole) = parse_item offset size total x items out h in
    let ih = parse_items-In offset size total items rest item e others there v c in
    rw whole (elim (Bool-cases (clipped offset size total e')) [
      | inl cut ↦ rw cut ih
      | inr kept ↦ rw kept (inr ih)
    ])

pub parse_items-All :
    (P : Span → Type 0) (offset size total : ℕ) (items : List Item) (out : List Span)
    → ((e : Entity) → IsAccepted size e → P (span_of offset e))
    → parse_items offset size total items ≡ some out
    → All P out
unfolding parse_items
parse_items-All P offset size total [] out f h =
    let empty : [] ≡ out = ground arith in subst (λ x. All P x) empty tt
parse_items-All P offset size total (x ∷ items) out f h =
    let (e, rest, good, others, whole) = parse_item offset size total x items out h in
    let accepted = f e (validate_entity-IsAccepted x size e good) in
    let ih = parse_items-All P offset size total items rest f others in
    rw whole (elim (Bool-cases (clipped offset size total e)) [
      | inl cut ↦ rw cut ih
      | inr kept ↦ rw kept (accepted, ih)
    ])

pub parse_entities_items :
    (items : List Item) (part : Text) (offset total : ℕ) (out : List Span)
    → parse_entities (some items) part offset total ≡ some out
    → parse_items offset (length part) total items ≡ some out
unfolding parse_entities
parse_entities_items items part offset total out h =
    elim (Bool-cases (ltb max_entities (length items))) [
      | inl many ↦ absurd (ground arith)
      | inr few ↦ ground arith
    ]

-- One chunk: what it adds to the rest.
pub detect_chunk :
    (model : Text → Answer) (total offset : ℕ) (part : Text) (cs : List (ℕ × Text))
    (out : List Span)
    → detect_chunks model total ((offset, part) ∷ cs) ≡ some out
    → (items : List Item) × (found : List Span) × (rest : List Span) × (model part ≡ some items)
      × (parse_items offset (length part) total items ≡ some found)
      × (detect_chunks model total cs ≡ some rest)
      × (out ≡ found ++ rest)
unfolding detect_chunks parse_entities
detect_chunk model total offset part cs out h = elim (Option-cases (model part)) [
  | inl none_given ↦ absurd (ground arith)
  | inr (items, given) ↦ elim (Option-cases (parse_entities (some items) part offset total)) [
    | inl bad ↦ absurd (ground arith)
    | inr (found, good) ↦ elim (Option-cases (detect_chunks model total cs)) [
      | inl bad ↦ absurd (ground arith)
      | inr (rest, others) ↦ (
        items,
        found,
        rest,
        given,
        parse_entities_items items part offset total found good,
        others,
        ground arith,
      )
    ]
  ]
]

pub detect_chunks-In :
    (model : Text → Answer) (total offset : ℕ) (part : Text) (cs : List (ℕ × Text))
    (out : List Span) (items : List Item) (item : Item) (e : Entity)
    → detect_chunks model total cs ≡ some out
    → In (offset, part) cs
    → model part ≡ some items
    → In item items
    → validate_entity item (length part) ≡ some e
    → clipped offset (length part) total e ≡ false
    → In (span_of offset e) out
detect_chunks-In model total offset part [] out items item e h m g i v c = absurd m
detect_chunks-In model total offset part ((o, p) ∷ cs) out items item e h (inl here) g i v c =
    let (items', found, rest, given, parsed, others, whole) =
      detect_chunk model total o p cs out h in
    let at : offset ≡ o = ap (λ (x : ℕ × Text). x.0) here in
    let part_at : part ≡ p = ap (λ (x : ℕ × Text). x.1) here in
    let given' : model part ≡ some items' = rw part_at given in
    let same : items' ≡ items = ground arith in
    let parsed' : parse_items offset (length part) total items ≡ some found =
      rw (at, part_at, ← same) parsed in
    rw whole (
      In-append_left (span_of offset e) found rest
        (parse_items-In offset (length part) total items found item e parsed' i v c))
detect_chunks-In model total offset part ((o, p) ∷ cs) out items item e h (inr there) g i v c =
    let (items', found, rest, given, parsed, others, whole) =
      detect_chunk model total o p cs out h in
    rw whole (
      In-append_right (span_of offset e) found rest
        (detect_chunks-In model total offset part cs rest items item e others there g i v c))
