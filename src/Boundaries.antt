-- ===== src/Boundaries.antt =====
-- seif/ner_boundaries.py: model boundaries within the spans that the rules resolved.
pub mod Parts
pub mod Trim
pub mod Partition
pub mod Coverage
use seif_pii.Base.{
  ℕ, zero, suc, ◌+◌, ◌-◌, String, Bool, true, false, ◌&&◌, ◌||◌, not, Option, none, some, List, [],
  ◌∷◌, ◌++◌, length, get_elem?, take, drop, slice, keep, all, any, null, map, ltb, leb, ◌==◌,
  str_eq, if◌then◌else◌, max,
}
use seif_pii.Text.{Text, Unicode, codes}
use seif_pii.Span.{Span, span_text}
use seif_pii.Detector.Order.{compare_ℕ, compare_text, ◌then_by◌, is_less, sort}
use seif_pii.Detector.Resolve.{bisect_left}

-- `_ADDRESSES` and `_ATOMIC_TYPES`
abbrev addresses : List String
addresses =
    "ADDRESS" ∷ "LOCATION" ∷ "COUNTRY" ∷ "REGION" ∷ "DISTRICT" ∷ "CITY" ∷ "STREET" ∷ "HOUSE"
    ∷ "APARTMENT" ∷ "POSTAL_CODE" ∷ []

abbrev atomic_types : List String
atomic_types = "PERSON" ∷ "CARDHOLDER" ∷ "ADDRESS" ∷ []

unfoldable pub family : String → String
family kind = if any (str_eq kind) addresses then "ADDRESS" else kind

-- `text[i]`, tested; every index that the code uses lies within the text.
abbrev pub char_test : (ℕ → Bool) → Text → ℕ → Bool
char_test p text i = elim (get_elem? text i) [ none ↦ false | some c ↦ p c ]

-- `replace(span, start=start, end=end)`
abbrev pub moved : Span → ℕ → ℕ → Span
moved span start end = record span { start = start; end = end }

-- `bisect_right` of a list in order: the number of elements up to `x`, all of them in front.
unfoldable pub bisect_right : List ℕ → ℕ → ℕ
bisect_right [] x = 0
bisect_right (y ∷ ys) x = elim (leb y x) [ true ↦ suc (bisect_right ys x) | false ↦ 0 ]

-- `accumulate(ends, max)`
unfoldable pub running_max : ℕ → List ℕ → List ℕ
running_max m [] = []
running_max m (e ∷ es) = max m e ∷ running_max (max m e) es

-- The key of `sorted(model_candidates)`: `(start, end, type)`.
unfoldable pub model_before : Span → Span → Bool
unfolding compare_ℕ compare_text
model_before a b = is_less (
    compare_ℕ a.start b.start
    then_by compare_ℕ a.end b.end
    then_by compare_text (codes a.type) (codes b.type))

-- The model spans that the two bisections leave for one resolved span.
unfoldable pub parts_of : List Span → Span → List Span
unfolding bisect_left bisect_right running_max
parts_of models original =
    let first = bisect_right (running_max 0 (map (λ (m : Span). m.end) models)) original.start in
    let last = bisect_left (map (λ (m : Span). m.start) models) original.end in
    keep (λ m. ltb original.start m.end) (slice models first last)

-- `_atomic_ip`, over a test for what `ipaddress.ip_address` accepts.
unfoldable pub atomic_ip : (Text → Bool) → Text → Span → Bool
atomic_ip is_ip text span =
    str_eq span.type "IP_ADDRESS"
    && is_ip (keep (λ c. not (c == 32 || c == 9)) (span_text text span))

unfoldable pub is_unchanged : Span → List Span → Bool
is_unchanged original (part ∷ []) = part.start == original.start && part.end == original.end
is_unchanged original parts = false

module _ (u : Unicode) where
  is_word_char : ℕ → Bool
  is_word_char c = u.is_alnum c || u.is_mark c

  unfoldable pub word_boundary : Text → ℕ → Bool
  unfolding is_word_char
  word_boundary text offset =
      if offset == 0 || offset == length text
      then true
      else not (all is_word_char (slice text (offset - 1) (offset + 1)))

  -- The loop of `_compatible_parts` from `cursor` on.
  unfoldable pub compatible_from : Text → Span → ℕ → List Span → Bool
  unfolding word_boundary family
  compatible_from text original cursor [] = true
  compatible_from text original cursor (part ∷ parts) =
      let rest = compatible_from text original part.end parts in
      if ltb part.start cursor
        || ltb original.end part.end
        || leb part.end part.start
        || not (str_eq (family part.type) (family original.type))
        || not (word_boundary text part.start)
        || not (word_boundary text part.end)
      then false
      else rest

  unfoldable pub compatible_parts : Text → Span → List Span → Bool
  unfolding compatible_from
  compatible_parts text original parts = compatible_from text original original.start parts

  -- The two loops of `_remainder`, on the number of characters between `start` and `end`.
  unfoldable pub skip_left : Text → ℕ → ℕ → ℕ
  skip_left text zero start = start
  skip_left text (suc n) start =
      let next = skip_left text n (start + 1) in
      if char_test u.is_space text start then next else start

  unfoldable pub skip_right : Text → ℕ → ℕ → ℕ
  skip_right text zero end = end
  skip_right text (suc n) end =
      let next = skip_right text n (end - 1) in
      if char_test u.is_space text (end - 1) then next else end

  unfoldable pub remainder : Text → Span → ℕ → ℕ → List Span
  unfolding skip_left skip_right
  remainder text original start end =
      if not (any u.is_alnum (slice text start end))
      then []
      else (let start' = skip_left text (end - start) start in
          moved original start' (skip_right text (end - start') end) ∷ [])

  -- The loop of `_partition` from `cursor` on.
  unfoldable pub partition_from : Text → Span → ℕ → List Span → List Span
  partition_from text original cursor [] = remainder text original cursor original.end
  partition_from text original cursor (part ∷ parts) =
      remainder text original cursor part.start
      ++ (moved original part.start part.end ∷ partition_from text original part.end parts)

  module _ (is_ip : Text → Bool) where
    -- One round of the loop of `preserve_model_boundaries`.
    unfoldable pub refine : Text → List Span → Span → List Span
    unfolding atomic_ip is_unchanged compatible_parts
    refine text models original =
        let parts = parts_of models original in
        if is_unchanged original parts
          || any (str_eq original.type) atomic_types
          || str_eq original.reason "custom-rule"
          || null parts
          || atomic_ip is_ip text original
          || not (compatible_parts text original parts)
        then original ∷ []
        else partition_from text original original.start parts

    unfoldable pub refine_all : Text → List Span → List Span → List Span
    refine_all text models [] = []
    refine_all text models (original ∷ resolved) =
        refine text models original ++ refine_all text models resolved

    unfoldable pub preserve_model_boundaries : Text → List Span → List Span → List Span
    unfolding refine_all model_before sort
    preserve_model_boundaries text resolved candidates =
        if null resolved || null candidates
        then resolved
        else refine_all text (sort model_before candidates) resolved
