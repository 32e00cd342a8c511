-- ===== src/Detector/Tails.antt =====
-- seif/detector.py: `_address_fragment`, `_address_tail_overlaps`, `_address_tail_fragments` and
-- `_preserve_address_tails`. Whether the pattern `_NER_ADDRESS_MARKER` is found in a text, and whether
-- `_NER_ADDRESS_NUMBER` matches the whole of it, are answers of the library `re`, and parameters.
pub mod Gaps
pub mod Fragments
pub mod Kept
use seif_pii.Base.{
  ℕ, zero, suc, ◌+◌, ◌-◌, String, Bool, true, false, not, ◌&&◌, ◌||◌, Option, none, some, List, [],
  ◌∷◌, ◌++◌, max, map, keep, any, null, slice, length, take, drop, ltb, leb, ◌==◌, str_eq,
  if◌then◌else◌,
}
use seif_pii.Text.{Text, Unicode}
use seif_pii.Span.{Span}
use seif_pii.Detector.Resolve.{bisect_left, resolve}
use seif_pii.Boundaries.{bisect_right}

pub record Patterns : Type 0 where
  pub has_marker : Text → Bool
  pub is_number : Text → Bool

-- `text[i].isspace() or text[i] in ",;"`
unfoldable pub is_margin : Unicode → ℕ → Bool
is_margin u c = u.is_space c || c == b',' || c == b';'

-- How many such characters are in front, and how long the text is without those behind.
unfoldable pub margin_front : Unicode → Text → ℕ
margin_front u [] = 0
margin_front u (c ∷ t) = let rest = margin_front u t in if is_margin u c then suc rest else 0

unfoldable pub length_without_margin : Unicode → Text → ℕ
length_without_margin u [] = 0
length_without_margin u (c ∷ t) =
    let rest = length_without_margin u t in if rest == 0 && is_margin u c then 0 else suc rest

unfoldable pub address_fragment : Unicode → Patterns → Text → Span → ℕ → ℕ → Option Span
address_fragment u p text span start end =
    let front = margin_front u (slice text start end) in
    let value = drop front (slice text start end) in
    let size = length_without_margin u value in
    let kept = take size value in
    if size == 0 || not (p.has_marker kept || p.is_number kept)
    then none
    else some (record {
      start = start + front;
      end = start + front + size;
      type = "LOCATION";
      confidence = span.confidence;
      reason = "ner-location";
    })

abbrev pub component_types : List String
component_types =
    "ADDRESS" ∷ "COUNTRY" ∷ "CITY" ∷ "STREET" ∷ "HOUSE" ∷ "APARTMENT" ∷ "POSTAL_CODE" ∷ []

unfoldable pub is_foreign : Span → Bool
is_foreign s = not (any (λ t. str_eq s.type t) component_types) || str_eq s.reason "custom-rule"

unfoldable pub address_tail_overlaps : Span → List Span → List Span
address_tail_overlaps candidate resolved =
    let starts = map (λ (s : Span). s.start) resolved in
    let first = bisect_right starts candidate.start - 1 in
    let last = bisect_left starts candidate.end in
    let overlaps = keep (λ (s : Span). ltb candidate.start s.end) (slice resolved first last) in
    if not (str_eq candidate.type "LOCATION")
    then []
    else if null overlaps || any is_foreign overlaps
    then []
    else overlaps

abbrev pub with_fragment : Option Span → List Span → List Span
with_fragment none spans = spans
with_fragment (some f) spans = f ∷ spans

-- The loop of `_address_tail_fragments` from `cursor` on.
unfoldable pub fragments_from : Unicode → Patterns → Text → Span → ℕ → List Span → List Span
fragments_from u p text candidate cursor [] =
    if ltb cursor candidate.end
    then with_fragment (address_fragment u p text candidate cursor candidate.end) []
    else []
fragments_from u p text candidate cursor (s ∷ overlaps) =
    let rest = fragments_from u p text candidate (max cursor s.end) overlaps in
    if ltb cursor s.start
    then with_fragment (address_fragment u p text candidate cursor s.start) rest
    else rest

unfoldable pub address_tail_fragments : Unicode → Patterns → Text → Span → List Span → List Span
address_tail_fragments u p text candidate overlaps =
    fragments_from u p text candidate candidate.start overlaps

unfoldable pub additions : Unicode → Patterns → Text → List Span → List Span → List Span
additions u p text resolved [] = []
additions u p text resolved (candidate ∷ candidates) =
    let overlaps = address_tail_overlaps candidate resolved in
    let rest = additions u p text resolved candidates in
    if null overlaps then rest else address_tail_fragments u p text candidate overlaps ++ rest

unfoldable pub preserve_address_tails :
    Unicode → Patterns → Text → List Span → List Span → List Span
preserve_address_tails u p text resolved candidates =
    let more = additions u p text resolved candidates in
    if null more then resolved else resolve (resolved ++ more)
