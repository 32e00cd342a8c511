-- ===== src/Tests/TailsTests.antt =====
-- Instances of the theorem on the tails of addresses: a street is resolved, and the model saw the house too.
use seif_pii.Base.{◌≡◌, refl, ◌⊎◌, [], ◌∷◌, arith, In, true, false}
use seif_pii.Text.{Text, codes, ascii}
use seif_pii.Span.{Span, one, InOrder, Within}
use seif_pii.Detector.Tails.{
  Patterns, additions, address_tail_overlaps, address_tail_fragments, fragments_from,
  address_fragment, margin_front, length_without_margin, is_margin, is_foreign,
  preserve_address_tails,
}
use seif_pii.Detector.Tails.Gaps.{Clear}
use seif_pii.Detector.Tails.Kept.{preserve_address_tails-keeps}
use seif_pii.Detector.Resolve.{bisect_left}
use seif_pii.Boundaries.{bisect_right}

abbrev all_numbers : Patterns
all_numbers = record { has_marker = λ t. false; is_number = λ t. true }

abbrev address : Text
address = codes "Main, 12"

abbrev street : Span
street = record { start = 0; end = 4; type = "STREET"; confidence = one; reason = "context" }

abbrev place : Span
place = record { start = 0; end = 8; type = "LOCATION"; confidence = one; reason = "ner-location" }

abbrev house : Span
house = record { start = 6; end = 8; type = "LOCATION"; confidence = one; reason = "ner-location" }

added : additions ascii all_numbers address (street ∷ []) (place ∷ []) ≡ house ∷ []
unfolding additions address_tail_overlaps address_tail_fragments fragments_from address_fragment
    margin_front length_without_margin is_margin is_foreign bisect_left bisect_right
added = refl

preserve_address_tails-keeps_example :
    InOrder 0 8 (preserve_address_tails ascii all_numbers address (street ∷ []) (place ∷ []))
    × ((s : Span)
        → In s (street ∷ [])
        → In s (preserve_address_tails ascii all_numbers address (street ∷ []) (place ∷ [])))
    × ((f : Span)
        → In f (preserve_address_tails ascii all_numbers address (street ∷ []) (place ∷ []))
        → In f (street ∷ []) ⊎ (Within 0 8 f × ((s : Span) → In s (street ∷ []) → Clear s f)))
preserve_address_tails-keeps_example =
    preserve_address_tails-keeps ascii all_numbers address 8 (street ∷ []) (place ∷ [])
      (omega arith, omega arith, omega arith) ((omega arith, omega arith, omega arith), tt)
