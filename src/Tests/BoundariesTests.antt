-- ===== src/Tests/BoundariesTests.antt =====
-- Instances of the theorems on seif/ner_boundaries.py.
use seif_pii.Base.{ℕ, ◌≡◌, refl, inl, inr, Bool, false, List, [], ◌∷◌, arith, keep, In}
use seif_pii.Text.{Text, codes, ascii}
use seif_pii.Span.{Span, one, InOrder, covered}
use seif_pii.Detector.Order.{sort}
use seif_pii.Boundaries.{
  model_before, parts_of, refine, partition_from, remainder, preserve_model_boundaries,
}
use seif_pii.Boundaries.Parts.{meets}
use seif_pii.Boundaries.Trim.{UnicodeLaws}
use seif_pii.Boundaries.Partition.{Piece}
use seif_pii.Boundaries.Coverage.{parts_of-sort, preserve-InOrder, preserve_covers, preserve-Piece}

ascii_laws : UnicodeLaws ascii
ascii_laws = record { alnum_not_space = λ c h. ground arith }

abbrev never_ip : Text → Bool
never_ip t = false

abbrev place : Text
place = codes "at Omsk, Lenina st"

abbrev span_at : ℕ → ℕ → Span
span_at start end = record {
  start = start;
  end = end;
  type = "CITY";
  confidence = one;
  reason = "context";
}

abbrev by_rules : List Span
by_rules = span_at 3 18 ∷ []

abbrev by_model : List Span
by_model =
    record (span_at 9 15) { type = "LOCATION" } ∷ record (span_at 3 7) { type = "LOCATION" } ∷ []

-- The components are cut out and what the model left over keeps its letters.
preserve_test :
    preserve_model_boundaries ascii never_ip place by_rules by_model
    ≡ span_at 3 7 ∷ span_at 9 15 ∷ span_at 16 18 ∷ []
unfolding preserve_model_boundaries refine parts_of partition_from remainder
preserve_test = refl

parts_of-sort_example :
    parts_of (sort model_before by_model) (span_at 3 18)
    ≡ keep (meets (span_at 3 18)) (sort model_before by_model)
parts_of-sort_example = parts_of-sort by_model (span_at 3 18)

preserve-InOrder_example :
    InOrder 0 18 (preserve_model_boundaries ascii never_ip place by_rules by_model)
preserve-InOrder_example =
    preserve-InOrder ascii ascii_laws never_ip place 18 by_rules by_model (omega arith)

preserve_covers_example :
    covered 12 (preserve_model_boundaries ascii never_ip place by_rules by_model)
    ≡ covered 12 by_rules
preserve_covers_example =
    preserve_covers ascii ascii_laws never_ip place 18 by_rules by_model (omega arith) 12 refl

preserve-Piece_example : (original : Span) × In original by_rules × Piece original (span_at 16 18)
unfolding preserve_model_boundaries refine parts_of partition_from remainder
preserve-Piece_example =
    preserve-Piece ascii ascii_laws never_ip place 18 by_rules by_model (omega arith)
      (span_at 16 18) (inr (inr (inl refl)))
