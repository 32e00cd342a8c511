-- ===== src/Tests/DetectorTests.antt =====
-- Instances of the theorems on seif/detector.py.
use seif_pii.Base.{◌≡◌, refl, List, [], ◌∷◌, arith, In}
use seif_pii.Span.{Span, one, InOrder, span_eq}
use seif_pii.Detector.Order.{sort, place_before, ranks_before}
use seif_pii.Detector.Resolve.{resolve, admit, select_cluster, dedup}
use seif_pii.Detector.Resolve.Admit.{Settled}
use seif_pii.Detector.Resolve.Result.{resolve-InOrder, resolve_settles}

abbrev card : Span
card = record { start = 3; end = 15; type = "CARD"; confidence = one; reason = "luhn-checksum" }

abbrev inn : Span
inn = record { start = 3; end = 15; type = "INN"; confidence = one; reason = "cis-personal-id" }

abbrev mail : Span
mail = record { start = 15; end = 20; type = "EMAIL"; confidence = one; reason = "format" }

abbrev clashing : List Span
clashing = mail ∷ card ∷ inn ∷ card ∷ []

-- The labelled regional identifier wins over the card number.
resolve_test : resolve clashing ≡ inn ∷ mail ∷ []
unfolding resolve dedup span_eq sort place_before ranks_before select_cluster admit
resolve_test = refl

resolve-InOrder_example : InOrder 0 20 (resolve clashing)
resolve-InOrder_example = resolve-InOrder 20 clashing (omega arith)

resolve_settles_example :
    ((x : Span) → In x (resolve clashing) → In x clashing)
    × ((c : Span) → In c clashing → Settled (resolve clashing) c)
resolve_settles_example = resolve_settles 20 clashing (omega arith)
