-- ===== src/Detector/Order.antt =====
-- seif/detector.py: `_PRIORITY`, `_cluster_priority`, and the order in which `_select_cluster` takes
-- the spans of a cluster.
pub mod Comparison
pub mod Sorting
pub mod Rank
use Prim.Native.Char.{code}
use seif_pii.Base.{
  ℕ, zero, suc, ◌+◌, ◌-◌, ◌≤◌, String, ◌≡◌, refl, Bool, true, false, ◌&&◌, ◌||◌, List, [], ◌∷◌,
  arith, ltb, leb, ◌==◌, str_eq, if◌then◌else◌, max,
}
use seif_pii.Text.{Text, codes}
use seif_pii.Span.{Span}

pub priorities : List (String × ℕ)
priorities =
    ("FOREIGN_DOCUMENT", 110)
    ∷ ("BIRTH_CERTIFICATE", 110)
    ∷ ("PASSPORT", 105)
    ∷ ("DRIVER_LICENSE", 104)
    ∷ ("BIRTH_DATE", 103)
    ∷ ("PASSPORT_DATE", 103)
    ∷ ("DEPARTMENT_CODE", 103)
    ∷ ("CARDHOLDER", 102)
    ∷ ("PASSPORT_ISSUER", 101)
    ∷ ("BIRTH_PLACE", 100)
    ∷ ("ADDRESS", 99)
    ∷ ("CARD", 95)
    ∷ ("INN", 94)
    ∷ ("PHONE", 90)
    ∷ ("EMAIL", 90)
    ∷ ("PERSON", 80)
    ∷ ("LOCATION", 70)
    ∷ []

-- `_PRIORITY.get(kind, default)`
unfoldable pub priority_or : String → ℕ → List (String × ℕ) → ℕ
priority_or kind default [] = default
priority_or kind default ((k, p) ∷ table) =
    if str_eq k kind then p else priority_or kind default table

unfoldable pub cluster_priority : Span → ℕ
unfolding priorities priority_or
cluster_priority span =
    if str_eq span.reason "ner-structured"
    then 65
    else max (priority_or span.type 85 priorities)
        (if str_eq span.reason "cis-personal-id" then 96 else 0)

-- Order of texts by code points, as Python compares `str`: -1, 0 or 1.
pub data Sign : Type 0 where
  less same more : Sign

unfoldable pub compare_ℕ : ℕ → ℕ → Sign
compare_ℕ a b = if ltb a b then less else if a == b then same else more

-- The second key counts where the first ones are equal.
infixr 40 ◌then_by◌
abbrev pub ◌then_by◌ : Sign → Sign → Sign
less then_by s = less
same then_by s = s
more then_by s = more

unfoldable pub compare_text : Text → Text → Sign
unfolding compare_ℕ
compare_text [] [] = same
compare_text [] (y ∷ ys) = less
compare_text (x ∷ xs) [] = more
compare_text (x ∷ xs) (y ∷ ys) = compare_ℕ x y then_by compare_text xs ys

-- The key of `sorted` in `_select_cluster`: priority, length and confidence from high to low, then
-- the start, the type and the reason.
unfoldable pub compare_rank : Span → Span → Sign
unfolding compare_ℕ cluster_priority compare_text
compare_rank a b =
    compare_ℕ (cluster_priority b) (cluster_priority a)
    then_by compare_ℕ (b.end - b.start) (a.end - a.start)
    then_by compare_ℕ b.confidence a.confidence
    then_by compare_ℕ a.start b.start
    then_by compare_text (codes a.type) (codes b.type)
    then_by compare_text (codes a.reason) (codes b.reason)

abbrev pub is_less : Sign → Bool
is_less less = true
is_less same = false
is_less more = false

-- `a` sorts strictly before `b`.
unfoldable pub ranks_before : Span → Span → Bool
unfolding compare_rank
ranks_before a b = is_less (compare_rank a b)

-- The key of `sorted` in `_resolve`: `(start, end)`.
unfoldable pub place_before : Span → Span → Bool
unfolding compare_ℕ
place_before a b = is_less (compare_ℕ a.start b.start then_by compare_ℕ a.end b.end)

-- `sorted`: stable insertion; `x` goes behind what does not sort after it.
module _ {ℓ} {A : Type ℓ} (before : A → A → Bool) where
  unfoldable pub insert_sorted : A → List A → List A
  insert_sorted x [] = x ∷ []
  insert_sorted x (y ∷ ys) = elim (before y x) [
    | true ↦ y ∷ insert_sorted x ys
    | false ↦ x ∷ y ∷ ys
  ]

  -- Elements are put in from the last one on, so an equal element that came earlier stays in front.
  unfoldable pub sort : List A → List A
  unfolding insert_sorted
  sort [] = []
  sort (x ∷ xs) = insert_sorted x (sort xs)
