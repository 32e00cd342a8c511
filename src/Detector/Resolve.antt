-- ===== src/Detector/Resolve.antt =====
-- seif/detector.py: `_select_cluster` and `_resolve`.
pub mod Select
pub mod Admit
pub mod Cluster
pub mod Result
use seif_pii.Base.{
  ℕ, zero, suc, ◌+◌, ◌-◌, ◌≤◌, Bool, true, false, ◌&&◌, ◌||◌, not, Option, none, some, List, [],
  ◌∷◌, ◌++◌, arith, length, get_elem?, insert_at, any, null, map, ltb, leb, if◌then◌else◌, max,
}
use seif_pii.Span.{Span, span_eq}
use seif_pii.Detector.Order.{ranks_before, place_before, sort}

-- `bisect_left` of a sorted list: the number of elements below `x`, all of them in front.
unfoldable pub bisect_left : List ℕ → ℕ → ℕ
bisect_left [] x = 0
bisect_left (y ∷ ys) x = elim (ltb y x) [ true ↦ suc (bisect_left ys x) | false ↦ 0 ]

-- `i and accepted[i - 1].end > start`
unfoldable pub clashes_left : List Span → ℕ → ℕ → Bool
clashes_left accepted zero start = false
clashes_left accepted (suc i) start = elim (get_elem? accepted i) [
  | none ↦ false
  | some a ↦ ltb start a.end
]

-- `i < len(accepted) and end > accepted[i].start`
unfoldable pub clashes_right : List Span → ℕ → ℕ → Bool
clashes_right accepted i end = elim (get_elem? accepted i) [
  | none ↦ false
  | some a ↦ ltb a.start end
]

-- One round of `_select_cluster`. The list `starts` holds the starts of `accepted`.
unfoldable pub admit : List Span → Span → List Span
unfolding bisect_left clashes_left clashes_right
admit accepted span =
    let i = bisect_left (map (λ (a : Span). a.start) accepted) span.start in
    if clashes_left accepted i span.start || clashes_right accepted i span.end
    then accepted
    else insert_at i span accepted

unfoldable pub admit_all : List Span → List Span → List Span
admit_all accepted [] = accepted
admit_all accepted (span ∷ spans) = admit_all (admit accepted span) spans

unfoldable pub select_cluster : List Span → List Span
unfolding admit_all
select_cluster (span ∷ []) = span ∷ []
select_cluster cluster = admit_all [] (sort ranks_before cluster)

-- `set(candidates)`: equal spans once.
unfoldable pub dedup : List Span → List Span
dedup [] = []
dedup (span ∷ spans) =
    let rest = dedup spans in if any (span_eq span) rest then rest else span ∷ rest

-- The loop of `_resolve` over the spans in order, with its `cluster` and `end`; the first span
-- finds an empty cluster whatever `end` is.
unfoldable pub resolve_from : List Span → ℕ → List Span → List Span
resolve_from cluster end [] = if null cluster then [] else select_cluster cluster
resolve_from cluster end (span ∷ spans) = elim (not (null cluster) && leb end span.start) [
  | true ↦ select_cluster cluster ++ resolve_from (span ∷ []) (max end span.end) spans
  | false ↦ resolve_from (cluster ++ span ∷ []) (max end span.end) spans
]

unfoldable pub resolve : List Span → List Span
unfolding dedup resolve_from
resolve candidates = resolve_from [] 0 (sort place_before (dedup candidates))
