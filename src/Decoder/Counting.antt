-- ===== src/Decoder/Counting.antt =====
-- The counts that `_tokenize` returns: no word has more subwords than a window takes, and together they are
-- the ids.
use seif_pii.Base.{
  ℕ, zero, suc, ◌+◌, ◌≤◌, ◌<◌, ◌≡◌, refl, sym, subst, ap, ◌∙◌, Bool, false, not, ◌&&◌, inl, inr,
  Bool-cases, Option-cases, Option, none, some, List, [], ◌∷◌, map, arith, length, any, keep, leb,
  ltb, ◌==◌, replace_at, All-keep, drop,
}
use seif_pii.Base.Result.{ok, Result-cases}
use seif_pii.Text.{Text}
use seif_pii.Decoder.Windows.{budget, entry, repeat, all_some}
use seif_pii.Decoder.Coverage.{Fits}
use seif_pii.Decoder.Budget.{sum, entry-drop}
use seif_pii.Decoder.Reading.{count_owners, tokenize}
use seif_pii.Decoder.Sequential.{active_from}

length-replace_at : (i y : ℕ) (xs : List ℕ) → length (replace_at i y xs) ≡ length xs
length-replace_at i y [] = refl
length-replace_at zero y (x ∷ xs) = refl
length-replace_at (suc i) y (x ∷ xs) = ap (λ (n : ℕ). suc n) (length-replace_at i y xs)

sum-replace_at :
    (i : ℕ) (xs : List ℕ) → i < length xs → sum (replace_at i (suc (entry xs i)) xs) ≡ suc (sum xs)
sum-replace_at i [] h = absurd (omega arith)
sum-replace_at zero (x ∷ xs) h = omega arith
sum-replace_at (suc i) (x ∷ xs) h = omega (arith, sum-replace_at i xs (omega arith))

count_owners-sum :
    (words previous : ℕ) (owners : List (Option ℕ)) (counts found : List ℕ)
    → length counts ≡ words
    → count_owners words previous owners counts ≡ ok found
    → (length found ≡ words) × (sum found ≡ sum counts + length owners)
unfolding count_owners
count_owners-sum words previous [] counts found n e =
    let same : counts ≡ found = ground arith in rw (← same) (n, omega arith)
count_owners-sum words previous (none ∷ owners) counts found n e = absurd (ground arith)
count_owners-sum words previous (some owner ∷ owners) counts found n e =
    elim (Bool-cases (ltb owner words && leb previous (suc owner))) [
      | inl good ↦
          let (a, b) =
            count_owners-sum words (suc owner) owners
              (replace_at owner (suc (entry counts owner)) counts) found
              (length-replace_at owner (suc (entry counts owner)) counts ∙ n) (rw good at e) in
          (a, omega (arith, b, sum-replace_at owner counts (ground arith)))
      | inr bad ↦ absurd (ground arith)
    ]

sum-repeat : (n : ℕ) → (sum (repeat n 0) ≡ 0) × (length {A = ℕ} (repeat n 0) ≡ n)
sum-repeat zero = (refl, refl)
sum-repeat (suc n) = let (a, b) = sum-repeat n in (omega arith, omega arith)

any-Fits : (counts : List ℕ) → any (λ (c : ℕ). ltb budget c) counts ≡ false → Fits counts
any-Fits [] h = tt
any-Fits (c ∷ counts) h = (ground arith, any-Fits counts (ground arith))

pub length-all_some :
    {A : Type 0} (xs : List (Option A)) (ys : List A)
    → all_some xs ≡ some ys
    → length xs ≡ length ys
unfolding all_some
length-all_some [] ys e = let same : [] ≡ ys = ground arith in rw (← same) refl
length-all_some (none ∷ xs) ys e = absurd (ground arith)
length-all_some (some x ∷ xs) ys e = elim (Option-cases (all_some xs)) [
  | inl bad ↦ absurd (ground arith)
  | inr (zs, good) ↦
      let same : x ∷ zs ≡ ys = ground arith in
      rw (← same) (ap (λ (n : ℕ). suc n) (length-all_some xs zs good))
]

pub record IsCounted (words : List Text) (encoded : List ℕ × List ℕ) : Type 0 where
  pub fits : Fits encoded.1
  pub size : length encoded.1 ≡ length words
  pub aligned : length encoded.0 ≡ sum encoded.1

module _ (is_control : ℕ → Bool)
    (tokenizer : List Text → Option (List (Option ℕ) × List (Option ℕ))) where
  pub tokenize-IsCounted :
      (words : List Text) (encoded : List ℕ × List ℕ)
      → tokenize is_control tokenizer words ≡ ok encoded
      → IsCounted words encoded
  unfolding tokenize
  tokenize-IsCounted words encoded e = elim (Option-cases (tokenizer words)) [
    | inl none_given ↦ absurd (ground arith)
    | inr ((ids, owners), given) ↦ elim (Option-cases (all_some ids)) [
      | inl bad ↦ absurd (ground arith)
      | inr (found, good) ↦ elim (Bool-cases (length ids == length owners)) [
        | inl same ↦
            elim (Result-cases (count_owners (length words) 0 owners (repeat (length words) 0))) [
              | inr (counts, counted) ↦
                  let start = sum-repeat (length words) in
                  let (n, total) =
                    count_owners-sum (length words) 0 owners (repeat (length words) 0) counts
                      start.1 counted in
                  elim (Bool-cases (any (λ (c : ℕ). ltb budget c) counts)) [
                    | inl wide ↦ absurd (ground arith)
                    | inr fits ↦
                        let there : (found, counts) ≡ encoded = ground arith in
                        subst (IsCounted words) there (record {
                          fits = any-Fits counts fits;
                          size = n;
                          aligned =
                              let m = length-all_some ids found good in ground (arith, start.0);
                        })
                  ]
              | inl (f, failed) ↦ absurd (ground arith)
            ]
        | inr differ ↦ absurd (ground arith)
      ]
    ]
  ]

-- The counts of the words that the tokenizer keeps.
abbrev pub kept : List ℕ → List ℕ
kept counts = map (entry counts) (active_from 0 counts)

is_kept : ℕ → Bool
is_kept c = not (c == 0)

entry-at : (xs : List ℕ) (i c : ℕ) (rest : List ℕ) → drop i xs ≡ c ∷ rest → entry xs i ≡ c
entry-at xs i c rest e =
    let j : i + 0 ≡ i = omega arith in
    ap (λ (k : ℕ). entry xs k) (sym j) ∙ entry-drop i 0 xs ∙ ap (λ ys. entry ys 0) e

drop_more : (xs : List ℕ) (i c : ℕ) (rest : List ℕ) → drop i xs ≡ c ∷ rest → drop (suc i) xs ≡ rest
drop_more [] zero c rest e = absurd (ground arith)
drop_more [] (suc i) c rest e = absurd (ground arith)
drop_more (x ∷ xs) zero c rest e = ground arith
drop_more (x ∷ xs) (suc i) c rest e = drop_more xs i c rest e

map-active_from :
    (xs : List ℕ) (i : ℕ) (counts : List ℕ)
    → drop i xs ≡ counts
    → map (entry xs) (active_from i counts) ≡ keep is_kept counts
unfolding active_from is_kept
map-active_from xs i [] e = refl
map-active_from xs i (c ∷ counts) e =
    let ih = map-active_from xs (suc i) counts (drop_more xs i c counts e) in
    elim (Bool-cases (c == 0)) [
      | inl empty ↦ ground (arith, ih)
      | inr more ↦ ground (arith, ih, entry-at xs i c counts e)
    ]

sum-keep : (counts : List ℕ) → sum (keep is_kept counts) ≡ sum counts
unfolding is_kept
sum-keep [] = refl
sum-keep (c ∷ counts) = ground (arith, sum-keep counts)

pub kept-Fits : (counts : List ℕ) → Fits counts → Fits (kept counts)
kept-Fits counts h =
    rw (map-active_from counts 0 counts refl) (All-keep (λ (c : ℕ). c ≤ budget) is_kept counts h)

pub kept-sum : (counts : List ℕ) → sum (kept counts) ≡ sum counts
kept-sum counts = rw (map-active_from counts 0 counts refl) (sum-keep counts)
