-- ===== src/Transform/TokenRules.antt =====
-- `restore_tokens` on every branch, and its output limit.
use seif_pii.Base.{
  ℕ, ◌+◌, ◌-◌, ◌≤◌, ◌≡◌, refl, ap, inl, inr, Bool, true, false, ◌&&◌, ◌||◌, Option, none, some,
  List, [], ◌∷◌, arith, length, if◌then◌else◌, Option-cases, Bool-cases,
}
use seif_pii.Base.Result.{ok, raise}
use seif_pii.Text.{Text}
use seif_pii.Transform.Masking.{Replacement}
use seif_pii.Transform.Restoring.{
  unknown_token, restoration_too_large, Piece, plain, match, pieces, original_of, measure,
  substitute, exceeds, restore_tokens,
}
use seif_pii.Transform.Tokens.{recompose, recompose-pieces, measure-substitute}

-- Each token of the text stands for an original of the record.
unfoldable pub known : List Replacement → List Piece → Bool
known items [] = true
known items (plain c ∷ ps) = known items ps
known items (match t ∷ ps) = elim (original_of t items) [ none ↦ false | some o ↦ known items ps ]

unfoldable pub has_match : List Piece → Bool
has_match [] = false
has_match (plain c ∷ ps) = has_match ps
has_match (match t ∷ ps) = true

measure-known :
    (items : List Replacement) (ps : List Piece) (found : Bool) (size : ℕ)
    → known items ps ≡ true
    → (n : ℕ) × (measure items ps found size ≡ ok (found || has_match ps, n))
unfolding known has_match measure
measure-known items [] true size h = (size, refl)
measure-known items [] false size h = (size, refl)
measure-known items (plain c ∷ ps) found size h = measure-known items ps found size h
measure-known items (match t ∷ ps) found size h = elim (Option-cases (original_of t items)) [
  | inl unknown ↦ absurd (ground arith)
  | inr (o, k) ↦
      let (n, e) = measure-known items ps true (size + length o - length t) (ground arith) in
      (n, ground arith)
]

measure_unknown :
    (items : List Replacement) (ps : List Piece) (found : Bool) (size : ℕ)
    → known items ps ≡ false
    → measure items ps found size ≡ raise unknown_token
unfolding known measure
measure_unknown items [] found size h = ground arith
measure_unknown items (plain c ∷ ps) found size h = measure_unknown items ps found size h
measure_unknown items (match t ∷ ps) found size h = elim (Option-cases (original_of t items)) [
  | inl stranger ↦ ground arith
  | inr (o, k) ↦
      let rest = measure_unknown items ps true (size + length o - length t) (ground arith) in
      ground arith
]

restore_tokens_rejects :
    (text : Text) (items : List Replacement) (limit : Option ℕ)
    → (known items (pieces text) && has_match (pieces text)) ≡ false
    → restore_tokens text items limit ≡ raise unknown_token
unfolding restore_tokens
restore_tokens_rejects text items limit h = elim (Bool-cases (known items (pieces text))) [
  | inl all_known ↦
      let (n, e) = measure-known items (pieces text) false (length text) all_known in
      let bare : has_match (pieces text) ≡ false = ground arith in rw (e, bare)
  | inr stranger ↦ rw (measure_unknown items (pieces text) false (length text) stranger)
]

restore_tokens_accepts :
    (text : Text) (items : List Replacement) (limit : Option ℕ)
    → (known items (pieces text) && has_match (pieces text)) ≡ true
    → (out : Text) × (substitute items (pieces text) ≡ ok out)
      × (restore_tokens text items limit
          ≡ (if exceeds (length out) limit then raise restoration_too_large else ok out))
unfolding restore_tokens
restore_tokens_accepts text items limit h =
    let all_known : known items (pieces text) ≡ true = ground arith in
    let matched : has_match (pieces text) ≡ true = ground arith in
    let (n, e) = measure-known items (pieces text) false (length text) all_known in
    let whole = ap length (recompose-pieces text) in
    let fits : length (recompose (pieces text)) ≤ length text = omega arith in
    let (out, made, count) =
      measure-substitute items (pieces text) false (has_match (pieces text)) (length text) n fits
        e in
    let size : n ≡ length out = omega arith in (out, made, rw (e, matched, made, size))

-- `restore_tokens` on every text and record: without a token, or with one that the record does not
-- know, it raises `unknown_token`. Otherwise each token is replaced by its original, and the result
-- is returned if its length is within the limit, and `restoration_too_large` raised if it is not.
pub restore_tokens_cases :
    (text : Text) (items : List Replacement) (limit : Option ℕ)
    → ((known items (pieces text) && has_match (pieces text)) ≡ false
        → restore_tokens text items limit ≡ raise unknown_token)
      × ((known items (pieces text) && has_match (pieces text)) ≡ true
          → (out : Text) × (substitute items (pieces text) ≡ ok out)
            × (restore_tokens text items limit
                ≡ (if exceeds (length out) limit then raise restoration_too_large else ok out)))
restore_tokens_cases text items limit =
    (restore_tokens_rejects text items limit, restore_tokens_accepts text items limit)

-- A text that `restore_tokens` returns under a limit has at most that many characters.
pub restore_tokens-le :
    (text : Text) (items : List Replacement) (limit : ℕ) (out : Text)
    → restore_tokens text items (some limit) ≡ ok out
    → length out ≤ limit
restore_tokens-le text items limit out h =
    elim (Bool-cases (known items (pieces text) && has_match (pieces text))) [
      | inr no_good ↦
          let r = restore_tokens_rejects text items (some limit) no_good in absurd (ground arith)
      | inl good ↦
          let (out', made, r) = restore_tokens_accepts text items (some limit) good in ground arith
    ]
