-- ===== src/Transform/Restoring.antt =====
-- seif/transform.py: `restore_exact`, the token pattern and `restore_tokens`.
use seif_pii.Base.{
  ℕ, zero, suc, ◌+◌, ◌-◌, ◌≡◌, refl, Bool, true, false, ◌&&◌, ◌||◌, not, Option, none, some, List,
  [], ◌∷◌, ◌++◌, length, take, drop, slice, ltb, leb, ◌==◌, if◌then◌else◌,
}
use seif_pii.Base.Result.{Result, ok, raise, ◌>>=◌}
use seif_pii.Base.Maybe
use seif_pii.Text.{Text, codes, is_prefix, text_eq, join}
use seif_pii.Transform.Masking.{Replacement}

pub data RestoreError : Type 0 where
  invalid_coordinates unknown_token restoration_too_large : RestoreError

-- The loop of `restore_exact` from `offset` on: the parts still to be joined.
unfoldable pub restore_from : Text → ℕ → List Replacement → Result RestoreError (List Text)
restore_from text offset [] = ok (drop offset text ∷ [])
restore_from text offset (item ∷ items) =
    let rest =
      (restore_from text item.end items >>= λ parts.
      ok (slice text offset item.start ∷ item.original ∷ parts)) in
    if leb offset item.start
      && ltb item.start item.end
      && leb item.end (length text)
      && text_eq (slice text item.start item.end) item.replacement
    then rest
    else raise invalid_coordinates

unfoldable pub restore_exact : Text → List Replacement → Result RestoreError Text
unfolding restore_from
restore_exact masked items = do parts ← restore_from masked 0 items; ok (join parts)

-- `[A-Z]`, `[A-Z0-9_]`, `[0-9a-f]`
is_upper : ℕ → Bool
is_upper c = leb b'A' c && leb c b'Z'

is_kind_char : ℕ → Bool
unfolding is_upper
is_kind_char c = is_upper c || leb b'0' c && leb c b'9' || c == b'_'

is_hex : ℕ → Bool
is_hex c = leb b'0' c && leb c b'9' || leb b'a' c && leb c b'f'

-- A greedy run of at most `n` characters of a class, and the rest.
unfoldable pub run_of : (ℕ → Bool) → ℕ → Text → Text × Text
run_of p zero t = ([], t)
run_of p (suc n) [] = ([], [])
run_of p (suc n) (c ∷ t) = let r = run_of p n t in if p c then (c ∷ r.0, r.1) else ([], c ∷ t)

-- `re.match` of a fixed text, of one character of a class, of a run of `low` to `high` of them.
unfoldable pub literal : Text → Text → Option Text
unfolding is_prefix
literal p t = if is_prefix p t then some (drop (length p) t) else none

unfoldable pub one_of : (ℕ → Bool) → Text → Option Text
one_of p [] = none
one_of p (c ∷ t) = if p c then some t else none

unfoldable pub repeated : (ℕ → Bool) → ℕ → ℕ → Text → Option Text
unfolding run_of
repeated p low high t = let r = run_of p high t in if leb low (length r.0) then some r.1 else none

-- `_TOKEN` at the head of a text: the text behind the match. No class of the pattern has the
-- character that follows it, so greedy runs need no backtracking.
unfoldable pub after_token : Text → Option Text
unfolding is_upper is_kind_char is_hex literal one_of repeated
after_token t = Maybe.◌>>=◌ (literal (codes "⟦PD:") t) λ a. Maybe.◌>>=◌ (one_of is_upper a) λ b.
    Maybe.◌>>=◌ (repeated is_kind_char 1 39 b) λ c.
      Maybe.◌>>=◌ (literal (codes ":") c)
        λ d. Maybe.◌>>=◌ (repeated is_hex 16 16 d) λ e. literal (codes "⟧") e

-- The text cut up by `_TOKEN.finditer`.
pub data Piece : Type 0 where
  plain : ℕ → Piece
  match : Text → Piece

-- The scan from left to right, on fuel for the text's length.
unfoldable pub pieces_from : ℕ → Text → List Piece
unfolding after_token
pieces_from zero t = []
pieces_from (suc fuel) [] = []
pieces_from (suc fuel) (c ∷ t) = elim (after_token (c ∷ t)) [
  | none ↦ plain c ∷ pieces_from fuel t
  | some rest ↦ match (take (length (c ∷ t) - length rest) (c ∷ t)) ∷ pieces_from fuel rest
]

unfoldable pub pieces : Text → List Piece
unfolding pieces_from
pieces t = pieces_from (length t) t

-- `mapping.get(token)`: of equal replacements the last one counts.
unfoldable pub original_of : Text → List Replacement → Option Text
original_of t [] = none
original_of t (item ∷ items) = elim (original_of t items) [
  | some o ↦ some o
  | none ↦ if text_eq item.replacement t then some item.original else none
]

-- The first loop: `found` and `output_chars` at its end.
unfoldable pub measure : List Replacement → List Piece → Bool → ℕ → Result RestoreError (Bool × ℕ)
measure items [] found size = ok (found, size)
measure items (plain c ∷ ps) found size = measure items ps found size
measure items (match t ∷ ps) found size = elim (original_of t items) [
  | none ↦ raise unknown_token
  | some o ↦ measure items ps true (size + length o - length t)
]

-- `_TOKEN.sub(lambda match: mapping[match.group()], text)`
unfoldable pub substitute : List Replacement → List Piece → Result RestoreError Text
substitute items [] = ok []
substitute items (plain c ∷ ps) = do rest ← substitute items ps; ok (c ∷ rest)
substitute items (match t ∷ ps) = elim (original_of t items) [
  | none ↦ raise unknown_token
  | some o ↦ substitute items ps >>= λ rest. ok (o ++ rest)
]

abbrev pub exceeds : ℕ → Option ℕ → Bool
exceeds n none = false
exceeds n (some limit) = ltb limit n

unfoldable pub restore_tokens : Text → List Replacement → Option ℕ → Result RestoreError Text
unfolding pieces measure substitute
restore_tokens text items limit = do
  (found, size) ← measure items (pieces text) false (length text)
  if not found
      then raise unknown_token
      else if exceeds size limit
      then raise restoration_too_large
      else substitute items (pieces text)

abbrev pin_items : List Replacement
pin_items =
    record {
      start = 0;
      end = 25;
      original = codes "2050";
      replacement = codes "⟦PD:PIN:0123456789abcdef⟧";
    }
    ∷ []

restore_tokens_test :
    restore_tokens (codes "x ⟦PD:PIN:0123456789abcdef⟧⟦PD:") pin_items none
    ≡ ok (codes "x 2050⟦PD:")
unfolding restore_tokens original_of text_eq
restore_tokens_test = refl
