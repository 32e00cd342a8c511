-- ===== src/Transform/Tokens.antt =====
-- `restore_tokens`: the token scan loses nothing, the count made before the substitution is exact,
-- and the output limit holds of what is returned.
use seif_pii.Base.{
  ℕ, zero, suc, ◌+◌, ◌-◌, ◌≤◌, ◌≡◌, refl, sym, ap, ◌∙◌, inl, inr, Bool, true, Option, none, some,
  List, [], ◌∷◌, ◌++◌, append_assoc, arith, length, take, drop, Bool-cases, Option-cases,
  length-append, take-append_length,
}
use seif_pii.Base.Maybe
use seif_pii.Base.Result.{ok}
use seif_pii.Text.{Text, codes, is_prefix}
use seif_pii.Transform.Masking.{Replacement}
use seif_pii.Transform.Restoring.{
  run_of, literal, one_of, repeated, after_token, Piece, plain, match, pieces_from, pieces,
  original_of, measure, substitute,
}

-- What is left of a text behind a match, shorter than the text by the match's length.
record Behind (n : ℕ) (rest t : Text) : Type 0 where
  matched : Text
  whole : t ≡ matched ++ rest
  size : n ≤ length matched

Behind-trans : (m n : ℕ) (a b c : Text) → Behind m b a → Behind n c b → Behind (m + n) c a
Behind-trans m n a b c p q = record {
  matched = p.matched ++ q.matched;
  whole = rw (append_assoc, ← q.whole) p.whole;
  size = omega (arith, length-append p.matched q.matched, p.size, q.size);
}

is_prefix-whole : (p t : Text) → is_prefix p t ≡ true → t ≡ p ++ drop (length p) t
unfolding is_prefix
is_prefix-whole [] t e = refl
is_prefix-whole (x ∷ p) [] e = ground arith
is_prefix-whole (x ∷ p) (y ∷ t) e =
    let same : y ≡ x = ground arith in
    let more : is_prefix p t ≡ true = ground arith in
    rw same (ap (λ r. x ∷ r) (is_prefix-whole p t more))

literal-Behind : (p t rest : Text) → literal p t ≡ some rest → Behind (length p) rest t
unfolding literal
literal-Behind p t rest e =
    let found : is_prefix p t ≡ true = ground arith in
    let same : drop (length p) t ≡ rest = ground arith in
    record { matched = p; whole = rw (← same) (is_prefix-whole p t found); size = omega arith }

one_of-Behind : (p : ℕ → Bool) (t rest : Text) → one_of p t ≡ some rest → Behind 1 rest t
unfolding one_of
one_of-Behind p [] rest e = absurd (ground arith)
one_of-Behind p (c ∷ t) rest e =
    let same : t ≡ rest = ground arith in
    record { matched = c ∷ []; whole = ap (λ r. c ∷ r) same; size = omega arith }

run_of-whole : (p : ℕ → Bool) (n : ℕ) (t : Text) → t ≡ (run_of p n t).0 ++ (run_of p n t).1
unfolding run_of
run_of-whole p zero t = refl
run_of-whole p (suc n) [] = refl
run_of-whole p (suc n) (c ∷ t) = elim (Bool-cases (p c)) [
  | inl hit ↦ rw hit (ap (λ r. c ∷ r) (run_of-whole p n t))
  | inr miss ↦ rw miss
]

repeated-Behind :
    (p : ℕ → Bool) (low high : ℕ) (t rest : Text)
    → repeated p low high t ≡ some rest
    → Behind low rest t
unfolding repeated
repeated-Behind p low high t rest e =
    let same : (run_of p high t).1 ≡ rest = ground arith in
    record {
      matched = (run_of p high t).0;
      whole = rw (← same) (run_of-whole p high t);
      size = ground arith;
    }

Behind->>= :
    (m n : ℕ) (o : Option Text) (f : Text → Option Text) (t rest : Text)
    → ((a : Text) → o ≡ some a → Behind m a t)
    → ((a : Text) → f a ≡ some rest → Behind n rest a)
    → Maybe.◌>>=◌ o f ≡ some rest
    → Behind (m + n) rest t
Behind->>= m n none f t rest h k e = absurd (ground arith)
Behind->>= m n (some a) f t rest h k e = Behind-trans m n t a rest (h a refl) (k a e)

-- A token has at least 24 characters, and what follows it is the rest of the text.
after_token-Behind : (t rest : Text) → after_token t ≡ some rest → Behind 24 rest t
unfolding after_token
after_token-Behind t rest e =
    Behind->>= 4 20 (literal (codes "⟦PD:") t) _ t rest (literal-Behind (codes "⟦PD:") t)
      (λ a. Behind->>= 1 19 (one_of _ a) _ a rest (one_of-Behind _ a) (λ b.
        Behind->>= 1 18 (repeated _ 1 39 b) _ b rest (repeated-Behind _ 1 39 b) (λ c.
          Behind->>= 1 17 (literal (codes ":") c) _ c rest (literal-Behind (codes ":") c) (λ d.
            Behind->>= 16 1 (repeated _ 16 16 d) _ d rest (repeated-Behind _ 16 16 d)
              (λ f. literal-Behind (codes "⟧") f rest)))))
      e

-- The text of the pieces.
pub piece_text : Piece → Text
piece_text (plain c) = c ∷ []
piece_text (match t) = t

pub recompose : List Piece → Text
recompose [] = []
recompose (p ∷ ps) = piece_text p ++ recompose ps

pieces_from-plain :
    (fuel c : ℕ) (t : Text)
    → after_token (c ∷ t) ≡ none
    → pieces_from (suc fuel) (c ∷ t) ≡ plain c ∷ pieces_from fuel t
unfolding pieces_from
pieces_from-plain fuel c t h = ground arith

pieces_from-match :
    (fuel c : ℕ) (t rest : Text)
    → after_token (c ∷ t) ≡ some rest
    → pieces_from (suc fuel) (c ∷ t)
      ≡ match (take (length (c ∷ t) - length rest) (c ∷ t)) ∷ pieces_from fuel rest
unfolding pieces_from
pieces_from-match fuel c t rest h = ground arith

recompose-pieces_from : (fuel : ℕ) (t : Text) → length t ≤ fuel → recompose (pieces_from fuel t) ≡ t
unfolding pieces_from recompose piece_text
recompose-pieces_from zero [] h = refl
recompose-pieces_from zero (c ∷ t) h = absurd (omega arith)
recompose-pieces_from (suc fuel) [] h = refl
recompose-pieces_from (suc fuel) (c ∷ t) h = elim (Option-cases (after_token (c ∷ t))) [
  | inl none_here ↦
      rw (pieces_from-plain fuel c t none_here)
        (ap (λ r. c ∷ r) (recompose-pieces_from fuel t (omega arith)))
  | inr (rest, found) ↦
      let k = after_token-Behind (c ∷ t) rest found in
      let size : length (c ∷ t) ≡ length k.matched + length rest =
        ap length k.whole ∙ length-append k.matched rest in
      let cut : take (length (c ∷ t) - length rest) (c ∷ t) ≡ k.matched =
        let n : length (c ∷ t) - length rest ≡ length k.matched = omega arith in
        rw n (rw k.whole (take-append_length k.matched rest)) in
      rw (pieces_from-match fuel c t rest found)
        (rw cut (rw (recompose-pieces_from fuel rest (omega (arith, k.size))) (sym k.whole)))
]

-- The scan cuts the text up and loses nothing.
pub recompose-pieces : (t : Text) → recompose (pieces t) ≡ t
unfolding pieces
recompose-pieces t = recompose-pieces_from (length t) t (omega arith)

-- How the count of the first loop relates to the text that the second one makes.
pub measure-substitute :
    (items : List Replacement) (ps : List Piece) (found f : Bool) (size n : ℕ)
    → length (recompose ps) ≤ size
    → measure items ps found size ≡ ok (f, n)
    → (out : Text) × (substitute items ps ≡ ok out)
      × (n + length (recompose ps) ≡ size + length out)
unfolding measure substitute recompose piece_text
measure-substitute items [] found f size n h e = ([], refl, ground arith)
measure-substitute items (plain c ∷ ps) found f size n h e =
    let (out, made, count) = measure-substitute items ps found f size n (omega arith) e in
    (c ∷ out, rw made, omega arith)
measure-substitute items (match t ∷ ps) found f size n h e =
    elim (Option-cases (original_of t items)) [
      | inl unknown ↦ absurd (ground arith)
      | inr (o, known) ↦
          let whole = length-append t (recompose ps) in
          let (out, made, count) =
            measure-substitute items ps true f (size + length o - length t) n (omega arith)
              (ground arith) in
          (o ++ out, ground arith, omega (arith, length-append o out))
    ]
