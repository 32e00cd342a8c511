-- ===== src/Span.antt =====
-- seif/detector.py: `Span`. A confidence is a double in [0, 1]; it is only compared, and the bit
-- patterns of non-negative doubles are ordered as their values, so it is kept as its bit pattern.
use seif_pii.Base.{
  ℕ, ◌≤◌, ◌<◌, String, ◌≡◌, refl, Bool, true, ◌&&◌, ◌||◌, ◌++◌, inl, inr, Bool-cases, List, [], ◌∷◌,
  arith, ◌==◌, str_eq, eq_iff, slice, any, leb, ltb,
}
use seif_pii.Text.{Text}

pub record Span : Type 0 where
  pub start : ℕ
  pub end : ℕ
  pub type : String
  pub confidence : ℕ
  pub reason : String

-- Bit patterns of the doubles 1.0 and 0.98.
abbrev pub one : ℕ
one = 0x3ff0000000000000

-- `text[span.start:span.end]`
abbrev pub span_text : Text → Span → Text
span_text text s = slice text s.start s.end

-- Equality of the frozen dataclass: field by field.
unfoldable pub span_eq : Span → Span → Bool
span_eq a b =
    a.start == b.start
    && a.end == b.end
    && str_eq a.type b.type
    && a.confidence == b.confidence
    && str_eq a.reason b.reason

pub span_eq_sound : (a b : Span) → span_eq a b ≡ true → a ≡ b
unfolding span_eq
span_eq_sound a b h = ground (arith, eq_iff a.type b.type, eq_iff a.reason b.reason)

-- Spans that lie in order from `offset`, are not empty, do not overlap and end within `size`:
-- what `detect` returns and `mask` is given.
abbrev pub InOrder : ℕ → ℕ → List Span → Type 0
InOrder offset size [] = offset ≤ size
InOrder offset size (s ∷ spans) = (offset ≤ s.start) × (s.start < s.end) × InOrder s.end size spans

pub InOrder-le : (offset size : ℕ) (spans : List Span) → InOrder offset size spans → offset ≤ size
InOrder-le offset size [] h = h
InOrder-le offset size (s ∷ spans) (h1, h2, h3) = omega (arith, InOrder-le s.end size spans h3)

-- A span that is not empty and lies within `lo` and `size`.
abbrev pub Within : ℕ → ℕ → Span → Type 0
Within lo size s = (lo ≤ s.start) × (s.start < s.end) × (s.end ≤ size)

pub record Overlap (a b : Span) : Type 0 where
  pub starts : a.start < b.end
  pub ends : b.start < a.end

-- Whether a span holds the position `i`, and whether one of a list does.
unfoldable pub covers : ℕ → Span → Bool
covers i s = leb s.start i && ltb i s.end

unfoldable pub covered : ℕ → List Span → Bool
unfolding covers
covered i spans = any (covers i) spans

pub InOrder-append :
    (lo mid size : ℕ) (xs ys : List Span)
    → InOrder lo mid xs
    → InOrder mid size ys
    → InOrder lo size (xs ++ ys)
InOrder-append lo mid size [] [] o p = omega arith
InOrder-append lo mid size [] (y ∷ ys) o (p1, p2, p) = (omega arith, p2, p)
InOrder-append lo mid size (x ∷ xs) ys (o1, o2, o) p =
    (o1, o2, InOrder-append x.end mid size xs ys o p)

pub covered-append :
    (i : ℕ) (xs ys : List Span) → covered i (xs ++ ys) ≡ (covered i xs || covered i ys)
unfolding covered
covered-append i [] ys = refl
covered-append i (x ∷ xs) ys = ground (arith, covered-append i xs ys)

-- Spans in order hold only positions between their bounds.
pub covered-bounds :
    (i lo size : ℕ) (spans : List Span)
    → InOrder lo size spans
    → covered i spans ≡ true
    → (lo ≤ i) × (i < size)
unfolding covered
covered-bounds i lo size [] o h = absurd (ground arith)
covered-bounds i lo size (s ∷ spans) (o1, o2, o) h = elim (Bool-cases (covers i s)) [
  | inl hit ↦
      let le = InOrder-le s.end size spans o in
      let a : s.start ≤ i = ground arith in let b : i < s.end = ground arith in omega arith
  | inr miss ↦ let (p, q) = covered-bounds i s.end size spans o (ground arith) in omega arith
]
