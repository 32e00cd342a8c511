-- ===== src/Transform/Shape.antt =====
-- Mode `mask`, against a description position by position.
use seif_pii.Base.{
  ℕ, ◌+◌, ◌≤◌, ◌<◌, ◌≡◌, refl, sym, ap, ◌∙◌, true, false, some, List, [], ◌∷◌, ◌++◌, arith, length,
  drop, slice, leb, ltb, if◌then◌else◌, length-slice, slice-append-drop, tests, append-nil,
}
use native.Mathlib.Nat.{le_refl}
use seif_pii.Text.{Text, Unicode, join}
use seif_pii.Span.{covers, covered, Span, span_text, InOrder, InOrder-le}
use seif_pii.Transform.Values.{mask_char, shape_mask}
use seif_pii.Transform.Masking.{mask, Replacement, Memo, replace, mask_from, mask_text}

covered_before :
    (i offset size : ℕ) (spans : List Span)
    → InOrder offset size spans
    → i < offset
    → covered i spans ≡ false
unfolding covered covers
covered_before i offset size [] o h = refl
covered_before i offset size (s ∷ spans) (o1, o2, o3) h =
    ground (arith, covered_before i s.end size spans o3)

module _ (u : Unicode) where
  -- Each character, masked where a span holds its position.
  unfoldable pub paint : ℕ → List Span → Text → Text
  paint i spans [] = []
  paint i spans (c ∷ text) =
      (if covered i spans then mask_char u c else c) ∷ paint (i + 1) spans text

  paint-append :
      (i : ℕ) (spans : List Span) (xs ys : Text)
      → paint i spans (xs ++ ys) ≡ paint i spans xs ++ paint (i + length xs) spans ys
  unfolding paint
  paint-append i spans [] ys = ap (λ (k : ℕ). paint i spans [] ++ paint k spans ys) (omega arith)
  paint-append i spans (x ∷ xs) ys =
      let e : i + 1 + length xs ≡ i + length (x ∷ xs) = omega arith in
      ap (λ t. (if covered i spans then mask_char u x else x) ∷ t)
        (paint-append (i + 1) spans xs ys
          ∙ ap (λ (k : ℕ). paint (i + 1) spans xs ++ paint k spans ys) e)

  -- Before the first span nothing changes.
  paint_before :
      (i offset size : ℕ) (spans : List Span) (xs : Text)
      → InOrder offset size spans
      → i + length xs ≤ offset
      → paint i spans xs ≡ xs
  unfolding paint
  paint_before i offset size spans [] o h = refl
  paint_before i offset size spans (x ∷ xs) o h =
      rw (covered_before i offset size spans o (omega arith))
        (ap (λ t. x ∷ t) (paint_before (i + 1) offset size spans xs o (omega arith)))

  paint_past : (i : ℕ) (xs : Text) → paint i [] xs ≡ xs
  unfolding paint covered
  paint_past i [] = refl
  paint_past i (x ∷ xs) = ap (λ t. x ∷ t) (paint_past (i + 1) xs)

  -- Within a span the shape mask is painted.
  paint_within :
      (i : ℕ) (s : Span) (spans : List Span) (xs : Text)
      → s.start ≤ i
      → i + length xs ≤ s.end
      → paint i (s ∷ spans) xs ≡ shape_mask u xs
  unfolding paint shape_mask covered covers
  paint_within i s spans [] h k = refl
  paint_within i s spans (x ∷ xs) h k =
      let a : leb s.start i ≡ true = omega tests in
      let b : ltb i s.end ≡ true = omega tests in
      rw (a, b)
        (ap (λ t. mask_char u x ∷ t) (paint_within (i + 1) s spans xs (omega arith) (omega arith)))

  -- Behind a span the span plays no part.
  paint_behind :
      (i : ℕ) (s : Span) (spans : List Span) (xs : Text)
      → s.end ≤ i
      → paint i (s ∷ spans) xs ≡ paint i spans xs
  unfolding paint covered covers
  paint_behind i s spans [] h = refl
  paint_behind i s spans (x ∷ xs) h =
      let b : ltb i s.end ≡ false = omega tests in
      let c : covers i s ≡ false = ground (arith, b) in
      rw c (
        ap (λ t. (if covered i spans then mask_char u x else x) ∷ t)
          (paint_behind (i + 1) s spans xs (omega arith)))

  painted_span :
      (text : Text) (offset : ℕ) (s : Span) (spans : List Span) (rest : Text)
      → offset ≤ s.start
      → s.start < s.end
      → InOrder s.end (length text) spans
      → rest ≡ paint s.end spans (drop s.end text)
      → slice text offset s.start ++ (shape_mask u (span_text text s) ++ rest)
        ≡ paint offset (s ∷ spans) (drop offset text)
  painted_span text offset s spans rest h1 h2 o e =
      let size = InOrder-le s.end (length text) spans o in
      let before = slice text offset s.start in
      let whole : drop offset text ≡ before ++ (span_text text s ++ drop s.end text) = sym (
        ap (λ t. before ++ t) (slice-append-drop text s.start s.end (omega arith))
        ∙ slice-append-drop text offset s.start h1) in
      let l1 : offset + length before ≡ s.start =
        omega (arith, length-slice text offset s.start h1 (omega arith)) in
      let l2 : s.start + length (span_text text s) ≡ s.end =
        omega (arith, length-slice text s.start s.end (omega arith) size) in
      let cut : paint offset (s ∷ spans) (before ++ (span_text text s ++ drop s.end text))
          ≡ before ++ (shape_mask u (span_text text s) ++ rest) =
        rw (paint-append offset (s ∷ spans) before (span_text text s ++ drop s.end text), l1)
          (rw (paint-append s.start (s ∷ spans) (span_text text s) (drop s.end text), l2)
            (rw (
              paint_before offset s.start (length text) (s ∷ spans) before (le_refl s.start, h2, o)
                  (omega arith),
              paint_within s.start s spans (span_text text s) (omega arith) (omega arith),
              paint_behind s.end s spans (drop s.end text) (omega arith),
              e,
            ))) in
      sym (ap (paint offset (s ∷ spans)) whole ∙ cut)

  paint-mask_from :
      (text : Text) (spans : List Span) (offset size : ℕ) (memo : Memo)
      → InOrder offset (length text) spans
      → (parts : List Text) × (items : List Replacement) × (mask_from u mask text offset size memo
            spans
          ≡ some (parts, items))
        × (join parts ≡ paint offset spans (drop offset text))
  unfolding mask_from replace
  paint-mask_from text [] offset size memo o = (
    drop offset text ∷ [],
    [],
    refl,
    append-nil (drop offset text) ∙ sym (paint_past offset (drop offset text)),
  )
  paint-mask_from text (s ∷ spans) offset size memo (o1, o2, o3) =
      let before = slice text offset s.start in
      let r = shape_mask u (span_text text s) in
      let (parts, items, made, joined) =
        paint-mask_from text spans s.end (size + length before + length r) memo o3 in
      (
        before ∷ r ∷ parts,
        record {
          start = size + length before;
          end = size + length before + length r;
          original = span_text text s;
          replacement = r;
        }
            ∷ items,
        rw made,
        painted_span text offset s spans (join parts) o1 o2 o3 joined,
      )

  -- In mode `mask`, with spans in order, the result has at each position of the text its character,
  -- masked exactly where one of the spans holds the position; no draw is used.
  pub paint-mask_text :
      (text : Text) (draws : List Text) (spans : List Span)
      → InOrder 0 (length text) spans
      → (items : List Replacement) × (mask_text u mask text draws spans
          ≡ some (paint 0 spans text, items))
  unfolding mask_text
  paint-mask_text text draws spans o =
      let (parts, items, made, joined) =
        paint-mask_from text spans 0 0 (record { seen = []; draws = draws }) o in
      (items, rw (made, joined))
