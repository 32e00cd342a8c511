-- ===== src/Ner/Covering.antt =====
-- The chunks overlap so far that each short piece of the text lies in one of them, off its inner edges.
use seif_pii.Base.{
  ℕ, zero, suc, ◌+◌, ◌-◌, ◌≤◌, ◌<◌, ◌≡◌, refl, sym, ap, inl, inr, true, false, some, List, [], ◌∷◌,
  arith, min, length, slice, length-slice, ltb, leb, ◌==◌, In, Bool-cases,
}
use seif_pii.Text.{Text}
use seif_pii.Ner.Chunks.{chunks_from, chunks}

-- A chunk with the piece from `s` to `e`, which touches no edge of the chunk but one of the text.
pub record Holds (text : Text) (s e : ℕ) (cs : List (ℕ × Text)) : Type 0 where
  pub offset : ℕ
  pub part : Text
  pub is_chunk : In (offset, part) cs
  pub is_part : part ≡ slice text offset (offset + length part)
  pub ends : offset + length part ≤ length text
  pub left : offset ≤ s
  pub right : e ≤ offset + length part
  pub left_edge : 0 < offset → offset < s
  pub right_edge : offset + length part < length text → e < offset + length part

-- A chunk in front does not matter.
Holds-behind :
    (text : Text) (s e : ℕ) (c : ℕ × Text) (cs : List (ℕ × Text))
    → Holds text s e cs
    → Holds text s e (c ∷ cs)
Holds-behind text s e c cs k = record {
  offset = k.offset;
  part = k.part;
  is_chunk = inr k.is_chunk;
  is_part = k.is_part;
  ends = k.ends;
  left = k.left;
  right = k.right;
  left_edge = k.left_edge;
  right_edge = k.right_edge;
}

module _ (text : Text) (size overlap s e : ℕ) (proper : s < e) (within : e ≤ length text)
    (short : e - s + 2 ≤ overlap) (larger : overlap < size) where
  Holds-here :
      (start end : ℕ) (cs : List (ℕ × Text))
      → start ≤ s
      → (0 < start → start < s)
      → start + length (slice text start end) ≡ end
      → end ≤ length text
      → e ≤ end
      → (end < length text → e < end)
      → Holds text s e ((start, slice text start end) ∷ cs)
  Holds-here start end cs left inner round inside right edge = record {
    offset = start;
    part = slice text start end;
    is_chunk = inl refl;
    is_part = ap (λ (k : ℕ). slice text start k) (sym round);
    ends = omega arith;
    left = left;
    right = omega arith;
    left_edge = inner;
    right_edge = λ h. rw round (edge (rw round at h));
  }

  pub chunks_from-Holds :
      (fuel start : ℕ)
      → length text ≤ fuel + start
      → start ≤ s
      → (0 < start → start < s)
      → Holds text s e (chunks_from fuel size overlap text start)
  unfolding chunks_from
  chunks_from-Holds zero start enough left inner = absurd (omega arith)
  chunks_from-Holds (suc fuel) start enough left inner =
      let end = min (length text) (start + size) in
      let going : ltb start (length text) ≡ true = ground arith in
      let here : length (slice text start end) ≡ end - start =
        length-slice text start end (ground arith) (ground arith) in
      let whole : start + (end - start) ≡ end = ground arith in
      let round : start + length (slice text start end) ≡ end = omega arith in
      elim (Bool-cases (end == length text)) [
        | inl last ↦
            rw (going, last)
              (Holds-here start end [] left inner round (ground arith) (ground arith)
                (ground arith))
        | inr more ↦ elim (Bool-cases (ltb e end)) [
          | inl inside ↦
              rw (going, more)
                (Holds-here start end (chunks_from fuel size overlap text (end - overlap)) left
                  inner round (ground arith) (ground arith) (λ h. ground arith))
          | inr beyond ↦
              rw (going, more)
                (Holds-behind text s e (start, slice text start end)
                  (chunks_from fuel size overlap text (end - overlap))
                  (chunks_from-Holds fuel (end - overlap) (ground arith) (ground arith)
                    (λ h. ground arith)))
        ]
      ]

  -- Chunks of `size` characters that overlap by more than a piece of the text is long, by two at least:
  -- one of them holds the piece, and touches it at no edge but one of the text.
  pub chunks-Holds :
      (cs : List (ℕ × Text)) × (chunks size overlap text ≡ some cs) × Holds text s e cs
  unfolding chunks
  chunks-Holds =
      let fits : leb size overlap ≡ false = ground arith in
      (
        chunks_from (length text) size overlap text 0,
        rw fits,
        chunks_from-Holds (length text) 0 (omega arith) (omega arith) (λ h. absurd (omega arith)),
      )
