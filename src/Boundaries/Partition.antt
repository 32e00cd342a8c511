-- ===== src/Boundaries/Partition.antt =====
-- `_partition` and one round of `preserve_model_boundaries`.
use native.Mathlib.Nat.{le_refl}
use seif_pii.Base.{
  ℕ, ◌≤◌, ◌<◌, ◌≡◌, refl, ◌⊎◌, inl, inr, Bool, true, List, [], ◌∷◌, arith, ltb, Bool-cases,
  if_either, In, tests, In-append,
}
use seif_pii.Text.{Text, Unicode}
use seif_pii.Span.{
  Span, InOrder, InOrder-le, InOrder-append, covers, covered, covered-append, covered-bounds,
}
use seif_pii.Boundaries.{
  moved, remainder, partition_from, compatible_from, compatible_parts, parts_of, refine,
}
use seif_pii.Boundaries.Trim.{UnicodeLaws, alnum_at, remainder_cases}

-- A span with the type, confidence and reason of another, and within it.
pub record Piece (original out : Span) : Type 0 where
  pub type : out.type ≡ original.type
  pub confidence : out.confidence ≡ original.confidence
  pub reason : out.reason ≡ original.reason
  pub start : original.start ≤ out.start
  pub end : out.end ≤ original.end

-- Compatible components lie in order within the span.
compatible_from-InOrder :
    (u : Unicode) (text : Text) (original : Span) (cursor : ℕ) (parts : List Span)
    → cursor ≤ original.end
    → compatible_from u text original cursor parts ≡ true
    → InOrder cursor original.end parts
unfolding compatible_from
compatible_from-InOrder u text original cursor [] le h = le
compatible_from-InOrder u text original cursor (p ∷ parts) le h =
    let c1 : cursor ≤ p.start = ground arith in
    let c2 : p.start < p.end = ground arith in
    let c3 : p.end ≤ original.end = ground arith in
    (c1, c2, compatible_from-InOrder u text original p.end parts c3 (ground arith))

module _ (u : Unicode) (laws : UnicodeLaws u) (text : Text) (original : Span) where
  remainder-InOrder :
      (start end : ℕ) → start ≤ end → InOrder start end (remainder u text original start end)
  remainder-InOrder start end le = elim (remainder_cases u laws text original start end) [
    | inl (bare, no_alnum) ↦ rw bare le
    | inr (s, e, one, h1, h2, h3, keeps) ↦ rw one (h1, h2, h3)
  ]

  remainder_covers :
      (start end i : ℕ)
      → start ≤ i
      → i < end
      → alnum_at u text i ≡ true
      → covered i (remainder u text original start end) ≡ true
  unfolding covered
  remainder_covers start end i h k a = elim (remainder_cases u laws text original start end) [
    | inl (bare, no_alnum) ↦ absurd (let n = no_alnum i h k in ground arith)
    | inr (s, e, one, h1, h2, h3, keeps) ↦ let (l, r) = keeps i h k a in rw one (ground arith)
  ]

  remainder-Piece :
      (start end : ℕ) (out : Span)
      → original.start ≤ start
      → end ≤ original.end
      → In out (remainder u text original start end)
      → Piece original out
  remainder-Piece start end out le ge m = elim (remainder_cases u laws text original start end) [
    | inl (bare, no_alnum) ↦ absurd (rw bare at m)
    | inr (s, e, one, h1, h2, h3, keeps) ↦
        let m' : In out (moved original s e ∷ []) = rw one at m in
        elim m' [
          | inl same ↦ rw same (record {
            type = refl;
            confidence = refl;
            reason = refl;
            start = omega arith;
            end = omega arith;
          })
          | inr none_more ↦ absurd none_more
        ]
  ]

  partition-InOrder :
      (cursor : ℕ) (parts : List Span)
      → InOrder cursor original.end parts
      → InOrder cursor original.end (partition_from u text original cursor parts)
  unfolding partition_from
  partition-InOrder cursor [] le = remainder-InOrder cursor original.end le
  partition-InOrder cursor (p ∷ parts) (h1, h2, o) =
      InOrder-append cursor p.start original.end (remainder u text original cursor p.start)
        (moved original p.start p.end ∷ partition_from u text original p.end parts)
        (remainder-InOrder cursor p.start h1) (le_refl p.start, h2, partition-InOrder p.end parts o)

  partition_covers :
      (cursor i : ℕ) (parts : List Span)
      → InOrder cursor original.end parts
      → cursor ≤ i
      → i < original.end
      → alnum_at u text i ≡ true
      → covered i (partition_from u text original cursor parts) ≡ true
  unfolding partition_from covered
  partition_covers cursor i [] o h k a = remainder_covers cursor original.end i h k a
  partition_covers cursor i (p ∷ parts) (h1, h2, o) h k a =
      let rest = moved original p.start p.end ∷ partition_from u text original p.end parts in
      rw (covered-append i (remainder u text original cursor p.start) rest)
        (elim (Bool-cases (ltb i p.start)) [
          | inl gap ↦ let c = remainder_covers cursor p.start i h (omega tests) a in rw c
          | inr not_gap ↦ elim (Bool-cases (ltb i p.end)) [
            | inl inside ↦ ground arith
            | inr behind ↦
                let c = partition_covers p.end i parts o (omega tests) k a in ground arith
          ]
        ])

  partition-Piece :
      (cursor : ℕ) (parts : List Span) (out : Span)
      → original.start ≤ cursor
      → InOrder cursor original.end parts
      → In out (partition_from u text original cursor parts)
      → Piece original out
  unfolding partition_from
  partition-Piece cursor [] out le o m =
      remainder-Piece cursor original.end out le (le_refl original.end) m
  partition-Piece cursor (p ∷ parts) out le (h1, h2, o) m =
      let inside = InOrder-le p.end original.end parts o in
      elim (In-append out (remainder u text original cursor p.start) _ m) [
        | inl early ↦ remainder-Piece cursor p.start out le (omega arith) early
        | inr (inl same) ↦ rw same (record {
          type = refl;
          confidence = refl;
          reason = refl;
          start = omega arith;
          end = inside;
        })
        | inr (inr late) ↦ partition-Piece p.end parts out (omega arith) o late
      ]

module _ (u : Unicode) (laws : UnicodeLaws u) (is_ip : Text → Bool) (text : Text)
    (models : List Span) (original : Span) where
  -- The span stays, or it is cut at components that lie in order within it.
  refine_cases :
      original.start ≤ original.end
      → (refine u is_ip text models original ≡ original ∷ [])
        ⊎ ((refine u is_ip text models original
              ≡ partition_from u text original original.start (parts_of models original))
            × InOrder original.start original.end (parts_of models original))
  unfolding refine
  refine_cases le =
      elim (Bool-cases (compatible_parts u text original (parts_of models original))) [
        | inr apart ↦ inl (ground arith)
        | inl fit ↦
            let parts = parts_of models original in
            let o = compatible_from-InOrder u text original original.start parts le fit in
            elim (if_either _ (original ∷ [])
              (partition_from u text original original.start parts)) [
                | inl stays ↦ inl stays
                | inr cut ↦ inr (cut, o)
              ]
      ]

  pub refine-InOrder :
      original.start < original.end
      → InOrder original.start original.end (refine u is_ip text models original)
  refine-InOrder valid = elim (refine_cases (omega arith)) [
    | inl stays ↦ rw stays (le_refl original.start, valid, le_refl original.end)
    | inr (cut, o) ↦ rw cut (partition-InOrder u laws text original original.start _ o)
  ]

  pub refine-covers :
      (i : ℕ)
      → original.start < original.end
      → alnum_at u text i ≡ true
      → covered i (refine u is_ip text models original) ≡ covers i original
  unfolding covered
  refine-covers i valid a = elim (refine_cases (omega arith)) [
    | inl stays ↦ rw stays (ground arith)
    | inr (cut, o) ↦ elim (Bool-cases (covers i original)) [
      | inl inside ↦
          rw (cut, inside)
            (partition_covers u laws text original original.start i _ o (ground arith)
              (ground arith) a)
      | inr outside ↦ elim (Bool-cases (covered i (refine u is_ip text models original))) [
        | inr none_there ↦ rw (none_there, outside)
        | inl there ↦
            let (l, r) =
              covered-bounds i original.start original.end (refine u is_ip text models original)
                (refine-InOrder valid) there in
            absurd (ground arith)
      ]
    ]
  ]

  pub refine-Piece :
      (out : Span)
      → original.start < original.end
      → In out (refine u is_ip text models original)
      → Piece original out
  refine-Piece out valid m = elim (refine_cases (omega arith)) [
    | inl stays ↦
        let m' : In out (original ∷ []) = rw stays at m in
        elim m' [
          | inl same ↦ rw same (record {
            type = refl;
            confidence = refl;
            reason = refl;
            start = le_refl original.start;
            end = le_refl original.end;
          })
          | inr none_more ↦ absurd none_more
        ]
    | inr (cut, o) ↦
        partition-Piece u laws text original original.start _ out (le_refl original.start) o
          (rw cut at m)
  ]
