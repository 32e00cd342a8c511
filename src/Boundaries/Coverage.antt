-- ===== src/Boundaries/Coverage.antt =====
-- `preserve_model_boundaries` on the whole list: order, coverage and provenance.
use native.Mathlib.Nat.{le_refl}
use seif_pii.Base.{
  ℕ, ◌≡◌, refl, ◌⊎◌, inl, inr, Bool, true, ◌||◌, List, [], ◌∷◌, null, keep, if_either, In,
  In-append,
}
use seif_pii.Text.{Text, Unicode}
use seif_pii.Span.{Span, InOrder, InOrder-append, covered, covered-append}
use seif_pii.Detector.Order.{sort}
use seif_pii.Detector.Order.Sorting.{Sorted-sort}
use seif_pii.Boundaries.{model_before, parts_of, refine, refine_all, preserve_model_boundaries}
use seif_pii.Boundaries.Parts.{model_before-IsOrder, meets, parts_of-keep}
use seif_pii.Boundaries.Trim.{UnicodeLaws, alnum_at}
use seif_pii.Boundaries.Partition.{Piece, refine-InOrder, refine-covers, refine-Piece}

-- Of the sorted model spans, the two bisections and the test of the end leave exactly those that
-- share a position with the resolved span, in order.
pub parts_of-sort :
    (candidates : List Span) (original : Span)
    → parts_of (sort model_before candidates) original
      ≡ keep (meets original) (sort model_before candidates)
parts_of-sort candidates original =
    parts_of-keep (sort model_before candidates) original
      (Sorted-sort model_before model_before-IsOrder candidates)

module _ (u : Unicode) (laws : UnicodeLaws u) (is_ip : Text → Bool) (text : Text) where
  module _ (models : List Span) where
    refine_all-InOrder :
        (lo size : ℕ) (resolved : List Span)
        → InOrder lo size resolved
        → InOrder lo size (refine_all u is_ip text models resolved)
    unfolding refine_all
    refine_all-InOrder lo size [] o = o
    refine_all-InOrder lo size (s ∷ resolved) (h1, h2, o) =
        InOrder-append lo s.end size (refine u is_ip text models s) _
          (InOrder-append lo s.start s.end [] _ h1 (refine-InOrder u laws is_ip text models s h2))
          (refine_all-InOrder s.end size resolved o)

    refine_all_covers :
        (i lo size : ℕ) (resolved : List Span)
        → InOrder lo size resolved
        → alnum_at u text i ≡ true
        → covered i (refine_all u is_ip text models resolved) ≡ covered i resolved
    unfolding refine_all covered
    refine_all_covers i lo size [] o a = refl
    refine_all_covers i lo size (s ∷ resolved) (h1, h2, o) a = rw (
      covered-append i (refine u is_ip text models s) (refine_all u is_ip text models resolved),
      refine-covers u laws is_ip text models s i h2 a,
      refine_all_covers i s.end size resolved o a,
    )

    refine_all-Piece :
        (out : Span) (lo size : ℕ) (resolved : List Span)
        → InOrder lo size resolved
        → In out (refine_all u is_ip text models resolved)
        → (original : Span) × In original resolved × Piece original out
    unfolding refine_all
    refine_all-Piece out lo size [] o m = absurd m
    refine_all-Piece out lo size (s ∷ resolved) (h1, h2, o) m =
        elim (In-append out (refine u is_ip text models s) _ m) [
          | inl here_cut ↦ (s, inl refl, refine-Piece u laws is_ip text models s out h2 here_cut)
          | inr later ↦
              let (original, there, piece) = refine_all-Piece out s.end size resolved o later in
              (original, inr there, piece)
        ]

  module _ (size : ℕ) (resolved candidates : List Span) (o : InOrder 0 size resolved) where
    preserve_cases :
        (preserve_model_boundaries u is_ip text resolved candidates ≡ resolved)
        ⊎ (preserve_model_boundaries u is_ip text resolved candidates
            ≡ refine_all u is_ip text (sort model_before candidates) resolved)
    unfolding preserve_model_boundaries
    preserve_cases = if_either (null resolved || null candidates) resolved _

    -- From spans in order, the refined spans are in order again, none overlapping another.
    pub preserve-InOrder :
        InOrder 0 size (preserve_model_boundaries u is_ip text resolved candidates)
    preserve-InOrder = elim preserve_cases [
      | inl same ↦ rw same o
      | inr cut ↦ rw cut (refine_all-InOrder (sort model_before candidates) 0 size resolved o)
    ]

    -- A position with a letter or a digit is covered by the refined spans exactly if it was covered
    -- by the resolved ones. Assumed of the Unicode database: no letter or digit is white space.
    pub preserve_covers :
        (i : ℕ)
        → alnum_at u text i ≡ true
        → covered i (preserve_model_boundaries u is_ip text resolved candidates)
          ≡ covered i resolved
    preserve_covers i a = elim preserve_cases [
      | inl same ↦ rw same
      | inr cut ↦ rw (cut, refine_all_covers (sort model_before candidates) i 0 size resolved o a)
    ]

    -- Each refined span lies within a resolved span and has its type, confidence and reason.
    pub preserve-Piece :
        (out : Span)
        → In out (preserve_model_boundaries u is_ip text resolved candidates)
        → (original : Span) × In original resolved × Piece original out
    preserve-Piece out m = elim preserve_cases [
      | inl same ↦ (
        out,
        (rw same at m),
        record {
          type = refl;
          confidence = refl;
          reason = refl;
          start = le_refl out.start;
          end = le_refl out.end;
        },
      )
      | inr cut ↦
          refine_all-Piece (sort model_before candidates) out 0 size resolved o (rw cut at m)
    ]
