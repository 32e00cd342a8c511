-- ===== src/Detector/Resolve/Select.antt =====
-- `_select_cluster`: the indices gone, what it accepts and what it turns away.
use seif_pii.Base.{
  ℕ, ◌≤◌, ◌<◌, ◌≡◌, refl, ◌⊎◌, inl, inr, true, false, List, [], ◌∷◌, arith, map, ltb, if◌then◌else◌,
  In, Bool-cases, tests,
}
use seif_pii.Span.{Span, InOrder, Within, Overlap}
use seif_pii.Detector.Resolve.{admit}

-- The round without indices.
unfoldable pub put : Span → List Span → List Span
put s [] = s ∷ []
put s (a ∷ rest) = elim (ltb a.start s.start) [
  | true ↦ if ltb s.start a.end then a ∷ rest else a ∷ put s rest
  | false ↦ if ltb a.start s.end then a ∷ rest else s ∷ a ∷ rest
]

starts_of : List Span → List ℕ
starts_of accepted = map (λ (a : Span). a.start) accepted

admit-put :
    (s : Span) (accepted : List Span) (lo size : ℕ)
    → InOrder lo size accepted
    → admit accepted s ≡ put s accepted
unfolding admit put
admit-put s [] lo size o = refl
admit-put s (a ∷ []) lo size o = ground arith
admit-put s (a ∷ b ∷ rest) lo size (o1, o2, o) = ground (arith, admit-put s (b ∷ rest) a.end size o)

-- The three outcomes at the head of the list.
put_step :
    (s a : Span) (rest : List Span)
    → s.start < s.end
    → a.start < a.end
    → (Overlap a s × (put s (a ∷ rest) ≡ a ∷ rest))
      ⊎ ((s.end ≤ a.start) × (put s (a ∷ rest) ≡ s ∷ a ∷ rest))
      ⊎ ((a.end ≤ s.start) × (put s (a ∷ rest) ≡ a ∷ put s rest))
unfolding put
put_step s a rest w v = elim (Bool-cases (ltb a.start s.start)) [
  | inr front ↦ elim (Bool-cases (ltb a.start s.end)) [
    | inl clash ↦ inl (record { starts = omega tests; ends = omega tests }, ground arith)
    | inr free ↦ inr (inl (omega tests, ground arith))
  ]
  | inl behind ↦ elim (Bool-cases (ltb s.start a.end)) [
    | inl clash ↦ inl (record { starts = omega tests; ends = omega tests }, ground arith)
    | inr free ↦ inr (inr (omega tests, ground arith))
  ]
]

put-InOrder :
    (s : Span) (accepted : List Span) (lo size : ℕ)
    → InOrder lo size accepted
    → Within lo size s
    → InOrder lo size (put s accepted)
unfolding put
put-InOrder s [] lo size o w = w
put-InOrder s (a ∷ rest) lo size (o1, o2, o) (w1, w2, w3) = elim (put_step s a rest w2 o2) [
  | inl (clash, e) ↦ rw e (o1, o2, o)
  | inr (inl (free, e)) ↦ rw e (w1, w2, (free, o2, o))
  | inr (inr (free, e)) ↦ rw e (o1, o2, put-InOrder s rest a.end size o (free, w2, w3))
]

module _ (s : Span) (w : s.start < s.end) where
  put_sound :
      (x : Span) (accepted : List Span) (lo size : ℕ)
      → InOrder lo size accepted
      → In x (put s accepted)
      → In x (s ∷ accepted)
  unfolding put
  put_sound x [] lo size o h = h
  put_sound x (a ∷ rest) lo size (o1, o2, o) h = elim (put_step s a rest w o2) [
    | inl (clash, e) ↦ inr (rw e at h)
    | inr (inl (free, e)) ↦ rw e at h
    | inr (inr (free, e)) ↦
        let h' : In x (a ∷ put s rest) = rw e at h in
        elim h' [
          | inl same ↦ inr (inl same)
          | inr m ↦ elim (put_sound x rest a.end size o m) [
            | inl same ↦ inl same
            | inr n ↦ inr (inr n)
          ]
        ]
  ]

  put_keeps :
      (x : Span) (accepted : List Span) (lo size : ℕ)
      → InOrder lo size accepted
      → In x accepted
      → In x (put s accepted)
  put_keeps x [] lo size o m = absurd m
  put_keeps x (a ∷ rest) lo size (o1, o2, o) h = elim (put_step s a rest w o2) [
    | inl (clash, e) ↦ rw e h
    | inr (inl (free, e)) ↦ rw e (inr h)
    | inr (inr (free, e)) ↦
        rw e (elim h [ inl same ↦ inl same | inr m ↦ inr (put_keeps x rest a.end size o m) ])
  ]

  -- The span is taken, or one that was accepted before overlaps it.
  put_decides :
      (accepted : List Span) (lo size : ℕ)
      → InOrder lo size accepted
      → In s (put s accepted) ⊎ ((a : Span) × In a accepted × Overlap a s)
  unfolding put
  put_decides [] lo size o = inl (inl refl)
  put_decides (a ∷ rest) lo size (o1, o2, o) = elim (put_step s a rest w o2) [
    | inl (clash, e) ↦ inr (a, inl refl, clash)
    | inr (inl (free, e)) ↦ rw e (inl (inl refl))
    | inr (inr (free, e)) ↦ elim (put_decides rest a.end size o) [
      | inl taken ↦ rw e (inl (inr taken))
      | inr (b, m, clash) ↦ inr (b, inr m, clash)
    ]
  ]

-- The same of `admit`, on accepted spans in order.
module _ (lo size : ℕ) (s : Span) (accepted : List Span) (o : InOrder lo size accepted)
    (w : Within lo size s) where
  pub admit-InOrder : InOrder lo size (admit accepted s)
  admit-InOrder = rw (admit-put s accepted lo size o) (put-InOrder s accepted lo size o w)

  pub admit_sound : (x : Span) → In x (admit accepted s) → In x (s ∷ accepted)
  admit_sound x m = put_sound s w.1 x accepted lo size o (rw (admit-put s accepted lo size o) at m)

  pub admit_keeps : (x : Span) → In x accepted → In x (admit accepted s)
  admit_keeps x m = rw (admit-put s accepted lo size o) (put_keeps s w.1 x accepted lo size o m)

  pub admit_decides : In s (admit accepted s) ⊎ ((a : Span) × In a accepted × Overlap a s)
  admit_decides = rw (admit-put s accepted lo size o) (put_decides s w.1 accepted lo size o)
