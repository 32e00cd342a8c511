-- ===== src/Decoder/Grouping.antt =====
-- The groups hold each window, and what is predicted in groups is found again by the number of a window.
use seif_pii.Base.{
  ℕ, ◌+◌, ◌≤◌, ◌≡◌, refl, subst, ap, ◌⊎◌, inl, inr, Bool-cases, some, List, [], ◌∷◌, ◌++◌, arith,
  length, get_elem?, ◌==◌, All, All-append, In, In-append, In-append_left, In-append_right,
}
use seif_pii.Base.Result.{ok}
use seif_pii.Text.{Text}
use seif_pii.Decoder.Windows.{Prediction}
use seif_pii.Decoder.Owned.{IsCall}
use seif_pii.Decoder.Reading.{Runtime, predict_window}
use seif_pii.Decoder.Batch.{length_buckets, Item, add_to_group, group_from}
use seif_pii.Decoder.Replay.{predicted_of}
use seif_pii.Decoder.Model.{IsModel}
use seif_pii.Decoder.Predicted.{FitsInto, Answered, items_of, bucket_for-some}

-- A call of the model, as an item.
abbrev pub Calls : Item → Type 0
Calls i = IsCall i.window.token_ids i.window.positions

abbrev Grouped : List (ℕ × List Item) → Type 0
Grouped groups = All (λ (g : ℕ × List Item). (2 ≤ g.0) × All (FitsInto g.0) g.1) groups

add_to_group-Grouped :
    (b : ℕ) (i : Item) (groups : List (ℕ × List Item))
    → 2 ≤ b
    → FitsInto b i
    → Grouped groups
    → Grouped (add_to_group b i groups)
unfolding add_to_group
add_to_group-Grouped b i [] k fit h = ((k, (fit, tt)), tt)
add_to_group-Grouped b i ((c, items) ∷ groups) k fit ((m, fits), h) = elim (Bool-cases (c == b)) [
  | inl same ↦
      let e : c ≡ b = ground arith in
      rw same ((m, All-append (FitsInto c) items (i ∷ []) fits (rw e fit, tt)), h)
  | inr other ↦ rw other ((m, fits), add_to_group-Grouped b i groups k fit h)
]

add_to_group-In :
    (b : ℕ) (i j : Item) (groups : List (ℕ × List Item))
    → (j ≡ i) ⊎ In j (items_of groups)
    → In j (items_of (add_to_group b i groups))
unfolding add_to_group
add_to_group-In b i j [] (inl e) = inl e
add_to_group-In b i j [] (inr h) = absurd h
add_to_group-In b i j ((c, items) ∷ groups) h = elim (Bool-cases (c == b)) [
  | inl same ↦ rw same (elim h [
    | inl e ↦
        In-append_left j (items ++ i ∷ []) (items_of groups)
          (In-append_right j items (i ∷ []) (inl e))
    | inr there ↦ elim (In-append j items (items_of groups) there) [
      | inl l ↦
          In-append_left j (items ++ i ∷ []) (items_of groups) (In-append_left j items (i ∷ []) l)
      | inr r ↦ In-append_right j (items ++ i ∷ []) (items_of groups) r
    ]
  ])
  | inr other ↦ rw other (elim h [
    | inl e ↦
        In-append_right j items (items_of (add_to_group b i groups))
          (add_to_group-In b i j groups (inl e))
    | inr there ↦ elim (In-append j items (items_of groups) there) [
      | inl l ↦ In-append_left j items (items_of (add_to_group b i groups)) l
      | inr r ↦
          In-append_right j items (items_of (add_to_group b i groups))
            (add_to_group-In b i j groups (inr r))
    ]
  ])
]

module _ (P : Item → Type 0) where
  All-split : (xs ys : List Item) → All P (xs ++ ys) → All P xs × All P ys
  All-split [] ys h = (tt, h)
  All-split (x ∷ xs) ys (h, hs) = let (a, b) = All-split xs ys hs in ((h, a), b)

  add_to_group-All :
      (b : ℕ) (i : Item) (groups : List (ℕ × List Item))
      → P i
      → All P (items_of groups)
      → All P (items_of (add_to_group b i groups))
  unfolding add_to_group
  add_to_group-All b i [] p h = (p, tt)
  add_to_group-All b i ((c, items) ∷ groups) p h =
      let (l, r) = All-split items (items_of groups) h in
      elim (Bool-cases (c == b)) [
        | inl same ↦ rw same (
            All-append P (items ++ i ∷ []) (items_of groups) (All-append P items (i ∷ []) l (p, tt))
              r)
        | inr other ↦ rw other (
            All-append P items (items_of (add_to_group b i groups)) l
              (add_to_group-All b i groups p r))
      ]

  -- Each item has a bucket, and all of them are in the groups.
  pub group_from-Groups :
      (items : List Item) (groups : List (ℕ × List Item))
      → All Calls items
      → All P items
      → Grouped groups
      → All P (items_of groups)
      → (groups' : List (ℕ × List Item)) × (group_from items groups ≡ ok groups')
        × Grouped groups'
        × All P (items_of groups')
        × ((j : Item) → In j items ⊎ In j (items_of groups) → In j (items_of groups'))
  unfolding group_from
  group_from-Groups [] groups calls ps h k =
      (groups, refl, h, k, λ j m. elim m [ inl none_left ↦ absurd none_left | inr there ↦ there ])
  group_from-Groups (i ∷ items) groups (call, calls) (p, ps) h k =
      let (b, e, room) =
        bucket_for-some (length i.window.token_ids + 2) 512 length_buckets
          (inr (inr (inr (inr (inl refl))))) (omega (arith, call.size)) in
      let (groups', f, h', k', all_in) =
        group_from-Groups items (add_to_group b i groups) calls ps
          (add_to_group-Grouped b i groups (omega arith) (record { call = call; room = room }) h)
          (add_to_group-All b i groups p k) in
      (
        groups',
        ground (arith, e, f),
        h',
        k',
        λ j m. elim m [
          | inl first ↦ elim first [
            | inl same ↦ all_in j (inr (add_to_group-In b i j groups (inl same)))
            | inr later ↦ all_in j (inl later)
          ]
          | inr there ↦ all_in j (inr (add_to_group-In b i j groups (inr there)))
        ],
      )

-- The number of an item is its place.
abbrev pub Numbered : List Item → Item → Type 0
Numbered items i = get_elem? items i.number ≡ some i

module _ {Row Score : Type 0} (runtime : Runtime Row Score) (logits : List ℕ → List Row) (pad : ℕ)
    (model : IsModel runtime logits pad) (labels : List Text) (n : length labels ≡ 43)
    (all_items : List Item) where
  pub Answered-predicted_of :
      (items : List Item) (store : List (ℕ × List (Prediction Score))) (i : Item)
      → All (Numbered all_items) items
      → Numbered all_items i
      → Answered runtime logits pad model labels n items store
      → In i items
      → (ps : List (Prediction Score)) × (predicted_of i.number store ≡ some ps)
        × (predict_window runtime labels i.window.token_ids i.window.positions ≡ ok ps)
  unfolding predicted_of
  Answered-predicted_of [] store i ns m a h = absurd h
  Answered-predicted_of (j ∷ items) [] i ns m a h = absurd a
  Answered-predicted_of (j ∷ items) ((k, ps) ∷ store) i (m', ns) m (e, known, a) h =
      elim (Bool-cases (k == i.number)) [
        | inl same ↦
            let e' : j.number ≡ i.number = ground (arith, e) in
            let there : get_elem? all_items i.number ≡ some j = rw (← e') m' in
            let j_is_i : j ≡ i = ground (arith, there, m) in
            (
              ps,
              rw same refl,
              subst
                  (λ (x : Item).
                    predict_window runtime labels x.window.token_ids x.window.positions ≡ ok ps)
                  j_is_i known,
            )
        | inr other ↦ elim h [
          | inl i_is_j ↦ absurd (
              let e' : i.number ≡ j.number = ap (λ (x : Item). x.number) i_is_j in
              ground (arith, e, e'))
          | inr later ↦
              let (qs, f, g) = Answered-predicted_of items store i ns m a later in
              (qs, rw other f, g)
        ]
      ]
