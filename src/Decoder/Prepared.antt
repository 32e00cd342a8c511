-- ===== src/Decoder/Prepared.antt =====
-- The windows of a document as seif/rubert_batch.py lays them out before any of them is predicted.
use seif_pii.Base.{
  ℕ, zero, suc, ◌+◌, ◌-◌, Option, some, List, [], ◌∷◌, map, max, length, slice, ltb, ◌==◌,
  if◌then◌else◌,
}
use seif_pii.Base.Result.{Result, ok, ◌>>=◌}
use seif_pii.Decoder.Windows.{
  Failure, Prediction, window_end, ownership, positions_from, boundaries_from, entry, next_start,
  assign,
}

-- `_Window` without its document and its predictions.
pub record Window : Type 0 where
  pub token_ids : List ℕ
  pub positions : List ℕ
  pub start : ℕ
  pub left : ℕ
  pub right : ℕ

-- The window at `start`.
unfoldable pub window_at : List ℕ → List ℕ → ℕ → ℕ → Window
unfolding window_end ownership positions_from
window_at ids counts start next_unwritten =
    let boundaries = boundaries_from 0 counts in
    let end = window_end counts start in
    let offset = entry boundaries start in
    let (left, right) = ownership counts start end next_unwritten in
    record {
      token_ids = slice ids offset (entry boundaries end);
      positions = positions_from boundaries offset start (end - start);
      start = start;
      left = left;
      right = right;
    }

-- The loop of `_document_windows`, on fuel for its windows.
unfoldable pub windows_from : List ℕ → List ℕ → ℕ → ℕ → ℕ → List Window
unfolding window_at window_end next_start
windows_from ids counts zero start next_unwritten = []
windows_from ids counts (suc fuel) start next_unwritten =
    let w = window_at ids counts start next_unwritten in
    let end = window_end counts start in
    let rest =
      windows_from ids counts fuel (next_start counts start end)
        (max next_unwritten (start + w.right)) in
    if ltb start (length counts) then w ∷ (if end == length counts then [] else rest) else []

module _ {Score : Type 0} where
  -- What a predicted window writes into the words of its document.
  unfoldable pub write :
      Window
      → List (Prediction Score)
      → List (Option (Prediction Score))
      → List (Option (Prediction Score))
  write w predicted visible =
      assign (w.start + w.left) (w.start + w.right) (map some (slice predicted w.left w.right))
        visible

  -- The windows one behind the other, each predicted and written.
  abbrev pub in_turn :
      (List ℕ → List ℕ → Result Failure (List (Prediction Score)))
      → List Window
      → List (Option (Prediction Score))
      → Result Failure (List (Option (Prediction Score)))
  in_turn predict [] visible = ok visible
  in_turn predict (w ∷ ws) visible =
      predict w.token_ids w.positions
      >>= (λ predicted. in_turn predict ws (write w predicted visible))
