-- ===== src/Decoder/Graphs.antt =====
-- seif/rubert_batch.py: `BatchGraphBackend`, whose contexts are kept by their shapes, and its installation.
use seif_pii.Base.{
  ℕ, Bool, false, not, ◌&&◌, ◌||◌, List, [], ◌∷◌, ◌++◌, length, any, leb, ltb, ◌==◌, if◌then◌else◌,
}
use seif_pii.Base.Result.{Result, ok, raise}
use seif_pii.Decoder.Batch.{length_buckets, batch_buckets, is_batch_size}

abbrev pub max_graph_contexts : ℕ
max_graph_contexts = 25

abbrev pub Shape : Type 0
Shape = ℕ × ℕ

pub data GraphError : Type 0 where
  wrong_batch_size wrong_cap not_pinned not_two_dimensions over_profile no_bucket not_captured :
      GraphError
  other_profile : GraphError

pub record Backend : Type 0 where
  pub max_batch : ℕ
  pub max_contexts : ℕ
  pub contexts : List Shape

-- What runs the inputs: the backend inside, or the context of a shape.
pub data Engine : Type 0 where
  inner : Engine
  captured : Shape → Engine

unfoldable pub is_kept_shape : Shape → List Shape → Bool
is_kept_shape s [] = false
is_kept_shape s (c ∷ contexts) = s.0 == c.0 && s.1 == c.1 || is_kept_shape s contexts

-- `__init__`; `pinned` is whether the backend has the three attributes.
unfoldable pub new_backend : ℕ → ℕ → Bool → Result GraphError Backend
new_backend max_batch max_contexts pinned =
    if not (is_batch_size max_batch)
    then raise wrong_batch_size
    else if ltb max_graph_contexts max_contexts
    then raise wrong_cap
    else if not pinned
    then raise not_pinned
    else ok (record { max_batch = max_batch; max_contexts = max_contexts; contexts = [] })

-- `run`: the engine and the backend after. `captures` is whether a context of the shape can be made.
unfoldable pub run : (Shape → Bool) → List ℕ → Backend → Result GraphError Engine × Backend
run captures (batch ∷ size ∷ []) b =
    if not (any (λ n. batch == n) batch_buckets) || ltb b.max_batch batch
    then (raise over_profile, b)
    else if batch == 1
    then (ok inner, b)
    else if not (any (λ n. size == n) length_buckets)
    then (raise no_bucket, b)
    else if is_kept_shape (batch, size) b.contexts
    then (ok (captured (batch, size)), b)
    else if leb b.max_contexts (length b.contexts)
    then (ok inner, b)
    else if captures (batch, size)
    then (ok (captured (batch, size)), record b { contexts = b.contexts ++ (batch, size) ∷ [] })
    else (raise not_captured, b)
run captures dimensions b = (raise not_two_dimensions, b)

-- The backend of a runtime.
pub data Installed : Type 0 where
  plain : Bool → Installed
  batched : Backend → Installed

-- `install_batch_backend`: the backend that it returns, and the runtime's afterwards.
unfoldable pub install : ℕ → ℕ → Installed → Result GraphError Backend × Installed
install max_batch max_contexts (batched b) =
    if b.max_batch == max_batch && b.max_contexts == max_contexts
    then (ok b, batched b)
    else (raise other_profile, batched b)
install max_batch max_contexts (plain pinned) = elim (new_backend max_batch max_contexts pinned) [
  | ok b ↦ (ok b, batched b)
  | raise e ↦ (raise e, plain pinned)
]

-- A runtime that is installed and run in any order, each shape captured or not.
pub data Reachable : Installed → Type 0 where
  start : (pinned : Bool) → Reachable (plain pinned)
  installed :
      (max_batch max_contexts : ℕ) (r : Installed)
      → Reachable r
      → Reachable (install max_batch max_contexts r).1
  ran :
      (captures : Shape → Bool) (dimensions : List ℕ) (b : Backend)
      → Reachable (batched b)
      → Reachable (batched (run captures dimensions b).1)
