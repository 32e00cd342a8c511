-- ===== src/App/Reuse.antt =====
-- What a new record holds, and what the next request under its key gets from it.
use seif_pii.Base.{
  ℕ, ◌≤◌, ◌≡◌, refl, ◌∙◌, inl, inr, Bool, true, false, not, ◌||◌, some, List, [], ◌∷◌, arith,
  length, keep, null, str_eq, eq_iff, if◌then◌else◌, Bool-cases, Option-cases,
}
use seif_pii.Base.Result.{ok}
use seif_pii.Text.{Text, Unicode}
use seif_pii.Span.{Span, InOrder}
use seif_pii.Transform.Masking.{Replacement, mask_text}
use seif_pii.Transform.Restoring.{restore_exact}
use seif_pii.Vault.{Cipher}
use seif_pii.App.Policies.{Settings, Policy, select_spans, member}
use seif_pii.App.Records.{
  process_text, Direction, masking, unmasking, Record, Context, Outside, find_spans, new_record,
  reuse, restore_record, mode_of,
}

InOrder-from :
    (low low' high : ℕ) (spans : List Span)
    → low ≤ low'
    → InOrder low' high spans
    → InOrder low high spans
InOrder-from low low' high [] h o = omega arith
InOrder-from low low' high (s ∷ spans) h (o1, o2, o) = (omega arith, o2, o)

-- Some of the spans, still in order.
keep-InOrder :
    (p : Span → Bool) (low high : ℕ) (spans : List Span)
    → InOrder low high spans
    → InOrder low high (keep p spans)
keep-InOrder p low high [] h = h
keep-InOrder p low high (s ∷ spans) (h, k, hs) =
    let rest = keep-InOrder p s.end high spans hs in
    elim (p s)
      as (λ b. InOrder low high (elim b [ true ↦ s ∷ keep p spans | false ↦ keep p spans ])) [
        | true ↦ (h, k, rest)
        | false ↦ InOrder-from low s.end high (keep p spans) (omega arith) rest
      ]

if-InOrder :
    (b : Bool) (high : ℕ) (xs ys : List Span)
    → InOrder 0 high xs
    → InOrder 0 high ys
    → InOrder 0 high (if b then xs else ys)
if-InOrder true high xs ys h k = h
if-InOrder false high xs ys h k = k

pub select_spans-InOrder :
    (high : ℕ) (spans : List Span) (policy : Policy)
    → InOrder 0 high spans
    → InOrder 0 high (select_spans spans policy).0
unfolding select_spans
select_spans-InOrder high spans policy h =
    let none_chosen : InOrder 0 high [] = omega arith in
    let some_chosen =
      keep-InOrder (λ s. null policy.types || member s.type policy.types) 0 high spans h in
    if-InOrder (not policy.masking_enabled) high [] _ none_chosen
      (if-InOrder _ high _ [] some_chosen none_chosen)

module _ (u : Unicode) (c : Cipher Record) (o : Outside) (settings : Settings) where
  -- What the new record holds.
  pub new_record-Masked :
      (context : Context) (spans : List Span) (draws : List Text) (r : Record)
      → new_record u c o settings context spans draws ≡ ok r
      → (items : List Replacement) × (mask_text u
            (mode_of context.mode)
            context.payload
            draws
            (select_spans spans context.policy).0
          ≡ some (r.masked, items))
        × (r.replacements ≡ (if context.policy.allow_unmask then items else []))
        × (r.masked_hash ≡ o.digest r.masked)
        × (r.original_hash ≡ context.fingerprint)
        × (r.mode ≡ context.mode)
        × (r.entities ≡ (select_spans spans context.policy).0)
  unfolding new_record
  new_record-Masked context spans draws r h =
      elim (Option-cases (
        mask_text u (mode_of context.mode) context.payload draws
          (select_spans spans context.policy).0)) [
            | inl lost ↦ absurd (ground arith)
            | inr ((masked, items), done) ↦ (
              items,
              ground arith,
              ground arith,
              ground arith,
              ground arith,
              ground arith,
              ground arith,
            )
          ]

  -- A request with another payload under the same id.
  abbrev pub with_payload : Context → Text → Context
  with_payload context text = record context { payload = text; fingerprint = o.digest text }

  -- Spans that the detection finds stand in the text, in order.
  abbrev pub Detects : Context → ℕ → Type 0
  Detects context large_inflight =
      (spans : List Span)
      → find_spans u c o settings large_inflight context ≡ ok spans
      → InOrder 0 (length context.payload) spans

  -- The record made from the payload, under the fingerprint of its mask.
  pub reuse_masked :
      (context : Context) (r : Record)
      → context.operation ≡ process_text
      → context.policy.allow_unmask ≡ true
      → r.masked_hash ≡ o.digest r.masked
      → r.original_hash ≡ context.fingerprint
      → restore_exact r.masked r.replacements ≡ ok context.payload
      → (o.digest r.masked ≡ context.fingerprint → r.masked ≡ context.payload)
      → (d : Direction) × (reuse u c o settings (with_payload context r.masked) r
          ≡ ok (d, context.payload, r))
  unfolding reuse restore_record
  reuse_masked context r op allowed hash original back apart =
      let here : str_eq (o.digest r.masked) r.masked_hash ≡ true =
        rw hash ((eq_iff (o.digest r.masked) (o.digest r.masked)).1 refl) in
      elim (Bool-cases (str_eq (o.digest r.masked) r.original_hash)) [
        | inr differs ↦ (unmasking, rw (op, allowed, here, differs, back))
        | inl same ↦
            let whole : r.masked ≡ context.payload =
              apart ((eq_iff (o.digest r.masked) r.original_hash).0 same ∙ original) in
            (masking, rw (op, here, same, whole))
      ]

  -- A record met again by the payload that it was made from.
  pub reuse_same :
      (context : Context) (r : Record)
      → context.operation ≡ process_text
      → r.original_hash ≡ context.fingerprint
      → reuse u c o settings context r ≡ ok (masking, r.masked, r)
  unfolding reuse
  reuse_same context r op original =
      let same : str_eq context.fingerprint r.original_hash ≡ true =
        rw original ((eq_iff context.fingerprint context.fingerprint).1 refl) in
      rw op (ground (arith, same))
