-- ===== src/App/Records.antt =====
-- seif/app.py: the stored record and the operations on it, from `_restore_record` to
-- `_resolve_record`. Each step of a request between two of its waits is one function of the vault.
use seif_pii.Base.{
  ℕ, String, Bool, true, false, not, ◌&&◌, ◌||◌, Option, none, some, List, [], length, ltb, leb,
  str_eq, if◌then◌else◌,
}
use seif_pii.Base.Result.{Result, ok, raise, ◌>>=◌}
use seif_pii.Text.{Text, Unicode}
use seif_pii.Span.{Span}
use seif_pii.Transform.Masking.{Mode, mask, token, synthetic, Replacement, mask_text}
use seif_pii.Transform.Restoring.{
  RestoreError, invalid_coordinates, unknown_token, restoration_too_large, restore_exact,
  restore_tokens,
}
use seif_pii.Vault.{Cipher, VaultError, vault_full, invalid_tag, Vault, get, put_if_absent}
use seif_pii.App.Policies.{
  Stop, refused, vault_is_full, failed, out_of_draws, Policy, Settings, select_spans,
}

pub data Operation : Type 0 where
  process_text mask_only unmask : Operation

pub data Direction : Type 0 where
  masking unmasking : Direction

pub record Record : Type 0 where
  pub original_hash : String
  pub masked_hash : String
  pub masked : Text
  pub replacements : List Replacement
  pub entities : List Span
  pub mode : String
  pub detected_types : List String
  pub masking_enabled : Bool
  pub detector_profile : String

-- `_OperationContext`, with the payload of its body.
pub record Context : Type 0 where
  pub payload : Text
  pub policy : Policy
  pub operation : Operation
  pub mode : String
  pub key : String
  pub fingerprint : String

-- What the handlers call: `Vault.digest` and `Vault.key`, `detect` with the rules of the policy, the
-- model's `detect` if there is one, `merge_ner_candidates`. `none` is an exception.
pub record Outside : Type 0 where
  pub digest : Text → String
  pub key_of : String → Text → String
  pub rules : Policy → Text → Option (List Span)
  pub ner : Option (Text → Option (List Span))
  pub merge : Text → List Span → List Span → Option (List Span)

-- One request's share of what changes under it: the readings of the clock at `get`, at `_expire` and
-- behind it, the nonce and the draws, and `large_inflight`.
pub record Moment : Type 0 where
  pub read_at : ℕ
  pub now : ℕ
  pub later : ℕ
  pub nonce : ℕ
  pub draws : List Text
  pub large_inflight : ℕ

abbrev pub is_process : Operation → Bool
is_process process_text = true
is_process _ = false

abbrev pub is_mask : Operation → Bool
is_mask mask_only = true
is_mask _ = false

abbrev pub is_unmask : Operation → Bool
is_unmask unmask = true
is_unmask _ = false

-- `mask` compares its argument with two of the three modes.
abbrev pub mode_of : String → Mode
mode_of name = if str_eq name "mask" then mask else if str_eq name "token" then token else synthetic

abbrev pub or_failed : {A : Type 0} → Option A → Result Stop A
or_failed none = raise failed
or_failed (some a) = ok a

abbrev pub from_vault : {A : Type 0} → Result VaultError A → Result Stop A
from_vault (ok a) = ok a
from_vault (raise vault_full) = raise vault_is_full
from_vault (raise invalid_tag) = raise failed

abbrev pub exactly_restored : Result RestoreError Text → Result Stop Text
exactly_restored (ok t) = ok t
exactly_restored (raise e) = raise failed

abbrev pub tokens_restored : Result RestoreError Text → Result Stop Text
tokens_restored (ok t) = ok t
tokens_restored (raise restoration_too_large) = raise (refused 413 "too_large")
tokens_restored (raise unknown_token) = raise (refused 409 "unknown_token")
tokens_restored (raise invalid_coordinates) = raise (refused 409 "unknown_token")

unfoldable pub restore_record : Settings → Context → Record → Result Stop Text
restore_record settings context r =
    if not context.policy.allow_unmask
    then raise (refused 403 "unmask_disabled")
    else if str_eq context.fingerprint r.masked_hash
    then exactly_restored (restore_exact r.masked r.replacements)
    else if is_unmask context.operation && str_eq r.mode "token"
    then tokens_restored
        (restore_tokens context.payload r.replacements (some settings.max_payload_chars))
    else raise (refused 409 "payload_conflict")

module _ (u : Unicode) (c : Cipher Record) (o : Outside) (settings : Settings) where
  -- The rules, which find a worker only if there is one free for a large text, then the model.
  unfoldable pub find_spans : ℕ → Context → Result Stop (List Span)
  find_spans large_inflight context = do
    spans ←
        (if ltb 16000 (length context.payload) && leb settings.cpu_workers large_inflight
          then raise (refused 429 "cpu_busy")
          else or_failed (o.rules context.policy context.payload))
    elim o.ner [
      | none ↦ ok spans
      | some model ↦ do
        candidates ← or_failed (model context.payload)
        or_failed (o.merge context.payload spans candidates)
    ]

  unfoldable pub new_record : Context → List Span → List Text → Result Stop Record
  new_record context spans draws =
      let selection = select_spans spans context.policy in
      elim (mask_text u (mode_of context.mode) context.payload draws selection.0) [
        | none ↦ raise out_of_draws
        | some (result, replacements) ↦ ok (record {
          original_hash = context.fingerprint;
          masked_hash = o.digest result;
          masked = result;
          replacements = if context.policy.allow_unmask then replacements else [];
          entities = selection.0;
          mode = context.mode;
          detected_types = selection.1;
          masking_enabled = context.policy.masking_enabled;
          detector_profile = elim o.ner [ none ↦ "rules" | some model ↦ "hybrid" ];
        })
      ]

  -- The tests on the record that the vault returned, ours or the one that was first.
  unfoldable pub accept : Context → Record → Result Stop Record
  accept context r =
      if not (str_eq r.original_hash context.fingerprint)
      then raise (refused 409 "payload_conflict")
      else if is_mask context.operation && not (str_eq r.mode context.mode)
      then raise (refused 409 "mode_conflict")
      else ok r

  unfoldable pub store_record : Context → Moment → Record → Vault c → Result Stop Record × Vault c
  unfolding accept
  store_record context m r v =
      let put = put_if_absent c settings.limits m.nonce context.key r m.now m.later v in
      (from_vault put.0 >>= accept context, put.1)

  unfoldable pub detect_and_transform : Context → Moment → Vault c → Result Stop Record × Vault c
  unfolding find_spans new_record store_record
  detect_and_transform context m v =
      elim (find_spans m.large_inflight context >>= λ spans. new_record context spans m.draws) [
        | raise e ↦ (raise e, v)
        | ok r ↦ store_record context m r v
      ]

  -- The branch of `_resolve_record` for a record that is there.
  unfoldable pub reuse : Context → Record → Result Stop (Direction × Text × Record)
  unfolding restore_record
  reuse context r =
      if is_unmask context.operation
        || is_process context.operation
          && str_eq context.fingerprint r.masked_hash
          && not (str_eq context.fingerprint r.original_hash)
      then (restore_record settings context r >>= λ result. ok (unmasking, result, r))
      else if str_eq context.fingerprint r.original_hash
      then (if is_mask context.operation && not (str_eq context.mode r.mode)
          then raise (refused 409 "mode_conflict")
          else ok (masking, r.masked, r))
      else raise (refused 409 "payload_conflict")

  unfoldable pub resolve_record :
      Context → Moment → Option Record → Vault c → Result Stop (Direction × Text × Record) × Vault c
  unfolding reuse detect_and_transform
  resolve_record context m (some r) v = (reuse context r, v)
  resolve_record context m none v =
      if is_unmask context.operation
      then (raise (refused 410 "mapping_expired"), v)
      else (let made = detect_and_transform context m v in
          (made.0 >>= λ r. ok (masking, r.masked, r), made.1))

  -- From the reading of the vault to the result.
  unfoldable pub answer :
      Context → Moment → Vault c → Result Stop (Direction × Text × Record) × Vault c
  unfolding resolve_record
  answer context m v =
      let read = get c context.key m.read_at v in
      elim (from_vault read.0) [
        | raise e ↦ (raise e, read.1)
        | ok stored ↦ resolve_record context m stored read.1
      ]
