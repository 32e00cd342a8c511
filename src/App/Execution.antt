-- ===== src/App/Execution.antt =====
-- seif/app.py: `execute`, with the requests and the responses as records. The log line, the metrics and
-- the durations are left out.
use seif_pii.Base.{
  ℕ, String, Bool, not, ◌&&◌, Option, none, some, List, any, length, ltb, leb, if◌then◌else◌,
}
use seif_pii.Base.Result.{Result, ok, raise, ◌>>=◌}
use seif_pii.Text.{Text, Unicode}
use seif_pii.Span.{Span}
use seif_pii.Vault.{Cipher, Vault}
use seif_pii.App.Policies.{
  Stop, refused, vault_is_full, failed, out_of_draws, Policy, Settings, Rates, member, is_empty,
  type_set, authorize,
}
use seif_pii.App.Records.{
  Operation, Direction, Record, Context, Outside, Moment, is_process, answer,
}

-- The two headers and the body; `mode` is there for `MaskRequest` only.
pub record Request : Type 0 where
  pub system_id : Option String
  pub api_key : String
  pub payload : Text
  pub payload_id : Text
  pub mode : Option String

-- `{"result": ...}`, with the other fields for the two explicit routes.
pub record Details : Type 0 where
  pub payload_id : Text
  pub entities : List Span
  pub types : List String
  pub mode : String
  pub masking_enabled : Bool

pub record Response : Type 0 where
  pub result : Text
  pub details : Option Details

-- `text.encode("utf-8")` raises on a lone surrogate.
abbrev pub encodes : Text → Bool
encodes t = not (any (λ x. leb 0xd800 x && leb x 0xdfff) t)

-- `getattr(body, "mode", None) or policy.mode`
abbrev pub chosen_mode : Option String → Policy → String
chosen_mode none policy = policy.mode
chosen_mode (some m) policy = if is_empty m then policy.mode else m

-- The `except` clauses.
abbrev pub caught : {A : Type 0} → Result Stop A → Result Stop A
caught (ok a) = ok a
caught (raise (refused status code)) = raise (refused status code)
caught (raise vault_is_full) = raise (refused 429 "vault_full")
caught (raise failed) = raise (refused 503 "temporarily_unavailable")
caught (raise out_of_draws) = raise out_of_draws

module _ (u : Unicode) (c : Cipher Record) (o : Outside) (settings : Settings) (unit : ℕ) where
  pub record State : Type 0 where
    pub vault : Vault c
    pub rates : Rates unit

  -- The checks between `authorize` and the vault.
  unfoldable pub context_of : Operation → Request → String × Policy → Result Stop Context
  context_of operation request (tenant, policy) =
      let mode = chosen_mode request.mode policy in
      if ltb settings.max_payload_chars (length request.payload)
      then raise (refused 413 "too_large")
      else if not (encodes request.payload && encodes request.payload_id)
      then raise (refused 422 "invalid_unicode")
      else if not (member mode policy.allowed_modes)
      then raise (refused 422 "invalid_mode")
      else ok (record {
        payload = request.payload;
        policy = policy;
        operation = operation;
        mode = mode;
        key = o.key_of tenant request.payload_id;
        fingerprint = o.digest request.payload;
      })

  unfoldable pub response_of : Operation → Request → Direction × Text × Record → Response
  unfolding type_set
  response_of operation request (direction, result, r) = record {
    result = result;
    details =
        if is_process operation
        then none
        else some (record {
          payload_id = request.payload_id;
          entities = r.entities;
          types = type_set r.entities;
          mode = r.mode;
          masking_enabled = r.masking_enabled;
        });
  }

  unfoldable pub execute : Operation → Request → ℕ → Moment → State → Result Stop Response × State
  unfolding context_of response_of
  execute operation request arrival m s =
      let admitted = authorize unit settings request.system_id request.api_key arrival s.rates in
      elim (admitted.0 >>= context_of operation request) [
        | raise e ↦ (caught (raise e), record s { rates = admitted.1 })
        | ok context ↦
            let answered = answer u c o settings context m s.vault in
            (
              caught (answered.0 >>= λ a. ok (response_of operation request a)),
              record { vault = answered.1; rates = admitted.1 },
            )
      ]
