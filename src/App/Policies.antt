-- ===== src/App/Policies.antt =====
-- seif/config.py `Policy` and the fields of `Settings` that the handlers read; in seif/app.py what a
-- request may end with, `_select_spans`, and the limiter and the checks of `authorize`, as they work
-- without Redis. The clock is read in ticks, `unit` of them a second, and a balance is kept times `unit`,
-- so that the floats of the source are whole numbers.
use seif_pii.Base.{
  ℕ, ◌+◌, ◌-◌, ◌*◌, min, String, Bool, true, false, not, ◌&&◌, ◌||◌, Option, none, some, List, [],
  ◌∷◌, length, ltb, str_eq, if◌then◌else◌, keep, all, any, null,
}
use seif_pii.Base.Result.{Result, ok, raise}
use seif_pii.Text.{codes}
use seif_pii.Span.{Span}
use seif_pii.Vault.{Limits}
use seif_pii.Detector.Order.{less, same, more, compare_text}

-- What leaves the handlers instead of a result: `fail(status, code, ...)`, `VaultFull`, another
-- exception. `out_of_draws` is the model's own: the random draws given were used up.
pub data Stop : Type 0 where
  refused : ℕ → String → Stop
  vault_is_full failed out_of_draws : Stop

-- A custom rule is its type and its pattern.
pub record Policy : Type 0 where
  pub enabled : Bool
  pub api_key : String
  pub types : List String
  pub mode : String
  pub allow_unmask : Bool
  pub min_types : ℕ
  pub required_types : List String
  pub allowed_modes : List String
  pub extra_rules : List (String × String)
  pub rps : ℕ
  pub masking_enabled : Bool

pub record Settings : Type 0 where
  pub demo : Bool
  pub limits : Limits
  pub max_payload_chars : ℕ
  pub cpu_workers : ℕ
  pub policies : List (String × Policy)

-- `x in xs`
abbrev pub member : String → List String → Bool
member x xs = any (λ y. str_eq x y) xs

abbrev pub is_empty : String → Bool
is_empty String.[] = true
is_empty (String.◌∷◌ c s) = false

-- `dict.get` and `dict[key] = value`.
abbrev pub lookup {ℓ} : {A : Type ℓ} → String → List (String × A) → Option A
lookup key [] = none
lookup key ((k, a) ∷ rest) = if str_eq k key then some a else lookup key rest

abbrev pub store {ℓ} : {A : Type ℓ} → String → A → List (String × A) → List (String × A)
store key a [] = (key, a) ∷ []
store key a ((k, b) ∷ rest) = if str_eq k key then (k, a) ∷ rest else (k, b) ∷ store key a rest

-- A set of strings as `sorted` lists it.
unfoldable pub add_type : String → List String → List String
add_type t [] = t ∷ []
add_type t (x ∷ xs) = elim (compare_text (codes t) (codes x)) [
  | less ↦ t ∷ x ∷ xs
  | same ↦ x ∷ xs
  | more ↦ x ∷ add_type t xs
]

unfoldable pub type_set : List Span → List String
unfolding add_type
type_set [] = []
type_set (s ∷ spans) = add_type s.type (type_set spans)

unfoldable pub select_spans : List Span → Policy → List Span × List String
unfolding type_set
select_spans spans policy =
    let selected = keep (λ s. null policy.types || member s.type policy.types) spans in
    let types = type_set selected in
    let enough =
      not (ltb (length types) policy.min_types)
      && all (λ t. member t types) policy.required_types in
    let chosen = if enough then selected else [] in
    (if not policy.masking_enabled then [] else chosen, types)

module _ (unit : ℕ) where
  -- One request of a tenant at `now`: is it let through, and the balance and the time kept.
  unfoldable pub spend : ℕ → ℕ → Option (ℕ × ℕ) → Bool × (ℕ × ℕ)
  spend rps now kept =
      let before : ℕ × ℕ = elim kept [ none ↦ (rps * unit, now) | some b ↦ b ] in
      let balance = min (rps * unit) (before.0 + (now - before.1) * rps) in
      if ltb balance unit then (false, (balance, now)) else (true, (balance - unit, now))

  abbrev pub Rates : Type 0
  Rates = List (String × (ℕ × ℕ))

  -- `request.headers.get("X-System-ID", ...)`
  abbrev pub tenant_of : Settings → Option String → String
  tenant_of settings none = if settings.demo then "demo" else ""
  tenant_of settings (some id) = id

  -- The key is not needed for the demo tenant without a key, and else has to be the policy's.
  abbrev pub key_accepted : Settings → String → Policy → String → Bool
  key_accepted settings tenant policy supplied =
      settings.demo && str_eq tenant "demo" && is_empty policy.api_key
      || not (is_empty policy.api_key) && str_eq supplied policy.api_key

  unfoldable pub admit_rate : ℕ → String → Policy → Rates → Result Stop (String × Policy) × Rates
  unfolding spend
  admit_rate now tenant policy rates =
      let after = spend policy.rps now (lookup {A = ℕ × ℕ} tenant rates) in
      (
        if after.0 then ok (tenant, policy) else raise (refused 429 "rate_limit"),
        store tenant after.1 rates,
      )

  unfoldable pub authorize :
      Settings → Option String → String → ℕ → Rates → Result Stop (String × Policy) × Rates
  unfolding admit_rate
  authorize settings id supplied now rates =
      let tenant = tenant_of settings id in
      elim (lookup tenant settings.policies) [
        | none ↦ (raise (refused 403 "access_denied"), rates)
        | some policy ↦
            if not policy.enabled
            then (raise (refused 403 "access_denied"), rates)
            else (if key_accepted settings tenant policy supplied
                then admit_rate now tenant policy rates
                else (raise (refused 401 "unauthorized"), rates))
      ]
