-- ===== src/Config/Checks.antt =====
-- The checks before the service starts: `Settings.__post_init__`, the master key and Redis of seif/config.py,
-- `_validate_policies` of seif/app.py, `validate_extra_rule` and `_custom_pattern` of seif/detector.py. `none`
-- and `false` are exceptions.
use seif_pii.Base.{
  ℕ, String, Bool, true, false, not, ◌&&◌, ◌||◌, Option, none, some, List, [], ◌∷◌, ◌++◌, map, all,
  null, length, str_eq, leb, ◌==◌, if◌then◌else◌,
}
use seif_pii.Base.Maybe.{◌>>=◌}
use seif_pii.Text.{Text, codes, is_ascii_digit, is_ascii_alpha}
use seif_pii.App.Policies.{Policy, member}
use seif_pii.Config.Loading.{Value, flag, whole, real, text, modes}
use seif_pii.Config.Sentinels.{Readers, parse_sentinels}

abbrev pub is_flag : Value → Bool
is_flag (flag b) = true
is_flag v = false

abbrev pub is_between : ℕ → ℕ → Value → Bool
is_between low high (whole n) = leb low n && leb n high
is_between low high v = false

abbrev pub is_positive : Value → Bool
is_positive (whole n) = leb 1 n
is_positive v = false

abbrev pub is_timeout : Value → Bool
is_timeout (whole n) = leb 1 n
is_timeout (real finite positive) = finite && positive
is_timeout v = false

abbrev pub is_backend : Value → Bool
is_backend (text s) = str_eq s "httpx" || str_eq s "aiohttp"
is_backend v = false

-- The fields that `__post_init__` checks; `limits` are the eight of its loop.
pub record Given : Type 0 where
  pub demo : Value
  pub ner_max_concurrency : Value
  pub ner_http_backend : Value
  pub limits : List Value
  pub request_body_timeout_seconds : Value

unfoldable pub check_settings : Given → Bool
check_settings g =
    is_flag g.demo
    && is_between 1 256 g.ner_max_concurrency
    && is_backend g.ner_http_backend
    && all is_positive g.limits
    && is_timeout g.request_body_timeout_seconds

-- `_load_master_key`: the variable, `base64.b64decode` and `os.urandom(32)` are arguments.
unfoldable pub load_master_key : (Text → Option Text) → Text → Bool → Text → Option (Text × Text)
load_master_key decode random demo encoded =
    if null encoded && not demo
    then none
    else (if null encoded then some random else decode encoded)
      >>= (λ key. if length key == 32 then some (key, encoded) else none)

-- `[A-Za-z0-9][A-Za-z0-9_.-]{0,127}`
abbrev pub is_alnum_ascii : ℕ → Bool
is_alnum_ascii c = is_ascii_digit c || is_ascii_alpha c

unfoldable pub is_service_name : Text → Bool
is_service_name [] = false
is_service_name (c ∷ t) =
    is_alnum_ascii c
    && leb (length t) 127
    && all (λ d. is_alnum_ascii d || d == b'_' || d == b'.' || d == b'-') t

-- The variables that `_load_redis` reads; a `none` is one that is not set.
pub record RedisVariables : Type 0 where
  pub redis_url : Text
  pub sentinels : Text
  pub sentinel_master : Option Text
  pub redis_password : Text
  pub sentinel_password : Option Text

pub record Redis : Type 0 where
  pub url : Text
  pub sentinels : List (Text × ℕ)
  pub master : Text
  pub password : Text
  pub sentinel_password : Text

abbrev pub or_else : Text → Option Text → Text
or_else default none = default
or_else default (some t) = t

-- The checks of `_load_redis`, with the sentinels and the name of their master.
unfoldable pub redis_of : RedisVariables → List (Text × ℕ) → Text → Text → Option Redis
redis_of v sentinels master encoded =
    let shared = not (null v.redis_url) || not (null sentinels) in
    let both = not (null v.redis_url) && not (null sentinels) in
    if both || not (is_service_name master) || shared && null encoded
    then none
    else some (record {
      url = v.redis_url;
      sentinels = sentinels;
      master = master;
      password = v.redis_password;
      sentinel_password = or_else v.redis_password v.sentinel_password;
    })

unfoldable pub load_redis : Readers → RedisVariables → Text → Option Redis
load_redis readers v encoded = do
  sentinels ← parse_sentinels readers v.sentinels
  redis_of v sentinels (or_else (codes "seif-master") v.sentinel_master) encoded

-- `_custom_pattern`: `compile` is whether the pattern matches the empty text, none for `regex.error`.
unfoldable pub custom_pattern : (Text → Option Bool) → Text → Bool
custom_pattern compile pattern =
    leb 1 (length pattern)
    && leb (length pattern) 512
    && elim (compile pattern) [ none ↦ false | some matches ↦ not matches ]

-- `[A-Z][A-Z0-9_]{1,39}`
abbrev pub is_capital : ℕ → Bool
is_capital c = leb b'A' c && leb c b'Z'

unfoldable pub is_custom_type : Text → Bool
is_custom_type [] = false
is_custom_type (c ∷ t) =
    is_capital c
    && leb 1 (length t)
    && leb (length t) 39
    && all (λ d. is_capital d || is_ascii_digit d || d == b'_') t

unfoldable pub validate_extra_rule : (Text → Option Bool) → String × String → Bool
validate_extra_rule compile (kind, pattern) =
    is_custom_type (codes kind) && custom_pattern compile (codes pattern)

-- `TYPES`
abbrev pub known_names : List String
known_names =
    "PERSON" ∷ "BIRTH_DATE" ∷ "BIRTH_PLACE" ∷ "PASSPORT" ∷ "CITIZENSHIP" ∷ "PASSPORT_ISSUER"
    ∷ "DEPARTMENT_CODE" ∷ "PASSPORT_DATE" ∷ "DRIVER_LICENSE" ∷ "ADDRESS" ∷ "COUNTRY" ∷ "POSTAL_CODE"
    ∷ "CITY" ∷ "STREET" ∷ "HOUSE" ∷ "APARTMENT" ∷ "EMAIL" ∷ "PHONE" ∷ "INN" ∷ "CARD" ∷ "CVV" ∷ "PIN"
    ∷ "CARDHOLDER" ∷ "FOREIGN_DOCUMENT" ∷ "LOCATION" ∷ "SNILS" ∷ "OMS" ∷ "IP_ADDRESS" ∷ "URL"
    ∷ "MILITARY_ID" ∷ "BIRTH_CERTIFICATE" ∷ []

-- The body of the loop of `_validate_policies`.
unfoldable pub validate_policy : (Text → Option Bool) → Policy → Bool
validate_policy compile policy =
    let known = known_names ++ map (λ (r : String × String). r.0) policy.extra_rules in
    member policy.mode policy.allowed_modes
    && all (λ m. member m modes) policy.allowed_modes
    && leb (length policy.extra_rules) 32
    && all (validate_extra_rule compile) policy.extra_rules
    && all (λ t. member t known) policy.types
    && all (λ t. member t known) policy.required_types

unfoldable pub validate_policies : (Text → Option Bool) → List (String × Policy) → Bool
validate_policies compile policies =
    all (λ (p : String × Policy). validate_policy compile p.1) policies
