-- ===== src/Config/Loading.antt =====
-- seif/config.py: `Policy.__post_init__`, `_policy`, `_load_policies` and the checks of the settings. The values
-- are those of YAML; `none` is an exception, which ends the start of the service.
pub mod Validity
use seif_pii.Base.{
  ℕ, zero, suc, ◌+◌, ◌≤◌, String, Bool, true, false, not, ◌&&◌, ◌||◌, Option, none, some, List, [],
  ◌∷◌, ◌++◌, all, any, null, str_eq, leb, ltb, if◌then◌else◌,
}
use seif_pii.Base.Maybe.{◌>>=◌}
use seif_pii.App.Policies.{Policy, member, is_empty, lookup, store}

-- A value of YAML, as far as a policy or the settings have them. Any other value, null and 0.0 among them, is
-- kept by whether it counts as true; a float but 0.0 by whether it is finite and whether it is positive. A
-- sequence without elements is `texts []`, and so is a map; a map with keys is the list of them, which is
-- what `tuple` reads.
pub data Value : Type 0 where
  other : Bool → Value
  flag : Bool → Value
  whole : ℕ → Value
  real : Bool → Bool → Value
  text : String → Value
  texts : List String → Value
  rules : List (String × String) → Value

abbrev pub modes : List String
modes = "mask" ∷ "token" ∷ "synthetic" ∷ []

abbrev pub field_names : List String
field_names =
    "enabled" ∷ "api_key" ∷ "types" ∷ "mode" ∷ "allow_unmask" ∷ "min_types" ∷ "required_types"
    ∷ "allowed_modes" ∷ "extra_rules" ∷ "rps" ∷ "masking_enabled" ∷ []

-- `Policy()`
abbrev pub default_policy : Policy
default_policy = record {
  enabled = true;
  api_key = "";
  types = [];
  mode = "mask";
  allow_unmask = true;
  min_types = 1;
  required_types = [];
  allowed_modes = modes;
  extra_rules = [];
  rps = 1000;
  masking_enabled = true;
}

abbrev pub Item : Type 0
Item = List (String × Value)

-- `type(value) is bool`, and a positive integer.
unfoldable pub read_flag : String → Bool → Item → Option Bool
read_flag name default item = elim (lookup name item) [
  | none ↦ some default
  | some (flag b) ↦ some b
  | some v ↦ none
]

abbrev pub positive_or : ℕ → Option Value → Option ℕ
positive_or default none = some default
positive_or default (some (whole n)) = if leb 1 n then some n else none
positive_or default (some v) = none

unfoldable pub read_positive : String → ℕ → Item → Option ℕ
read_positive name default item = positive_or default (lookup name item)

-- `tuple(value)`: of a text, its characters. A list of other things passes here and fails in
-- `_validate_policies`, which the service runs next.
abbrev pub characters : String → List String
characters String.[] = []
characters (String.◌∷◌ c s) = String.◌∷◌ c String.[] ∷ characters s

unfoldable pub read_texts : String → List String → Item → Option (List String)
read_texts name default item = elim (lookup name item) [
  | none ↦ some default
  | some (text s) ↦ some (characters s)
  | some (texts ts) ↦ some ts
  | some (rules []) ↦ some []
  | some v ↦ none
]

unfoldable pub read_rules : Item → Option (List (String × String))
read_rules item = elim (lookup "extra_rules" item) [
  | none ↦ some []
  | some (rules rs) ↦ some rs
  | some (texts []) ↦ some []
  | some v ↦ none
]

abbrev pub mode_or : Option Value → Option String
mode_or none = some "mask"
mode_or (some (text s)) = if member s modes then some s else none
mode_or (some v) = none

unfoldable pub read_mode : Item → Option String
read_mode item = mode_or (lookup "mode" item)

-- `item.pop("api_key_env", "")`: what is left, and the key that the variable of that name holds.
unfoldable pub without : String → Item → Item
without name [] = []
without name ((k, v) ∷ item) =
    let rest = without name item in if str_eq k name then rest else (k, v) ∷ rest

-- `if secret_name`, of a value of YAML.
abbrev pub is_true : Value → Bool
is_true (other b) = b
is_true (flag b) = b
is_true (whole n) = leb 1 n
is_true (real finite positive) = true
is_true (text s) = not (is_empty s)
is_true (texts ts) = not (null ts)
is_true (rules rs) = not (null rs)

-- `os.getenv(secret_name, "")`, which is a `TypeError` where the name is not a text.
abbrev pub secret_of : (String → Option String) → Value → Option String
secret_of getenv (text s) = elim (getenv s) [ none ↦ some "" | some key ↦ some key ]
secret_of getenv v = none

unfoldable pub read_key : (String → Option String) → Item → Option String
read_key getenv item = elim (lookup "api_key_env" item) [
  | none ↦ some ""
  | some v ↦ if is_true v then secret_of getenv v else some ""
]

-- An unknown key is a `TypeError` of `Policy(**item)`; an enabled system has a key.
unfoldable pub checked_policy : Bool → String → Item → Policy → Option Policy
checked_policy demo name item policy =
    if not (all (λ (f : String × Value). member f.0 field_names) (without "api_key_env" item))
      || policy.enabled && is_empty policy.api_key && not (demo && str_eq name "demo")
    then none
    else some policy

-- `_policy`
unfoldable pub policy_of : (String → Option String) → Bool → String → Item → Option Policy
policy_of getenv demo name item = do
  api_key ← read_key getenv item
  enabled ← read_flag "enabled" true item
  types ← read_texts "types" [] item
  mode ← read_mode item
  allow_unmask ← read_flag "allow_unmask" true item
  min_types ← read_positive "min_types" 1 item
  required_types ← read_texts "required_types" [] item
  allowed_modes ← read_texts "allowed_modes" modes item
  extra_rules ← read_rules item
  rps ← read_positive "rps" 1000 item
  masking_enabled ← read_flag "masking_enabled" true item
  checked_policy demo name item (record {
    enabled = enabled;
    api_key = api_key;
    types = types;
    mode = mode;
    allow_unmask = allow_unmask;
    min_types = min_types;
    required_types = required_types;
    allowed_modes = allowed_modes;
    extra_rules = extra_rules;
    rps = rps;
    masking_enabled = masking_enabled;
  })

unfoldable pub policies_of :
    (String → Option String) → Bool → List (String × Item) → Option (List (String × Policy))
policies_of getenv demo [] = some []
policies_of getenv demo ((name, item) ∷ systems) = do
  policy ← policy_of getenv demo name item
  rest ← policies_of getenv demo systems
  some ((name, policy) ∷ rest)

-- `policies.setdefault("demo", Policy())` in demo mode.
unfoldable pub with_demo : Bool → List (String × Policy) → List (String × Policy)
with_demo demo policies = elim (lookup "demo" policies) [
  | none ↦ if demo then policies ++ ("demo", default_policy) ∷ [] else policies
  | some p ↦ policies
]

-- `_load_policies` on the systems of the file.
unfoldable pub load_policies :
    (String → Option String) → Bool → List (String × Item) → Option (List (String × Policy))
load_policies getenv demo systems = do
  policies ← policies_of getenv demo systems
  (if null (with_demo demo policies) then none else some (with_demo demo policies))
