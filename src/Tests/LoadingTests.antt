-- ===== src/Tests/LoadingTests.antt =====
-- Instances of the theorem on the systems that seif/config.py loads, and runs of the checks before the start.
use seif_pii.Base.{◌≡◌, refl, String, true, false, Option, none, some, [], ◌∷◌, null, All}
use seif_pii.App.Policies.{Policy}
use seif_pii.Config.Loading.{
  other, flag, whole, text, texts, default_policy, Item, read_flag, read_positive, read_texts,
  read_rules, read_mode, without, read_key, checked_policy, policy_of, policies_of, with_demo,
  load_policies,
}
use seif_pii.Config.Loading.Validity.{IsReady, load_policies-IsReady}
use seif_pii.Config.Checks.{validate_policies, validate_policy}

abbrev bank : Item
bank =
    ("api_key_env", text "BANK_KEY")
    ∷ ("mode", text "token")
    ∷ ("types", texts ("PERSON" ∷ []))
    ∷ ("rps", whole 5)
    ∷ []

abbrev bank_policy : Policy
bank_policy = record default_policy {
  api_key = "secret";
  mode = "token";
  types = "PERSON" ∷ [];
  rps = 5;
}

abbrev one_secret : String → Option String
one_secret name = some "secret"

loaded : load_policies one_secret false (("bank", bank) ∷ []) ≡ some (("bank", bank_policy) ∷ [])
unfolding load_policies policies_of policy_of read_key read_flag read_texts read_mode read_positive
    read_rules checked_policy without with_demo
loaded = refl

-- A text where a Boolean should be, and an enabled system without a key.
refused : load_policies one_secret false (("bank", ("enabled", text "false") ∷ bank) ∷ []) ≡ none
unfolding load_policies policies_of policy_of read_key read_flag
refused = refl

keyless : load_policies (λ name. none) false (("bank", bank) ∷ []) ≡ none
unfolding load_policies policies_of policy_of read_key read_flag read_texts read_mode read_positive
    read_rules checked_policy without with_demo
keyless = refl

-- A null or a zero for the name of the variable is no key, which an enabled system needs and another does not.
null_key :
    load_policies one_secret false
      (("bank", ("api_key_env", other false) ∷ ("enabled", flag false) ∷ []) ∷ [])
    ≡ some (("bank", record default_policy { enabled = false }) ∷ [])
unfolding load_policies policies_of policy_of read_key read_flag read_texts read_mode read_positive
    read_rules checked_policy without with_demo
null_key = refl

zero_key :
    (read_key one_secret (("api_key_env", whole 0) ∷ []) ≡ some "")
    × (read_key one_secret (("api_key_env", whole 1) ∷ []) ≡ none)
unfolding read_key
zero_key = (refl, refl)

validated : validate_policies (λ pattern. some false) (("bank", bank_policy) ∷ []) ≡ true
unfolding validate_policies validate_policy
validated = refl

load_policies-IsReady_example :
    (null {A = String × Policy} (("bank", bank_policy) ∷ []) ≡ false)
    × All (IsReady false) (("bank", bank_policy) ∷ [])
load_policies-IsReady_example =
    load_policies-IsReady one_secret false (("bank", bank) ∷ []) (("bank", bank_policy) ∷ []) loaded
