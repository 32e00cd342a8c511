-- ===== src/Config/Loading/Validity.antt =====
-- What `_load_policies` returns is ready to be served.
use seif_pii.Base.{
  ℕ, ◌≤◌, ◌≡◌, refl, subst, ◌⊎◌, inl, inr, String, Bool, true, false, not, ◌&&◌, ◌||◌, Option, none,
  some, Option-cases, Bool-cases, List, [], ◌∷◌, ◌++◌, arith, All, All-snoc, all, null, str_eq, leb,
  eq_iff,
}
use seif_pii.Base.Maybe.{◌>>=◌}
use seif_pii.App.Policies.{Policy, member, is_empty, lookup}
use seif_pii.Config.Loading.{
  Value, other, flag, whole, real, text, texts, rules, positive_or, mode_or, modes, field_names,
  default_policy, Item, read_flag, read_positive, read_texts, read_rules, read_mode, without,
  read_key, checked_policy, policy_of, policies_of, with_demo, load_policies,
}

pub record IsReady (demo : Bool) (entry : String × Policy) : Type 0 where
  pub mode : member entry.1.mode modes ≡ true
  pub min_types : 1 ≤ entry.1.min_types
  pub rps : 1 ≤ entry.1.rps
  pub key :
      entry.1.enabled ≡ true
      → (is_empty entry.1.api_key ≡ false) ⊎ ((demo ≡ true) × (entry.0 ≡ "demo"))

bind-some :
    {A B : Type 0} (o : Option A) (f : A → Option B) (b : B)
    → (o >>= f) ≡ some b
    → (a : A) × (o ≡ some a) × (f a ≡ some b)
bind-some none f b e = absurd (ground arith)
bind-some (some a) f b e = (a, refl, e)

positive_or-le :
    (default n : ℕ) (o : Option Value) → 1 ≤ default → positive_or default o ≡ some n → 1 ≤ n
positive_or-le default n none h e = ground arith
positive_or-le default n (some (whole m)) h e = elim (Bool-cases (leb 1 m)) [
  | inl positive ↦ ground arith
  | inr zero_given ↦ absurd (ground arith)
]
positive_or-le default n (some (other b)) h e = absurd (ground arith)
positive_or-le default n (some (flag b)) h e = absurd (ground arith)
positive_or-le default n (some (real f g)) h e = absurd (ground arith)
positive_or-le default n (some (text t)) h e = absurd (ground arith)
positive_or-le default n (some (texts t)) h e = absurd (ground arith)
positive_or-le default n (some (rules t)) h e = absurd (ground arith)

mode_or-member : (o : Option Value) (s : String) → mode_or o ≡ some s → member s modes ≡ true
mode_or-member none s e = let same : "mask" ≡ s = ground arith in rw (← same) refl
mode_or-member (some (text t)) s e = elim (Bool-cases (member t modes)) [
  | inl known ↦ let same : t ≡ s = ground (arith, known) in rw (← same) known
  | inr unknown ↦ absurd (ground (arith, unknown))
]
mode_or-member (some (other b)) s e = absurd (ground arith)
mode_or-member (some (flag b)) s e = absurd (ground arith)
mode_or-member (some (whole b)) s e = absurd (ground arith)
mode_or-member (some (real f g)) s e = absurd (ground arith)
mode_or-member (some (texts t)) s e = absurd (ground arith)
mode_or-member (some (rules t)) s e = absurd (ground arith)

checked_policy-key :
    (demo : Bool) (name : String) (item : Item) (p q : Policy)
    → checked_policy demo name item p ≡ some q
    → (p ≡ q)
      × (p.enabled ≡ true → (is_empty p.api_key ≡ false) ⊎ ((demo ≡ true) × (name ≡ "demo")))
unfolding checked_policy
checked_policy-key demo name item p q e =
    elim (Bool-cases (
      not (all (λ (f : String × Value). member f.0 field_names) (without "api_key_env" item))
      || p.enabled && is_empty p.api_key && not (demo && str_eq name "demo"))) [
        | inl bad ↦ absurd (ground (arith, bad))
        | inr good ↦ (ground (arith, good), λ on. ground (arith, good, eq_iff name "demo"))
      ]

policy_of-IsReady :
    (getenv : String → Option String) (demo : Bool) (name : String) (item : Item) (p : Policy)
    → policy_of getenv demo name item ≡ some p
    → IsReady demo (name, p)
unfolding policy_of read_positive read_mode
policy_of-IsReady getenv demo name item p e =
    let (api_key, e1, f1) = bind-some (read_key getenv item) _ p e in
    let (enabled, e2, f2) = bind-some (read_flag "enabled" true item) _ p f1 in
    let (types, e3, f3) = bind-some (read_texts "types" [] item) _ p f2 in
    let (mode, e4, f4) = bind-some (read_mode item) _ p f3 in
    let (allow_unmask, e5, f5) = bind-some (read_flag "allow_unmask" true item) _ p f4 in
    let (min_types, e6, f6) = bind-some (read_positive "min_types" 1 item) _ p f5 in
    let (required_types, e7, f7) = bind-some (read_texts "required_types" [] item) _ p f6 in
    let (allowed_modes, e8, f8) = bind-some (read_texts "allowed_modes" modes item) _ p f7 in
    let (extra_rules, e9, f9) = bind-some (read_rules item) _ p f8 in
    let (rps, e10, f10) = bind-some (read_positive "rps" 1000 item) _ p f9 in
    let (masking_enabled, e11, f11) = bind-some (read_flag "masking_enabled" true item) _ p f10 in
    let (same, key) = checked_policy-key demo name item _ p f11 in
    subst (λ (x : Policy). IsReady demo (name, x)) same
      (record {
        mode = mode_or-member (lookup "mode" item) mode e4;
        min_types = positive_or-le 1 min_types (lookup "min_types" item) (omega arith) e6;
        rps = positive_or-le 1000 rps (lookup "rps" item) (omega arith) e10;
        key = key;
      })

policies_of-IsReady :
    (getenv : String → Option String) (demo : Bool) (systems : List (String × Item))
    (policies : List (String × Policy))
    → policies_of getenv demo systems ≡ some policies
    → All (IsReady demo) policies
unfolding policies_of
policies_of-IsReady getenv demo [] policies e =
    let bare : [] ≡ policies = ground arith in rw (← bare) tt
policies_of-IsReady getenv demo ((name, item) ∷ systems) policies e =
    let (p, e1, f1) = bind-some (policy_of getenv demo name item) _ policies e in
    let (rest, e2, f2) = bind-some (policies_of getenv demo systems) _ policies f1 in
    let same : (name, p) ∷ rest ≡ policies = ground (arith, f2) in
    rw (← same) (
      policy_of-IsReady getenv demo name item p e1,
      policies_of-IsReady getenv demo systems rest e2,
    )

module _ (demo : Bool) (policies : List (String × Policy)) where
  with_demo_added :
      lookup "demo" policies ≡ none
      → demo ≡ true
      → with_demo demo policies ≡ policies ++ ("demo", default_policy) ∷ []
  unfolding with_demo
  with_demo_added h k = ground (arith, h, k)

  with_demo_off : demo ≡ false → with_demo demo policies ≡ policies
  unfolding with_demo
  with_demo_off h = elim (Option-cases (lookup "demo" policies)) [
    | inl missing ↦ ground (arith, h, missing)
    | inr (p, there) ↦ ground (arith, there)
  ]

  with_demo_there :
      (p : Policy) → lookup "demo" policies ≡ some p → with_demo demo policies ≡ policies
  unfolding with_demo
  with_demo_there p h = ground (arith, h)

with_demo-IsReady :
    (demo : Bool) (policies : List (String × Policy))
    → All (IsReady demo) policies
    → All (IsReady demo) (with_demo demo policies)
with_demo-IsReady demo policies h = elim (Option-cases (lookup "demo" policies)) [
  | inl missing ↦ elim (Bool-cases demo) [
    | inl on ↦ rw (with_demo_added demo policies missing on) (
        All-snoc (IsReady demo) policies ("demo", default_policy) h
          (record {
            mode = refl;
            min_types = omega arith;
            rps = omega arith;
            key = λ enabled. inr (on, refl);
          }))
    | inr off ↦ rw (with_demo_off demo policies off) h
  ]
  | inr (p, there) ↦ rw (with_demo_there demo policies p there) h
]

-- What `_load_policies` returns has a system, and each system has one of the three modes, positive limits,
-- and, if it is enabled, a key; but for the system `demo` in demo mode.
pub load_policies-IsReady :
    (getenv : String → Option String) (demo : Bool) (systems : List (String × Item))
    (policies : List (String × Policy))
    → load_policies getenv demo systems ≡ some policies
    → (null policies ≡ false) × All (IsReady demo) policies
unfolding load_policies
load_policies-IsReady getenv demo systems policies e =
    let (loaded, e1, f1) = bind-some (policies_of getenv demo systems) _ policies e in
    elim (Bool-cases (null (with_demo demo loaded))) [
      | inl bare ↦ absurd (ground (arith, bare, f1))
      | inr more ↦
          let same : with_demo demo loaded ≡ policies = ground (arith, more, f1) in
          rw (← same) (
            more,
            with_demo-IsReady demo loaded (policies_of-IsReady getenv demo systems loaded e1),
          )
    ]
