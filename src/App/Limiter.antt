-- ===== src/App/Limiter.antt =====
-- The token bucket of `authorize`, over any sequence of requests of any tenants.
use seif_pii.Base.{
  ℕ, suc, ◌+◌, ◌-◌, ◌*◌, ◌≤◌, min, String, ◌≡◌, ◌⊎◌, refl, sym, ap, subst, ◌∙◌, inl, inr, Bool,
  true, false, Option, none, some, List, [], ◌∷◌, arith, if◌then◌else◌, Bool-cases, Option-cases,
  str_eq, eq_iff,
}
use seif_pii.Base.Result.{Result, ok, raise}
use native.Mathlib.Nat.{add-mul}
use seif_pii.App.Policies.{
  Stop, Policy, Settings, Rates, lookup, store, tenant_of, key_accepted, spend, admit_rate,
  authorize,
}

-- What `authorize` reads of a request: the headers and the clock.
pub record Arrival : Type 0 where
  pub system_id : Option String
  pub api_key : String
  pub at : ℕ

abbrev pub is_for : String → Result Stop (String × Policy) → Bool
is_for tenant (ok (t, policy)) = str_eq t tenant
is_for tenant (raise e) = false

-- The number of requests that `authorize` lets through for a tenant, one after the other.
unfoldable pub admitted : (unit : ℕ) → Settings → String → Rates unit → List Arrival → ℕ
admitted unit settings tenant rates [] = 0
admitted unit settings tenant rates (r ∷ rs) =
    let after = authorize unit settings r.system_id r.api_key r.at rates in
    let rest = admitted unit settings tenant after.1 rs in
    if is_for tenant after.0 then suc rest else rest

abbrev pub last_time : ℕ → List Arrival → ℕ
last_time t [] = t
last_time t (r ∷ rs) = last_time r.at rs

-- Each time is at least the one before.
abbrev pub Ascending : ℕ → List Arrival → Type 0
Ascending t [] = Unit
Ascending t (r ∷ rs) = (t ≤ r.at) × Ascending r.at rs

last_time-le : (t : ℕ) (rs : List Arrival) → Ascending t rs → t ≤ last_time t rs
last_time-le t [] h = omega arith
last_time-le t (r ∷ rs) (h, hs) = omega (arith, last_time-le r.at rs hs)

lookup-store {ℓ} :
    {A : Type ℓ} (key : String) (a : A) (rates : List (String × A))
    → lookup key (store key a rates) ≡ some a
lookup-store key a [] = let e : str_eq key key ≡ true = (eq_iff key key).1 refl in rw e refl
lookup-store key a ((k, b) ∷ rates) = elim (Bool-cases (str_eq k key)) [
  | inl here ↦ rw (here, here) refl
  | inr other ↦ rw (other, other) (lookup-store key a rates)
]

lookup-store_other {ℓ} :
    {A : Type ℓ} (key key' : String) (a : A) (rates : List (String × A))
    → str_eq key' key ≡ false
    → lookup key (store key' a rates) ≡ lookup key rates
lookup-store_other key key' a [] h = rw h refl
lookup-store_other key key' a ((k, b) ∷ rates) h = elim (Bool-cases (str_eq k key')) [
  | inl here ↦
      let same : k ≡ key' = (eq_iff k key').0 here in
      let off : str_eq k key ≡ false = subst (λ x. str_eq x key ≡ false) (sym same) h in
      rw (here, off) refl
  | inr other ↦
      rw other
        (ap (λ x. if str_eq k key then some b else x) (lookup-store_other key key' a rates h))
]

distribute : (a b c k : ℕ) → b ≤ a → c ≤ b → (a - c) * k ≡ (a - b) * k + (b - c) * k
distribute a b c k h h' =
    let e : a - c ≡ (a - b) + (b - c) = omega arith in rw e (add-mul (a - b) (b - c) k)

-- One request moves what flows in to the balance, less a `unit` if it is let through.
spend-le :
    (unit rps balance last now : ℕ)
    → (if (spend unit rps now (some (balance, last))).0 then unit else 0)
        + (spend unit rps now (some (balance, last))).1.0
      ≤ balance + (now - last) * rps
unfolding spend
spend-le unit rps balance last now = ground arith

spend_time : (unit rps now : ℕ) (kept : Option (ℕ × ℕ)) → (spend unit rps now kept).1.1 ≡ now
unfolding spend
spend_time unit rps now kept = ground arith

-- One request more, or none, and the balance before it.
one_more :
    (through : Bool) (unit rest after before later flow whole : ℕ)
    → rest * unit ≤ after + later
    → (if through then unit else 0) + after ≤ before + flow
    → whole ≡ later + flow
    → (if through then suc rest else rest) * unit ≤ before + whole
one_more true unit rest after before later flow whole h k e =
    let sum : suc rest * unit ≡ unit + rest * unit = omega arith in rw sum (omega arith)
one_more false unit rest after before later flow whole h k e = omega arith

-- A first request finds a full bucket, however long it has been full.
spend_first :
    (unit rps last now : ℕ) → spend unit rps now none ≡ spend unit rps now (some (rps * unit, last))
unfolding spend
spend_first unit rps last now =
    let e1 : min (rps * unit) (rps * unit + (now - now) * rps) ≡ rps * unit = omega arith in
    let e2 : min (rps * unit) (rps * unit + (now - last) * rps) ≡ rps * unit = omega arith in
    rw (e1, e2) refl

authorize_admits :
    (unit : ℕ) (settings : Settings) (r : Arrival) (rates : Rates unit) (p : Policy)
    → lookup (tenant_of unit settings r.system_id) settings.policies ≡ some p
    → p.enabled ≡ true
    → key_accepted unit settings (tenant_of unit settings r.system_id) p r.api_key ≡ true
    → authorize unit settings r.system_id r.api_key r.at rates
      ≡ admit_rate unit r.at (tenant_of unit settings r.system_id) p rates
unfolding authorize
authorize_admits unit settings r rates p found on accepted = ground (arith, found, on, accepted)

module _ (unit : ℕ) (settings : Settings) (tenant : String) (policy : Policy)
    (known : lookup tenant settings.policies ≡ some policy) where
  -- What a request does to the bucket of the tenant: nothing, or it takes from it.
  IsStep : ℕ → Rates unit → Result Stop (String × Policy) × Rates unit → Type 0
  IsStep now rates after =
      ((lookup tenant after.1 ≡ lookup tenant rates) × (is_for tenant after.0 ≡ false))
      ⊎ ((lookup tenant after.1 ≡ some (spend unit policy.rps now (lookup tenant rates)).1)
          × (is_for tenant after.0 ≡ (spend unit policy.rps now (lookup tenant rates)).0))

  admit_rate-own :
      (now : ℕ) (rates : Rates unit) → IsStep now rates (admit_rate unit now tenant policy rates)
  unfolding IsStep admit_rate
  admit_rate-own now rates = inr (
    lookup-store tenant (spend unit policy.rps now (lookup tenant rates)).1 rates,
    elim (Bool-cases (spend unit policy.rps now (lookup tenant rates)).0) [
      | inl through ↦
          let e : str_eq tenant tenant ≡ true = (eq_iff tenant tenant).1 refl in
          rw (through, e) refl
      | inr held ↦ rw held refl
    ],
  )

  admit_rate-other :
      (now : ℕ) (key : String) (p : Policy) (rates : Rates unit)
      → str_eq key tenant ≡ false
      → IsStep now rates (admit_rate unit now key p rates)
  unfolding IsStep admit_rate
  admit_rate-other now key p rates other = inl (
    lookup-store_other tenant key (spend unit p.rps now (lookup key rates)).1 rates other,
    elim (Bool-cases (spend unit p.rps now (lookup key rates)).0) [
      | inl through ↦ rw (through, other) refl
      | inr held ↦ rw held refl
    ],
  )

  admit_rate-IsStep :
      (now : ℕ) (key : String) (p : Policy) (rates : Rates unit)
      → lookup key settings.policies ≡ some p
      → IsStep now rates (admit_rate unit now key p rates)
  admit_rate-IsStep now key p rates found = elim (Bool-cases (str_eq key tenant)) [
    | inr other ↦ admit_rate-other now key p rates other
    | inl same ↦
        let e : tenant ≡ key = sym ((eq_iff key tenant).0 same) in
        let both : some policy ≡ some p =
          sym known ∙ ap (λ x. lookup x settings.policies) e ∙ found in
        let e' : policy ≡ p = ground (arith, both) in
        subst (λ x. IsStep now rates (admit_rate unit now x p rates)) e
          (subst (λ x. IsStep now rates (admit_rate unit now tenant x rates)) e'
            (admit_rate-own now rates))
  ]

  authorize-IsStep :
      (r : Arrival) (rates : Rates unit)
      → IsStep r.at rates (authorize unit settings r.system_id r.api_key r.at rates)
  unfolding IsStep authorize
  authorize-IsStep r rates =
      let key = tenant_of unit settings r.system_id in
      elim (Option-cases (lookup key settings.policies)) [
        | inl unknown ↦ rw (authorize, unknown) (inl (refl, refl))
        | inr (p, found) ↦ elim (Bool-cases p.enabled) [
          | inr off ↦ rw (authorize, found, off) (inl (refl, refl))
          | inl on ↦ elim (Bool-cases (key_accepted unit settings key p r.api_key)) [
            | inr stranger ↦ rw (authorize, found, on, stranger) (inl (refl, refl))
            | inl accepted ↦
                subst (IsStep r.at rates)
                  (sym (authorize_admits unit settings r rates p found on accepted))
                  (admit_rate-IsStep r.at key p rates found)
          ]
        ]
      ]

  -- The requests let through, in ticks, are bounded by the balance and what flows in.
  admitted_le :
      (rates : Rates unit) (balance last start : ℕ) (rs : List Arrival)
      → ((now : ℕ)
          → spend unit policy.rps now (lookup tenant rates)
            ≡ spend unit policy.rps now (some (balance, last)))
      → last ≤ start
      → Ascending start rs
      → admitted unit settings tenant rates rs * unit
        ≤ balance + (last_time start rs - last) * policy.rps
  unfolding admitted IsStep
  admitted_le rates balance last start [] kept h hs = omega arith
  admitted_le rates balance last start (r ∷ rs) kept h (h', hs) =
      let after = authorize unit settings r.system_id r.api_key r.at rates in
      let taken = spend unit policy.rps r.at (some (balance, last)) in
      elim (authorize-IsStep r rates) [
        | inl (same, held) ↦ rw held (
            admitted_le after.1 balance last r.at rs
              (λ now. ap (spend unit policy.rps now) same ∙ kept now) (omega arith) hs)
        | inr (next, answer) ↦
            let next' : lookup tenant after.1 ≡ some taken.1 =
              next ∙ ap (λ x. some x.1) (kept r.at) in
            let answer' : is_for tenant after.0 ≡ taken.0 = answer ∙ ap (λ x. x.0) (kept r.at) in
            let now = spend_time unit policy.rps r.at (some (balance, last)) in
            let ih =
              admitted_le after.1 taken.1.0 r.at r.at rs
                (λ t. ap (spend unit policy.rps t) (next' ∙ ap (λ x. some (taken.1.0, x)) now))
                (omega arith) hs in
            let flow =
              distribute (last_time r.at rs) r.at last policy.rps (last_time-le r.at rs hs)
                (omega arith) in
            let step = spend-le unit policy.rps balance last r.at in
            rw answer' (
              one_more taken.0 unit (admitted unit settings tenant after.1 rs) taken.1.0 balance
                ((last_time r.at rs - r.at) * policy.rps) ((r.at - last) * policy.rps)
                ((last_time r.at rs - last) * policy.rps) ih step flow)
      ]

  -- `authorize` lets through, of any requests at times that do not go back, at most `rps` of a configured tenant,
  -- and as many more as `rps` a second make between `start`, which is not behind the first request, and the last.
  pub admitted-bound :
      (start : ℕ) (rs : List Arrival)
      → Ascending start rs
      → admitted unit settings tenant [] rs * unit
        ≤ policy.rps * unit + (last_time start rs - start) * policy.rps
  admitted-bound start rs hs =
      admitted_le [] (policy.rps * unit) start start rs (spend_first unit policy.rps start)
        (omega arith) hs
