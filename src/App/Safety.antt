-- ===== src/App/Safety.antt =====
-- What has to hold for `execute` to return a result, and for a result to come from the way back.
use seif_pii.Base.{
  ℕ, ◌≤◌, String, ◌≡◌, ◌≢◌, ◌⊎◌, refl, subst, eq_iff, ap, ◌∙◌, inl, inr, true, false, not, ◌&&◌,
  ◌||◌, Option, none, some, List, [], arith, length, ltb, ltb→ge, &&-true, str_eq, Bool-cases,
  Option-cases,
}
use seif_pii.Base.Result.{ok, raise, Result-cases}
use seif_pii.Text.{Text, Unicode}
use seif_pii.Vault.{Cipher, Vault, get}
use seif_pii.App.Policies.{
  Stop, refused, vault_is_full, failed, out_of_draws, Policy, Settings, Rates, member, is_empty,
  lookup, tenant_of, key_accepted, admit_rate, authorize, spend,
}
use seif_pii.App.Records.{
  Operation, Direction, masking, Record, Context, Outside, Moment, restore_record, reuse,
  resolve_record, answer, from_vault, new_record, is_unmask, is_process, is_mask,
}
use seif_pii.App.Execution.{
  Request, Response, encodes, chosen_mode, caught, State, context_of, execute,
}
use seif_pii.App.Answers.{made}
use seif_pii.App.Reuse.{new_record-Masked}
use seif_pii.Span.{Span}

-- No `except` clause ends in a result.
not_caught : {A : Type 0} (e : Stop) (a : A) → caught (raise e) ≡ ok a → ⊥
not_caught (refused status code) a h = ground arith
not_caught vault_is_full a h = ground arith
not_caught failed a h = ground arith
not_caught out_of_draws a h = ground arith

is_empty-text : (s : String) → is_empty s ≡ true → s ≡ ""
is_empty-text String.[] h = refl
is_empty-text (String.◌∷◌ c s) h = absurd (ground arith)

module _ (u : Unicode) (c : Cipher Record) (o : Outside) (settings : Settings) (unit : ℕ) where
  -- The tenant's policy and its demands.
  pub record IsAdmitted (request : Request) (policy : Policy) : Type 0 where
    pub known : lookup (tenant_of unit settings request.system_id) settings.policies ≡ some policy
    pub enabled : policy.enabled ≡ true
    pub key :
        ((policy.api_key ≢ "") × (request.api_key ≡ policy.api_key))
        ⊎ ((settings.demo ≡ true)
            × (tenant_of unit settings request.system_id ≡ "demo")
            × (policy.api_key ≡ ""))
    pub fits : length request.payload ≤ settings.max_payload_chars
    pub text_encodes : encodes request.payload ≡ true
    pub id_encodes : encodes request.payload_id ≡ true
    pub mode : member (chosen_mode request.mode policy) policy.allowed_modes ≡ true

  admit_rate-ok :
      (now : ℕ) (tenant tenant' : String) (policy policy' : Policy) (rates : Rates unit)
      → (admit_rate unit now tenant policy rates).0 ≡ ok (tenant', policy')
      → policy ≡ policy'
  unfolding admit_rate
  admit_rate-ok now tenant tenant' policy policy' rates h =
      elim (Bool-cases (spend unit policy.rps now (lookup tenant rates)).0) [
        | inl through ↦ ground arith
        | inr held ↦ absurd (ground arith)
      ]

  -- A key that is accepted is the policy's own, or there is none and the tenant is that of the demonstration.
  key_accepted-key :
      (tenant supplied : String) (policy : Policy)
      → key_accepted unit settings tenant policy supplied ≡ true
      → ((policy.api_key ≢ "") × (supplied ≡ policy.api_key))
        ⊎ ((settings.demo ≡ true) × (tenant ≡ "demo") × (policy.api_key ≡ ""))
  key_accepted-key tenant supplied policy h = elim (Bool-cases (is_empty policy.api_key)) [
    | inl bare ↦
        inr (ground arith, ground (arith, eq_iff tenant "demo"), is_empty-text policy.api_key bare)
    | inr keyed ↦ inl (
      λ bare. absurd (ground (arith, subst (λ x. is_empty x ≡ false) bare keyed)),
      ground (arith, eq_iff supplied policy.api_key),
    )
  ]

  authorize-ok :
      (id : Option String) (supplied : String) (now : ℕ) (rates : Rates unit) (tenant : String)
      (policy : Policy)
      → (authorize unit settings id supplied now rates).0 ≡ ok (tenant, policy)
      → (lookup (tenant_of unit settings id) settings.policies ≡ some policy)
        × (policy.enabled ≡ true)
        × (key_accepted unit settings (tenant_of unit settings id) policy supplied ≡ true)
  unfolding authorize
  authorize-ok id supplied now rates tenant policy h =
      elim (Option-cases (lookup (tenant_of unit settings id) settings.policies)) [
        | inl unknown ↦ absurd (ground arith)
        | inr (p, known) ↦ elim (Bool-cases p.enabled) [
          | inr off ↦ absurd (ground arith)
          | inl on ↦
              elim (Bool-cases
                (key_accepted unit settings (tenant_of unit settings id) p supplied)) [
                  | inr stranger ↦ absurd (ground arith)
                  | inl accepted ↦
                      let same : p ≡ policy =
                        admit_rate-ok now (tenant_of unit settings id) tenant p policy rates
                          (ground arith) in
                      (rw (known, same), rw (← same) on, rw (← same) accepted)
                ]
        ]
      ]

  context_of-ok :
      (operation : Operation) (request : Request) (tenant : String) (policy : Policy)
      (context : Context)
      → context_of u c o settings unit operation request (tenant, policy) ≡ ok context
      → (length request.payload ≤ settings.max_payload_chars)
        × ((encodes request.payload && encodes request.payload_id) ≡ true)
        × (member (chosen_mode request.mode policy) policy.allowed_modes ≡ true)
        × (context.policy ≡ policy)
  unfolding context_of
  context_of-ok operation request tenant policy context h =
      elim (Bool-cases (ltb settings.max_payload_chars (length request.payload))) [
        | inl large ↦ absurd (ground arith)
        | inr small ↦ elim (Bool-cases (encodes request.payload && encodes request.payload_id)) [
          | inr broken ↦ absurd (ground arith)
          | inl whole ↦
              elim (Bool-cases (member (chosen_mode request.mode policy) policy.allowed_modes)) [
                | inr other ↦ absurd (ground arith)
                | inl allowed ↦ (ltb→ge _ _ small, whole, allowed, ground arith)
              ]
        ]
      ]

  -- A result of `execute` is for a tenant with an enabled policy; for a request that has the policy's key, which
  -- is not empty, or in demo mode for the tenant "demo" whose policy has an empty key; for a payload within
  -- `max_payload_chars`; for a payload and an id without lone surrogates; and for a mode that the policy allows.
  pub execute-IsAdmitted :
      (operation : Operation) (request : Request) (arrival : ℕ) (m : Moment)
      (s : State u c o settings unit) (response : Response)
      → (execute u c o settings unit operation request arrival m s).0 ≡ ok response
      → (policy : Policy) × IsAdmitted request policy
  unfolding execute
  execute-IsAdmitted operation request arrival m s response h =
      elim (Result-cases
        (authorize unit settings request.system_id request.api_key arrival s.rates).0) [
          | inl (e, refused_here) ↦ absurd (not_caught e response (ground arith))
          | inr ((tenant, policy), admitted) ↦
              elim (Result-cases
                (context_of u c o settings unit operation request (tenant, policy))) [
                  | inl (e, refused_here) ↦ absurd (not_caught e response (ground arith))
                  | inr (context, checked) ↦
                      let (known, enabled, key) =
                        authorize-ok request.system_id request.api_key arrival s.rates tenant policy
                          admitted in
                      let (fits, whole, mode, same) =
                        context_of-ok operation request tenant policy context checked in
                      (
                        policy,
                        record {
                          known = known;
                          enabled = enabled;
                          key =
                              key_accepted-key (tenant_of unit settings request.system_id)
                                request.api_key policy key;
                          fits = fits;
                          text_encodes = (&&-true _ _ whole).0;
                          id_encodes = (&&-true _ _ whole).1;
                          mode = mode;
                        },
                      )
                ]
        ]

  reuse-masking :
      (context : Context) (stored : Record) (d : Direction) (t : Text) (r : Record)
      → context.policy.allow_unmask ≡ false
      → reuse u c o settings context stored ≡ ok (d, t, r)
      → d ≡ masking
  unfolding reuse restore_record
  reuse-masking context stored d t r off h =
      elim (Bool-cases (
        is_unmask context.operation
        || is_process context.operation
          && str_eq context.fingerprint stored.masked_hash
          && not (str_eq context.fingerprint stored.original_hash))) [
            | inl back ↦ absurd (ground arith)
            | inr onward ↦ elim (Bool-cases (str_eq context.fingerprint stored.original_hash)) [
              | inr other ↦ absurd (ground arith)
              | inl same ↦
                  elim (Bool-cases
                    (is_mask context.operation && not (str_eq context.mode stored.mode))) [
                      | inl differs ↦ absurd (ground arith)
                      | inr agrees ↦ ground arith
                    ]
            ]
          ]

  resolve-masking :
      (context : Context) (m : Moment) (stored : Option Record) (v : Vault c) (d : Direction)
      (t : Text) (r : Record)
      → context.policy.allow_unmask ≡ false
      → (resolve_record u c o settings context m stored v).0 ≡ ok (d, t, r)
      → d ≡ masking
  unfolding resolve_record
  resolve-masking context m none v d t r off h =
      ap (λ x. x.0) (made u c o settings context m v (d, t, r) h).is_answer
  resolve-masking context m (some stored) v d t r off h = reuse-masking context stored d t r off h

  -- Without `allow_unmask` in the policy no operation's answer is a restored text, and a new record
  -- holds no replacement to restore from.
  pub answer_without_unmask :
      (context : Context) (m : Moment) (v : Vault c) (d : Direction) (t : Text) (r : Record)
      (spans : List Span)
      → context.policy.allow_unmask ≡ false
      → ((answer u c o settings context m v).0 ≡ ok (d, t, r) → d ≡ masking)
        × (new_record u c o settings context spans m.draws ≡ ok r → r.replacements ≡ [])
  unfolding answer
  answer_without_unmask context m v d t r spans off = (
    λ h. elim (Result-cases (from_vault (get c context.key m.read_at v).0)) [
      | inl (e, lost) ↦ absurd (ground arith)
      | inr (stored, read) ↦
          resolve-masking context m stored (get c context.key m.read_at v).1 d t r off
            (ground arith)
    ],
    λ h.
        let (items, done, kept, hash, original, mode, entities) =
          new_record-Masked u c o settings context spans m.draws r h in
        kept ∙ rw off,
  )
