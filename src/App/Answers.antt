-- ===== src/App/Answers.antt =====
-- `answer` in terms of what the vault's client sees.
use seif_pii.Base.{ℕ, ◌≤◌, ◌≡◌, inl, inr, false, Option, none, List, arith, Bool-cases}
use seif_pii.Base.Result.{ok, Result-cases}
use seif_pii.Text.{Text, Unicode}
use seif_pii.Span.{Span}
use seif_pii.Vault.{Cipher, Vault, get, put_if_absent}
use seif_pii.Vault.Validity.{IsValid, expire-IsValid}
use seif_pii.Vault.View.{view, get-view}
use seif_pii.App.Policies.{Settings}
use seif_pii.App.Records.{
  is_unmask, Direction, masking, Record, Context, Outside, Moment, find_spans, new_record, accept,
  store_record, detect_and_transform, resolve_record, answer,
}

-- `m` is at readings of the clock that do not go back.
abbrev pub Forward : ℕ → Moment → Type 0
Forward clock m = (clock ≤ m.read_at) × (m.read_at ≤ m.now) × (m.now ≤ m.later)

module _ (u : Unicode) (c : Cipher Record) (o : Outside) (settings : Settings) where
  -- The vault behind the reading.
  abbrev pub after_read : Context → Moment → Vault c → Vault c
  after_read context m v = (get c context.key m.read_at v).1

  answer-get :
      (context : Context) (m : Moment) (v : Vault c) (seen : Option Record)
      → (get c context.key m.read_at v).0 ≡ ok seen
      → answer u c o settings context m v
        ≡ resolve_record u c o settings context m seen (after_read context m v)
  unfolding answer
  answer-get context m v seen h = ground arith

  pub answer-view :
      (clock : ℕ) (context : Context) (m : Moment) (v : Vault c)
      → IsValid c settings.limits clock v
      → clock ≤ m.read_at
      → answer u c o settings context m v
        ≡ resolve_record u c o settings context m
            (view c m.read_at v context.key)
            (after_read context m v)
  answer-view clock context m v k le =
      answer-get context m v (view c m.read_at v context.key)
        (get-view c settings.limits clock m.read_at v k le context.key).0

  pub after_read-IsValid :
      (clock : ℕ) (context : Context) (m : Moment) (v : Vault c)
      → IsValid c settings.limits clock v
      → clock ≤ m.read_at
      → IsValid c settings.limits m.read_at (after_read context m v)
  unfolding get
  after_read-IsValid clock context m v k le =
      expire-IsValid c settings.limits clock m.read_at v k le

  -- A record that was made here, and accepted: what it was made from.
  pub record Made (context : Context) (m : Moment) (v : Vault c) (a : Direction × Text × Record)
      : Type 0 where
    pub spans : List Span
    pub r : Record
    pub stored : Record
    pub spans_found : find_spans u c o settings m.large_inflight context ≡ ok spans
    pub is_new : new_record u c o settings context spans m.draws ≡ ok r
    pub put : (put_if_absent c settings.limits m.nonce context.key r m.now m.later v).0 ≡ ok stored
    pub accepted : accept u c o settings context stored ≡ ok stored
    pub is_answer : a ≡ (masking, stored.masked, stored)

  accept_same : (context : Context) (w a : Record) → accept u c o settings context w ≡ ok a → w ≡ a
  unfolding accept
  accept_same context w a h = ground arith

  stored_cases :
      (context : Context) (m : Moment) (v : Vault c) (r a : Record)
      → (store_record u c o settings context m r v).0 ≡ ok a
      → ((put_if_absent c settings.limits m.nonce context.key r m.now m.later v).0 ≡ ok a)
        × (accept u c o settings context a ≡ ok a)
  unfolding store_record
  stored_cases context m v r a h =
      elim (Result-cases
        (put_if_absent c settings.limits m.nonce context.key r m.now m.later v).0) [
          | inl (e, p) ↦ absurd (ground arith)
          | inr (w, p) ↦
              let taken : accept u c o settings context w ≡ ok a = ground arith in
              let same = accept_same context w a taken in (ground arith, rw same at taken)
        ]

  pub made :
      (context : Context) (m : Moment) (v : Vault c) (a : Direction × Text × Record)
      → (resolve_record u c o settings context m none v).0 ≡ ok a
      → Made context m v a
  unfolding resolve_record detect_and_transform
  made context m v a h = elim (Bool-cases (is_unmask context.operation)) [
    | inl asks ↦ absurd (ground arith)
    | inr other ↦ elim (Result-cases (find_spans u c o settings m.large_inflight context)) [
      | inl (e, p) ↦ absurd (ground arith)
      | inr (spans, p) ↦ elim (Result-cases (new_record u c o settings context spans m.draws)) [
        | inl (e, q) ↦ absurd (ground arith)
        | inr (r, q) ↦ elim (Result-cases (store_record u c o settings context m r v).0) [
          | inl (e, w) ↦ absurd (ground arith)
          | inr (stored, w) ↦
              let (put, accepted) = stored_cases context m v r stored w in
              record {
                spans = spans;
                r = r;
                stored = stored;
                spans_found = p;
                is_new = q;
                put = put;
                accepted = accepted;
                is_answer = ground arith;
              }
        ]
      ]
    ]
  ]

  -- The vault that it leaves.
  pub Made-vault :
      (context : Context) (m : Moment) (v : Vault c) (a : Direction × Text × Record)
      (k : Made context m v a)
      → is_unmask context.operation ≡ false
      → (resolve_record u c o settings context m none v).1
        ≡ (put_if_absent c settings.limits m.nonce context.key k.r m.now m.later v).1
  unfolding resolve_record detect_and_transform store_record
  Made-vault context m v a k other = let found = k.spans_found in let new = k.is_new in ground arith
