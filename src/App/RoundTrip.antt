-- ===== src/App/RoundTrip.antt =====
-- Two requests to `/process` under one `payload_id`: the second, with the first one's result, gets the
-- payload of the first back.
use seif_pii.Base.{
  ℕ, ◌+◌, ◌≤◌, ◌<◌, ◌≡◌, refl, sym, subst, ap, ◌∙◌, inl, inr, true, none, some, List, arith, length,
  eq_iff, lt→ltb, Bool-cases,
}
use seif_pii.Base.Result.{Result, ok, raise}
use seif_pii.Text.{Text, Unicode}
use seif_pii.Span.{Span}
use seif_pii.Transform.Restoring.{restore_exact}
use seif_pii.Transform.RoundTrip.{restore_exact-masked}
use seif_pii.Vault.{Cipher, Vault, put_if_absent}
use seif_pii.Vault.Validity.{IsValid, methods-IsValid}
use seif_pii.Vault.View.{view, get-view, view_later}
use seif_pii.Vault.Putting.{put_if_absent-view, full}
use seif_pii.App.Policies.{Settings, select_spans}
use seif_pii.App.Records.{
  process_text, Direction, masking, Record, Context, Outside, Moment, find_spans, new_record, reuse,
  resolve_record, answer, mode_of,
}
use seif_pii.App.Answers.{Forward, made, Made-vault, answer-view, after_read, after_read-IsValid}
use seif_pii.App.Reuse.{
  select_spans-InOrder, new_record-Masked, with_payload, Detects, reuse_masked, reuse_same,
}

pub ok-injective : {E A : Type 0} (x : Result E A) (a b : A) → x ≡ ok a → x ≡ ok b → a ≡ b
ok-injective x a b h k = ground arith

ok_or_raised : {E A : Type 0} (x : Result E A) (a : A) (e : E) → x ≡ ok a → x ≡ raise e → ⊥
ok_or_raised x a e h k = ground arith

module _ (u : Unicode) (c : Cipher Record) (o : Outside) (settings : Settings) where
  -- What the first request left in the vault.
  pub record Left (context : Context) (m : Moment) (v : Vault c) (a : Direction × Text × Record)
      : Type 0 where
    pub r : Record
    pub is_answer : a ≡ (masking, r.masked, r)
    pub valid : IsValid c settings.limits m.later (answer u c o settings context m v).1
    pub seen :
        (t : ℕ)
        → m.now ≤ t
        → t < m.later + settings.limits.ttl
        → view c t (answer u c o settings context m v).1 context.key ≡ some r
    pub spans : List Span
    pub spans_found : find_spans u c o settings m.large_inflight context ≡ ok spans
    pub is_new : new_record u c o settings context spans m.draws ≡ ok r

  pub left :
      (clock : ℕ) (context : Context) (m : Moment) (v : Vault c) (a : Direction × Text × Record)
      → IsValid c settings.limits clock v
      → Forward clock m
      → context.operation ≡ process_text
      → view c m.read_at v context.key ≡ none
      → (answer u c o settings context m v).0 ≡ ok a
      → Left context m v a
  left clock context m v a k (le, le', le'') op new h =
      let v' = after_read u c o settings context m v in
      let k' = after_read-IsValid u c o settings clock context m v k le in
      let run : answer u c o settings context m v
          ≡ resolve_record u c o settings context m none v' =
        answer-view u c o settings clock context m v k le
        ∙ ap (λ seen. resolve_record u c o settings context m seen v') new in
      let mk = made u c o settings context m v' a (ap (λ x. x.0) (sym run) ∙ h) in
      let new' : view c m.now v' context.key ≡ none =
        (get-view c settings.limits clock m.read_at v k le context.key).1 m.now context.key le'
        ∙ view_later c settings.limits clock m.read_at v k le m.now context.key new le' in
      let puts =
        put_if_absent-view c settings.limits m.nonce context.key mk.r m.later m.read_at m.now v' k'
          le' in
      elim (Bool-cases (full c settings.limits m.now v' (c.seal m.nonce context.key mk.r))) [
        | inl busy ↦
            let full_now = (puts.1 new' busy).0 in
            absurd (ok_or_raised _ mk.stored _ mk.put full_now)
        | inr free ↦
            let (stored, later_views) = puts.2 new' free in
            let same : mk.stored ≡ mk.r = ok-injective _ mk.stored mk.r mk.put stored in
            let place : (answer u c o settings context m v).1
                ≡ (put_if_absent c settings.limits m.nonce context.key mk.r m.now m.later v').1 =
              ap (λ x. x.1) run ∙ Made-vault u c o settings context m v' a mk (rw op) in
            record {
              r = mk.r;
              is_answer = subst (λ x. a ≡ (masking, x.masked, x)) same mk.is_answer;
              valid = rw place (
                  (methods-IsValid c settings.limits m.read_at m.now m.later m.nonce context.key
                    mk.r v' k' le' le'').1);
              seen = λ t from until. rw (
                place,
                later_views t context.key from,
                (eq_iff context.key context.key).1 refl,
                lt→ltb t (m.later + settings.limits.ttl) until,
              );
              spans = mk.spans;
              spans_found = mk.spans_found;
              is_new = mk.is_new;
            }
      ]

  -- A later reading of what the first request left.
  read_again :
      (context context' : Context) (m m' : Moment) (v : Vault c) (a : Direction × Text × Record)
      (k : Left context m v a)
      → context'.key ≡ context.key
      → m.now ≤ m.later
      → m.later ≤ m'.read_at
      → m'.read_at < m.later + settings.limits.ttl
      → (answer u c o settings context' m' (answer u c o settings context m v).1).0
        ≡ reuse u c o settings context' k.r
  unfolding resolve_record
  read_again context context' m m' v a k same order from until =
      let v1 = (answer u c o settings context m v).1 in
      let seen : view c m'.read_at v1 context'.key ≡ some k.r =
        rw same (k.seen m'.read_at (omega arith) until) in
      ap (λ x. x.0)
        (answer-view u c o settings m.later context' m' v1 k.valid from
          ∙ ap
              (λ x.
                resolve_record u c o settings context' m' x
                  (after_read u c o settings context' m' v1))
              seen)

  module _ (clock : ℕ) (context : Context) (m m' : Moment) (v : Vault c)
      (a : Direction × Text × Record) (k : IsValid c settings.limits clock v)
      (forward : Forward clock m) (op : context.operation ≡ process_text)
      (new : view c m.read_at v context.key ≡ none)
      (first : (answer u c o settings context m v).0 ≡ ok a) (from : m.later ≤ m'.read_at)
      (until : m'.read_at < m.later + settings.limits.ttl) where
    -- A first request to `/process` under an id gets a masked text. A second request under that id with
    -- that text, before the record expires, gets the payload of the first, if the policy allows the way
    -- back, the detection finds spans in order, and the digest tells the masked text from the payload
    -- where they differ.
    pub process-process :
        context.policy.allow_unmask ≡ true
        → Detects u c o settings context m.large_inflight
        → context.fingerprint ≡ o.digest context.payload
        → (o.digest a.1 ≡ o.digest context.payload → a.1 ≡ context.payload)
        → (d : Direction) × (r : Record) × ((answer u c o settings
              (with_payload u c o settings context a.1)
              m'
              (answer u c o settings context m v).1).0
            ≡ ok (d, context.payload, r))
    process-process allowed detects print apart =
        let l = left clock context m v a k forward op new first in
        let text : a.1 ≡ l.r.masked = ap (λ x. x.1) l.is_answer in
        let (items, done, kept, hash, original, mode_kept, entities) =
          new_record-Masked u c o settings context l.spans m.draws l.r l.is_new in
        let whole : l.r.replacements ≡ items = kept ∙ rw allowed in
        let back : restore_exact l.r.masked l.r.replacements ≡ ok context.payload = rw whole (
          restore_exact-masked u (mode_of context.mode) context.payload m.draws
            (select_spans l.spans context.policy).0 l.r.masked items
            (select_spans-InOrder (length context.payload) l.spans context.policy
              (detects l.spans l.spans_found))
            done) in
        let (d, reused) =
          reuse_masked u c o settings context l.r op allowed hash original back
            (λ same. rw (← text) (apart (rw text (same ∙ print)))) in
        (
          d,
          l.r,
          rw text (
              read_again context (with_payload u c o settings context l.r.masked) m m' v a l refl
                forward.2 from until
              ∙ reused),
        )

    -- A first request to `/process` under an id, repeated with its payload before the record expires,
    -- gets the same result again.
    pub process_again :
        (answer u c o settings context m' (answer u c o settings context m v).1).0 ≡ ok a
    process_again =
        let l = left clock context m v a k forward op new first in
        let (items, done, kept, hash, original, mode_kept, entities) =
          new_record-Masked u c o settings context l.spans m.draws l.r l.is_new in
        read_again context context m m' v a l refl forward.2 from until
        ∙ reuse_same u c o settings context l.r op original
        ∙ ap ok (sym l.is_answer)
