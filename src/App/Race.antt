-- ===== src/App/Race.antt =====
-- Two requests under one id at the same time: both read the vault before either has written.
use seif_pii.Base.{ℕ, ◌+◌, ◌≤◌, ◌<◌, ◌≡◌, sym, ap, ◌∙◌, none, some, arith}
use seif_pii.Base.Result.{ok}
use seif_pii.Text.{Text, Unicode}
use seif_pii.Vault.{Cipher, Vault}
use seif_pii.Vault.Validity.{IsValid}
use seif_pii.Vault.View.{view}
use seif_pii.Vault.Putting.{put_if_absent-view}
use seif_pii.App.Policies.{Settings}
use seif_pii.App.Records.{
  process_text, Direction, masking, Record, Context, Outside, Moment, resolve_record, answer,
}
use seif_pii.App.Answers.{Forward, made}
use seif_pii.App.RoundTrip.{left, ok-injective}

abbrev masked_answer : Record → Direction × Text × Record
masked_answer r = (masking, r.masked, r)

module _ (u : Unicode) (c : Cipher Record) (o : Outside) (settings : Settings) where
  -- A first request to `/process` under an id gets a result. Another one under that id that had read the
  -- vault before, and found nothing, goes on behind it, before the record expires: if it gets a result,
  -- it is the same, whatever it had made of its payload itself.
  pub resolve_record-race :
      (clock : ℕ) (context context' : Context) (m m' : Moment) (v : Vault c)
      (a a' : Direction × Text × Record)
      → IsValid c settings.limits clock v
      → Forward clock m
      → context.operation ≡ process_text
      → context'.key ≡ context.key
      → view c m.read_at v context.key ≡ none
      → (answer u c o settings context m v).0 ≡ ok a
      → m.later ≤ m'.now
      → m'.now < m.later + settings.limits.ttl
      → (resolve_record u c o settings context' m' none (answer u c o settings context m v).1).0
        ≡ ok a'
      → a' ≡ a
  resolve_record-race clock context context' m m' v a a' k forward op same new first from until
        second =
      let l = left u c o settings clock context m v a k forward op new first in
      let v1 = (answer u c o settings context m v).1 in
      let mk = made u c o settings context' m' v1 a' second in
      let seen : view c m'.now v1 context'.key ≡ some l.r =
        rw same (l.seen m'.now (omega (arith, forward.2)) until) in
      let (stored, views) =
        (put_if_absent-view c settings.limits m'.nonce context'.key mk.r m'.later m.later m'.now v1
            l.valid from).0
          l.r seen in
      let winner : mk.stored ≡ l.r = ok-injective _ mk.stored l.r mk.put stored in
      mk.is_answer ∙ ap masked_answer winner ∙ sym l.is_answer
