-- ===== src/App/Boundary.antt =====
-- seif/app.py: `Boundary`, which counts the requests in flight and the bytes that they hold. What runs
-- between two waits is one step of one request; the steps of the requests interleave in any order. The
-- responses are their status and code; the metrics, the capture and the response headers are left out.
pub mod Accounting
use seif_pii.Base.{
  ℕ, zero, suc, ◌+◌, ◌-◌, ◌≤◌, ◌<◌, String, ◌≡◌, refl, Bool, true, false, not, ◌&&◌, ◌||◌, Option,
  none, some, List, [], ◌∷◌, ◌++◌, length, ltb, leb, if◌then◌else◌, get_elem?, replace_at,
  remove_at, take, drop,
}

pub record Bounds : Type 0 where
  pub max_body_bytes : ℕ
  pub max_inflight_body_bytes : ℕ
  pub max_inflight : ℕ

-- `BufferedRequestBody`, the local `chunks` of `_read_post_body` and the flag `overloaded`.
pub record Body : Type 0 where
  pub overloaded : Bool
  pub held_bytes : ℕ
  pub chunks : List ℕ
  pub complete : Bool

-- The counters of the middleware, and the requests between the start of `__call__` and its `finally`.
pub record Middleware : Type 0 where
  pub inflight : ℕ
  pub buffered_bytes : ℕ
  pub active : List Body

-- What `_check_body_size` and `_read_post_body` decide.
pub data Verdict : Type 0 where
  rejected : ℕ → String → Verdict
  accepted more_expected disconnected : Verdict

-- What `receive` gives, or the deadline instead.
pub data Message : Type 0 where
  disconnect deadline : Message
  part : List ℕ → Bool → Message

-- The header `content-length`: absent, not a number from 0 on, or a number.
pub data ContentLength : Type 0 where
  absent malformed : ContentLength
  bytes : ℕ → ContentLength

module _ (b : Bounds) where
  abbrev check_length : Bool → ℕ → ℕ → Verdict
  check_length is_post buffered n =
      if ltb b.max_body_bytes n
      then rejected 413 "too_large"
      else if is_post && ltb (b.max_inflight_body_bytes - buffered) n
      then rejected 429 "body_budget"
      else accepted

  unfoldable pub check_body_size : ContentLength → Bool → ℕ → Verdict
  check_body_size absent is_post buffered = check_length is_post buffered 0
  check_body_size malformed is_post buffered = rejected 400 "invalid_request"
  check_body_size (bytes n) is_post buffered = check_length is_post buffered n

  -- One round of the loop of `_read_post_body`: the verdict, the body, and `buffered_bytes`.
  unfoldable pub read_part : Message → Body → ℕ → Verdict × Body × ℕ
  read_part disconnect body buffered = (disconnected, body, buffered)
  read_part deadline body buffered = (rejected 408 "request_timeout", body, buffered)
  read_part (part chunk more) body buffered =
      if ltb b.max_body_bytes (body.held_bytes + length chunk)
      then (rejected 413 "too_large", body, buffered)
      else if ltb b.max_inflight_body_bytes (buffered + length chunk)
      then (rejected 429 "body_budget", body, buffered)
      else (
        if more then more_expected else accepted,
        record body {
          held_bytes = body.held_bytes + length chunk;
          chunks = body.chunks ++ chunk;
          complete = not more;
        },
        buffered + length chunk,
      )

  abbrev pub new_body : Bool → Body
  new_body overloaded = record {
    overloaded = overloaded;
    held_bytes = 0;
    chunks = [];
    complete = false;
  }

  -- The start of `__call__`.
  unfoldable pub enter : Middleware → Middleware
  enter s = record {
    inflight = s.inflight + 1;
    buffered_bytes = s.buffered_bytes;
    active = new_body (leb b.max_inflight s.inflight) ∷ s.active;
  }

  -- A message for the request at place `i`.
  unfoldable pub receive : ℕ → Message → Body → Middleware → Middleware
  unfolding read_part
  receive i message body s =
      let (verdict, body', buffered) = read_part message body s.buffered_bytes in
      record s { buffered_bytes = buffered; active = replace_at i body' s.active }

  -- The `finally` of `__call__`, which every way out of it passes, for the request at place `i`.
  unfoldable pub leave : ℕ → Body → Middleware → Middleware
  leave i body s = record {
    inflight = s.inflight - 1;
    buffered_bytes = s.buffered_bytes - body.held_bytes;
    active = remove_at i s.active;
  }

  -- A request reads its body if it was not turned away, until it is complete.
  pub data Step : Middleware → Middleware → Type 0 where
    enters : (s : Middleware) → Step s (enter s)
    receives :
        (i : ℕ) (message : Message) (body : Body) (s : Middleware)
        → get_elem? s.active i ≡ some body
        → body.overloaded ≡ false
        → body.complete ≡ false
        → Step s (receive i message body s)
    leaves :
        (i : ℕ) (body : Body) (s : Middleware)
        → get_elem? s.active i ≡ some body
        → Step s (leave i body s)

  abbrev pub idle : Middleware
  idle = record { inflight = 0; buffered_bytes = 0; active = [] }

  pub data Reachable : Middleware → Type 0 where
    starts : Reachable idle
    steps : (s s' : Middleware) → Reachable s → Step s s' → Reachable s'
