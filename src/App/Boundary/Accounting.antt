-- ===== src/App/Boundary/Accounting.antt =====
-- The counters of `Boundary` in every reachable state.
use seif_pii.Base.{
  replace_at, remove_at, All-replace_at, All-remove_at, All-get_elem?, ℕ, zero, suc, ◌+◌, ◌≤◌, ◌≡◌,
  refl, inl, inr, some, List, [], ◌∷◌, arith, length, length-append, ltb, if◌then◌else◌, get_elem?,
  All, Bool-cases,
}
use seif_pii.App.Boundary.{
  Bounds, Body, Middleware, Message, disconnect, deadline, part, read_part, enter, receive, leave,
  Step, enters, receives, leaves, Reachable, starts, steps,
}

-- The bytes that requests hold, and the requests that were not turned away.
unfoldable pub held : List Body → ℕ
held [] = 0
held (x ∷ xs) = x.held_bytes + held xs

unfoldable pub admitted : List Body → ℕ
admitted [] = 0
admitted (x ∷ xs) = if x.overloaded then admitted xs else suc (admitted xs)

admitted-le : (xs : List Body) → admitted xs ≤ length xs
unfolding admitted
admitted-le [] = omega arith
admitted-le (x ∷ xs) = ground (arith, admitted-le xs)

replace_at-counts :
    (i : ℕ) (xs : List Body) (x y : Body)
    → get_elem? xs i ≡ some x
    → x.overloaded ≡ y.overloaded
    → (held (replace_at i y xs) + x.held_bytes ≡ held xs + y.held_bytes)
      × (length (replace_at i y xs) ≡ length xs)
      × (admitted (replace_at i y xs) ≡ admitted xs)
unfolding held admitted
replace_at-counts i [] x y h e = absurd (ground arith)
replace_at-counts zero (z ∷ xs) x y h e = ground arith
replace_at-counts (suc i) (z ∷ xs) x y h e = ground (arith, replace_at-counts i xs x y h e)

remove_at-counts :
    (i : ℕ) (xs : List Body) (x : Body)
    → get_elem? xs i ≡ some x
    → (held (remove_at i xs) + x.held_bytes ≡ held xs)
      × (length (remove_at i xs) + 1 ≡ length xs)
      × (admitted (remove_at i xs) ≤ admitted xs)
unfolding held admitted
remove_at-counts i [] x h = absurd (ground arith)
remove_at-counts zero (z ∷ xs) x h = ground arith
remove_at-counts (suc i) (z ∷ xs) x h = ground (arith, remove_at-counts i xs x h)

module _ (b : Bounds) where
  -- A body holds what it counts, no more than is allowed.
  pub record IsCounted (body : Body) : Type 0 where
    pub exact : body.held_bytes ≡ length body.chunks
    pub small : body.held_bytes ≤ b.max_body_bytes

  pub record IsAccounted (s : Middleware) : Type 0 where
    pub counted : s.inflight ≡ length s.active
    pub buffered : s.buffered_bytes ≡ held s.active
    pub within : s.buffered_bytes ≤ b.max_inflight_body_bytes
    pub let_in : admitted s.active ≤ b.max_inflight
    pub bodies : All IsCounted s.active

  -- One part: the body stays counted, and what it takes is added to the total within its bound.
  read_part-IsCounted :
      (message : Message) (body : Body) (buffered : ℕ)
      → IsCounted body
      → buffered ≤ b.max_inflight_body_bytes
      → IsCounted (read_part b message body buffered).1
        × ((read_part b message body buffered).2 + body.held_bytes
            ≡ buffered + (read_part b message body buffered).1.held_bytes)
        × ((read_part b message body buffered).2 ≤ b.max_inflight_body_bytes)
        × (body.overloaded ≡ (read_part b message body buffered).1.overloaded)
  unfolding read_part
  read_part-IsCounted disconnect body buffered k h = (k, refl, h, refl)
  read_part-IsCounted deadline body buffered k h = (k, refl, h, refl)
  read_part-IsCounted (part chunk more) body buffered k h =
      elim (Bool-cases (ltb b.max_body_bytes (body.held_bytes + length chunk))) [
        | inl large ↦ rw large (k, refl, h, refl)
        | inr small ↦ elim (Bool-cases (ltb b.max_inflight_body_bytes (buffered + length chunk))) [
          | inl busy ↦ rw (small, busy) (k, refl, h, refl)
          | inr free ↦
              rw (small, free)
                (
                  record {
                    exact = omega (arith, length-append body.chunks chunk, k.exact);
                    small = ground arith;
                  },
                  omega arith,
                  ground arith,
                  refl,
                )
        ]
      ]

  Step-IsAccounted : (s s' : Middleware) → IsAccounted s → Step b s s' → IsAccounted s'
  unfolding enter receive leave held admitted
  Step-IsAccounted _ _ k (enters s) = record {
    counted = omega (arith, k.counted);
    buffered = omega (arith, k.buffered);
    within = k.within;
    let_in = ground (arith, admitted-le s.active, k.counted, k.let_in);
    bodies = (record { exact = refl; small = omega arith }, k.bodies);
  }
  Step-IsAccounted _ _ k (receives i message body s there let_in more) =
      let (body_ok, total, within, same) =
        read_part-IsCounted message body s.buffered_bytes
          (All-get_elem? IsCounted i s.active body k.bodies there) k.within in
      let (held', size, admitted') =
        replace_at-counts i s.active body (read_part b message body s.buffered_bytes).1 there
          same in
      record {
        counted = omega (arith, k.counted);
        buffered = omega (arith, k.buffered);
        within = within;
        let_in = omega (arith, k.let_in);
        bodies = All-replace_at IsCounted i s.active _ k.bodies body_ok;
      }
  Step-IsAccounted _ _ k (leaves i body s there) =
      let (bytes, size, fewer) = remove_at-counts i s.active body there in
      record {
        counted = omega (arith, k.counted);
        buffered = omega (arith, k.buffered);
        within = omega (arith, k.within);
        let_in = omega (arith, k.let_in);
        bodies = All-remove_at IsCounted i s.active k.bodies;
      }

  -- In every reachable state `inflight` is the number of requests between their start and their
  -- `finally`, `buffered_bytes` is the sum of what they hold and within `max_inflight_body_bytes`, at
  -- most `max_inflight` of them were let in, and each holds the bytes it has read, at most
  -- `max_body_bytes`.
  pub Reachable-IsAccounted : (s : Middleware) → Reachable b s → IsAccounted s
  unfolding held admitted
  Reachable-IsAccounted _ starts = record {
    counted = refl;
    buffered = refl;
    within = omega arith;
    let_in = omega arith;
    bodies = tt;
  }
  Reachable-IsAccounted _ (steps s s' r step) =
      Step-IsAccounted s s' (Reachable-IsAccounted s r) step
