-- ===== src/Config/Sentinels.antt =====
-- seif/config.py: `_validate_host`, `_parse_endpoint` and `parse_sentinels`. `none` is a `ValueError`. The
-- tests of `ipaddress` and the decimal digits of Unicode, which `\d` and `int` read, are parameters.
pub mod Validity
use seif_pii.Base.{
  ℕ, zero, suc, ◌+◌, ◌*◌, ◌≡◌, refl, Bool, true, false, not, ◌&&◌, ◌||◌, Option, none, some, List,
  [], ◌∷◌, ◌++◌, length, leb, ltb, ◌==◌, if◌then◌else◌, all, any, null,
}
use seif_pii.Base.Maybe.{◌>>=◌}
use seif_pii.Text.{Text, text_eq, is_ascii_digit, is_ascii_alpha}

pub record Readers : Type 0 where
  pub is_space : ℕ → Bool
  pub decimal_value : ℕ → Option ℕ
  pub is_ipv4 : Text → Bool
  pub is_ipv6 : Text → Bool

-- `text.split(separator)`
unfoldable pub split : ℕ → Text → List Text
split separator [] = [] ∷ []
split separator (c ∷ t) = elim (split separator t) [
  | [] ↦ [] ∷ []
  | piece ∷ pieces ↦ if c == separator then [] ∷ piece ∷ pieces else (c ∷ piece) ∷ pieces
]

-- What is left behind the characters of a class at the front, and before those at the end.
unfoldable pub drop_front : (ℕ → Bool) → Text → Text
drop_front p [] = []
drop_front p (c ∷ t) = let rest = drop_front p t in if p c then rest else c ∷ t

unfoldable pub drop_end : (ℕ → Bool) → Text → Text
drop_end p [] = []
drop_end p (c ∷ t) = elim (drop_end p t) [
  | [] ↦ if p c then [] else c ∷ []
  | d ∷ rest ↦ c ∷ d ∷ rest
]

-- The characters up to the first separator, and what is behind it.
unfoldable pub until : ℕ → Text → Option (Text × Text)
until separator [] = none
until separator (c ∷ t) =
    let rest = (until separator t >>= λ r. some (c ∷ r.0, r.1)) in
    if c == separator then some ([], t) else rest

is_label_char : ℕ → Bool
is_label_char c = is_ascii_digit c || is_ascii_alpha c

-- `[A-Za-z0-9](?:[A-Za-z0-9-]{0,61}[A-Za-z0-9])?`, matched in full.
unfoldable pub is_label : Text → Bool
unfolding is_label_char drop_end
is_label t =
    not (null t)
    && leb (length t) 63
    && all (λ c. is_label_char c || c == b'-') t
    && length (drop_front (λ c. c == b'-') t) == length t
    && length (drop_end (λ c. c == b'-') t) == length t

-- A sequence of decimal digits as a number.
unfoldable pub number_from : (ℕ → Option ℕ) → ℕ → Text → Option ℕ
number_from value n [] = some n
number_from value n (c ∷ t) = value c >>= λ d. number_from value (n * 10 + d) t

module _ (r : Readers) where
  unfoldable pub validate_host : Text → Bool → Bool
  unfolding drop_end split is_label
  validate_host host ipv6 =
      if ipv6
      then r.is_ipv6 host
      else leb (length host) 253
        && all (λ label. is_label label) (split b'.' (drop_end (λ c. c == b'.') host))
        && (not (all (λ c. is_ascii_digit c || c == b'.') host) || r.is_ipv4 host)

  -- `\d{1,5}`, matched in full, and `int` of it.
  unfoldable pub port_of : Text → Option ℕ
  unfolding number_from
  port_of t = if null t || ltb 5 (length t) then none else number_from r.decimal_value 0 t

  -- The two branches of the pattern. Neither can match in more than one way.
  unfoldable pub bracketed : Text → Option (Text × ℕ)
  unfolding port_of until
  bracketed [] = none
  bracketed (c ∷ t) =
      let found =
        (until b']' t >>= λ h. elim h.1 [
          | [] ↦ none
          | d ∷ rest ↦
              if not (null h.0) && d == b':' then (port_of rest >>= λ p. some (h.0, p)) else none
        ]) in
      if c == b'[' then found else none

  unfoldable pub named : Text → Option (Text × ℕ)
  unfolding port_of until
  named t = until b':' t >>= λ h. if null h.0 then none else (port_of h.1 >>= λ p. some (h.0, p))

  unfoldable pub accepted : Bool → Text × ℕ → Option (Text × ℕ)
  unfolding validate_host
  accepted ipv6 (host, port) =
      if leb 1 port && leb port 65535 && validate_host host ipv6 then some (host, port) else none

  unfoldable pub parse_endpoint : Text → Option (Text × ℕ)
  unfolding bracketed named accepted
  parse_endpoint t = elim (bracketed t) [
    | some e ↦ accepted true e
    | none ↦ named t >>= accepted false
  ]

  abbrev pub same_address : Text × ℕ → Text × ℕ → Bool
  same_address a b = text_eq a.0 b.0 && a.1 == b.1

  -- The loop over the entries, with the addresses so far.
  unfoldable pub parse_entries : List (Text × ℕ) → List Text → Option (List (Text × ℕ))
  unfolding parse_endpoint drop_front drop_end
  parse_entries addresses [] = some addresses
  parse_entries addresses (entry ∷ entries) = do
    address ← parse_endpoint (drop_front r.is_space (drop_end r.is_space entry))
    (if any (same_address address) addresses
        then none
        else parse_entries (addresses ++ address ∷ []) entries)

  unfoldable pub parse_sentinels : Text → Option (List (Text × ℕ))
  unfolding parse_entries split
  parse_sentinels value =
      let entries = split b',' value in
      if null value
      then some []
      else if ltb 16 (length entries) || ltb 4096 (length value)
      then none
      else parse_entries [] entries
