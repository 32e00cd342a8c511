-- ===== src/Tests/ConfigTests.antt =====
-- Instances of the theorems on seif/config.py.
use seif_pii.Base.{
  ℕ, ◌-◌, ◌≤◌, ◌≡◌, refl, true, none, some, List, [], ◌∷◌, All, length, if◌then◌else◌,
}
use seif_pii.Text.{Text, codes, ascii, is_ascii_digit, text_eq}
use seif_pii.Config.Sentinels.{
  Readers, parse_sentinels, parse_entries, parse_endpoint, split, drop_front, drop_end, bracketed,
  named, accepted, validate_host, is_label, port_of, number_from, until,
}
use seif_pii.Config.Sentinels.Validity.{IsEndpoint, Distinct, parse_sentinels-IsEndpoint}

abbrev readers : Readers
readers = record {
  is_space = ascii.is_space;
  decimal_value = λ c. if is_ascii_digit c then some (c - b'0') else none;
  is_ipv4 = λ t. true;
  is_ipv6 = λ t. true;
}

abbrev two : List (Text × ℕ)
two = (codes "a.b", 26379) ∷ (codes "::1", 80) ∷ []

parsed : parse_sentinels readers (codes "a.b:26379, [::1]:80") ≡ some two
unfolding parse_sentinels parse_entries parse_endpoint split drop_front drop_end bracketed named
    accepted validate_host is_label port_of number_from until text_eq
parsed = refl

port_zero_test : parse_sentinels readers (codes "a.b:0") ≡ none
unfolding parse_sentinels parse_entries parse_endpoint split drop_front drop_end bracketed named
    accepted validate_host is_label port_of number_from until text_eq
port_zero_test = refl

parse_sentinels-IsEndpoint_example :
    All (IsEndpoint readers) two × Distinct readers two × (length two ≤ 16)
parse_sentinels-IsEndpoint_example =
    parse_sentinels-IsEndpoint readers (codes "a.b:26379, [::1]:80") two parsed
