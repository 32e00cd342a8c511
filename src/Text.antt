-- ===== src/Text.antt =====
-- Python's `str` as a list of code points, with the operations of the standard library that the
-- program uses on it. The Unicode database is a parameter: `Unicode` has one test for each
-- character class that the program asks for.
use Prim.Native.Char.{code}
use seif_pii.Base.{
  ℕ, zero, suc, ◌+◌, ◌/◌, ◌%◌, String, ◌≡◌, refl, Bool, true, false, ◌&&◌, ◌||◌, List, [], ◌∷◌,
  ◌++◌, arith, leb, ltb, ◌==◌, if◌then◌else◌, null,
}

abbrev pub Text : Type 0
Text = List ℕ

abbrev pub codes : String → Text
codes String.[] = []
codes (String.◌∷◌ c s) = code c ∷ codes s

-- `str.isalnum`, `str.isspace`, `str.isalpha` of one character, and category M of `unicodedata`.
pub record Unicode : Type 0 where
  pub is_alnum : ℕ → Bool
  pub is_space : ℕ → Bool
  pub is_alpha : ℕ → Bool
  pub is_mark : ℕ → Bool

-- The classes as they are on ASCII, for tests.
abbrev pub is_ascii_digit : ℕ → Bool
is_ascii_digit c = leb b'0' c && leb c b'9'

abbrev pub is_ascii_alpha : ℕ → Bool
is_ascii_alpha c = leb b'a' c && leb c b'z' || leb b'A' c && leb c b'Z'

abbrev pub ascii : Unicode
ascii = record {
  is_alnum = λ c. is_ascii_digit c || is_ascii_alpha c;
  is_space = λ c. c == 32 || leb 9 c && leb c 13;
  is_alpha = λ c. is_ascii_alpha c;
  is_mark = λ c. false;
}

unfoldable pub text_eq : Text → Text → Bool
text_eq [] [] = true
text_eq [] (y ∷ ys) = false
text_eq (x ∷ xs) [] = false
text_eq (x ∷ xs) (y ∷ ys) = x == y && text_eq xs ys

pub text_eq_refl : (xs : Text) → text_eq xs xs ≡ true
unfolding text_eq
text_eq_refl [] = refl
text_eq_refl (x ∷ xs) = ground (arith, text_eq_refl xs)

pub text_eq_sound : (xs ys : Text) → text_eq xs ys ≡ true → xs ≡ ys
unfolding text_eq
text_eq_sound [] [] h = refl
text_eq_sound [] (y ∷ ys) h = ground arith
text_eq_sound (x ∷ xs) [] h = ground arith
text_eq_sound (x ∷ xs) (y ∷ ys) h = ground (arith, text_eq_sound xs ys)

-- `text.startswith(p)`
unfoldable pub is_prefix : Text → Text → Bool
is_prefix [] t = true
is_prefix (x ∷ p) [] = false
is_prefix (x ∷ p) (y ∷ t) = x == y && is_prefix p t

-- `p in text`
unfoldable pub contains : Text → Text → Bool
unfolding is_prefix
contains p [] = null p
contains p (y ∷ t) = is_prefix p (y ∷ t) || contains p t

-- `"".join(parts)`
abbrev pub join : List Text → Text
join [] = []
join (p ∷ ps) = p ++ join ps

-- `str(n)`
decimal_from : ℕ → ℕ → Text
decimal_from zero n = []
decimal_from (suc fuel) n =
    let front = decimal_from fuel (n / 10) in
    (if ltb n 10 then [] else front) ++ ((b'0' + n % 10) ∷ [])

unfoldable pub decimal : ℕ → Text
unfolding decimal_from
decimal n = decimal_from (suc n) n

decimal_test : decimal 2050 ≡ codes "2050"
unfolding decimal
decimal_test = refl
