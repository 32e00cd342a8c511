-- ===== src/Transform/Values.antt =====
-- seif/transform.py: `shape_mask` and `synthetic_value`, the replacement values.
use seif_pii.Base.{
  ℕ, ◌<◌, String, ◌≡◌, refl, List, [], ◌∷◌, ◌++◌, map, arith, length, str_eq, if◌then◌else◌,
  length-append, All,
}
use seif_pii.Text.{Text, Unicode, codes, decimal}

module _ (u : Unicode) where
  -- `"*" if char.isalnum() else char`
  abbrev pub mask_char : ℕ → ℕ
  mask_char c = if u.is_alnum c then b'*' else c

  unfoldable pub shape_mask : Text → Text
  shape_mask value = map mask_char value

  pub length-shape_mask : (value : Text) → length (shape_mask value) ≡ length value
  unfolding shape_mask
  length-shape_mask [] = refl
  length-shape_mask (c ∷ value) = omega (arith, length-shape_mask value)

-- The table of fixed values.
pub synthetic_values : ℕ → List (String × Text)
synthetic_values ordinal =
    ("PERSON", codes "Тестов" ++ (decimal ordinal ++ codes " Макет Макетович"))
    ∷ ("CARDHOLDER", codes "DEMO USER " ++ decimal ordinal)
    ∷ ("EMAIL", codes "person" ++ (decimal ordinal ++ codes "@example.invalid"))
    ∷ ("PHONE", codes "+0 (000) 000-00-00")
    ∷ ("PASSPORT", codes "0000 000000")
    ∷ ("DRIVER_LICENSE", codes "00 00 000000")
    ∷ ("INN", codes "000000000000")
    ∷ ("CARD", codes "0000 0000 0000 0000")
    ∷ ("CVV", codes "***")
    ∷ ("PIN", codes "****")
    ∷ ("ADDRESS", codes "г. Макетный, ул. Тестовая, д. " ++ decimal ordinal)
    ∷ ("CITY", codes "Макетный")
    ∷ ("STREET", codes "Тестовая")
    ∷ ("HOUSE", codes "0")
    ∷ ("APARTMENT", codes "0")
    ∷ ("POSTAL_CODE", codes "000000")
    ∷ ("LOCATION", codes "Макетная область")
    ∷ ("COUNTRY", codes "Тестовая страна")
    ∷ ("CITIZENSHIP", codes "Тестовое гражданство")
    ∷ ("BIRTH_PLACE", codes "г. Макетный")
    ∷ ("PASSPORT_ISSUER", codes "ТЕСТОВЫЙ ОРГАН")
    ∷ ("DEPARTMENT_CODE", codes "000-000")
    ∷ ("BIRTH_DATE", codes "01.01.1900")
    ∷ ("PASSPORT_DATE", codes "01.01.2000")
    ∷ ("FOREIGN_DOCUMENT", codes "DEMO000000")
    ∷ []

-- `values.get(kind, default)`
unfoldable pub value_or : String → Text → List (String × Text) → Text
value_or kind default [] = default
value_or kind default ((k, v) ∷ table) = if str_eq k kind then v else value_or kind default table

unfoldable pub synthetic_value : Unicode → String → Text → ℕ → Text
unfolding synthetic_values value_or shape_mask
synthetic_value u kind value ordinal = value_or kind (shape_mask u value) (synthetic_values ordinal)

value_or-nonempty :
    (kind : String) (default : Text) (table : List (String × Text))
    → 0 < length default
    → All (λ entry. 0 < length entry.1) table
    → 0 < length (value_or kind default table)
unfolding value_or
value_or-nonempty kind default [] d h = d
value_or-nonempty kind default ((k, v) ∷ table) d h =
    ground (arith, value_or-nonempty kind default table d h.1)

synthetic_values-nonempty :
    (ordinal : ℕ) → All (λ entry. 0 < length entry.1) (synthetic_values ordinal)
unfolding synthetic_values
synthetic_values-nonempty ordinal = omega (arith, length-append {0})

pub synthetic_value-nonempty :
    (u : Unicode) (kind : String) (value : Text) (ordinal : ℕ)
    → 0 < length value
    → 0 < length (synthetic_value u kind value ordinal)
synthetic_value-nonempty u kind value ordinal h =
    unfold synthetic_value in
    value_or-nonempty kind (shape_mask u value) (synthetic_values ordinal)
      (omega (arith, length-shape_mask u value)) (synthetic_values-nonempty ordinal)
