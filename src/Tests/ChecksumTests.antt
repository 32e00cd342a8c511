-- ===== src/Tests/ChecksumTests.antt =====
-- Instances of the theorems on the checksums of seif/detector.py.
use seif_pii.Base.{ℕ, ◌≡◌, ◌↔◌, refl, true, false}
use seif_pii.Text.{codes}
use seif_pii.Detector.Checksums.{luhn, luhn_total, luhn_digit, digits, valid_inn, weighted}
use seif_pii.Detector.Checksums.Digits.{luhn_one_digit}
use seif_pii.Detector.Checksums.Inn.{IsInn, valid_inn_iff}

card_test : luhn (codes "4111 1111 1111 1111") ≡ true
unfolding luhn luhn_total luhn_digit digits
card_test = refl

wrong_card_test : luhn (codes "4111 1111 1111 1112") ≡ false
unfolding luhn luhn_total luhn_digit digits
wrong_card_test = refl

luhn_one_digit_example : ◌≡◌ {A = ℕ} b'1' b'1'
unfolding luhn luhn_total luhn_digit digits
luhn_one_digit_example =
    luhn_one_digit (codes "4111 ") (codes "111 1111 1111") b'1' b'1' refl refl refl refl

inn_test : valid_inn (codes "7707083893") ≡ true
unfolding valid_inn weighted
inn_test = refl

wrong_inn_test : valid_inn (codes "7707083894") ≡ false
unfolding valid_inn weighted
wrong_inn_test = refl

long_inn_test :
    (valid_inn (codes "500100732259") ≡ true) × (valid_inn (codes "500100732269") ≡ false)
unfolding valid_inn weighted
long_inn_test = (refl, refl)

valid_inn_iff_example : (valid_inn (codes "7707083893") ≡ true) ↔ IsInn (codes "7707083893")
valid_inn_iff_example = valid_inn_iff (codes "7707083893")
