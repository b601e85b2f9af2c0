-- ===== src/Domain/Money/Reading.antt =====
-- internal/domain/shared/money_decimal.go: the parser on texts of the decimal grammar.
use moneo_backend.Common.{
  ℕ, ◌+◌, ◌-◌, ◌*◌, ◌/◌, ◌<◌, ◌≤◌, ◌≡◌, refl, ap, ◌∙◌, Bool, true, false, List, [], ◌∷◌, ◌++◌, Text,
  length, replicate, all, all-append, leb, if◌then◌else◌, trim_space, is_empty, max_int64, neg64,
  text_eq_refl, arith, inl, inr, Bool-cases, ok, err, ◌>>=◌,
}
use moneo_backend.Domain.Errors.{money_amount_overflow}
use moneo_backend.Domain.Money.{Currency, rub, usd, eur, other, is_supported_currency}
use moneo_backend.Domain.Money.Decimal.{
  is_digit, is_digits, value_from, split_on, contains, has_minus, trim_minus, parse_major,
  add_fraction, parse_parts, parse_minor_units_decimal, currency_fractional_digits,
}
use moneo_backend.Domain.Money.Digits.{
  split_on-part, split_on-last, contains-append, not-contains-digits, is_graphic,
  all-digits-graphic, trim_space-graphic,
}

abbrev pub sign_text : Bool → Text
sign_text true = b'-' ∷ []
sign_text false = []

-- An amount in the decimal grammar: a sign, the major digits, a point and the fraction.
abbrev pub amount_text : Bool → Text → Text → Text
amount_text minus major frac = sign_text minus ++ (major ++ b'.' ∷ frac)

-- The fraction, filled up to two digits.
abbrev pub minor_value : Text → Text → ℕ
minor_value major frac =
    value_from 0 major * 100 + value_from 0 (frac ++ replicate (2 - length frac) b'0')

parse_major_lem :
    (major : Text)
    → is_digits major ≡ true
    → parse_major 2 major ≡ (
        if leb (value_from 0 major) (max_int64 / 100)
        then ok (value_from 0 major * 100)
        else err money_amount_overflow)
unfolding parse_major
parse_major_lem major h = ground arith

add_fraction_lem :
    (minor : ℕ) (frac : Text)
    → is_digits frac ≡ true
    → length frac ≤ 2
    → minor ≤ max_int64
    → value_from 0 (frac ++ replicate (2 - length frac) b'0') < 100
    → is_digits (frac ++ replicate (2 - length frac) b'0') ≡ true
    → add_fraction 2 minor frac ≡ (
        if leb (minor + value_from 0 (frac ++ replicate (2 - length frac) b'0')) max_int64
        then ok (minor + value_from 0 (frac ++ replicate (2 - length frac) b'0'))
        else err money_amount_overflow)
unfolding add_fraction
add_fraction_lem minor frac h l m v d = ground arith

-- A padded fraction is two digits.
padded_fraction :
    (frac : Text)
    → is_digits frac ≡ true
    → length frac ≤ 2
    → let padded = frac ++ replicate (2 - length frac) b'0' in
      (value_from 0 padded < 100) × (is_digits padded ≡ true)
unfolding is_digits value_from
padded_fraction [] h l = cc
padded_fraction (a ∷ []) h l = ground arith
padded_fraction (a ∷ b ∷ []) h l = ground arith
padded_fraction (a ∷ b ∷ c ∷ s) h l = absurd (omega arith)

amount-graphic :
    (minus : Bool) (major frac : Text)
    → all is_digit major ≡ true
    → all is_digit frac ≡ true
    → all is_graphic (amount_text minus major frac) ≡ true
amount-graphic true major frac h k =
    all-append is_graphic major (b'.' ∷ frac) (all-digits-graphic major h)
      (all-digits-graphic frac k)
amount-graphic false major frac h k =
    all-append is_graphic major (b'.' ∷ frac) (all-digits-graphic major h)
      (all-digits-graphic frac k)

amount-no_comma :
    (minus : Bool) (major frac : Text)
    → all is_digit major ≡ true
    → all is_digit frac ≡ true
    → contains b',' (amount_text minus major frac) ≡ false
unfolding contains
amount-no_comma true major frac h k =
    contains-append b',' major (b'.' ∷ frac) (not-contains-digits b',' major (omega arith) h)
      (not-contains-digits b',' frac (omega arith) k)
amount-no_comma false major frac h k =
    contains-append b',' major (b'.' ∷ frac) (not-contains-digits b',' major (omega arith) h)
      (not-contains-digits b',' frac (omega arith) k)

amount-sign :
    (minus : Bool) (major frac : Text)
    → is_digits major ≡ true
    → (has_minus (amount_text minus major frac) ≡ minus)
      × (trim_minus (amount_text minus major frac) ≡ major ++ b'.' ∷ frac)
      × (is_empty (amount_text minus major frac) ≡ false)
unfolding is_digits has_minus trim_minus is_empty
amount-sign true major frac h = (refl, refl, refl)
amount-sign false [] frac h = cc
amount-sign false (c ∷ s) frac h = ground arith

amount-parts :
    (major frac : Text)
    → all is_digit major ≡ true
    → all is_digit frac ≡ true
    → split_on b'.' (major ++ b'.' ∷ frac) ≡ major ∷ frac ∷ []
amount-parts major frac h k =
    split_on-part b'.' major frac (not-contains-digits b'.' major (omega arith) h)
    ∙ ap (λ (ps : List Text). major ∷ ps)
        (split_on-last b'.' frac (not-contains-digits b'.' frac (omega arith) k))

parse_parts_lem :
    (major frac : Text)
    → is_digits major ≡ true
    → is_digits frac ≡ true
    → length frac ≤ 2
    → parse_parts 2 (major ∷ frac ∷ []) ≡ (
        if leb (minor_value major frac) max_int64
        then ok (minor_value major frac)
        else err money_amount_overflow)
unfolding parse_parts
parse_parts_lem major frac h k l =
    let (v, d) = padded_fraction frac k l in
    ground (arith, parse_major_lem major h, add_fraction_lem (value_from 0 major * 100) frac k l)

all-is_digits : (s : Text) → is_digits s ≡ true → all is_digit s ≡ true
unfolding is_digits
all-is_digits s h = ground arith

pub parse_supported :
    (amount : Text) (c : Currency)
    → is_supported_currency c ≡ true
    → is_empty amount ≡ false
    → trim_space amount ≡ amount
    → contains b',' amount ≡ false
    → parse_minor_units_decimal amount c ≡ (
        parse_parts 2 (split_on b'.' (trim_minus amount)) >>= λ minor.
        ok (if has_minus amount then neg64 minor else minor))
unfolding parse_minor_units_decimal is_supported_currency currency_fractional_digits
parse_supported amount rub s e t n = rw (e, t, text_eq_refl amount, n)
parse_supported amount usd s e t n = rw (e, t, text_eq_refl amount, n)
parse_supported amount eur s e t n = rw (e, t, text_eq_refl amount, n)
parse_supported amount (other _) s e t n = cc

-- For a supported currency and an amount with a sign or none, digits, a point and one or two digits,
-- the parser answers its value in minor units, negated under a minus sign, when the absolute value is
-- at most the largest `int64`, and otherwise reports an overflow.
pub parse-amount :
    (minus : Bool) (major frac : Text) (c : Currency)
    → is_supported_currency c ≡ true
    → is_digits major ≡ true
    → is_digits frac ≡ true
    → length frac ≤ 2
    → parse_minor_units_decimal (amount_text minus major frac) c ≡ (
        if leb (minor_value major frac) max_int64
        then ok (if minus then neg64 (minor_value major frac) else minor_value major frac)
        else err money_amount_overflow)
parse-amount minus major frac c s h k l =
    let dm = all-is_digits major h in
    let df = all-is_digits frac k in
    let (m, t, e) = amount-sign minus major frac h in
    parse_supported (amount_text minus major frac) c s e
      (trim_space-graphic (amount_text minus major frac) (amount-graphic minus major frac dm df))
      (amount-no_comma minus major frac dm df)
    ∙ rw (m, t, amount-parts major frac dm df, parse_parts_lem major frac h k l)
        (elim (Bool-cases (leb (minor_value major frac) max_int64)) [
          | inl fits ↦ rw fits
          | inr too_large ↦ rw too_large
        ])
