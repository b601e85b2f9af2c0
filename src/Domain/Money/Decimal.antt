-- ===== src/Domain/Money/Decimal.antt =====
-- internal/domain/shared/money_decimal.go: amounts as decimal texts. `strconv.ParseInt` and
-- `strconv.FormatInt` are written out for base 10 and 64 bits.
use moneo_backend.Common.{
  ℕ, zero, suc, ◌+◌, ◌-◌, ◌*◌, ◌/◌, ◌%◌, Bool, false, not, ◌&&◌, ◌||◌, List, [], ◌∷◌, ◌++◌, Text,
  length, take, drop, replicate, all, ltb, leb, ◌==◌, if◌then◌else◌, text_eq, trim_space, is_empty,
  int64_mod, max_int64, add64, neg64, is_negative, Result, ok, err, fail_if, ◌>>=◌, ◌>>◌,
}
use moneo_backend.Domain.Errors.{
  Outcome, invalid_money_amount, money_amount_overflow, negative_money_amount,
  too_many_fractional_digits, unsupported_currency,
}
use moneo_backend.Domain.Money.{Currency, rub, usd, eur, other, Money}

-- `currencyFractionalDigits`
unfoldable pub currency_fractional_digits : Currency → Outcome ℕ
currency_fractional_digits rub = ok 2
currency_fractional_digits usd = ok 2
currency_fractional_digits eur = ok 2
currency_fractional_digits (other s) = err unsupported_currency

-- the rounds left of the loop of `int64Pow10`, on its `result`
pow10_loop : ℕ → ℕ → ℕ
pow10_loop zero result = result
pow10_loop (suc rounds) result = pow10_loop rounds ((result * 10) % int64_mod)

-- `int64Pow10`
unfoldable pub int64_pow10 : ℕ → ℕ
unfolding pow10_loop
int64_pow10 power = pow10_loop power 1

abbrev pub is_digit : ℕ → Bool
is_digit c = leb b'0' c && leb c b'9'

-- `isDigits`
unfoldable pub is_digits : Text → Bool
unfolding is_empty
is_digits s = not (is_empty s) && all is_digit s

unfoldable pub value_from : ℕ → Text → ℕ
value_from acc [] = acc
value_from acc (c ∷ s) = value_from (acc * 10 + (c - b'0')) s

pub data IntError : Type 0 where
  err_syntax err_range : IntError

-- `strconv.ParseInt(s, 10, 64)` on a text without a sign
unfoldable pub parse_int : Text → Result IntError ℕ
unfolding is_digits value_from
parse_int s =
    if not (is_digits s)
    then err err_syntax
    else if leb (value_from 0 s) max_int64
    then ok (value_from 0 s)
    else err err_range

-- the translation of its errors at both calls
unfoldable pub parsed_int : Result IntError ℕ → Outcome ℕ
parsed_int (ok n) = ok n
parsed_int (err err_range) = err money_amount_overflow
parsed_int (err err_syntax) = err invalid_money_amount

-- one more character in front of the first part
unfoldable pub cons_first : ℕ → List Text → List Text
cons_first c [] = (c ∷ []) ∷ []
cons_first c (w ∷ ws) = (c ∷ w) ∷ ws

-- `strings.Split(s, sep)` at one character
unfoldable pub split_on : ℕ → Text → List Text
unfolding cons_first
split_on sep [] = [] ∷ []
split_on sep (c ∷ s) =
    let rest = split_on sep s in if c == sep then [] ∷ rest else cons_first c rest

-- `strings.Contains(s, c)` at one character
unfoldable pub contains : ℕ → Text → Bool
contains c [] = false
contains c (d ∷ s) = d == c || contains c s

-- `strings.HasPrefix(s, "-")` and `strings.TrimPrefix(s, "-")`
unfoldable pub has_minus : Text → Bool
has_minus [] = false
has_minus (c ∷ s) = c == b'-'

unfoldable pub trim_minus : Text → Text
trim_minus [] = []
trim_minus (c ∷ s) = if c == b'-' then s else c ∷ s

-- the block under `if len(parts) == 2`, which adds the fraction to the minor units
unfoldable pub add_fraction : ℕ → ℕ → Text → Outcome ℕ
unfolding is_digits is_empty parse_int parsed_int add64
add_fraction digits minor frac = do
  fail_if (is_empty frac || not (is_digits frac)) invalid_money_amount
  fail_if (ltb digits (length frac)) too_many_fractional_digits
  fraction ← parsed_int (parse_int (frac ++ replicate (digits - length frac) b'0'))
  fail_if (ltb (max_int64 - fraction) minor) money_amount_overflow
  ok (add64 minor fraction)

-- `parts[0]` in minor units
unfoldable pub parse_major : ℕ → Text → Outcome ℕ
unfolding is_digits is_empty parse_int parsed_int int64_pow10
parse_major digits part = do
  fail_if (is_empty part) invalid_money_amount
  fail_if (not (is_digits part)) invalid_money_amount
  major ← parsed_int (parse_int part)
  fail_if (ltb (max_int64 / int64_pow10 digits) major) money_amount_overflow
  ok ((major * int64_pow10 digits) % int64_mod)

-- from `strings.Split` on; more than two parts are refused
unfoldable pub parse_parts : ℕ → List Text → Outcome ℕ
unfolding parse_major add_fraction
parse_parts digits [] = err invalid_money_amount
parse_parts digits (whole ∷ []) = parse_major digits whole
parse_parts digits (whole ∷ frac ∷ []) = do
  minor ← parse_major digits whole
  add_fraction digits minor frac
parse_parts digits (whole ∷ frac ∷ more ∷ rest) = err invalid_money_amount

-- `ParseMinorUnitsDecimal`
unfoldable pub parse_minor_units_decimal : Text → Currency → Outcome ℕ
parse_minor_units_decimal amount currency = do
  digits ← currency_fractional_digits currency
  fail_if (is_empty amount || not (text_eq (trim_space amount) amount) || contains b',' amount)
      invalid_money_amount
  minor ← parse_parts digits (split_on b'.' (trim_minus amount))
  ok (if has_minus amount then neg64 minor else minor)

-- `ParseMinorUnitsDecimalNonNegative`
unfoldable pub parse_minor_units_decimal_non_negative : Text → Currency → Outcome ℕ
unfolding is_negative
parse_minor_units_decimal_non_negative amount currency = do
  minor ← parse_minor_units_decimal amount currency
  fail_if (is_negative minor) negative_money_amount
  ok minor

-- `ParseMoneyDecimal`
unfoldable pub parse_money_decimal : Text → Currency → Outcome Money
unfolding parse_minor_units_decimal
parse_money_decimal amount c = do
  minor ← parse_minor_units_decimal amount c
  ok (record { minor_units = minor; currency = c })

-- `ParseMoneyDecimalNonNegative`
unfoldable pub parse_money_decimal_non_negative : Text → Currency → Outcome Money
unfolding parse_minor_units_decimal_non_negative
parse_money_decimal_non_negative amount c = do
  minor ← parse_minor_units_decimal_non_negative amount c
  ok (record { minor_units = minor; currency = c })

-- the decimal digits of a number, with fuel for each digit
unfoldable pub decimal : ℕ → ℕ → Text
decimal zero n = []
decimal (suc fuel) n =
    let higher = decimal fuel (n / 10) in
    if ltb n 10 then (b'0' + n) ∷ [] else higher ++ (b'0' + n % 10) ∷ []

-- `strconv.FormatInt(x, 10)`: an `int64` has at most 19 digits
unfoldable pub format_int : ℕ → Text
format_int x = if is_negative x then b'-' ∷ decimal 20 (neg64 x) else decimal 20 x

-- the digits in front of the slices: zeros are added up to one more than the fraction has
unfoldable pub pad_digits : ℕ → Text → Text
pad_digits fraction digits =
    if leb (length digits) fraction
    then replicate (fraction + 1 - length digits) b'0' ++ digits
    else digits

-- `digits[:len(digits)-fractionalDigits] + "." + digits[len(digits)-fractionalDigits:]`
unfoldable pub insert_point : ℕ → Text → Text
insert_point fraction digits =
    take (length digits - fraction) digits ++ b'.' ∷ drop (length digits - fraction) digits

-- `FormatMinorUnitsDecimal`
unfoldable pub format_minor_units_decimal : ℕ → Currency → Outcome Text
format_minor_units_decimal minor c = do
  fraction ← currency_fractional_digits c
  let digits = format_int minor
  let sign = if has_minus digits then b'-' ∷ [] else []
  ok (sign ++ insert_point fraction (pad_digits fraction (trim_minus digits)))

-- `FormatMoneyDecimal`
unfoldable pub format_money_decimal : Money → Outcome Text
unfolding format_minor_units_decimal
format_money_decimal m = format_minor_units_decimal m.minor_units m.currency
