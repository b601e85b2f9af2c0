-- ===== src/Domain/Money.antt =====
-- internal/domain/shared: currency.go and money.go. The amount is an `int64` bit pattern.
pub mod Decimal
pub mod Digits
pub mod Reading
pub mod RoundTrip
pub mod Grammar
use moneo_backend.Common.{
  ℕ, Bool, true, false, Text, codes, text_eq, text_eq_iff, add64, neg64, ok, err, if◌then◌else◌,
  ◌≡◌, refl, arith,
}
use moneo_backend.Domain.Errors.{Outcome, unsupported_currency, currency_mismatch}

-- `Currency` is a string type: `other` holds every text that is not one of the constants.
pub data Currency : Type 0 where
  rub usd eur : Currency
  other : Text → Currency

-- `Currency(value)`
unfoldable pub currency_of : Text → Currency
unfolding text_eq
currency_of s =
    if text_eq s (codes "RUB")
    then rub
    else if text_eq s (codes "USD")
    then usd
    else if text_eq s (codes "EUR")
    then eur
    else other s

-- `string(c)`
unfoldable pub currency_text : Currency → Text
currency_text rub = codes "RUB"
currency_text usd = codes "USD"
currency_text eur = codes "EUR"
currency_text (other s) = s

-- `Currency.IsSupported`
unfoldable pub is_supported_currency : Currency → Bool
is_supported_currency rub = true
is_supported_currency usd = true
is_supported_currency eur = true
is_supported_currency (other s) = false

-- `a == b` on currencies
unfoldable pub same_currency : Currency → Currency → Bool
same_currency a b = text_eq (currency_text a) (currency_text b)

-- `ParseCurrency`
unfoldable pub parse_currency : Text → Outcome Currency
unfolding currency_of is_supported_currency
parse_currency value =
    let c = currency_of value in if is_supported_currency c then ok c else err unsupported_currency

pub record Money : Type 0 where
  pub minor_units : ℕ
  pub currency : Currency

-- `Money.Add`
unfoldable pub add_money : Money → Money → Outcome Money
unfolding add64
add_money m other_money =
    if same_currency m.currency other_money.currency
    then ok (record {
      minor_units = add64 m.minor_units other_money.minor_units;
      currency = m.currency;
    })
    else err currency_mismatch

-- `Money.Negate`
unfoldable pub negate : Money → Money
unfolding neg64
negate m = record m { minor_units = neg64 m.minor_units }
