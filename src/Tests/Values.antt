-- ===== src/Tests/Values.antt =====
-- The theorems on amounts and transactions at concrete inputs.
use moneo_backend.Common.{
  ◌+◌, ◌-◌, ◌<◌, ◌≤◌, ◌≡◌, ◌≢◌, ◌↔◌, refl, true, false, codes, some, ok, arith, ◌>>=◌, int64_mod,
  neg64, ◌^◌,
}
use moneo_backend.Domain.Money.{rub, is_supported_currency}
use moneo_backend.Domain.Money.Decimal.{
  is_digits, value_from, parse_minor_units_decimal, format_minor_units_decimal,
}
use moneo_backend.Domain.Money.Reading.{parse-amount}
use moneo_backend.Domain.Money.RoundTrip.{parse-format}
use moneo_backend.Domain.Money.Grammar.{parse-IsAmount, IsAmount}
use moneo_backend.Domain.Transaction.{
  Transaction, posted, cancelled, new_transaction, normalize_comment, post, cancel,
}
use moneo_backend.Domain.Transaction.Rules.{IsMade, IsAdmissible, new_transaction_iff}
use moneo_backend.Domain.Transaction.Lifecycle.{
  posts, cancels, Steps, here, next, Steps-rank, Steps-IsMade,
}
use moneo_backend.Tests.Data.{lunch, lunch-IsMade}

parse-amount_example : parse_minor_units_decimal (codes "-12.5") rub ≡ ok (neg64 1250)
unfolding is_supported_currency is_digits neg64 value_from
parse-amount_example = parse-amount true (codes "12") (codes "5") rub refl refl refl (omega arith)

parse-format_example :
    (format_minor_units_decimal (int64_mod - 5) rub >>= λ s. parse_minor_units_decimal s rub)
    ≡ ok (int64_mod - 5)
unfolding is_supported_currency
parse-format_example = parse-format (int64_mod - 5) rub refl (omega arith) (omega arith)

twelve : parse_minor_units_decimal (codes "1.2") rub ≡ ok 120
unfolding is_supported_currency is_digits value_from
twelve = parse-amount false (codes "1") (codes "2") rub refl refl refl (omega arith)

parse-IsAmount_example : IsAmount (codes "1.2") × (120 < int64_mod) × (120 ≢ 2 ^ 63)
parse-IsAmount_example = parse-IsAmount (codes "1.2") rub twelve

abbrev commented : Transaction
commented = record lunch { comment = some (codes " lunch ") }

new_transaction_iff_example : (new_transaction commented ≡ ok lunch) ↔ (
    IsAdmissible commented
    × (lunch ≡ record commented { comment = normalize_comment commented.comment }))
new_transaction_iff_example = new_transaction_iff commented lunch

abbrev posted_lunch : Transaction
posted_lunch = record lunch { status = posted; posted_at = some 9; updated_at = 9 }

abbrev cancelled_lunch : Transaction
cancelled_lunch = record posted_lunch {
  status = cancelled;
  cancelled_at = some 11;
  updated_at = 11;
}

life : Steps lunch 2 cancelled_lunch
unfolding post cancel
life = next (next here (posts 9 refl)) (cancels 11 refl)

Steps-rank_example : (0 + 2 ≤ 2) × (2 ≤ 2)
Steps-rank_example = Steps-rank life

Steps-IsMade_example :
    IsMade cancelled_lunch
    × (cancelled_lunch.id ≡ lunch.id)
    × (cancelled_lunch.user_id ≡ lunch.user_id)
    × (cancelled_lunch.transaction_type ≡ lunch.transaction_type)
    × (cancelled_lunch.amount ≡ lunch.amount)
    × (cancelled_lunch.account_from_id ≡ lunch.account_from_id)
    × (cancelled_lunch.account_to_id ≡ lunch.account_to_id)
Steps-IsMade_example = Steps-IsMade life lunch-IsMade
