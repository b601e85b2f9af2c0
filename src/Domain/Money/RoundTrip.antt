-- ===== src/Domain/Money/RoundTrip.antt =====
-- internal/domain/shared/money_decimal.go: the formatter and the parser together.
use moneo_backend.Common.{
  ℕ, zero, suc, ◌+◌, ◌-◌, ◌*◌, ◌^◌, ◌<◌, ◌≤◌, ◌≡◌, ◌≢◌, refl, sym, ap, ◌∙◌, Bool, true, false, [],
  ◌∷◌, ◌++◌, Text, length, length-append, length-replicate, take, drop, replicate, all, all-append,
  all-take, all-drop, take-append-drop, length-drop, leb, if◌then◌else◌, max_int64, int64_mod,
  neg64, is_negative, le→leb, arith, inl, inr, Bool-cases, ok, ◌>>=◌,
}
use moneo_backend.Domain.Money.{Currency, rub, usd, eur, other, is_supported_currency}
use moneo_backend.Domain.Money.Decimal.{
  is_digit, is_digits, value_from, decimal, has_minus, trim_minus, parse_minor_units_decimal,
  format_minor_units_decimal, pad_digits, insert_point, format_int, currency_fractional_digits,
}
use moneo_backend.Domain.Money.Digits.{value_from-append, all-decimal, value_from-decimal}
use moneo_backend.Domain.Money.Reading.{amount_text, minor_value, parse-amount}

-- the absolute value of an `int64`
abbrev magnitude : ℕ → ℕ
magnitude w = if is_negative w then neg64 w else w

value_from-zeros : (n : ℕ) (s : Text) → value_from 0 (replicate n b'0' ++ s) ≡ value_from 0 s
unfolding value_from
value_from-zeros zero s = refl
value_from-zeros (suc n) s = value_from-zeros n s

all-zeros : (n : ℕ) → all is_digit (replicate n b'0') ≡ true
all-zeros zero = refl
all-zeros (suc n) = all-zeros n

value_from-pad : (s : Text) → value_from 0 (pad_digits 2 s) ≡ value_from 0 s
unfolding pad_digits
value_from-pad s = ground (arith, value_from-zeros (3 - length s) s)

all-pad : (s : Text) → all is_digit s ≡ true → all is_digit (pad_digits 2 s) ≡ true
unfolding pad_digits
all-pad s h =
    ground (arith, all-append is_digit (replicate (3 - length s) b'0') s, all-zeros (3 - length s))

length-pad : (s : Text) → 3 ≤ length (pad_digits 2 s)
unfolding pad_digits
length-pad s = elim (Bool-cases (leb (length s) 2)) [
  | inl short ↦
      rw (short, length-append (replicate (3 - length s) b'0') s)
        (omega (arith, length-replicate {A = ℕ} (3 - length s) b'0'))
  | inr long ↦ rw long (ground arith)
]

is_digits-of_all : (s : Text) → all is_digit s ≡ true → 0 < length s → is_digits s ≡ true
unfolding is_digits
is_digits-of_all [] h l = elim l [ ]
is_digits-of_all (c ∷ s) h l = h

length-take : (n : ℕ) (s : Text) → n ≤ length s → length (take n s) ≡ n
length-take zero s h = refl
length-take (suc n) [] h = absurd (omega arith)
length-take (suc n) (c ∷ s) h = ap suc (length-take n s (omega arith))

value_from-two :
    (acc : ℕ) (frac : Text)
    → length frac ≡ 2
    → value_from acc frac ≡ acc * 100 + value_from 0 (frac ++ replicate (2 - length frac) b'0')
unfolding value_from
value_from-two acc [] h = absurd (omega arith)
value_from-two acc (a ∷ []) h = absurd (omega arith)
value_from-two acc (a ∷ b ∷ []) h = omega arith
value_from-two acc (a ∷ b ∷ c ∷ s) h = absurd (omega arith)

-- The two slices of a padded text of digits, and their value.
slices :
    (digits : Text)
    → all is_digit digits ≡ true
    → 3 ≤ length digits
    → let major = take (length digits - 2) digits in
      let frac = drop (length digits - 2) digits in
      (is_digits major ≡ true)
      × (is_digits frac ≡ true)
      × (length frac ≤ 2)
      × (minor_value major frac ≡ value_from 0 digits)
slices digits h l =
    let n = length digits - 2 in
    let lt : length (take n digits) ≡ n = length-take n digits (omega arith) in
    let ld : length (drop n digits) ≡ 2 = omega (arith, length-drop n digits) in
    (
      is_digits-of_all (take n digits) (all-take is_digit n digits h) (omega arith),
      is_digits-of_all (drop n digits) (all-drop is_digit n digits h) (omega arith),
      omega arith,
      sym (value_from-two (value_from 0 (take n digits)) (drop n digits) ld)
          ∙ sym (value_from-append 0 (take n digits) (drop n digits))
          ∙ ap (value_from 0) (take-append-drop n digits),
    )

digits-no_minus : (s : Text) → all is_digit s ≡ true → (has_minus s ≡ false) × (trim_minus s ≡ s)
unfolding has_minus trim_minus
digits-no_minus [] h = (refl, refl)
digits-no_minus (c ∷ s) h = ground arith

format_int-parts :
    (w : ℕ)
    → (has_minus (format_int w) ≡ is_negative w)
      × (trim_minus (format_int w) ≡ decimal 20 (magnitude w))
unfolding format_int has_minus trim_minus
format_int-parts w = elim (Bool-cases (is_negative w)) [
  | inl minus ↦ rw minus (refl, refl)
  | inr plus ↦ rw plus (digits-no_minus (decimal 20 w) (all-decimal 20 w))
]

signed-amount :
    (minus : Bool) (digits : Text)
    → ((if minus then b'-' ∷ [] else []) ++ insert_point 2 digits)
      ≡ amount_text minus (take (length digits - 2) digits) (drop (length digits - 2) digits)
unfolding insert_point
signed-amount true digits = refl
signed-amount false digits = refl

signed_digits : ℕ → Text
signed_digits w =
    (if has_minus (format_int w) then b'-' ∷ [] else [])
    ++ insert_point 2 (pad_digits 2 (trim_minus (format_int w)))

signed_digits-amount :
    (w : ℕ)
    → let digits = pad_digits 2 (decimal 20 (magnitude w)) in
      signed_digits w
      ≡ amount_text
          (is_negative w)
          (take (length digits - 2) digits)
          (drop (length digits - 2) digits)
unfolding signed_digits
signed_digits-amount w =
    let (m, t) = format_int-parts w in
    rw (m, t) (signed-amount (is_negative w) (pad_digits 2 (decimal 20 (magnitude w))))

-- What the formatter writes is in the decimal grammar.
format-amount :
    (w : ℕ) (c : Currency)
    → is_supported_currency c ≡ true
    → let digits = pad_digits 2 (decimal 20 (magnitude w)) in
      format_minor_units_decimal w c
      ≡ ok (
          amount_text
            (is_negative w)
            (take (length digits - 2) digits)
            (drop (length digits - 2) digits))
unfolding format_minor_units_decimal is_supported_currency currency_fractional_digits signed_digits
format-amount w rub h = ap ok (signed_digits-amount w)
format-amount w usd h = ap ok (signed_digits-amount w)
format-amount w eur h = ap ok (signed_digits-amount w)
format-amount w (other _) h = cc

magnitude-bounds :
    (w : ℕ)
    → w < int64_mod
    → w ≢ 2 ^ 63
    → (magnitude w ≤ max_int64) × ((if is_negative w then neg64 (magnitude w) else magnitude w) ≡ w)
unfolding is_negative neg64
magnitude-bounds w lt ne = ground arith

-- Every `int64` but the smallest is read back from the text that the formatter writes for it, in
-- each supported currency; the formatter does not fail.
pub parse-format :
    (w : ℕ) (c : Currency)
    → is_supported_currency c ≡ true
    → w < int64_mod
    → w ≢ 2 ^ 63
    → (format_minor_units_decimal w c >>= λ s. parse_minor_units_decimal s c) ≡ ok w
parse-format w c h lt ne =
    let digits = pad_digits 2 (decimal 20 (magnitude w)) in
    let major = take (length digits - 2) digits in
    let frac = drop (length digits - 2) digits in
    let (fits, back) = magnitude-bounds w lt ne in
    let (dm, df, l, v) =
      slices digits (all-pad (decimal 20 (magnitude w)) (all-decimal 20 (magnitude w)))
        (length-pad (decimal 20 (magnitude w))) in
    let value : minor_value major frac ≡ magnitude w =
      v
      ∙ value_from-pad (decimal 20 (magnitude w))
      ∙ value_from-decimal 20 (magnitude w) (omega arith) in
    rw (format-amount w c h, parse-amount (is_negative w) major frac c h dm df l, value)
      (rw (le→leb (magnitude w) max_int64 fits) (ap ok back))
