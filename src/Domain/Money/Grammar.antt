-- ===== src/Domain/Money/Grammar.antt =====
-- internal/domain/shared/money_decimal.go: the texts that the parser accepts, and their values.
use moneo_backend.Common.{
  ℕ, ◌^◌, ◌<◌, ◌≤◌, ◌≡◌, ◌≢◌, refl, sym, Bool, true, false, List, [], ◌∷◌, ◌++◌, Text, length, ◌==◌,
  if◌then◌else◌, max_int64, int64_mod, neg64, arith, inl, inr, Bool-cases, ok, >>=-eq-ok,
}
use moneo_backend.Domain.Money.{Currency, rub, usd, eur, other}
use moneo_backend.Domain.Money.Decimal.{
  is_digits, cons_first, split_on, has_minus, trim_minus, parse_major, add_fraction, parse_parts,
  parse_minor_units_decimal, currency_fractional_digits,
}

add_fraction-le :
    (minor : ℕ) (frac : Text) {w : ℕ}
    → add_fraction 2 minor frac ≡ ok w
    → (w ≤ max_int64) × (is_digits frac ≡ true) × (length frac ≤ 2)
unfolding add_fraction
add_fraction-le minor frac h = ground arith

parse_major-le :
    (major : Text) {w : ℕ} → parse_major 2 major ≡ ok w → (w ≤ max_int64) × (is_digits major ≡ true)
unfolding parse_major
parse_major-le major h = ground arith

-- `strings.Join(parts, sep)` at one character
join : ℕ → List Text → Text
join sep [] = []
join sep (w ∷ []) = w
join sep (w ∷ v ∷ ws) = w ++ sep ∷ join sep (v ∷ ws)

-- One more character in front, or one more separator.
join-split_step :
    (sep c : ℕ) (s : Text) (parts : List Text)
    → join sep parts ≡ s
    → parts ≢ []
    → join sep (let rest = parts in if c == sep then [] ∷ rest else cons_first c rest) ≡ c ∷ s
unfolding join cons_first
join-split_step sep c s [] h ne = absurd (ne refl)
join-split_step sep c s (w ∷ []) h ne = ground arith
join-split_step sep c s (w ∷ v ∷ ws) h ne = ground arith

cons_first-ne-nil :
    (b : Bool) (c : ℕ) (parts : List Text)
    → (let rest = parts in if b then [] ∷ rest else cons_first c rest) ≢ []
unfolding cons_first
cons_first-ne-nil true c parts = λ e. cc
cons_first-ne-nil false c [] = λ e. cc
cons_first-ne-nil false c (w ∷ ws) = λ e. cc

split_on-ne-nil : (sep : ℕ) (s : Text) → split_on sep s ≢ []
unfolding split_on
split_on-ne-nil sep [] = λ e. cc
split_on-ne-nil sep (c ∷ s) = cons_first-ne-nil (c == sep) c (split_on sep s)

join-split_on : (sep : ℕ) (s : Text) → join sep (split_on sep s) ≡ s
unfolding split_on join
join-split_on sep [] = refl
join-split_on sep (c ∷ s) =
    join-split_step sep c s (split_on sep s) (join-split_on sep s) (split_on-ne-nil sep s)

-- The shape of a text that `parse_parts` accepts in front of the sign.
pub data IsUnsigned (s : Text) : Type 0 where
  whole : is_digits s ≡ true → IsUnsigned s
  pointed :
      (major frac : Text)
      → is_digits major ≡ true
      → is_digits frac ≡ true
      → length frac ≤ 2
      → s ≡ major ++ b'.' ∷ frac
      → IsUnsigned s

parse_parts-IsUnsigned :
    (s : Text) (parts : List Text) {w : ℕ}
    → join b'.' parts ≡ s
    → parse_parts 2 parts ≡ ok w
    → IsUnsigned s × (w ≤ max_int64)
unfolding parse_parts join
parse_parts-IsUnsigned s [] j h = cc
parse_parts-IsUnsigned s (m ∷ []) j h = let (le, d) = parse_major-le m h in (whole (rw (← j) d), le)
parse_parts-IsUnsigned s (m ∷ f ∷ []) j h =
    let (minor, hm, hf) = >>=-eq-ok (parse_major 2 m) (λ minor. add_fraction 2 minor f) h in
    let (le, df, l) = add_fraction-le minor f hf in
    (pointed m f (parse_major-le m hm).1 df l (sym j), le)
parse_parts-IsUnsigned s (m ∷ f ∷ g ∷ rest) j h = cc

-- An amount: digits, or digits, a point and one or two digits; a minus sign may stand in front.
pub data IsAmount (s : Text) : Type 0 where
  plus : IsUnsigned s → IsAmount s
  minus : (t : Text) → s ≡ b'-' ∷ t → IsUnsigned t → IsAmount s

IsAmount-sign : (s : Text) → IsUnsigned (trim_minus s) → IsAmount s
unfolding trim_minus
IsAmount-sign [] u = plus u
IsAmount-sign (c ∷ s) u = elim (Bool-cases (c == b'-')) [
  | inl e ↦ minus s (ground arith) (rw e at u)
  | inr e ↦ plus (rw e at u)
]

parse-cases :
    (s : Text) (c : Currency) {w : ℕ}
    → parse_minor_units_decimal s c ≡ ok w
    → (v : ℕ) × (parse_parts 2 (split_on b'.' (trim_minus s)) ≡ ok v)
      × (w ≡ (if has_minus s then neg64 v else v))
unfolding parse_minor_units_decimal currency_fractional_digits
parse-cases s rub h = ground arith
parse-cases s usd h = ground arith
parse-cases s eur h = ground arith
parse-cases s (other t) h = cc

-- Whatever the parser accepts is in the grammar of amounts, and its value is an `int64` that is
-- not the smallest one, so that negation never wraps.
pub parse-IsAmount :
    (s : Text) (c : Currency) {w : ℕ}
    → parse_minor_units_decimal s c ≡ ok w
    → IsAmount s × (w < int64_mod) × (w ≢ 2 ^ 63)
unfolding neg64
parse-IsAmount s c h =
    let (v, hp, hw) = parse-cases s c h in
    let (u, le) =
      parse_parts-IsUnsigned (trim_minus s) (split_on b'.' (trim_minus s))
        (join-split_on b'.' (trim_minus s)) hp in
    (IsAmount-sign s u, ground arith, ground arith)
