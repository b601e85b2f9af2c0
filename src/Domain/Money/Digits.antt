-- ===== src/Domain/Money/Digits.antt =====
-- Lemmas on texts of digits: their value, and how they are split, trimmed and searched.
use native.Mathlib.Nat.{pow-suc}
use moneo_backend.Common.{
  ℕ, zero, suc, ◌+◌, ◌-◌, ◌*◌, ◌/◌, ◌%◌, ◌^◌, ◌<◌, ◌≡◌, refl, Bool, true, false, ◌&&◌, [], ◌∷◌,
  ◌++◌, Text, all, all-append, ltb, trim_space, trim_left, trim_right, is_space, is_empty, arith,
  inl, inr, Bool-cases,
}
use moneo_backend.Domain.Money.Decimal.{is_digit, value_from, split_on, contains, decimal}

pub value_from-append :
    (acc : ℕ) (xs ys : Text) → value_from acc (xs ++ ys) ≡ value_from (value_from acc xs) ys
unfolding value_from
value_from-append acc [] ys = refl
value_from-append acc (x ∷ xs) ys = value_from-append (acc * 10 + (x - b'0')) xs ys

pub all-decimal : (fuel n : ℕ) → all is_digit (decimal fuel n) ≡ true
unfolding decimal
all-decimal zero n = refl
all-decimal (suc fuel) n = ground (
  arith,
  all-decimal fuel (n / 10),
  all-append is_digit (decimal fuel (n / 10)) ((b'0' + n % 10) ∷ []),
)

-- The digits of a number have its value.
pub value_from-decimal : (fuel n : ℕ) → n < 10 ^ fuel → value_from 0 (decimal fuel n) ≡ n
unfolding decimal value_from
value_from-decimal zero n h = omega arith
value_from-decimal (suc fuel) n h = elim (Bool-cases (ltb n 10)) [
  | inl small ↦ rw small (omega arith)
  | inr large ↦
      rw (large, value_from-append 0 (decimal fuel (n / 10)) ((b'0' + n % 10) ∷ []))
        (omega (arith, value_from-decimal fuel (n / 10) (omega (arith, pow-suc 10 fuel))))
]

is_empty-snoc : (xs : Text) (c : ℕ) → is_empty (xs ++ c ∷ []) ≡ false
unfolding is_empty
is_empty-snoc [] c = refl
is_empty-snoc (x ∷ xs) c = refl

pub decimal-ne-nil : (fuel n : ℕ) → is_empty (decimal (suc fuel) n) ≡ false
unfolding decimal
decimal-ne-nil fuel n = elim (Bool-cases (ltb n 10)) [
  | inl small ↦ rw small (is_empty-snoc [] (b'0' + n))
  | inr large ↦ rw large (is_empty-snoc (decimal fuel (n / 10)) (b'0' + n % 10))
]

pub split_on-part :
    (sep : ℕ) (xs ys : Text)
    → contains sep xs ≡ false
    → split_on sep (xs ++ sep ∷ ys) ≡ xs ∷ split_on sep ys
unfolding split_on contains
split_on-part sep [] ys h = ground arith
split_on-part sep (x ∷ xs) ys h = ground (arith, split_on-part sep xs ys)

pub split_on-last : (sep : ℕ) (xs : Text) → contains sep xs ≡ false → split_on sep xs ≡ xs ∷ []
unfolding split_on contains
split_on-last sep [] h = refl
split_on-last sep (x ∷ xs) h = ground (arith, split_on-last sep xs)

pub contains-append :
    (c : ℕ) (xs ys : Text)
    → contains c xs ≡ false
    → contains c ys ≡ false
    → contains c (xs ++ ys) ≡ false
unfolding contains
contains-append c [] ys h k = k
contains-append c (x ∷ xs) ys h k = ground (arith, contains-append c xs ys)

-- No digit is a point, a comma or a minus sign.
pub not-contains-digits :
    (c : ℕ) (xs : Text) → c < b'0' → all is_digit xs ≡ true → contains c xs ≡ false
unfolding contains
not-contains-digits c [] lt h = refl
not-contains-digits c (x ∷ xs) lt h = ground (arith, not-contains-digits c xs lt)

-- the characters of an amount
abbrev pub is_graphic : ℕ → Bool
is_graphic c = ltb 0x20 c && ltb c 0x7f

pub all-digits-graphic : (xs : Text) → all is_digit xs ≡ true → all is_graphic xs ≡ true
all-digits-graphic [] h = refl
all-digits-graphic (x ∷ xs) h = ground (arith, all-digits-graphic xs)

graphic-not-space : (c : ℕ) → is_graphic c ≡ true → is_space c ≡ false
unfolding is_space
graphic-not-space c h = ground arith

trim_left-graphic : (xs : Text) → all is_graphic xs ≡ true → trim_left xs ≡ xs
unfolding trim_left
trim_left-graphic [] h = refl
trim_left-graphic (x ∷ xs) h = ground (arith, graphic-not-space x)

trim_right-graphic : (xs : Text) → all is_graphic xs ≡ true → trim_right xs ≡ xs
unfolding trim_right
trim_right-graphic [] h = refl
trim_right-graphic (x ∷ xs) h = ground (arith, graphic-not-space x, trim_right-graphic xs)

pub trim_space-graphic : (xs : Text) → all is_graphic xs ≡ true → trim_space xs ≡ xs
unfolding trim_space
trim_space-graphic xs h = rw (trim_left-graphic xs h) (trim_right-graphic xs h)
