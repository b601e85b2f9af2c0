-- ===== src/Domain/Identity/Credentials.antt =====
-- internal/domain/identity/credentials.go. Of the Go library's `net/mail`, `strings` and `unicode`,
-- and of PostgreSQL's `lower`, what the code uses is a parameter.
use moneo_backend.Common.{
  ℕ, ◌+◌, ◌≡◌, refl, ◌++◌, arith, Bool-cases, inl, inr, Bool, true, false, not, ◌&&◌, ◌||◌, Text,
  text_eq, trim_space, is_empty, Option, none, some, List, [], ◌∷◌, ok, err, ltb, ◌==◌,
  if◌then◌else◌, fail_if, ◌>>=◌, ◌>>◌,
}
use moneo_backend.Domain.Errors.{
  Outcome, invalid_email, invalid_password, password_confirm_mismatch,
}

pub record Platform : Type 0 where
  -- the address that `mail.ParseAddress` finds, if it does not fail
  pub parse_address : Text → Option Text
  -- `strings.ToLower`
  pub to_lower : Text → Text
  -- `unicode.IsLetter` and `unicode.IsDigit`
  pub is_letter : ℕ → Bool
  pub is_digit : ℕ → Bool
  -- the function `lower` of PostgreSQL
  pub sql_lower : Text → Text

-- `strings.ContainsAny(s, chars)`, for characters that a test knows, and `strings.Contains` of one
abbrev pub contains_where : (ℕ → Bool) → Text → Bool
contains_where p [] = false
contains_where p (c ∷ s) = p c || contains_where p s

-- the tab, the carriage return, the line feed and the space
unfoldable pub is_forbidden : ℕ → Bool
is_forbidden c = c == 0x20 || c == 0x9 || c == 0xd || c == 0xa

prepend_char : ℕ → List Text → List Text
prepend_char c [] = (c ∷ []) ∷ []
prepend_char c (part ∷ parts) = (c ∷ part) ∷ parts

-- `strings.Split` at one character
unfoldable pub split_at : ℕ → Text → List Text
unfolding prepend_char
split_at separator [] = [] ∷ []
split_at separator (c ∷ s) =
    if c == separator then [] ∷ split_at separator s else prepend_char c (split_at separator s)

-- A part before a separator, and the last part.
pub split_at-append :
    (c : ℕ) (s t : Text)
    → contains_where (λ d. d == c) s ≡ false
    → split_at c (s ++ c ∷ t) ≡ s ∷ split_at c t
unfolding split_at
split_at-append c [] t h = ground arith
split_at-append c (d ∷ s) t h = elim (Bool-cases (d == c)) [
  | inl same ↦ absurd (ground arith)
  | inr other ↦ let rest = split_at-append c s t (simp other at h) in simp other (rw rest refl)
]

pub split_at-one :
    (c : ℕ) (s : Text) → contains_where (λ d. d == c) s ≡ false → split_at c s ≡ s ∷ []
unfolding split_at
split_at-one c [] h = refl
split_at-one c (d ∷ s) h = elim (Bool-cases (d == c)) [
  | inl same ↦ absurd (ground arith)
  | inr other ↦ let rest = split_at-one c s (simp other at h) in simp other (rw rest refl)
]

-- the parts that `strings.Split(email, "@")` answers are two, not empty, the second with a dot
unfoldable pub has_two_parts : List Text → Bool
has_two_parts (local ∷ domain ∷ []) =
    not (is_empty local) && not (is_empty domain) && contains_where (λ c. c == 0x2e) domain
has_two_parts _ = false

-- the number of bytes of a text in UTF-8: Go's `len`
unfoldable pub byte_length : Text → ℕ
byte_length [] = 0
byte_length (c ∷ s) =
    (if ltb c 0x80 then 1 else if ltb c 0x800 then 2 else if ltb c 0x10000 then 3 else 4)
    + byte_length s

-- the loop of `ValidatePassword`, by whether a letter and a digit have come; its answer tells
-- whether both have
unfoldable pub scan_password : (ℕ → Bool) → (ℕ → Bool) → Bool → Bool → Text → Bool
scan_password is_letter is_digit has_letter has_digit [] = has_letter && has_digit
scan_password is_letter is_digit has_letter has_digit (c ∷ s) =
    scan_password is_letter is_digit (if is_letter c then true else has_letter)
      (if is_digit c then true else has_digit) s

module _ (platform : Platform) where
  -- `mail.ParseAddress` gives the text itself
  unfoldable pub parses_to_itself : Text → Bool
  parses_to_itself email = elim (platform.parse_address email) [
    | none ↦ false
    | some address ↦ text_eq address email
  ]

  -- `isValidEmail`
  unfoldable pub is_valid_email : Text → Bool
  is_valid_email email =
      not (is_empty email || contains_where is_forbidden email)
      && parses_to_itself email
      && has_two_parts (split_at 0x40 email)

  -- `NormalizeEmail`
  unfoldable pub normalize_email : Text → Outcome Text
  normalize_email email =
      let trimmed = trim_space email in
      if is_valid_email trimmed then ok (platform.to_lower trimmed) else err invalid_email

  -- `ValidatePassword`
  unfoldable pub validate_password : Text → Outcome (Unit {0})
  validate_password password = do
    fail_if (ltb (byte_length password) 8) invalid_password
    fail_if (not (scan_password platform.is_letter platform.is_digit false false password))
        invalid_password

  -- `RegisterCredentials.Validate`
  unfoldable pub validate_registration : Text → Text → Text → Outcome Text
  validate_registration email password confirm = do
    normalized ← normalize_email email
    validate_password password
    fail_if (not (text_eq password confirm)) password_confirm_mismatch
    ok normalized

  -- `LoginCredentials.Validate`
  unfoldable pub validate_login : Text → Text → Outcome Text
  validate_login email password = do
    normalized ← normalize_email email
    validate_password password
    ok normalized
