-- ===== src/App/Listing/Order.antt =====
-- internal/app/accounting/list_accounts.go: the order of the accounts.
use mathlib.Core.List.{Perm}
use mathlib.Core.List.Perm
use moneo_backend.Common.{
  ℕ, ◌+◌, ◌^◌, ◌%◌, ◌≤◌, int64_mod, text_ltb, ◌≡◌, true, false, Text, text_ltb_irrefl,
  text_ltb_asym, text_ltb_negtrans, List, [], ◌∷◌, arith, Bool-cases, inl, inr,
}
use moneo_backend.Domain.Account.{Account}
use moneo_backend.App.Listing.{
  AccountsSort, created_at_desc, name_asc, balance_desc, key_before, is_before, insert_account_by,
  sort_accounts,
}

module _ (to_lower : Text → Text) (sort : AccountsSort) where
  -- None of the accounts comes before `a`.
  abbrev pub NoneBefore : Account → List Account → Type 0
  NoneBefore a [] = Unit
  NoneBefore a (b ∷ accounts) = (is_before to_lower sort b a ≡ false) × NoneBefore a accounts

  -- No account comes before one that stands in front of it.
  abbrev pub IsOrdered : List Account → Type 0
  IsOrdered [] = Unit
  IsOrdered (a ∷ accounts) = NoneBefore a accounts × IsOrdered accounts

module _ (to_lower : Text → Text) where
  key_asym :
      (sort : AccountsSort) (l r : Account)
      → key_before to_lower sort l r ≡ true
      → key_before to_lower sort r l ≡ false
  unfolding key_before
  key_asym name_asc l r h = text_ltb_asym (to_lower l.name) (to_lower r.name) h
  key_asym balance_desc l r h = ground arith
  key_asym created_at_desc l r h = ground arith

  key_negtrans :
      (sort : AccountsSort) (x y z : Account)
      → key_before to_lower sort x y ≡ false
      → key_before to_lower sort y z ≡ false
      → key_before to_lower sort x z ≡ false
  unfolding key_before
  key_negtrans name_asc x y z h k =
      text_ltb_negtrans (to_lower x.name) (to_lower y.name) (to_lower z.name) h k
  key_negtrans balance_desc x y z h k = ground arith
  key_negtrans created_at_desc x y z h k = ground arith

  pub before_asym :
      (sort : AccountsSort) (l r : Account)
      → is_before to_lower sort l r ≡ true
      → is_before to_lower sort r l ≡ false
  unfolding is_before
  before_asym sort l r h =
      ground (arith, key_asym sort l r, key_asym sort r l, text_ltb_asym l.id r.id)

  before_negtrans :
      (sort : AccountsSort) (x y z : Account)
      → is_before to_lower sort x y ≡ false
      → is_before to_lower sort y z ≡ false
      → is_before to_lower sort x z ≡ false
  unfolding is_before
  before_negtrans sort x y z h k = ground (
    arith,
    key_negtrans sort x y z,
    key_negtrans sort y z x,
    key_negtrans sort z x y,
    text_ltb_negtrans x.id y.id z.id,
  )

  module _ (sort : AccountsSort) where
    insert-perm :
        (a : Account) (accounts : List Account)
        → Perm (insert_account_by to_lower sort a accounts) (a ∷ accounts)
    unfolding insert_account_by
    insert-perm a [] = Perm.refl (a ∷ [])
    insert-perm a (b ∷ accounts) = elim (Bool-cases (is_before to_lower sort b a)) [
      | inl later ↦
          rw later (Perm.trans (Perm.cons b (insert-perm a accounts)) (Perm.swap a b accounts))
      | inr here ↦ rw here (Perm.refl (a ∷ b ∷ accounts))
    ]

    pub sort-perm : (accounts : List Account) → Perm (sort_accounts to_lower sort accounts) accounts
    unfolding sort_accounts
    sort-perm [] = Perm.refl []
    sort-perm (a ∷ accounts) =
        Perm.trans (insert-perm a (sort_accounts to_lower sort accounts))
          (Perm.cons a (sort-perm accounts))

    NoneBefore-trans :
        (a b : Account) (accounts : List Account)
        → is_before to_lower sort b a ≡ false
        → NoneBefore to_lower sort b accounts
        → NoneBefore to_lower sort a accounts
    NoneBefore-trans a b [] h n = tt
    NoneBefore-trans a b (x ∷ accounts) h (m, n) =
        (before_negtrans sort x b a m h, NoneBefore-trans a b accounts h n)

    NoneBefore-insert :
        (b a : Account) (accounts : List Account)
        → is_before to_lower sort a b ≡ false
        → NoneBefore to_lower sort b accounts
        → NoneBefore to_lower sort b (insert_account_by to_lower sort a accounts)
    unfolding insert_account_by
    NoneBefore-insert b a [] h n = (h, tt)
    NoneBefore-insert b a (x ∷ accounts) h (m, n) =
        elim (Bool-cases (is_before to_lower sort x a)) [
          | inl later ↦ rw later (m, NoneBefore-insert b a accounts h n)
          | inr here ↦ rw here (h, (m, n))
        ]

    insert-IsOrdered :
        (a : Account) (accounts : List Account)
        → IsOrdered to_lower sort accounts
        → IsOrdered to_lower sort (insert_account_by to_lower sort a accounts)
    unfolding insert_account_by
    insert-IsOrdered a [] o = (tt, tt)
    insert-IsOrdered a (b ∷ accounts) (n, o) = elim (Bool-cases (is_before to_lower sort b a)) [
      | inl later ↦ rw later (
        NoneBefore-insert b a accounts (before_asym sort b a later) n,
        insert-IsOrdered a accounts o,
      )
      | inr here ↦ rw here ((here, NoneBefore-trans a b accounts here n), (n, o))
    ]

    pub sort-IsOrdered :
        (accounts : List Account) → IsOrdered to_lower sort (sort_accounts to_lower sort accounts)
    unfolding sort_accounts
    sort-IsOrdered [] = tt
    sort-IsOrdered (a ∷ accounts) =
        insert-IsOrdered a (sort_accounts to_lower sort accounts) (sort-IsOrdered accounts)

-- The balance as an `int64`, plus 2 ^ 63.
abbrev pub shifted_balance : Account → ℕ
shifted_balance a = (a.balance.minor_units + 2 ^ 63) % int64_mod

-- If the keys of two accounts are the same, the ids are in the order of texts.
abbrev ById : Type 0 → Account → Account → Type 0
ById same l r = same → text_ltb r.id l.id ≡ false

module _ (to_lower : Text → Text) where
  -- `l` may stand in front of `r`: its name in lower case is not the later one, its balance is not the
  -- smaller one, or it was not created before `r`; and equal accounts are in the order of their ids.
  abbrev pub MayPrecede : AccountsSort → Account → Account → Type 0
  MayPrecede name_asc l r =
      (text_ltb (to_lower r.name) (to_lower l.name) ≡ false)
      × ById (to_lower l.name ≡ to_lower r.name) l r
  MayPrecede balance_desc l r =
      (shifted_balance r ≤ shifted_balance l) × ById (shifted_balance l ≡ shifted_balance r) l r
  MayPrecede created_at_desc l r =
      (r.created_at ≤ l.created_at) × ById (l.created_at ≡ r.created_at) l r

  module _ (sort : AccountsSort) where
    abbrev pub MayPrecedeAll : Account → List Account → Type 0
    MayPrecedeAll a [] = Unit
    MayPrecedeAll a (b ∷ accounts) = MayPrecede sort a b × MayPrecedeAll a accounts

    -- Each account may stand in front of all that follow it.
    abbrev pub IsSorted : List Account → Type 0
    IsSorted [] = Unit
    IsSorted (a ∷ accounts) = MayPrecedeAll a accounts × IsSorted accounts

  not_before-MayPrecede :
      (sort : AccountsSort) (l r : Account)
      → is_before to_lower sort r l ≡ false
      → MayPrecede sort l r
  unfolding is_before key_before
  not_before-MayPrecede name_asc l r h = (
    ground arith,
    λ e.
        let same : text_ltb (to_lower l.name) (to_lower r.name) ≡ false =
          rw e (text_ltb_irrefl (to_lower r.name)) in
        ground arith,
  )
  not_before-MayPrecede balance_desc l r h = (ground arith, λ e. ground arith)
  not_before-MayPrecede created_at_desc l r h = (ground arith, λ e. ground arith)

  NoneBefore-MayPrecedeAll :
      (sort : AccountsSort) (a : Account) (accounts : List Account)
      → NoneBefore to_lower sort a accounts
      → MayPrecedeAll sort a accounts
  NoneBefore-MayPrecedeAll sort a [] n = tt
  NoneBefore-MayPrecedeAll sort a (b ∷ accounts) (h, n) =
      (not_before-MayPrecede sort a b h, NoneBefore-MayPrecedeAll sort a accounts n)

  IsOrdered-IsSorted :
      (sort : AccountsSort) (accounts : List Account)
      → IsOrdered to_lower sort accounts
      → IsSorted sort accounts
  IsOrdered-IsSorted sort [] o = tt
  IsOrdered-IsSorted sort (a ∷ accounts) (n, o) =
      (NoneBefore-MayPrecedeAll sort a accounts n, IsOrdered-IsSorted sort accounts o)

-- For any `strings.ToLower`, sorting the accounts only reorders them, and leaves each in front of
-- accounts whose names in lower case are not earlier, whose balances are not larger or which were not
-- created later, by the way to sort, and whose ids are not smaller where these agree.
pub sort_accounts_lem :
    (to_lower : Text → Text) (sort : AccountsSort) (accounts : List Account)
    → Perm (sort_accounts to_lower sort accounts) accounts
      × IsSorted to_lower sort (sort_accounts to_lower sort accounts)
sort_accounts_lem to_lower sort accounts = (
  sort-perm to_lower sort accounts,
  IsOrdered-IsSorted to_lower sort (sort_accounts to_lower sort accounts)
      (sort-IsOrdered to_lower sort accounts),
)
