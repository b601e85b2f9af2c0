-- ===== src/App/Listing/Unique.antt =====
-- internal/app/accounting/list_accounts.go: the order leaves a sorting algorithm no choice.
use mathlib.Core.Path.{subst}
use mathlib.Core.HLevel.{hedberg}
use mathlib.Core.Logic.{∥∥₁_elim}
use native.Mathlib.Decide.{ℕ_discrete}
use mathlib.Core.Bool.{Bool-set}
use mathlib.Core.List.{Perm, Mem, Memᴰ, mem-cons_self, not-mem-nil}
use mathlib.Core.List.Perm
use mathlib.Core.List.Memᴰ
use moneo_backend.Common.{
  ◌≡◌, ◌≢◌, ◌∙◌, refl, sym, true, false, Text, text_eq, text_ltb, text_eq_iff, text_ltb_total, List,
  [], ◌∷◌, arith, Bool-cases, inl, inr,
}
use moneo_backend.Domain.Account.{Account}
use moneo_backend.App.Listing.{
  AccountsSort, created_at_desc, name_asc, balance_desc, key_before, is_before, sort_accounts,
}
use moneo_backend.App.Listing.Order.{
  NoneBefore, IsOrdered, before_asym, sort-perm, sort-IsOrdered, MayPrecede, MayPrecedeAll,
  IsSorted,
}

-- None of the accounts has the id of `a`.
abbrev pub HasOwnId : Account → List Account → Type 0
HasOwnId a [] = Unit
HasOwnId a (b ∷ accounts) = (text_eq a.id b.id ≡ false) × HasOwnId a accounts

-- No two of the accounts have the same id.
abbrev pub HaveDistinctIds : List Account → Type 0
HaveDistinctIds [] = Unit
HaveDistinctIds (a ∷ accounts) = HasOwnId a accounts × HaveDistinctIds accounts

Account_set : IsSet Account
Account_set = hlevel (hedberg, ℕ_discrete)

true-ne-false : true ≢ false
true-ne-false h = cc

HasOwnId-at :
    (a b : Account) (accounts : List Account)
    → Memᴰ b accounts
    → HasOwnId a accounts
    → text_eq a.id b.id ≡ false
HasOwnId-at a b [] m n = absurd (Memᴰ.not-nil m)
HasOwnId-at a b (x ∷ accounts) (Memᴰ.head e) (h, n) = rw e h
HasOwnId-at a b (x ∷ accounts) (Memᴰ.tail m) (h, n) = HasOwnId-at a b accounts m n

-- The account of the list that has the id of its head is the head.
same_id-head :
    (a b : Account) (accounts : List Account)
    → Mem b (a ∷ accounts)
    → HasOwnId a accounts
    → text_eq a.id b.id ≡ true
    → a ≡ b
same_id-head a b accounts m n same = ∥∥₁_elim m (Account_set a b) λ d. elim (Memᴰ.cases_cons d) [
  | inl e ↦ sym e
  | inr later ↦ absurd (true-ne-false (sym same ∙ HasOwnId-at a b accounts later n))
]

module _ (to_lower : Text → Text) (sort : AccountsSort) where
  before_irrefl : (a : Account) → is_before to_lower sort a a ≡ false
  before_irrefl a = elim (Bool-cases (is_before to_lower sort a a)) [
    | inl h ↦ before_asym to_lower sort a a h
    | inr h ↦ h
  ]

  not_before-at :
      (a b : Account) (accounts : List Account)
      → Memᴰ b accounts
      → NoneBefore to_lower sort a accounts
      → is_before to_lower sort b a ≡ false
  not_before-at a b [] m n = absurd (Memᴰ.not-nil m)
  not_before-at a b (x ∷ accounts) (Memᴰ.head e) (h, n) = rw e h
  not_before-at a b (x ∷ accounts) (Memᴰ.tail m) (h, n) = not_before-at a b accounts m n

  not_before-head :
      (a b : Account) (accounts : List Account)
      → Mem b (a ∷ accounts)
      → NoneBefore to_lower sort a accounts
      → is_before to_lower sort b a ≡ false
  not_before-head a b accounts m n =
      ∥∥₁_elim m (Bool-set _ _) (λ d. not_before-at a b (a ∷ accounts) d (before_irrefl a, n))

  same_id :
      (a b : Account)
      → is_before to_lower sort a b ≡ false
      → is_before to_lower sort b a ≡ false
      → text_eq a.id b.id ≡ true
  unfolding is_before
  same_id a b h k = ground (arith, text_ltb_total a.id b.id)

  IsOrdered-unique :
      (xs ys : List Account)
      → HaveDistinctIds xs
      → Perm xs ys
      → IsOrdered to_lower sort xs
      → IsOrdered to_lower sort ys
      → xs ≡ ys
  IsOrdered-unique [] [] d p o q = refl
  IsOrdered-unique [] (y ∷ ys) d p o q = absurd (not-mem-nil ((Perm.mem_iff p).1 mem-cons_self))
  IsOrdered-unique (x ∷ xs) [] d p o q = absurd (not-mem-nil ((Perm.mem_iff p).0 mem-cons_self))
  IsOrdered-unique (x ∷ xs) (y ∷ ys) (own, d) p (n, o) (m, q) =
      let x_there : Mem x (y ∷ ys) = (Perm.mem_iff p).0 mem-cons_self in
      let y_there : Mem y (x ∷ xs) = (Perm.mem_iff p).1 mem-cons_self in
      let same =
        same_id x y (not_before-head y x ys x_there m) (not_before-head x y xs y_there n) in
      let e = same_id-head x y xs y_there own same in
      let rest =
        IsOrdered-unique xs ys d (Perm.cons_inv (subst (λ z. Perm (x ∷ xs) (z ∷ ys)) (sym e) p)) o
          q in
      λ i. e i ∷ rest i

MayPrecede-not_before :
    (to_lower : Text → Text) (sort : AccountsSort) (l r : Account)
    → MayPrecede to_lower sort l r
    → is_before to_lower sort r l ≡ false
unfolding is_before key_before
MayPrecede-not_before to_lower name_asc l r (h, t) =
    elim (Bool-cases (text_ltb (to_lower l.name) (to_lower r.name))) [
      | inl first ↦ ground arith
      | inr not_first ↦ elim (Bool-cases (text_eq (to_lower l.name) (to_lower r.name))) [
        | inl e ↦
            let by_id = t ((text_eq_iff (to_lower l.name) (to_lower r.name)).0 e) in ground arith
        | inr other ↦
            let later = text_ltb_total (to_lower l.name) (to_lower r.name) not_first other in
            ground arith
      ]
    ]
MayPrecede-not_before to_lower balance_desc l r (h, t) = ground arith
MayPrecede-not_before to_lower created_at_desc l r (h, t) = ground arith

module _ (to_lower : Text → Text) (sort : AccountsSort) where
  MayPrecedeAll-NoneBefore :
      (a : Account) (accounts : List Account)
      → MayPrecedeAll to_lower sort a accounts
      → NoneBefore to_lower sort a accounts
  MayPrecedeAll-NoneBefore a [] n = tt
  MayPrecedeAll-NoneBefore a (b ∷ accounts) (h, n) =
      (MayPrecede-not_before to_lower sort a b h, MayPrecedeAll-NoneBefore a accounts n)

  IsSorted-IsOrdered :
      (accounts : List Account) → IsSorted to_lower sort accounts → IsOrdered to_lower sort accounts
  IsSorted-IsOrdered [] s = tt
  IsSorted-IsOrdered (a ∷ accounts) (n, s) =
      (MayPrecedeAll-NoneBefore a accounts n, IsSorted-IsOrdered accounts s)

-- Whatever reorders the accounts into a list that is sorted, if no two of them have the same id, has
-- the result of the sort: the order leaves the algorithm no choice.
pub sort_accounts_unique :
    (to_lower : Text → Text) (sort : AccountsSort) (accounts sorted : List Account)
    → HaveDistinctIds sorted
    → Perm sorted accounts
    → IsSorted to_lower sort sorted
    → sorted ≡ sort_accounts to_lower sort accounts
sort_accounts_unique to_lower sort accounts sorted d p s =
    IsOrdered-unique to_lower sort sorted (sort_accounts to_lower sort accounts) d
      (Perm.trans p (Perm.symm (sort-perm to_lower sort accounts)))
      (IsSorted-IsOrdered to_lower sort sorted s) (sort-IsOrdered to_lower sort accounts)
