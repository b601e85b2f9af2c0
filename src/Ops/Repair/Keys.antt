-- ===== src/Ops/Repair/Keys.antt =====
-- internal/ops/repair/transactions_format_job.go: the ids in the order in which the job reads them.
use moneo_backend.Common.{
  ℕ, zero, suc, ◌≡◌, refl, ap, ◌∙◌, true, false, Text, text_eq, text_ltb, text_ltb_trans,
  text_ltb_total, is_empty, some, List, [], ◌∷◌, length, take, if◌then◌else◌, arith, Bool-cases,
  inl, inr,
}
use moneo_backend.Infra.Table.{Table, lookup, insert}
use moneo_backend.Ops.Repair.{insert_by_id, order_by_id, is_after, after_id}

-- The ids of a table, in its order.
abbrev pub ids : {A : Type 0} → Table A → List Text
ids [] = []
ids ((k, r) ∷ rows) = k ∷ ids rows

-- what the clauses of the query make of the ids
insert_id : Text → List Text → List Text
insert_id id [] = id ∷ []
insert_id id (k ∷ ks) = if text_ltb k id then k ∷ insert_id id ks else id ∷ k ∷ ks

unfoldable pub order_ids : List Text → List Text
unfolding insert_id
order_ids [] = []
order_ids (k ∷ ks) = insert_id k (order_ids ks)

unfoldable pub ids_after : Text → List Text → List Text
ids_after last [] = []
ids_after last (k ∷ ks) = if is_after last k then k ∷ ids_after last ks else ids_after last ks

module _ {A : Type 0} where
  pub ids-insert :
      (id : Text) (r : A) (rows : Table A) {q : A}
      → lookup id rows ≡ some q
      → ids (insert id r rows) ≡ ids rows
  unfolding lookup insert
  ids-insert id r [] h = cc
  ids-insert id r ((k, p) ∷ rows) {q = q} h = elim (Bool-cases (text_eq k id)) [
    | inl same ↦ rw same
    | inr other ↦ rw other (ap (λ ks. k ∷ ks) (ids-insert id r rows {q = q} (rw other at h)))
  ]

  ids-insert_by_id :
      (id : Text) (r : A) (rows : Table A) → ids (insert_by_id id r rows) ≡ insert_id id (ids rows)
  unfolding insert_by_id insert_id
  ids-insert_by_id id r [] = refl
  ids-insert_by_id id r ((k, q) ∷ rows) = elim (Bool-cases (text_ltb k id)) [
    | inl less ↦ rw (less, ids-insert_by_id id r rows)
    | inr not_less ↦ rw not_less
  ]

  pub ids-order_by_id : (rows : Table A) → ids (order_by_id rows) ≡ order_ids (ids rows)
  unfolding order_by_id order_ids
  ids-order_by_id [] = refl
  ids-order_by_id ((k, r) ∷ rows) =
      ids-insert_by_id k r (order_by_id rows) ∙ ap (insert_id k) (ids-order_by_id rows)

  pub ids-after_id :
      (last : Text) (rows : Table A) → ids (after_id last rows) ≡ ids_after last (ids rows)
  unfolding after_id ids_after
  ids-after_id last [] = refl
  ids-after_id last ((k, r) ∷ rows) = elim (Bool-cases (is_after last k)) [
    | inl later ↦ rw (later, ids-after_id last rows)
    | inr not_later ↦ rw (not_later, ids-after_id last rows)
  ]

  pub ids-take : (n : ℕ) (rows : Table A) → ids (take n rows) ≡ take n (ids rows)
  ids-take zero rows = refl
  ids-take (suc n) [] = refl
  ids-take (suc n) ((k, r) ∷ rows) = ap (λ ks. k ∷ ks) (ids-take n rows)

  pub length-ids : (rows : Table A) → length (ids rows) ≡ length rows
  length-ids [] = refl
  length-ids ((k, r) ∷ rows) = ap suc (length-ids rows)

-- All of the ids are above `k`.
abbrev pub AllAbove : Text → List Text → Type 0
AllAbove k [] = Unit
AllAbove k (j ∷ ks) = (text_ltb k j ≡ true) × AllAbove k ks

abbrev pub IsAscending : List Text → Type 0
IsAscending [] = Unit
IsAscending (k ∷ ks) = AllAbove k ks × IsAscending ks

-- None of the ids is `k`.
abbrev pub Misses : Text → List Text → Type 0
Misses k [] = Unit
Misses k (j ∷ ks) = (text_eq j k ≡ false) × Misses k ks

AllAbove-trans : (j k : Text) (ks : List Text) → text_ltb j k ≡ true → AllAbove k ks → AllAbove j ks
AllAbove-trans j k [] h a = tt
AllAbove-trans j k (x ∷ ks) h (a, more) = (text_ltb_trans j k x h a, AllAbove-trans j k ks h more)

AllAbove-insert_id :
    (j k : Text) (ks : List Text)
    → text_ltb j k ≡ true
    → AllAbove j ks
    → AllAbove j (insert_id k ks)
unfolding insert_id
AllAbove-insert_id j k [] h a = (h, tt)
AllAbove-insert_id j k (x ∷ ks) h (a, more) = elim (Bool-cases (text_ltb x k)) [
  | inl less ↦ rw less (a, AllAbove-insert_id j k ks h more)
  | inr not_less ↦ rw not_less (h, (a, more))
]

insert_id-IsAscending :
    (k : Text) (ks : List Text) → Misses k ks → IsAscending ks → IsAscending (insert_id k ks)
unfolding insert_id
insert_id-IsAscending k [] m s = (tt, tt)
insert_id-IsAscending k (x ∷ ks) (m, ms) (a, s) = elim (Bool-cases (text_ltb x k)) [
  | inl less ↦ rw less (AllAbove-insert_id x k ks less a, insert_id-IsAscending k ks ms s)
  | inr not_less ↦
      let above = text_ltb_total x k not_less m in
      rw not_less ((above, AllAbove-trans k x ks above a), (a, s))
]

Misses-insert_id :
    (j k : Text) (ks : List Text) → text_eq k j ≡ false → Misses j ks → Misses j (insert_id k ks)
unfolding insert_id
Misses-insert_id j k [] h m = (h, tt)
Misses-insert_id j k (x ∷ ks) h (m, ms) = elim (Bool-cases (text_ltb x k)) [
  | inl less ↦ rw less (m, Misses-insert_id j k ks h ms)
  | inr not_less ↦ rw not_less (h, (m, ms))
]

-- Each id stands once.
abbrev pub AreDistinct : List Text → Type 0
AreDistinct [] = Unit
AreDistinct (k ∷ ks) = Misses k ks × AreDistinct ks

Misses-order_ids : (j : Text) (ks : List Text) → Misses j ks → Misses j (order_ids ks)
unfolding order_ids
Misses-order_ids j [] m = tt
Misses-order_ids j (k ∷ ks) (m, ms) =
    Misses-insert_id j k (order_ids ks) m (Misses-order_ids j ks ms)

pub order_ids-IsAscending : (ks : List Text) → AreDistinct ks → IsAscending (order_ids ks)
unfolding order_ids
order_ids-IsAscending [] d = tt
order_ids-IsAscending (k ∷ ks) (m, d) =
    insert_id-IsAscending k (order_ids ks) (Misses-order_ids k ks m) (order_ids-IsAscending ks d)

length-insert_id : (k : Text) (ks : List Text) → length (insert_id k ks) ≡ suc (length ks)
unfolding insert_id
length-insert_id k [] = refl
length-insert_id k (x ∷ ks) = ground (arith, length-insert_id k ks)

pub length-order_ids : (ks : List Text) → length (order_ids ks) ≡ length ks
unfolding order_ids
length-order_ids [] = refl
length-order_ids (k ∷ ks) = length-insert_id k (order_ids ks) ∙ ap suc (length-order_ids ks)

-- no id is empty
abbrev pub NoneIsEmpty : List Text → Type 0
NoneIsEmpty [] = Unit
NoneIsEmpty (k ∷ ks) = (is_empty k ≡ false) × NoneIsEmpty ks

NoneIsEmpty-insert_id :
    (k : Text) (ks : List Text) → is_empty k ≡ false → NoneIsEmpty ks → NoneIsEmpty (insert_id k ks)
unfolding insert_id
NoneIsEmpty-insert_id k [] e n = (e, tt)
NoneIsEmpty-insert_id k (x ∷ ks) e (f, n) = elim (Bool-cases (text_ltb x k)) [
  | inl less ↦ rw less (f, NoneIsEmpty-insert_id k ks e n)
  | inr not_less ↦ rw not_less (e, (f, n))
]

NoneIsEmpty-order_ids : (ks : List Text) → NoneIsEmpty ks → NoneIsEmpty (order_ids ks)
unfolding order_ids
NoneIsEmpty-order_ids [] n = tt
NoneIsEmpty-order_ids (k ∷ ks) (e, n) =
    NoneIsEmpty-insert_id k (order_ids ks) e (NoneIsEmpty-order_ids ks n)

-- The ids of a table are distinct and none is empty.
pub record HasIds (ks : List Text) : Type 0 where
  pub distinct : AreDistinct ks
  pub given : NoneIsEmpty ks

pub ordered-HasIds :
    (ks : List Text) → HasIds ks → IsAscending (order_ids ks) × NoneIsEmpty (order_ids ks)
ordered-HasIds ks h = (order_ids-IsAscending ks h.distinct, NoneIsEmpty-order_ids ks h.given)
