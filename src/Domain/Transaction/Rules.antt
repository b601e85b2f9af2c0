-- ===== src/Domain/Transaction/Rules.antt =====
-- The rules that the constructor keeps, described without its order of checks.
use moneo_backend.Common.{
  ◌≤◌, ◌≡◌, ◌↔◌, refl, ◌∙◌, true, false, not, ◌&&◌, ◌||◌, Text, trim_space_idem, is_negative,
  Option, none, some, max_int64, ok, arith,
}
use moneo_backend.Domain.Transaction.{
  Transaction, TransactionType, income, expense, transfer, investment, saving, is_supported_type,
  is_supported_status, is_blank, has_id, same_id, has_subcategory_without_category,
  normalize_comment, is_transfer, validate_type_invariants, new_transaction,
}

-- The accounts and the category that a type of transaction has.
abbrev pub IsShaped :
    TransactionType → Option Text → Option Text → Option Text → Option Text → Type 0
IsShaped income from to category subcategory = (has_id to ≡ true) × (has_id from ≡ false)
IsShaped expense from to category subcategory =
    (has_id from ≡ true) × (has_id to ≡ false) × (has_id category ≡ true)
IsShaped transfer from to category subcategory =
    (has_id from ≡ true)
    × (has_id to ≡ true)
    × (same_id from to ≡ false)
    × (has_id category ≡ false)
    × (has_id subcategory ≡ false)
IsShaped investment from to category subcategory =
    (has_id from ≡ true) × (has_id to ≡ false) × (has_id category ≡ true)
IsShaped saving from to category subcategory =
    (has_id from ≡ true) × (has_id to ≡ false) × (has_id category ≡ true)
IsShaped (TransactionType.other s) from to category subcategory = ⊥

-- The shape of a transaction's own fields, under the type `t`.
abbrev pub HasShape : TransactionType → Transaction → Type 0
HasShape t p = IsShaped t p.account_from_id p.account_to_id p.category_id p.subcategory_id

-- What a stored transaction satisfies.
pub record IsAdmissible (p : Transaction) : Type 0 where
  pub id_given : is_blank p.id ≡ false
  pub user_given : is_blank p.user_id ≡ false
  pub status_known : is_supported_status p.status ≡ true
  pub amount_sign : p.amount.minor_units ≤ max_int64
  pub category_given : not (has_id p.subcategory_id) || has_id p.category_id ≡ true
  pub shaped : HasShape p.transaction_type p

validate-IsShaped :
    (t : TransactionType) (p : Transaction) {u : Unit {0}}
    → validate_type_invariants t p ≡ ok u
    → HasShape t p
unfolding validate_type_invariants
validate-IsShaped income p h = ground arith
validate-IsShaped _ p h = ground arith

IsShaped-validate :
    (t : TransactionType) (p : Transaction) → HasShape t p → validate_type_invariants t p ≡ ok tt
unfolding validate_type_invariants
IsShaped-validate income p h = ground arith
IsShaped-validate _ p h = ground arith

IsShaped-supported :
    (t : TransactionType) (p : Transaction) → HasShape t p → is_supported_type t ≡ true
unfolding is_supported_type
IsShaped-supported income p h = refl
IsShaped-supported expense p h = refl
IsShaped-supported transfer p h = refl
IsShaped-supported investment p h = refl
IsShaped-supported saving p h = refl
IsShaped-supported (TransactionType.other s) p h = absurd h

IsShaped-transfer :
    (t : TransactionType) (p : Transaction)
    → HasShape t p
    → is_transfer t ≡ true
    → has_id p.subcategory_id ≡ false
unfolding is_transfer
IsShaped-transfer transfer p h e = h.4
IsShaped-transfer _ p h e = cc

-- The order of the checks: one that passes is followed by the rest.
checks-pass :
    (p : Transaction) {t : Transaction}
    → new_transaction p ≡ ok t
    → (is_blank p.id ≡ false)
      × (is_blank p.user_id ≡ false)
      × (is_supported_status p.status ≡ true)
      × (p.amount.minor_units ≤ max_int64)
      × (not (is_transfer p.transaction_type)
            && has_subcategory_without_category p.subcategory_id p.category_id
          ≡ false)
      × (validate_type_invariants p.transaction_type p ≡ ok tt)
      × (t ≡ record p { comment = normalize_comment p.comment })
unfolding new_transaction is_negative
checks-pass p h = ground arith

new_transaction-IsAdmissible :
    (p : Transaction) {t : Transaction} → new_transaction p ≡ ok t → IsAdmissible p
unfolding has_subcategory_without_category
new_transaction-IsAdmissible p h =
    let (i, u, s, a, c, v, _) = checks-pass p h in
    let shape = validate-IsShaped p.transaction_type p v in
    record {
      id_given = i;
      user_given = u;
      status_known = s;
      amount_sign = a;
      category_given = ground (arith, IsShaped-transfer p.transaction_type p shape);
      shaped = shape;
    }

IsAdmissible-new_transaction :
    (p : Transaction)
    → IsAdmissible p
    → new_transaction p ≡ ok (record p { comment = normalize_comment p.comment })
unfolding new_transaction has_subcategory_without_category is_negative
IsAdmissible-new_transaction p a = ground (
  arith,
  IsShaped-supported p.transaction_type p a.shaped,
  IsShaped-validate p.transaction_type p a.shaped,
)

-- The constructor accepts exactly the admissible parameters, and then keeps every field but the
-- comment, which it normalizes.
pub new_transaction_iff :
    (p t : Transaction)
    → (new_transaction p ≡ ok t)
      ↔ (IsAdmissible p × (t ≡ record p { comment = normalize_comment p.comment }))
new_transaction_iff p t = (
  λ h. (new_transaction-IsAdmissible p h, (checks-pass p h).6),
  λ (a, e). rw e (IsAdmissible-new_transaction p a),
)

pub normalize_comment_idem :
    (c : Option Text) → normalize_comment (normalize_comment c) ≡ normalize_comment c
unfolding normalize_comment
normalize_comment_idem none = refl
normalize_comment_idem (some s) = ground (arith, trim_space_idem s)

IsAdmissible-comment :
    (p : Transaction) (c : Option Text) → IsAdmissible p → IsAdmissible (record p { comment = c })
IsAdmissible-comment p c a = record {
  id_given = a.id_given;
  user_given = a.user_given;
  status_known = a.status_known;
  amount_sign = a.amount_sign;
  category_given = a.category_given;
  shaped = a.shaped;
}

-- A transaction that the constructor accepts as it is.
abbrev pub IsMade : Transaction → Type 0
IsMade t = new_transaction t ≡ ok t

-- What the constructor returns, it accepts again and returns unchanged.
pub new_transaction_idem : (p t : Transaction) → new_transaction p ≡ ok t → IsMade t
new_transaction_idem p t h =
    let (a, e) = (new_transaction_iff p t).0 h in
    rw e (
      IsAdmissible-new_transaction (record p { comment = normalize_comment p.comment })
        (IsAdmissible-comment p (normalize_comment p.comment) a)
      ∙ rw (normalize_comment_idem p.comment))
