-- ===== src/App/Effect/Flow.antt =====
-- The deltas of a transaction against a description that does not look at its type: its amount
-- leaves the account that it comes from and enters the account that it goes to.
use moneo_backend.Common.{
  ℕ, ◌+◌, ◌-◌, ◌%◌, ◌≡◌, refl, sym, ap, ◌∙◌, Bool, true, false, true-ne-false, ◌&&◌, Text, text_eq,
  text_eq_iff, text_eq_refl, trim_space, Option, none, some, List, [], ◌∷◌, ok, if◌then◌else◌,
  arith, int64_mod, add64, sub64, neg64, is_negative, inl, inr, Bool-cases,
}
use moneo_backend.Domain.Errors.{Outcome}
use moneo_backend.Domain.Transaction.{
  Transaction, TransactionType, income, expense, transfer, investment, saving, has_id, same_id,
}
use moneo_backend.Domain.Transaction.Rules.{IsMade, IsShaped, new_transaction_iff}
use moneo_backend.Infra.Table.{Table, lookup, insert}
use moneo_backend.Infra.Database.{Env, World, >>=-elim, lift-eq-ok}
use moneo_backend.App.Effect.{
  delta_of, credit, debit, credit_to, debit_from, move_between, deltas_for,
  transaction_account_deltas, negate_deltas, ids_of, sort_ids, apply_transaction_balance_effect,
}
use moneo_backend.App.Effect.Moves.{◌≈◌, applied, AccountsMove, AccountsMove-≈, adjust_each-move}

-- the account `a` is the given one, which is not blank
unfoldable pub is_account : Option Text → Text → Bool
is_account none a = false
is_account (some id) a = has_id (some id) && text_eq id a

-- What an amount adds to the account `a` on its way from one account to another.
unfoldable pub flow_between : Option Text → Option Text → ℕ → Text → ℕ
flow_between from to amount a =
    (if is_account to a then amount else 0) + (if is_account from a then neg64 amount else 0)

-- What the transaction adds to the account `a`, as an `int64`.
unfoldable pub flow : Transaction → Text → ℕ
unfolding flow_between
flow t a = flow_between t.account_from_id t.account_to_id t.amount.minor_units a

one_delta :
    (id a : Text) (d : ℕ)
    → applied ((id, d) ∷ []) (sort_ids (ids_of ((id, d) ∷ []))) a ≡ (if text_eq id a then d else 0)
unfolding applied sort_ids ids_of delta_of lookup
one_delta id a d = ground (arith, text_eq_refl id)

two_deltas :
    (i j a : Text) (d e : ℕ)
    → text_eq i j ≡ false
    → applied ((i, d) ∷ (j, e) ∷ []) (sort_ids (ids_of ((i, d) ∷ (j, e) ∷ []))) a
      ≡ (if text_eq i a then d else 0) + (if text_eq j a then e else 0)
unfolding applied sort_ids ids_of delta_of lookup
two_deltas i j a d e h =
    ground (arith, text_eq_refl i, text_eq_refl j, text_eq_iff i j, text_eq_iff j i)

abbrev moves_of : Table ℕ → Text → ℕ
moves_of deltas a = applied deltas (sort_ids (ids_of deltas)) a

not-account : (o : Option Text) (a : Text) → has_id o ≡ false → is_account o a ≡ false
unfolding is_account
not-account none a h = refl
not-account (some id) a h = ground arith

the-account : (id a : Text) → has_id (some id) ≡ true → is_account (some id) a ≡ text_eq id a
unfolding is_account
the-account id a h = ground arith

credit-flow :
    (from : Option Text) (to : Text) (amount : ℕ) (a : Text)
    → has_id (some to) ≡ true
    → has_id from ≡ false
    → moves_of (credit to amount []) a ≈ flow_between from (some to) amount a
unfolding credit delta_of add64 flow_between insert lookup
credit-flow from to amount a h k =
    rw (one_delta to a ((0 + amount) % int64_mod), the-account to a h, not-account from a k)
      (ground arith)

debit-flow :
    (from : Text) (to : Option Text) (amount : ℕ) (a : Text)
    → has_id (some from) ≡ true
    → has_id to ≡ false
    → moves_of (debit from amount []) a ≈ flow_between (some from) to amount a
unfolding debit delta_of sub64 neg64 flow_between insert lookup
debit-flow from to amount a h k =
    rw
      (
        one_delta from a ((0 + (int64_mod - amount % int64_mod)) % int64_mod),
        the-account from a h,
        not-account to a k,
      )
      (ground arith)

transfer-deltas :
    (from to : Text) (amount : ℕ)
    → text_eq from to ≡ false
    → credit to amount (debit from amount [])
      ≡ (from, (0 + (int64_mod - amount % int64_mod)) % int64_mod)
        ∷ (to, (0 + amount) % int64_mod)
        ∷ []
unfolding credit debit delta_of sub64 add64 insert lookup
transfer-deltas from to amount ne = ground arith

transfer-flow :
    (from to : Text) (amount : ℕ) (a : Text)
    → has_id (some from) ≡ true
    → has_id (some to) ≡ true
    → text_eq from to ≡ false
    → moves_of (credit to amount (debit from amount [])) a
      ≈ flow_between (some from) (some to) amount a
unfolding neg64 flow_between
transfer-flow from to amount a h k ne =
    rw
      (
        transfer-deltas from to amount ne,
        two_deltas from to a ((0 + (int64_mod - amount % int64_mod)) % int64_mod)
            ((0 + amount) % int64_mod) ne,
        the-account from a h,
        the-account to a k,
      )
      (ground arith)

differ-of-not_same :
    (from to : Text) → same_id (some from) (some to) ≡ false → text_eq from to ≡ false
unfolding same_id
differ-of-not_same from to h = elim (Bool-cases (text_eq from to)) [
  | inl same ↦
      let e = (text_eq_iff from to).0 same in
      absurd (true-ne-false (sym (text_eq_refl (trim_space to)) ∙ rw e at h))
  | inr other ↦ other
]

moves-eq-ok :
    {m n : Table ℕ} (a : Text) (v : ℕ)
    → ◌≡◌ {A = Outcome (Table ℕ)} (ok n) (ok m)
    → moves_of n a ≈ v
    → moves_of m a ≈ v
moves-eq-ok {m} {n} a v e h = let q : n ≡ m = ground arith in rw (← q) h

-- The switch over the types moves what the description says.
deltas_for-flow :
    (t : TransactionType) (from to category subcategory : Option Text) (amount : ℕ) (a : Text)
    {m : Table ℕ}
    → IsShaped t from to category subcategory
    → deltas_for t from to amount ≡ ok m
    → moves_of m a ≈ flow_between from to amount a
unfolding deltas_for credit_to debit_from move_between
deltas_for-flow income from none c s amount a h e = cc
deltas_for-flow income from (some to) c s amount a h e =
    moves-eq-ok a (flow_between from (some to) amount a) e (credit-flow from to amount a h.0 h.1)
deltas_for-flow expense none to c s amount a h e = cc
deltas_for-flow expense (some from) to c s amount a h e =
    moves-eq-ok a (flow_between (some from) to amount a) e (debit-flow from to amount a h.0 h.1)
deltas_for-flow investment none to c s amount a h e = cc
deltas_for-flow investment (some from) to c s amount a h e =
    moves-eq-ok a (flow_between (some from) to amount a) e (debit-flow from to amount a h.0 h.1)
deltas_for-flow saving none to c s amount a h e = cc
deltas_for-flow saving (some from) to c s amount a h e =
    moves-eq-ok a (flow_between (some from) to amount a) e (debit-flow from to amount a h.0 h.1)
deltas_for-flow transfer none to c s amount a h e = cc
deltas_for-flow transfer (some from) none c s amount a h e = cc
deltas_for-flow transfer (some from) (some to) c s amount a h e =
    moves-eq-ok a (flow_between (some from) (some to) amount a) e
      (transfer-flow from to amount a h.0 h.1 (differ-of-not_same from to h.2))
deltas_for-flow (TransactionType.other x) from to c s amount a h e = absurd h

-- A reversed map moves the opposite.
ids_of-negate : (m : Table ℕ) → ids_of (negate_deltas m) ≡ ids_of m
unfolding ids_of negate_deltas
ids_of-negate [] = refl
ids_of-negate ((id, d) ∷ m) = ap (λ ids. id ∷ ids) (ids_of-negate m)

delta_of-negate : (m : Table ℕ) (id : Text) → delta_of (negate_deltas m) id + delta_of m id ≈ 0
unfolding delta_of negate_deltas neg64 lookup
delta_of-negate [] id = refl
delta_of-negate ((k, d) ∷ m) id = ground (arith, delta_of-negate m id)

applied-negate :
    (m : Table ℕ) (ids : List Text) (a : Text)
    → applied (negate_deltas m) ids a + applied m ids a ≈ 0
unfolding applied
applied-negate m [] a = refl
applied-negate m (id ∷ ids) a = ground (arith, applied-negate m ids a, delta_of-negate m id)

-- What the effect of a transaction adds to an account, by the sign of the call.
unfoldable pub signed_flow : ℕ → Transaction → Text → ℕ
signed_flow sign t a = if is_negative sign then neg64 (flow t a) else flow t a

moves-signed :
    (sign : ℕ) (t : Transaction) (m : Table ℕ) (a : Text)
    → moves_of m a ≈ flow t a
    → moves_of (if is_negative sign then negate_deltas m else m) a ≈ signed_flow sign t a
unfolding signed_flow neg64
moves-signed sign t m a h = elim (Bool-cases (is_negative sign)) [
  | inl minus ↦
      rw (minus, ids_of-negate m) (omega (arith, applied-negate m (sort_ids (ids_of m)) a))
  | inr plus ↦ rw plus h
]

-- For a transaction that the constructor made, a successful `applyTransactionBalanceEffect` moves
-- each account of the user by the transaction's flow, or by its negation when the sign is negative,
-- and leaves the initial balances, the other users' balances and the transactions alone.
pub apply-AccountsMove :
    (env : Env) (user_id : Text) (t : Transaction) (sign at : ℕ) (w : World) {u : Unit {0}}
    {w' : World}
    → IsMade t
    → apply_transaction_balance_effect env user_id t sign at w ≡ (ok u, w')
    → AccountsMove user_id (signed_flow sign t) w.db w'.db
unfolding apply_transaction_balance_effect transaction_account_deltas flow
apply-AccountsMove env user_id t sign at w {w' = w'} m h = >>=-elim _ _ _ h λ plain w₁ h₁ g₁.
    let (e, d) = lift-eq-ok (transaction_account_deltas t) w h₁ in
    let deltas = if is_negative sign then negate_deltas plain else plain in
    let shape = ((new_transaction_iff t t).0 m).0.shaped in
    AccountsMove-≈ (moves_of deltas) (signed_flow sign t)
      (λ a. moves-signed sign t plain a (
        deltas_for-flow t.transaction_type t.account_from_id t.account_to_id t.category_id
          t.subcategory_id t.amount.minor_units a shape e))
      (rw d at (adjust_each-move env user_id at deltas (sort_ids (ids_of deltas)) w₁ g₁))
