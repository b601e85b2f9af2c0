-- ===== src/App/Effect.antt =====
-- The balance effect of a posted transaction, in internal/app/accounting/transactions.go. The map
-- from accounts to deltas is an association list; a missing key reads as 0.
pub mod Moves
pub mod Flow
use moneo_backend.Common.{
  ℕ, Bool, true, false, not, Text, text_eq, text_ltb, Option, none, some, List, [], ◌∷◌, map, ok,
  err, if◌then◌else◌, ◌==◌, add64, sub64, neg64, is_negative,
}
use moneo_backend.Domain.Errors.{Outcome, incomplete_accounts, unsupported_transaction_type}
use moneo_backend.Domain.Money.{Money}
use moneo_backend.Domain.Account.{Account, new_account}
use moneo_backend.Domain.Transaction.{
  Transaction, TransactionType, income, expense, transfer, investment, saving,
}
use moneo_backend.Infra.Table.{Table, lookup, insert}
use moneo_backend.Infra.Database.{Env, Action, pure, lift, ◌>>=◌, ◌>>◌}
use moneo_backend.Infra.AccountRepository.{find_by_id, update_by_id}

unfoldable pub delta_of : Table ℕ → Text → ℕ
delta_of deltas id = elim (lookup id deltas) [ none ↦ 0 | some d ↦ d ]

-- `deltas[id] += amount` and `deltas[id] -= amount`
unfoldable pub credit : Text → ℕ → Table ℕ → Table ℕ
credit id amount deltas = insert id (add64 (delta_of deltas id) amount) deltas

unfoldable pub debit : Text → ℕ → Table ℕ → Table ℕ
debit id amount deltas = insert id (sub64 (delta_of deltas id) amount) deltas

unfoldable pub credit_to : Option Text → ℕ → Outcome (Table ℕ)
credit_to none amount = err incomplete_accounts
credit_to (some to) amount = ok (credit to amount [])

unfoldable pub debit_from : Option Text → ℕ → Outcome (Table ℕ)
debit_from none amount = err incomplete_accounts
debit_from (some from) amount = ok (debit from amount [])

unfoldable pub move_between : Option Text → Option Text → ℕ → Outcome (Table ℕ)
move_between (some from) (some to) amount = ok (credit to amount (debit from amount []))
move_between none _ amount = err incomplete_accounts
move_between (some from) none amount = err incomplete_accounts

-- the switch of `transactionAccountDeltas`
unfoldable pub deltas_for : TransactionType → Option Text → Option Text → ℕ → Outcome (Table ℕ)
deltas_for income from to amount = credit_to to amount
deltas_for expense from to amount = debit_from from amount
deltas_for transfer from to amount = move_between from to amount
deltas_for saving from to amount = debit_from from amount
deltas_for investment from to amount = debit_from from amount
deltas_for (TransactionType.other s) from to amount = err unsupported_transaction_type

-- `transactionAccountDeltas`
unfoldable pub transaction_account_deltas : Transaction → Outcome (Table ℕ)
transaction_account_deltas t =
    deltas_for t.transaction_type t.account_from_id t.account_to_id t.amount.minor_units

-- `deltas[accountID] = -delta` for every account
unfoldable pub negate_deltas : Table ℕ → Table ℕ
negate_deltas [] = []
negate_deltas ((id, d) ∷ deltas) = (id, neg64 d) ∷ negate_deltas deltas

unfoldable pub ids_of : Table ℕ → List Text
ids_of [] = []
ids_of ((id, d) ∷ deltas) = id ∷ ids_of deltas

-- `sort.Strings`
insert_sorted : Text → List Text → List Text
insert_sorted id [] = id ∷ []
insert_sorted id (j ∷ ids) = if text_ltb j id then j ∷ insert_sorted id ids else id ∷ j ∷ ids

unfoldable pub sort_ids : List Text → List Text
unfolding insert_sorted
sort_ids [] = []
sort_ids (id ∷ ids) = insert_sorted id (sort_ids ids)

-- the parameters of the account with the adjusted balance
unfoldable pub adjusted : Account → ℕ → ℕ → Account
adjusted a delta at = record a {
  balance = record {
    minor_units = add64 a.balance.minor_units delta;
    currency = a.balance.currency;
  };
  updated_at = at;
}

module _ (env : Env) where
  -- the body of the loop after `if delta == 0 { continue }`
  unfoldable pub adjust_account : Text → ℕ → Text → ℕ → Action (Unit {0})
  adjust_account user_id at id delta = do
    account ← find_by_id env user_id id
    updated ← lift (new_account (adjusted account delta at))
    update_by_id env updated account.updated_at

  unfoldable pub adjust_unless_zero : Text → ℕ → Text → ℕ → Action (Unit {0})
  adjust_unless_zero user_id at id delta =
      if delta == 0 then pure tt else adjust_account user_id at id delta

  -- the loop over the sorted ids
  unfoldable pub adjust_each : Text → ℕ → Table ℕ → List Text → Action (Unit {0})
  adjust_each user_id at deltas [] = pure tt
  adjust_each user_id at deltas (id ∷ ids) =
      adjust_unless_zero user_id at id (delta_of deltas id) >> adjust_each user_id at deltas ids

  -- `applyTransactionBalanceEffect`; the sign is an `int64`
  unfoldable pub apply_transaction_balance_effect : Text → Transaction → ℕ → ℕ → Action (Unit {0})
  apply_transaction_balance_effect user_id t sign at = do
    plain ← lift (transaction_account_deltas t)
    let deltas = if is_negative sign then negate_deltas plain else plain
    adjust_each user_id at deltas (sort_ids (ids_of deltas))
