-- ===== src/App/Services/Progress.antt =====
-- internal/app/accounting/transactions.go: runs in which the database carries every statement out.
use moneo_backend.Common.{
  ℕ, suc, ◌≡◌, refl, ap, ◌∙◌, true, false, Text, text_eq, text_eq_refl, some, ok, arith,
}
use moneo_backend.Domain.Errors.{database_failure}
use moneo_backend.Domain.Money.{is_supported_currency}
use moneo_backend.Domain.Transaction.{
  Transaction, planned, cancelled, cancel, cancel_status, status_text, status_of,
  is_supported_status,
}
use moneo_backend.Domain.Transaction.Rules.{IsMade}
use moneo_backend.Infra.Table.{lookup, insert}
use moneo_backend.Infra.Database.{
  TransactionRow, Database, Env, World, Action, done, tick, ◌>>=◌, ◌>>◌, >>=-ok, execute,
  execute-done, clock_now, map_error, lift, pure,
}
use moneo_backend.Infra.Database.Atomic.{within_tx-done}
use moneo_backend.Infra.TransactionRepository.{
  row_of, rewrite, scan_transaction, passes_checks, select_transaction, update_transaction,
  scan_found, find_by_id, update_by_id, report_missed_update,
}
use moneo_backend.Infra.TransactionRepository.Scan.{scan-row_of}
use moneo_backend.App.Effect.{apply_transaction_balance_effect}
use moneo_backend.App.Transactions.{
  is_posted, cancel_in_tx, cancel_by_id, when, minus_one, map_transaction_status_error,
}

-- The transaction, cancelled at a time.
abbrev pub cancelled_at_time : Transaction → ℕ → Transaction
cancelled_at_time t at = record t { status = cancelled; cancelled_at = some at; updated_at = at }

selected :
    (t : Transaction) (db : Database)
    → lookup t.id db.transactions ≡ some (row_of t)
    → select_transaction t.user_id t.id db ≡ some (row_of t)
unfolding select_transaction row_of
selected t db l = ground (arith, text_eq_refl t.user_id)

row_of-updated_at : (t : Transaction) → (row_of t).updated_at ≡ t.updated_at
unfolding row_of
row_of-updated_at t = refl

rewrite-row_of :
    (t : Transaction) (at : ℕ)
    → rewrite (row_of t) (cancelled_at_time t at) ≡ row_of (cancelled_at_time t at)
unfolding row_of rewrite
rewrite-row_of t at = refl

-- The new status passes the checks of the table, and nothing else that they look at changes.
checks-cancelled :
    (t : Transaction) (at : ℕ)
    → passes_checks (row_of t) ≡ true
    → passes_checks (rewrite (row_of t) (cancelled_at_time t at)) ≡ true
unfolding passes_checks row_of rewrite status_text status_of is_supported_status text_eq
checks-cancelled t at p = ground arith

module _ (env : Env) where
  find-done :
      (user_id id : Text) (w : World) {row : TransactionRow} {t : Transaction}
      → env.reply w.calls ≡ done
      → select_transaction user_id id w.db ≡ some row
      → scan_transaction id row ≡ ok t
      → find_by_id env user_id id w ≡ (ok t, tick w)
  unfolding find_by_id scan_found
  find-done user_id id w {row} r s h =
      >>=-ok (execute env database_failure (λ db. ok (select_transaction user_id id db, db)))
        (scan_found env id) w (execute-done env database_failure _ w r (ap (λ o. ok (o, w.db)) s))
      ∙ ap (λ o. (o, tick w)) h

  update-row :
      (t : Transaction) (expected : ℕ) (db : Database) {row : TransactionRow}
      → select_transaction t.user_id t.id db ≡ some row
      → row.updated_at ≡ expected
      → passes_checks (rewrite row t) ≡ true
      → update_transaction t expected db
        ≡ ok (true, record db { transactions = insert t.id (rewrite row t) db.transactions })
  unfolding update_transaction
  update-row t expected db {row} s e p = ground arith

  update-done :
      (t : Transaction) (expected : ℕ) (w : World) {row : TransactionRow}
      → env.reply w.calls ≡ done
      → select_transaction t.user_id t.id w.db ≡ some row
      → row.updated_at ≡ expected
      → passes_checks (rewrite row t) ≡ true
      → update_by_id env t expected w ≡ (
        ok tt,
        record (tick w) {
          db = record w.db { transactions = insert t.id (rewrite row t) w.db.transactions };
        },
      )
  unfolding update_by_id report_missed_update
  update-done t expected w r s e p =
      >>=-ok (execute env database_failure (update_transaction t expected))
        (report_missed_update env t.user_id t.id) w
        (execute-done env database_failure (update_transaction t expected) w r
          (update-row t expected w.db s e p))

  cancelling :
      (t : Transaction) (at : ℕ) (w : World)
      → t.status ≡ planned
      → map_error map_transaction_status_error (lift (cancel t at)) w
        ≡ (ok (cancelled_at_time t at), w)
  unfolding cancel cancel_status
  cancelling t at w s = rw s

  no_effect :
      (t : Transaction) (m : Action (Unit {0})) (w : World)
      → t.status ≡ planned
      → when (is_posted t.status) m w ≡ (ok tt, w)
  unfolding is_posted
  no_effect t m w s = rw s

  -- the cancellation after the clock is read, and after the transaction is found
  abbrev cancel_found : Transaction → ℕ → Transaction → Action Transaction
  cancel_found t at current =
      map_error map_transaction_status_error (lift (cancel current at)) >>= λ v.
      update_by_id env v current.updated_at
      >> (when (is_posted current.status)
            (apply_transaction_balance_effect env t.user_id current minus_one at)
          >> pure v)

  abbrev cancel_at : Transaction → ℕ → Action Transaction
  cancel_at t at = find_by_id env t.user_id t.id >>= cancel_found t at

  -- The body of the cancellation of a planned transaction.
  cancel-run :
      (t : Transaction) (w : World)
      → ((n : ℕ) → env.reply n ≡ done)
      → lookup t.id w.db.transactions ≡ some (row_of t)
      → IsMade t
      → is_supported_currency t.amount.currency ≡ true
      → passes_checks (row_of t) ≡ true
      → t.status ≡ planned
      → cancel_in_tx env t.user_id t.id w ≡ (
        ok (cancelled_at_time t (env.now w.calls)),
        record w {
          db = record w.db {
            transactions =
                insert t.id (row_of (cancelled_at_time t (env.now w.calls))) w.db.transactions;
          };
          calls = suc (suc (suc w.calls));
        },
      )
  unfolding cancel_in_tx clock_now ◌>>◌
  cancel-run t w all l m c p s =
      let at = env.now w.calls in
      let u = cancelled_at_time t at in
      let effect : Action (Unit {0}) =
        when (is_posted t.status) (apply_transaction_balance_effect env t.user_id t minus_one at) in
      let written : Transaction → Action Transaction =
        λ v. update_by_id env v t.updated_at >> (effect >> pure v) in
      >>=-ok (clock_now env) (cancel_at t) w refl
      ∙ >>=-ok (find_by_id env t.user_id t.id) (cancel_found t at) (tick w)
          (find-done t.user_id t.id (tick w) (all _) (selected t w.db l) (scan-row_of t m c))
      ∙ >>=-ok (map_error map_transaction_status_error (lift (cancel t at))) written (tick (tick w))
          (cancelling t at (tick (tick w)) s)
      ∙ >>=-ok (update_by_id env u t.updated_at) (λ x. effect >> pure u) (tick (tick w))
          (update-done u t.updated_at (tick (tick w)) (all _) (selected t w.db l)
            (row_of-updated_at t) (checks-cancelled t at p))
      ∙ >>=-ok effect (λ x. pure u) _ (no_effect t _ _ s)
      ∙ rw (rewrite-row_of t at)

  -- A planned transaction that stands in the table, in a supported currency and with a row that passes
  -- its checks, is cancelled when the database carries every statement out: outside of a transaction
  -- the service answers the transaction with the new status and times, its row is rewritten to match,
  -- and nothing else in the tables changes.
  pub cancel_by_id-done :
      (t : Transaction) (w : World)
      → ((n : ℕ) → env.reply n ≡ done)
      → w.in_tx ≡ false
      → lookup t.id w.db.transactions ≡ some (row_of t)
      → IsMade t
      → is_supported_currency t.amount.currency ≡ true
      → passes_checks (row_of t) ≡ true
      → t.status ≡ planned
      → cancel_by_id env t.user_id t.id w ≡ (
        ok (cancelled_at_time t (env.now (suc w.calls))),
        record {
          db = record w.db {
            transactions =
                insert t.id
                  (row_of (cancelled_at_time t (env.now (suc w.calls))))
                  w.db.transactions;
          };
          in_tx = false;
          calls = suc (suc (suc (suc (suc w.calls))));
        },
      )
  unfolding cancel_by_id
  cancel_by_id-done t w all o l m c p s =
      within_tx-done env (cancel_in_tx env t.user_id t.id) w o (all _)
        (cancel-run t (record (tick w) { in_tx = true }) all l m c p s) (all _)
