-- ===== src/App/Services/Isolation.antt =====
-- internal/app/accounting/transactions.go: requests for a transaction of another user.
use moneo_backend.Common.{
  ℕ, suc, ◌≡◌, refl, ap, ◌∙◌, true, false, Text, text_eq, none, some, ok, err, arith,
}
use moneo_backend.Domain.Errors.{database_failure, transaction_not_found}
use moneo_backend.Infra.Table.{lookup}
use moneo_backend.Infra.Database.{
  TransactionRow, Database, Env, World, done, tick, >>=-ok, >>=-err, execute, execute-done,
  clock_now,
}
use moneo_backend.Infra.Database.Atomic.{within_tx-fails}
use moneo_backend.Infra.TransactionRepository.{select_transaction, scan_found, find_by_id}
use moneo_backend.App.Transactions.{
  post_in_tx, cancel_in_tx, delete_in_tx, post_by_id, cancel_by_id, delete_transaction_by_id,
  get_by_id,
}

foreign-select :
    (user_id id : Text) (db : Database) {row : TransactionRow}
    → lookup id db.transactions ≡ some row
    → text_eq row.user_id user_id ≡ false
    → select_transaction user_id id db ≡ none
unfolding select_transaction
foreign-select user_id id db l f = ground arith

module _ (env : Env) where
  find-none :
      (user_id id : Text) (w : World)
      → env.reply w.calls ≡ done
      → select_transaction user_id id w.db ≡ none
      → find_by_id env user_id id w ≡ (err transaction_not_found, tick w)
  unfolding find_by_id scan_found
  find-none user_id id w r s =
      >>=-ok (execute env database_failure (λ db. ok (select_transaction user_id id db, db)))
        (scan_found env id) w (execute-done env database_failure _ w r (ap (λ o. ok (o, w.db)) s))

  post-none :
      (user_id id : Text) (w : World)
      → env.reply (suc w.calls) ≡ done
      → select_transaction user_id id w.db ≡ none
      → post_in_tx env user_id id w ≡ (err transaction_not_found, tick (tick w))
  unfolding post_in_tx clock_now
  post-none user_id id w r s =
      >>=-ok (clock_now env) _ w refl
      ∙ >>=-err (find_by_id env user_id id) _ (tick w) (find-none user_id id (tick w) r s)

  cancel-none :
      (user_id id : Text) (w : World)
      → env.reply (suc w.calls) ≡ done
      → select_transaction user_id id w.db ≡ none
      → cancel_in_tx env user_id id w ≡ (err transaction_not_found, tick (tick w))
  unfolding cancel_in_tx clock_now
  cancel-none user_id id w r s =
      >>=-ok (clock_now env) _ w refl
      ∙ >>=-err (find_by_id env user_id id) _ (tick w) (find-none user_id id (tick w) r s)

  delete-none :
      (user_id id : Text) (w : World)
      → env.reply w.calls ≡ done
      → select_transaction user_id id w.db ≡ none
      → delete_in_tx env user_id id w ≡ (err transaction_not_found, tick w)
  unfolding delete_in_tx
  delete-none user_id id w r s =
      >>=-err (find_by_id env user_id id) _ w (find-none user_id id w r s)

  -- Reading, posting, cancelling and deleting, called outside of a transaction on a transaction that
  -- stands in the table under another user, answer that it is not found, when the database carries
  -- every statement out.
  pub foreign_not_found :
      (user_id id : Text) (w : World) {row : TransactionRow}
      → ((n : ℕ) → env.reply n ≡ done)
      → w.in_tx ≡ false
      → lookup id w.db.transactions ≡ some row
      → text_eq row.user_id user_id ≡ false
      → ((get_by_id env user_id id w).0 ≡ err transaction_not_found)
        × ((post_by_id env user_id id w).0 ≡ err transaction_not_found)
        × ((cancel_by_id env user_id id w).0 ≡ err transaction_not_found)
        × ((delete_transaction_by_id env user_id id w).0 ≡ err transaction_not_found)
  unfolding get_by_id post_by_id cancel_by_id delete_transaction_by_id
  foreign_not_found user_id id w all o l f =
      let s = foreign-select user_id id w.db l f in
      let inside : World = record (tick w) { in_tx = true } in
      (
        ap (λ r. r.0) (find-none user_id id w (all _) s),
        within_tx-fails env (post_in_tx env user_id id) w o (all _)
            (post-none user_id id inside (all _) s) (all _),
        within_tx-fails env (cancel_in_tx env user_id id) w o (all _)
            (cancel-none user_id id inside (all _) s) (all _),
        within_tx-fails env (delete_in_tx env user_id id) w o (all _)
            (delete-none user_id id inside (all _) s) (all _),
      )
