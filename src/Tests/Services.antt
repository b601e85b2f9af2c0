-- ===== src/Tests/Services.antt =====
-- The theorems on the services and the repositories at concrete inputs.
use moneo_backend.Common.{◌≡◌, refl, ap, false, codes, text_eq, ok, err, is_negative}
use moneo_backend.Domain.Errors.{transaction_not_found}
use moneo_backend.Domain.Money.{currency_of, currency_text, is_supported_currency}
use moneo_backend.Domain.Transaction.{
  is_supported_type, is_supported_status, type_of, status_of, type_text, status_text,
}
use moneo_backend.Infra.Table.{lookup, erase, insert}
use moneo_backend.Infra.Database.{within_tx}
use moneo_backend.Infra.Database.Atomic.{within_tx-IsAtomic, IsAtomic, within_tx_idem}
use moneo_backend.Infra.TransactionRepository.{row_of, scan_transaction, passes_checks}
use moneo_backend.Infra.TransactionRepository.Scan.{scan-checked, with_currency, stored_currency}
use moneo_backend.Infra.TransactionRepository.Laws.{Found, delete-eq-ok}
use moneo_backend.App.Effect.Moves.{AccountsMove}
use moneo_backend.App.Effect.Flow.{apply-AccountsMove, signed_flow}
use moneo_backend.App.Transactions.{
  post_in_tx, minus_one, get_by_id, post_by_id, cancel_by_id, delete_transaction_by_id,
}
use moneo_backend.App.Ledger.{IsLedger}
use moneo_backend.App.Services.Progress.{cancel_by_id-done, cancelled_at_time}
use moneo_backend.App.Services.Isolation.{foreign_not_found}
use moneo_backend.App.Services.Atomic.{posts, serve, serve_atomic, opened, served, Session-IsLedger}
use moneo_backend.Tests.Data.{
  user, lunch, saved, db, env, world, lunch-IsMade, saved-IsMade, db-IsLedger,
}
use moneo_backend.Tests.Runs.{after_delete, after_reversal, runs, failing}

Session-IsLedger_example : IsLedger (serve failing (posts user (codes "t1")) world).1.db
Session-IsLedger_example =
    Session-IsLedger (served failing 0 (posts user (codes "t1")) opened) db-IsLedger

serve_atomic_example :
    let r = serve failing (posts user (codes "t1")) world in (r.1.in_tx ≡ false) × (r.1.db ≡ db)
serve_atomic_example =
    serve_atomic failing (posts user (codes "t1")) world (λ n. refl) refl (ap (λ r. r.0) runs.8)

within_tx_idem_example :
    within_tx env (within_tx env (post_in_tx env user (codes "t1"))) world
    ≡ within_tx env (post_in_tx env user (codes "t1")) world
within_tx_idem_example = within_tx_idem env (post_in_tx env user (codes "t1")) world

within_tx-IsAtomic_example :
    let m = post_in_tx env user (codes "t1") in
    let r = within_tx env m world in (r.1.in_tx ≡ false) × IsAtomic env m world r.0 r.1
within_tx-IsAtomic_example = within_tx-IsAtomic env (post_in_tx env user (codes "t1")) world refl

delete-eq-ok_example :
    (f : Found user (codes "t1") db) × (text_eq f.row.status_column (codes "posted") ≡ false)
    × (after_delete.db ≡ record db { transactions = erase (codes "t1") db.transactions })
delete-eq-ok_example = delete-eq-ok env user (codes "t1") 3 world runs.7

scan-checked_example :
    scan_transaction (codes "t1") (row_of lunch) ≡ ok (with_currency lunch (stored_currency lunch))
unfolding passes_checks row_of type_of type_text status_of status_text currency_of currency_text
    text_eq is_supported_type is_supported_status is_supported_currency is_negative
scan-checked_example = scan-checked lunch lunch-IsMade refl

apply-AccountsMove_example : AccountsMove user (signed_flow minus_one saved) db after_reversal.db
apply-AccountsMove_example =
    apply-AccountsMove env user saved minus_one 100 world saved-IsMade runs.6

cancel_by_id-done_example : cancel_by_id env user (codes "t1") world ≡ (
  ok (cancelled_at_time lunch 101),
  record {
    db = record db {
      transactions = insert (codes "t1") (row_of (cancelled_at_time lunch 101)) db.transactions;
    };
    in_tx = false;
    calls = 5;
  },
)
unfolding lookup text_eq passes_checks row_of type_of type_text status_of status_text currency_of
    currency_text is_supported_type is_supported_status is_supported_currency is_negative
cancel_by_id-done_example =
    cancel_by_id-done env lunch world (λ n. refl) refl refl lunch-IsMade refl refl refl

foreign_not_found_example :
    ((get_by_id env (codes "u2") (codes "t1") world).0 ≡ err transaction_not_found)
    × ((post_by_id env (codes "u2") (codes "t1") world).0 ≡ err transaction_not_found)
    × ((cancel_by_id env (codes "u2") (codes "t1") world).0 ≡ err transaction_not_found)
    × ((delete_transaction_by_id env (codes "u2") (codes "t1") world).0 ≡ err transaction_not_found)
unfolding lookup text_eq row_of
foreign_not_found_example =
    foreign_not_found env (codes "u2") (codes "t1") world (λ n. refl) refl refl refl
