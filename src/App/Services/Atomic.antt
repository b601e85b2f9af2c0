-- ===== src/App/Services/Atomic.antt =====
-- internal/app/accounting: the services for transactions and accounts as they are called, and
-- sequences of requests.
use moneo_backend.Common.{
  ℕ, ◌≡◌, refl, ◌∙◌, false, Text, ok, err, List, Bool-cases, inl, inr, arith,
}
use moneo_backend.Domain.Errors.{Error, Outcome}
use moneo_backend.Infra.Database.{Database, Env, World, Action, ◌>>=◌, clock_now}
use moneo_backend.Infra.Database.Atomic.{CommitsAnswered, within_tx-err, within_tx-keeps}
use moneo_backend.App.Transactions.{
  CreateTransactionInput, PatchTransactionInput, DuplicateTransactionInput, create_transaction,
  patch_transaction, delete_transaction_by_id, post_by_id, cancel_by_id, duplicate_by_id,
  duplicate_in_tx, patch_in_tx,
}
use moneo_backend.Infra.Database.Clean.{IsClean, clean-keeps}
use moneo_backend.App.Accounts.{
  CreateAccountInput, UpdateAccountInput, create_account, update_account, archive_account,
  restore_account,
}
use moneo_backend.App.Accounts.Clean.{
  create_account-IsClean, update_account-IsClean, archive_account-IsClean, restore_account-IsClean,
}
use moneo_backend.App.Accounts.Keep.{
  create_account-IsLedger, update_account-IsLedger, archive_account-IsLedger,
  restore_account-IsLedger,
}
use moneo_backend.App.Bulk.{create_bulk, patch_bulk}
use moneo_backend.App.Bulk.Keep.{
  create_bulk-err, patch_bulk-err, create_bulk-IsLedger, patch_bulk-IsLedger,
}
use moneo_backend.App.Ledger.{IsLedger}
use moneo_backend.App.Services.Keep.{create-IsLedger, delete-IsLedger, duplicate-IsLedger}
use moneo_backend.App.Services.Rewrites.{post-IsLedger, cancel-IsLedger}
use moneo_backend.App.Services.Patches.{patch-IsLedger}

-- The requests that change transactions or accounts.
pub data Request : Type 0 where
  creates : CreateTransactionInput → Request
  patches : PatchTransactionInput → Request
  deletes posts cancels : Text → Text → Request
  duplicates : DuplicateTransactionInput → Request
  bulk_creates : List CreateTransactionInput → Request
  bulk_patches : List PatchTransactionInput → Request
  opens_account : CreateAccountInput → Request
  updates_account : UpdateAccountInput → Request
  archives_account restores_account : Text → Text → Request

-- Without the value of the answer.
unfoldable pub only_done : {A : Type 0} → Action A → Action (Unit {0})
only_done m w = let (r, w') = m w in (elim r [ ok a ↦ ok tt | err e ↦ err e ], w')

only_done-err :
    {A : Type 0} (m : Action A) (w : World) {e : Error}
    → (only_done m w).0 ≡ err e
    → (m w).0 ≡ err e
unfolding only_done
only_done-err {A} m w {e} h = outcome (m w).0 h
  where
    outcome :
        (r : Outcome A)
        → ◌≡◌ {A = Outcome Unit} (elim r [ ok a ↦ ok tt | err x ↦ err x ]) (err e)
        → r ≡ err e
    outcome (ok a) q = cc
    outcome (err x) q = ground arith

unfoldable pub serve : Env → Request → Action (Unit {0})
unfolding only_done
serve env (creates input) = only_done (create_transaction env input)
serve env (patches p) = only_done (patch_transaction env p)
serve env (deletes user_id id) = only_done (delete_transaction_by_id env user_id id)
serve env (posts user_id id) = only_done (post_by_id env user_id id)
serve env (cancels user_id id) = only_done (cancel_by_id env user_id id)
serve env (duplicates input) = only_done (duplicate_by_id env input)
serve env (bulk_creates items) = only_done (create_bulk env items)
serve env (bulk_patches items) = only_done (patch_bulk env items)
serve env (opens_account input) = only_done (create_account env input)
serve env (updates_account input) = only_done (update_account env input)
serve env (archives_account user_id id) = only_done (archive_account env user_id id)
serve env (restores_account user_id id) = only_done (restore_account env user_id id)

clean_outside :
    {A : Type 0} (m : Action A) (w : World) {e : Error}
    → IsClean m
    → w.in_tx ≡ false
    → (only_done m w).0 ≡ err e
    → ((m w).1.in_tx ≡ false) × ((m w).1.db ≡ w.db)
unfolding IsClean
clean_outside m w c h x = let (d, i) = c w _ (only_done-err m w x) in (i ∙ h, d)

-- Every service, called outside of a transaction, where no COMMIT that is answered by an error has been
-- carried out: when it answers an error, the tables are as they were before the call, and no
-- transaction stays open.
pub serve_atomic :
    (env : Env) (request : Request) (w : World) {e : Error}
    → CommitsAnswered env
    → w.in_tx ≡ false
    → (serve env request w).0 ≡ err e
    → ((serve env request w).1.in_tx ≡ false) × ((serve env request w).1.db ≡ w.db)
unfolding serve create_transaction patch_transaction delete_transaction_by_id post_by_id
    cancel_by_id duplicate_by_id ◌>>=◌ clock_now only_done
serve_atomic env (creates input) w k h x =
    within_tx-err env _ w k h (only_done-err (create_transaction env input) w x)
serve_atomic env (patches p) w k h x =
    let y = only_done-err (patch_transaction env p) w x in
    elim (Bool-cases p.status_set) [
      | inl refused ↦ simp refused (h, refl)
      | inr in_tx ↦ simp in_tx (within_tx-err env (patch_in_tx env p) w k h (simp in_tx at y))
    ]
serve_atomic env (deletes user_id id) w k h x =
    within_tx-err env _ w k h (only_done-err (delete_transaction_by_id env user_id id) w x)
serve_atomic env (posts user_id id) w k h x =
    within_tx-err env _ w k h (only_done-err (post_by_id env user_id id) w x)
serve_atomic env (cancels user_id id) w k h x =
    within_tx-err env _ w k h (only_done-err (cancel_by_id env user_id id) w x)
serve_atomic env (duplicates input) w k h x =
    within_tx-err env (duplicate_in_tx env input (env.now w.calls)) _ k h
      (only_done-err (duplicate_by_id env input) w x)
serve_atomic env (bulk_creates items) w k h x =
    create_bulk-err env items w k h (only_done-err (create_bulk env items) w x)
serve_atomic env (bulk_patches items) w k h x =
    patch_bulk-err env items w k h (only_done-err (patch_bulk env items) w x)
serve_atomic env (opens_account input) w k h x =
    clean_outside _ w (create_account-IsClean env input) h x
serve_atomic env (updates_account input) w k h x =
    clean_outside _ w (update_account-IsClean env input) h x
serve_atomic env (archives_account user_id id) w k h x =
    clean_outside _ w (archive_account-IsClean env user_id id) h x
serve_atomic env (restores_account user_id id) w k h x =
    clean_outside _ w (restore_account-IsClean env user_id id) h x

-- Every service, called outside of a transaction, keeps the ledger, whatever its outcome.
pub serve-IsLedger :
    (env : Env) (request : Request) (w : World)
    → w.in_tx ≡ false
    → IsLedger w.db
    → IsLedger (serve env request w).1.db
unfolding serve create_transaction patch_transaction delete_transaction_by_id post_by_id
    cancel_by_id duplicate_by_id ◌>>=◌ clock_now only_done
serve-IsLedger env (creates input) w h l =
    within_tx-keeps IsLedger env _ w (create-IsLedger env input) h l
serve-IsLedger env (patches p) w h l = elim (Bool-cases p.status_set) [
  | inl refused ↦ simp refused l
  | inr in_tx ↦ simp in_tx (within_tx-keeps IsLedger env _ w (patch-IsLedger env p) h l)
]
serve-IsLedger env (deletes user_id id) w h l =
    within_tx-keeps IsLedger env _ w (delete-IsLedger env user_id id) h l
serve-IsLedger env (posts user_id id) w h l =
    within_tx-keeps IsLedger env _ w (post-IsLedger env user_id id) h l
serve-IsLedger env (cancels user_id id) w h l =
    within_tx-keeps IsLedger env _ w (cancel-IsLedger env user_id id) h l
serve-IsLedger env (duplicates input) w h l =
    within_tx-keeps IsLedger env (duplicate_in_tx env input (env.now w.calls)) _
      (duplicate-IsLedger env input (env.now w.calls)) h l
serve-IsLedger env (bulk_creates items) w h l = create_bulk-IsLedger env items w h l
serve-IsLedger env (bulk_patches items) w h l = patch_bulk-IsLedger env items w h l
serve-IsLedger env (opens_account input) w h l =
    clean-keeps IsLedger _ (create_account-IsClean env input) (create_account-IsLedger env input) w
      l
serve-IsLedger env (updates_account input) w h l =
    clean-keeps IsLedger _ (update_account-IsClean env input) (update_account-IsLedger env input) w
      l
serve-IsLedger env (archives_account user_id id) w h l =
    clean-keeps IsLedger _ (archive_account-IsClean env user_id id)
      (archive_account-IsLedger env user_id id) w l
serve-IsLedger env (restores_account user_id id) w h l =
    clean-keeps IsLedger _ (restore_account-IsClean env user_id id)
      (restore_account-IsLedger env user_id id) w l

-- One request after another, each in a world outside of its own; only the tables stay.
pub data Session (start : Database) : Database → Type 0 where
  opened : Session start start
  served :
      {db : Database} (env : Env) (calls : ℕ) (request : Request)
      → Session start db
      → Session start (serve env request (record { db = db; in_tx = false; calls = calls })).1.db

-- Any sequence of requests, with any failures of the database, a COMMIT that is answered by an error
-- but kept among them, any clock and any generator of ids, leads from a ledger to a ledger.
pub Session-IsLedger : {start db : Database} → Session start db → IsLedger start → IsLedger db
Session-IsLedger opened l = l
Session-IsLedger (served env calls request s) l =
    serve-IsLedger env request _ refl (Session-IsLedger s l)
