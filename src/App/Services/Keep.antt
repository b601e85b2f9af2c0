-- ===== src/App/Services/Keep.antt =====
-- internal/app/accounting/transactions.go: the ledger under the services that add or remove a
-- transaction.
use moneo_backend.Common.{
  ℕ, ◌≡◌, refl, sym, ap, ◌∙◌, Bool, true, false, Text, none, ok, if◌then◌else◌, arith, is_negative,
}
use moneo_backend.Domain.Errors.{Outcome}
use moneo_backend.Domain.Transaction.{Transaction, new_transaction}
use moneo_backend.Domain.Transaction.Rules.{IsMade, new_transaction_iff, new_transaction_idem}
use moneo_backend.Infra.Table.{lookup, insert, erase}
use moneo_backend.Infra.Database.{
  Database, Env, World, >>=-elim, >>-elim, lift-eq-ok, raise_if-eq-ok, clock_now-db, generate_id-db,
}
use moneo_backend.Infra.TransactionRepository.{row_of, scan_transaction}
use moneo_backend.Infra.TransactionRepository.Scan.{scan-checked, with_currency, stored_currency}
use moneo_backend.Infra.TransactionRepository.Laws.{find-eq-ok, create-eq-ok, delete-eq-ok}
use moneo_backend.App.Effect.{apply_transaction_balance_effect}
use moneo_backend.App.Effect.Moves.{AccountsMove, AccountsMove-zero}
use moneo_backend.App.Effect.Flow.{flow, signed_flow, apply-AccountsMove}
use moneo_backend.App.Ledger.{
  IsLedger, IsLedger-move, IsLedger-rewrite, TotalsMove-insert, TotalsMove-erase,
}
use moneo_backend.App.Transactions.{
  CreateTransactionInput, DuplicateTransactionInput, is_posted, plus_one, when, created_params,
  apply_and_create, create_in_tx, delete_in_tx, duplicate_in_tx, duplicate_params,
}

duplicate-user :
    (input : DuplicateTransactionInput) (source : Transaction) (now : ℕ) (id : Text)
    (t : Transaction)
    → new_transaction (duplicate_params input source now id) ≡ ok t
    → t.user_id ≡ input.user_id
unfolding duplicate_params
duplicate-user input source now id t h =
    ap (λ (x : Transaction). x.user_id)
      ((new_transaction_iff (duplicate_params input source now id) t).0 h).1

module _ (env : Env) where
  -- the effect of a new or cancelled transaction, when there is one
  pub when-move :
      (b : Bool) (user_id : Text) (t : Transaction) (sign at : ℕ) (w : World) {u : Unit {0}}
      {w' : World}
      → IsMade t
      → when b (apply_transaction_balance_effect env user_id t sign at) w ≡ (ok u, w')
      → AccountsMove user_id (λ a. if b then signed_flow sign t a else 0) w.db w'.db
  when-move true user_id t sign at w m h = apply-AccountsMove env user_id t sign at w m h
  when-move false user_id t sign at w {w' = w'} m h =
      AccountsMove-zero user_id w.db w'.db (ground arith)

  inserted :
      (t : Transaction) (db db₁ db₂ : Database)
      → IsMade t
      → AccountsMove t.user_id
          (λ a. if is_posted t.status then signed_flow plus_one t a else 0)
          db
          db₁
      → (lookup t.id db₁.transactions ≡ none)
      → scan_transaction t.id (row_of t) ≡ ok (with_currency t (stored_currency t))
      → db₂ ≡ record db₁ { transactions = insert t.id (row_of t) db₁.transactions }
      → IsLedger db
      → IsLedger db₂
  unfolding signed_flow is_negative flow
  inserted t db db₁ db₂ m move n s e l =
      let same = move.transactions_stay in
      rw (e, same)
        (IsLedger-move t.user_id (λ a. if is_posted t.status then flow t a else 0) db db₁
          (insert t.id (row_of t) db.transactions) move
          (TotalsMove-insert t.id (row_of t) db.transactions (with_currency t (stored_currency t))
            (rw same at n) s)
          l)

  -- A new transaction that the constructor made is applied and written.
  pub apply_and_create-IsLedger :
      (now : ℕ) (t u : Transaction) (w w' : World)
      → IsMade t
      → apply_and_create env t.user_id now t w ≡ (ok u, w')
      → IsLedger w.db
      → IsLedger w'.db
  unfolding apply_and_create
  apply_and_create-IsLedger now t u w w' m h l = >>-elim _ _ _ h λ w₂ h₂ g₂.
      >>-elim _ _ _ h₂ λ w₁ h₁ g₁.
        let (n, c, e) = create-eq-ok env t w₁ g₁ in
        let last : w'.db ≡ w₂.db = ap (λ (r : Outcome Transaction × World). r.1.db) (sym g₂) in
        rw last (
          inserted t w.db w₁.db w₂.db m
            (when-move (is_posted t.status) t.user_id t plus_one now w m h₁) n (scan-checked t m c)
            e l)

  -- A `createInTx` that succeeds leads from a ledger to a ledger.
  pub create-IsLedger :
      (input : CreateTransactionInput) (t : Transaction) (w w' : World)
      → create_in_tx env input w ≡ (ok t, w')
      → IsLedger w.db
      → IsLedger w'.db
  unfolding create_in_tx
  create-IsLedger input t w w' h l = >>=-elim _ _ _ h λ now w₁ h₁ g₁.
      >>=-elim _ _ _ g₁ λ id w₂ h₂ g₂. >>=-elim _ _ _ g₂ λ made w₃ h₃ g₃.
        let (n, e) = lift-eq-ok (new_transaction (created_params input now id)) w₂ h₃ in
        apply_and_create-IsLedger now made t w₃ w'
          (new_transaction_idem (created_params input now id) made n) g₃
          (rw (e, generate_id-db env w₁ h₂, clock_now-db env w h₁) l)

  -- The body of `DuplicateByID`, when it succeeds, leads from a ledger to a ledger.
  pub duplicate-IsLedger :
      (input : DuplicateTransactionInput) (now : ℕ) (t : Transaction) (w w' : World)
      → duplicate_in_tx env input now w ≡ (ok t, w')
      → IsLedger w.db
      → IsLedger w'.db
  unfolding duplicate_in_tx
  duplicate-IsLedger input now t w w' h l = >>=-elim _ _ _ h λ source w₁ h₁ g₁.
      >>=-elim _ _ _ g₁ λ id w₂ h₂ g₂. >>=-elim _ _ _ g₂ λ made w₃ h₃ g₃.
        let (n, e) = lift-eq-ok (new_transaction (duplicate_params input source now id)) w₂ h₃ in
        let (_, d, _) = find-eq-ok env input.user_id input.transaction_id w h₁ in
        let owner : made.user_id ≡ input.user_id = duplicate-user input source now id made n in
        apply_and_create-IsLedger now made t w₃ w'
          (new_transaction_idem (duplicate_params input source now id) made n) (rw (← owner) at g₃)
          (rw (e, generate_id-db env w₁ h₂, d) l)

  -- The body of `DeleteByID`, when it succeeds, leads from a ledger to a ledger.
  pub delete-IsLedger :
      (user_id id : Text) (t : Transaction) (w w' : World)
      → delete_in_tx env user_id id w ≡ (ok t, w')
      → IsLedger w.db
      → IsLedger w'.db
  unfolding delete_in_tx
  delete-IsLedger user_id id t w w' h l = >>=-elim _ _ _ h λ current w₁ h₁ g₁.
      >>-elim _ _ _ g₁ λ w₂ h₂ g₂. >>-elim _ _ _ g₂ λ w₃ h₃ g₃.
        let (f, d, s) = find-eq-ok env user_id id w h₁ in
        let (p, e) = raise_if-eq-ok (is_posted current.status) _ w₁ h₂ in
        let (_, _, x) = delete-eq-ok env user_id id current.updated_at w₂ h₃ in
        let last : w'.db ≡ w₃.db = ap (λ (r : Outcome Transaction × World). r.1.db) (sym g₃) in
        let same : w₂.db ≡ w.db = ap (λ (v : World). v.db) e ∙ d in
        rw (last, x, same)
          (IsLedger-rewrite current.user_id (λ a. 0) w.db
            (record w.db { transactions = erase id w.db.transactions }) (erase id w.db.transactions)
            (AccountsMove-zero current.user_id _ _ refl)
            (TotalsMove-erase id f.row w.db.transactions current f.stands s p) l)
