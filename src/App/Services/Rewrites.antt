-- ===== src/App/Services/Rewrites.antt =====
-- internal/app/accounting/transactions.go: the ledger under `postInTx` and `cancelInTx`, with what
-- they share with `patchInTx`.
use moneo_backend.Common.{
  ℕ, ◌+◌, ◌≡◌, refl, sym, ap, ◌∙◌, true, Text, some, ok, if◌then◌else◌, arith, neg64, is_negative,
}
use mathlib.Core.Path.{subst}
use moneo_backend.Domain.Errors.{Outcome}
use moneo_backend.Domain.Transaction.{
  Transaction, planned, posted, cancelled, new_transaction, post, cancel,
}
use moneo_backend.Domain.Transaction.Rules.{IsMade, new_transaction_iff, new_transaction_idem}
use moneo_backend.Domain.Transaction.Lifecycle.{
  posts, cancels, here, next, Steps-IsMade, post_iff, cancel-fields,
}
use moneo_backend.Infra.Table.{Table, lookup, insert}
use moneo_backend.Infra.Database.{
  TransactionRow, Database, Env, World, >>=-elim, >>-elim, lift-eq-ok, map_error-eq-ok,
  clock_now-db, lift,
}
use moneo_backend.Infra.TransactionRepository.{
  rewrite, scan_transaction, passes_checks, update_by_id,
}
use moneo_backend.Infra.TransactionRepository.Scan.{
  scan-rewrite-checked, scan-IsMade, with_currency, stored_currency,
}
use moneo_backend.Infra.TransactionRepository.Laws.{Found, find-eq-ok, update-eq-ok}
use moneo_backend.App.Effect.Moves.{◌≈◌, AccountsMove}
use moneo_backend.App.Effect.Flow.{flow, signed_flow, apply-AccountsMove}
use moneo_backend.App.Ledger.{IsLedger, IsLedger-rewrite, TotalsMove, TotalsMove-replace}
use moneo_backend.App.Services.Keep.{when-move}
use moneo_backend.App.Transactions.{
  is_posted, plus_one, minus_one, post_dated, map_transaction_status_error, post_in_tx,
  cancel_in_tx,
}

-- `u` may be written over `t`.
pub record Follows (t u : Transaction) : Type 0 where
  pub made : IsMade u
  pub same_id : u.id ≡ t.id
  pub same_user : u.user_id ≡ t.user_id
  pub same_creation : u.created_at ≡ t.created_at

one_row :
    (id : Text) (rows : Table TransactionRow) {r s : TransactionRow}
    → lookup id rows ≡ some r
    → lookup id rows ≡ some s
    → r ≡ s
one_row id rows h k = ground arith

-- The row that `u` is written over is that of `t`, and the posted flows move by `d`.
rewritten-TotalsMove :
    (user_id id : Text) (db : Database) (f : Found user_id id db) (t u : Transaction)
    (g : Found u.user_id u.id db) (d : Text → ℕ)
    → scan_transaction id f.row ≡ ok t
    → Follows t u
    → passes_checks (rewrite g.row u) ≡ true
    → ((a : Text)
        → (if is_posted t.status then flow t a else 0) + d a
          ≈ (if is_posted u.status then flow u a else 0))
    → TotalsMove t.user_id d db.transactions (insert u.id (rewrite g.row u) db.transactions)
unfolding flow
rewritten-TotalsMove user_id id db f t u g d s w c h =
    let (m, i, o, at, _, _) = scan-IsMade id f.row s in
    let id_same : u.id ≡ id = w.same_id ∙ i in
    let row_same : g.row ≡ f.row =
      one_row id db.transactions
        (subst (λ k. lookup k db.transactions ≡ some g.row) id_same g.stands) f.stands in
    let scanned : scan_transaction u.id (rewrite g.row u)
        ≡ ok (with_currency u (stored_currency u)) =
      scan-rewrite-checked g.row u w.made g.owned
        (ap (λ (r : TransactionRow). r.created_at) row_same ∙ sym at ∙ sym w.same_creation) c in
    TotalsMove-replace u.id f.row (rewrite g.row u) db.transactions t
      (with_currency u (stored_currency u)) d (rw id_same f.stands) (rw id_same s) scanned
      w.same_user h

-- What an update has written.
abbrev Written : Transaction → ℕ → Database → Database → Type 0
Written u expected db db' =
    (g : Found u.user_id u.id db) × (g.row.updated_at ≡ expected)
    × (passes_checks (rewrite g.row u) ≡ true)
    × (db' ≡ record db { transactions = insert u.id (rewrite g.row u) db.transactions })

-- An update of `t` by `u` that succeeds, with the effect on the accounts that goes with it.
pub updated-IsLedger :
    (env : Env) (user_id id : Text) (expected : ℕ) (db : Database) (w₁ w₂ : World) (db' : Database)
    (t u : Transaction) (d : Text → ℕ) {r : Unit {0}} (f : Found user_id id db)
    → scan_transaction id f.row ≡ ok t
    → Follows t u
    → w₁.db ≡ db
    → update_by_id env u expected w₁ ≡ (ok r, w₂)
    → AccountsMove t.user_id d w₂.db db'
    → ((a : Text)
        → (if is_posted t.status then flow t a else 0) + d a
          ≈ (if is_posted u.status then flow u a else 0))
    → IsLedger db
    → IsLedger db'
updated-IsLedger env user_id id expected db w₁ w₂ db' t u d f s follows same h move flows l =
    let (g, _, c, e) =
      subst (λ (x : Database). Written u expected x w₂.db) same
        (update-eq-ok env u expected w₁ h) in
    IsLedger-rewrite t.user_id d db db' (insert u.id (rewrite g.row u) db.transactions)
      (subst (λ (x : Database). AccountsMove t.user_id d x db') e move)
      (rewritten-TotalsMove user_id id db f t u g d s follows c flows) l

post-Follows :
    (t d u : Transaction) (at : ℕ)
    → new_transaction (post_dated t at) ≡ ok d
    → post d at ≡ ok u
    → Follows t u × (t.status ≡ planned) × (u.status ≡ posted) × ((a : Text) → flow u a ≡ flow t a)
unfolding post_dated flow
post-Follows t d u at n p =
    let e = ((new_transaction_iff (post_dated t at) d).0 n).1 in
    let (was, q) = (post_iff d u at).0 p in
    let made =
      (Steps-IsMade (next here (posts at p)) (new_transaction_idem (post_dated t at) d n)).0 in
    rw (q, e)
      (
        record { made = rw (q, e) at made; same_id = refl; same_user = refl; same_creation = refl },
        ap (λ (x : Transaction). x.status) (sym e) ∙ was,
        refl,
        λ a. refl,
      )

cancel-Follows :
    (t u : Transaction) (at : ℕ)
    → IsMade t
    → cancel t at ≡ ok u
    → Follows t u × (u.status ≡ cancelled)
cancel-Follows t u at m c =
    let (made, i, o, _, _, _, _) = Steps-IsMade (next here (cancels at c)) m in
    let (k, status) = cancel-fields t u at c in
    (record { made = made; same_id = i; same_user = o; same_creation = k }, status)

cancelled-flows :
    (t u : Transaction)
    → u.status ≡ cancelled
    → (a : Text)
    → (if is_posted t.status then flow t a else 0)
        + (if is_posted t.status then neg64 (flow t a) else 0)
      ≈ (if is_posted u.status then flow u a else 0)
unfolding is_posted neg64
cancelled-flows t u e a = ground (arith, e)

abbrev pub world_db : World → Database
world_db w = w.db

pub last_db :
    {t u : Transaction} {w w' : World}
    → ◌≡◌ {A = Outcome Transaction × World} (ok t, w) (ok u, w')
    → w'.db ≡ w.db
last_db h = ap (λ (r : Outcome Transaction × World). r.1.db) (sym h)

module _ (env : Env) where
  -- A `postInTx` that succeeds leads from a ledger to a ledger.
  pub post-IsLedger :
      (user_id id : Text) (t : Transaction) (w w' : World)
      → post_in_tx env user_id id w ≡ (ok t, w')
      → IsLedger w.db
      → IsLedger w'.db
  unfolding post_in_tx signed_flow is_negative is_posted
  post-IsLedger user_id id t w w' h l = >>=-elim _ _ _ h λ now w₁ h₁ g₁.
      >>=-elim _ _ _ g₁ λ current w₂ h₂ g₂. >>=-elim _ _ _ g₂ λ dated w₃ h₃ g₃.
        >>=-elim _ _ _ g₃ λ candidate w₄ h₄ g₄. >>-elim _ _ _ g₄ λ w₅ h₅ g₅.
          >>-elim _ _ _ g₅ λ w₆ h₆ g₆.
            let (f, d₂, s) = find-eq-ok env user_id id w₁ h₂ in
            let (n, e₃) = lift-eq-ok (new_transaction (post_dated current now)) w₂ h₃ in
            let (p, e₄) =
              lift-eq-ok (post dated now) w₃
                (map_error-eq-ok map_transaction_status_error (lift (post dated now)) w₃ h₄) in
            let (follows, was, is_now, flows) = post-Follows current dated candidate now n p in
            let owner : user_id ≡ current.user_id = sym ((scan-IsMade id f.row s).2 ∙ f.owned) in
            let same : w₄.db ≡ w₁.db = ap world_db e₄ ∙ ap world_db e₃ ∙ d₂ in
            let move = apply-AccountsMove env user_id candidate plus_one now w₅ follows.made h₆ in
            rw (last_db g₆) (
              updated-IsLedger env user_id id current.updated_at w₁.db w₄ w₅ w₆.db current candidate
                (flow candidate) f s follows same h₅
                (subst (λ o. AccountsMove o (flow candidate) w₅.db w₆.db) owner move)
                (λ a. ground (arith, flows a)) (rw (clock_now-db env w h₁) l))

  -- A `cancelInTx` that succeeds leads from a ledger to a ledger.
  pub cancel-IsLedger :
      (user_id id : Text) (t : Transaction) (w w' : World)
      → cancel_in_tx env user_id id w ≡ (ok t, w')
      → IsLedger w.db
      → IsLedger w'.db
  unfolding cancel_in_tx signed_flow is_negative
  cancel-IsLedger user_id id t w w' h l = >>=-elim _ _ _ h λ now w₁ h₁ g₁.
      >>=-elim _ _ _ g₁ λ current w₂ h₂ g₂. >>=-elim _ _ _ g₂ λ candidate w₃ h₃ g₃.
        >>-elim _ _ _ g₃ λ w₄ h₄ g₄. >>-elim _ _ _ g₄ λ w₅ h₅ g₅.
          let (f, d₂, s) = find-eq-ok env user_id id w₁ h₂ in
          let (c, e₃) =
            lift-eq-ok (cancel current now) w₂
              (map_error-eq-ok map_transaction_status_error (lift (cancel current now)) w₂ h₃) in
          let made = (scan-IsMade id f.row s).0 in
          let (follows, is_now) = cancel-Follows current candidate now made c in
          let owner : user_id ≡ current.user_id = sym ((scan-IsMade id f.row s).2 ∙ f.owned) in
          let move =
            when-move env (is_posted current.status) user_id current minus_one now w₄ made h₅ in
          rw (last_db g₅) (
            updated-IsLedger env user_id id current.updated_at w₁.db w₃ w₄ w₅.db current candidate
              (λ a. if is_posted current.status then neg64 (flow current a) else 0) f s follows
              (ap world_db e₃ ∙ d₂) h₄
              (subst
                (λ o.
                  AccountsMove o
                    (λ a. if is_posted current.status then neg64 (flow current a) else 0) w₄.db
                    w₅.db)
                owner move)
              (cancelled-flows current candidate is_now) (rw (clock_now-db env w h₁) l))
