-- ===== src/Ops/Repair/Ledger.antt =====
-- internal/ops/repair/transactions_format_job.go: the ledger under the job.
use moneo_backend.Common.{
  ℕ, ◌+◌, [], ◌≡◌, ◌≢◌, refl, sym, ap, ◌∙◌, Bool, true, false, Text, trim_space, Option, none, some,
  ok, err, if◌then◌else◌, arith, Result, Option-cases, Bool-cases, inl, inr,
}
use moneo_backend.Common
use moneo_backend.Domain.Errors.{Error, Outcome}
use moneo_backend.Domain.Money.{parse_currency}
use moneo_backend.Domain.Transaction.{
  Transaction, new_transaction, parse_transaction_type, parse_transaction_status,
}
use moneo_backend.Domain.Transaction.Rules.{IsAdmissible, new_transaction_iff}
use moneo_backend.Infra.Database.{TransactionRow, AccountRow, Database}
use moneo_backend.Infra.Table.{lookup, total-insert}
use moneo_backend.Infra.TransactionRepository.{scan_transaction, params_of}
use moneo_backend.App.Effect.Flow.{flow}
use moneo_backend.App.Ledger.{
  IsLedger, IsBalanced, posted_flow, row_flow, scanned_flow, posted_total,
}
use moneo_backend.Ops.Repair.{FormatPatch, patched_row, update_format}

-- what the job changes of a transaction
abbrev retimed : Transaction → Option ℕ → Option ℕ → ℕ → Transaction
retimed t posted_at cancelled_at now = record t {
  income_source_id = none;
  posted_at = posted_at;
  cancelled_at = cancelled_at;
  updated_at = now;
}

same_parse :
    {A : Type 0} (user_id a : Text) (parsed : Outcome A) (k k' : A → Outcome Transaction)
    → ((x : A) → scanned_flow user_id a (k x) ≡ scanned_flow user_id a (k' x))
    → scanned_flow user_id a (Common.◌>>=◌ parsed k)
      ≡ scanned_flow user_id a (Common.◌>>=◌ parsed k')
unfolding scanned_flow
same_parse user_id a (ok x) k k' h = h x
same_parse user_id a (err e) k k' h = refl

retimed-IsAdmissible :
    (t : Transaction) (p c : Option ℕ) (now : ℕ)
    → (IsAdmissible (retimed t p c now) → IsAdmissible t)
      × (IsAdmissible t → IsAdmissible (retimed t p c now))
retimed-IsAdmissible t p c now = (
  λ a. record {
    id_given = a.id_given;
    user_given = a.user_given;
    status_known = a.status_known;
    amount_sign = a.amount_sign;
    category_given = a.category_given;
    shaped = a.shaped;
  },
  λ a. record {
    id_given = a.id_given;
    user_given = a.user_given;
    status_known = a.status_known;
    amount_sign = a.amount_sign;
    category_given = a.category_given;
    shaped = a.shaped;
  },
)

err-ne-ok : {A : Type 0} {e : Error} {a : A} → ◌≢◌ {A = Outcome A} (err e) (ok a)
err-ne-ok h = cc

new_transaction-retimed :
    (user_id a : Text) (t : Transaction) (p c : Option ℕ) (now : ℕ)
    → scanned_flow user_id a (new_transaction (retimed t p c now))
      ≡ scanned_flow user_id a (new_transaction t)
unfolding scanned_flow posted_flow flow
new_transaction-retimed user_id a t p c now =
    both (new_transaction t) (new_transaction (retimed t p c now)) refl refl
  where
    both :
        (r r' : Outcome Transaction)
        → new_transaction t ≡ r
        → new_transaction (retimed t p c now) ≡ r'
        → scanned_flow user_id a r' ≡ scanned_flow user_id a r
    both (ok u) (ok u') h h' =
        let e = ((new_transaction_iff t u).0 h).1 in
        let e' = ((new_transaction_iff (retimed t p c now) u').0 h').1 in rw (e, e') refl
    both (ok u) (err x) h h' =
        let made = (retimed-IsAdmissible t p c now).1 ((new_transaction_iff t u).0 h).0 in
        absurd (err-ne-ok (sym h' ∙ (new_transaction_iff (retimed t p c now) _).1 (made, refl)))
    both (err x) (ok u') h h' =
        let made =
          (retimed-IsAdmissible t p c now).0
            ((new_transaction_iff (retimed t p c now) u').0 h').0 in
        absurd (err-ne-ok (sym h ∙ (new_transaction_iff t _).1 (made, refl)))
    both (err x) (err y) h h' = refl

-- The flow of a row does not change with the columns that the job writes.
row_flow-patched_row :
    (user_id a id : Text) (row : TransactionRow) (patch : FormatPatch) (now : ℕ)
    → row_flow user_id a id (patched_row row patch now) ≡ row_flow user_id a id row
unfolding row_flow scan_transaction params_of patched_row
row_flow-patched_row user_id a id row patch now =
    same_parse user_id a (parse_transaction_type (trim_space row.type_column)) _ _ λ y.
      same_parse user_id a (parse_transaction_status (trim_space row.status_column)) _ _ λ s.
        same_parse user_id a (parse_currency (trim_space row.currency)) _ _ λ c.
          new_transaction-retimed user_id a (params_of id row y s c) patch.posted_at
            patch.cancelled_at now

posted_total-update :
    (user_id a id : Text) (expected : ℕ) (patch : FormatPatch) (now : ℕ) (db db' : Database)
    (b : Bool)
    → update_format id expected patch now db ≡ ok (b, db')
    → (posted_total user_id a db'.transactions ≡ posted_total user_id a db.transactions)
      × (db'.accounts ≡ db.accounts)
unfolding update_format posted_total
posted_total-update user_id a id expected patch now db db' b h =
    elim (Option-cases (lookup id db.transactions)) [
      | inl absent ↦ ground arith
      | inr (row, e) ↦ ground (
        arith,
        total-insert (row_flow user_id a) id (patched_row row patch now) db.transactions {q = row},
        row_flow-patched_row user_id a id row patch now,
      )
    ]

-- The statement of the job keeps the ledger.
pub update_format-IsLedger :
    (id : Text) (expected : ℕ) (patch : FormatPatch) (now : ℕ) (db db' : Database) (b : Bool)
    → update_format id expected patch now db ≡ ok (b, db')
    → IsLedger db
    → IsLedger db'
update_format-IsLedger id expected patch now db db' b h l = record {
  balanced = λ a.
      let same = λ (u : Text). (posted_total-update u a id expected patch now db db' b h).0 in
      let (_, accounts) = posted_total-update [] a id expected patch now db db' b h in
      rw accounts (kept a (lookup a db.accounts) same (l.balanced a));
}
  where
    kept :
        (a : Text) (o : Option AccountRow)
        → ((u : Text) → posted_total u a db'.transactions ≡ posted_total u a db.transactions)
        → IsBalanced db.transactions a o
        → IsBalanced db'.transactions a o
    kept a none same k = λ u. rw (same u) (k u)
    kept a (some r) same k = rw (same r.user_id) k
