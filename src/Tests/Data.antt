-- ===== src/Tests/Data.antt =====
-- Two accounts of one user, and a planned and a posted transaction.
use moneo_backend.Common.{
  ◌+◌, ◌-◌, ◌≡◌, refl, Bool, true, false, Text, codes, text_eq, none, some, [], ◌∷◌, ok, arith,
  text_eq_iff, if◌then◌else◌, int64_mod, neg64, is_negative, trim_space, is_empty,
}
use moneo_backend.Domain.Money.{rub, is_supported_currency}
use moneo_backend.Domain.Transaction.{
  Transaction, expense, transfer, planned, posted, new_transaction, is_blank, is_supported_type,
  is_supported_status, is_transfer, has_subcategory_without_category, has_id, same_id,
  validate_type_invariants, normalize_comment,
}
use moneo_backend.Domain.Transaction.Rules.{IsMade}
use moneo_backend.Infra.Table.{lookup, total}
use moneo_backend.Infra.Database.{AccountRow, Database, Env, World, done}
use moneo_backend.Infra.TransactionRepository.{row_of, scan_transaction}
use moneo_backend.Infra.TransactionRepository.Scan.{scan-row_of}
use moneo_backend.App.Effect.Flow.{flow, is_account}
use moneo_backend.App.Transactions.{is_posted}
use moneo_backend.App.Ledger.{IsLedger, IsBalanced, posted_total, posted_flow, row_flow-scan}

abbrev pub user : Text
user = codes "u1"

abbrev pub cash_account : AccountRow
cash_account = record {
  user_id = user;
  name = codes "Cash";
  type_column = codes "cash";
  currency = codes "RUB";
  balance_minor = 900;
  initial_balance_minor = 1000;
  include_in_net_worth = true;
  include_in_daily_budget = true;
  archived_at = none;
  created_at = 1;
  updated_at = 7;
}

abbrev pub savings_account : AccountRow
savings_account = record cash_account {
  name = codes "Savings";
  type_column = codes "savings";
  balance_minor = 100;
  initial_balance_minor = 0;
}

-- an expense of 3.00 that is planned
abbrev pub lunch : Transaction
lunch = record {
  id = codes "t1";
  user_id = user;
  transaction_type = expense;
  status = planned;
  amount = record { minor_units = 300; currency = rub };
  account_from_id = some (codes "a1");
  account_to_id = none;
  category_id = some (codes "c1");
  subcategory_id = none;
  income_source_id = none;
  comment = some (codes "lunch");
  occurred_at = none;
  planned_at = some 50;
  posted_at = none;
  cancelled_at = none;
  created_at = 2;
  updated_at = 3;
}

-- a transfer of 1.00 that is posted
abbrev pub saved : Transaction
saved = record lunch {
  id = codes "t2";
  transaction_type = transfer;
  status = posted;
  amount = record { minor_units = 100; currency = rub };
  account_to_id = some (codes "a2");
  category_id = none;
  comment = none;
  posted_at = some 4;
}

abbrev pub db : Database
db = record {
  transactions = (codes "t1", row_of lunch) ∷ (codes "t2", row_of saved) ∷ [];
  accounts = (codes "a1", cash_account) ∷ (codes "a2", savings_account) ∷ [];
  users = [];
  sessions = [];
  one_time_tokens = [];
}

abbrev pub env : Env
env = record {
  reply = λ n. done;
  now = λ n. 100 + n;
  new_id = λ n. codes "t3";
  commit_kept = λ n. false;
}

abbrev pub world : World
world = record { db = db; in_tx = false; calls = 0 }

pub lunch-IsMade : IsMade lunch
unfolding new_transaction is_blank trim_space is_empty is_supported_type is_supported_status
    is_negative is_transfer has_subcategory_without_category has_id validate_type_invariants
    normalize_comment
lunch-IsMade = refl

pub scan-lunch : scan_transaction (codes "t1") (row_of lunch) ≡ ok lunch
unfolding is_supported_currency
scan-lunch = scan-row_of lunch lunch-IsMade refl

pub saved-IsMade : IsMade saved
unfolding new_transaction is_blank trim_space is_empty is_supported_type is_supported_status
    is_negative is_transfer has_subcategory_without_category has_id same_id text_eq
    validate_type_invariants normalize_comment
saved-IsMade = refl

scan-saved : scan_transaction (codes "t2") (row_of saved) ≡ ok saved
unfolding is_supported_currency
scan-saved = scan-row_of saved saved-IsMade refl

posted_total-db :
    (u a : Text) → posted_total u a db.transactions ≡ posted_flow u a lunch + posted_flow u a saved
unfolding posted_total total
posted_total-db u a =
    rw
      (
        row_flow-scan u a (codes "t1") (row_of lunch) lunch scan-lunch,
        row_flow-scan u a (codes "t2") (row_of saved) saved scan-saved,
      )
      (omega arith)

flows :
    (posted_flow user (codes "a1") lunch + posted_flow user (codes "a1") saved ≡ int64_mod - 100)
    × (posted_flow user (codes "a2") lunch + posted_flow user (codes "a2") saved ≡ 100)
unfolding posted_flow is_posted text_eq flow is_account has_id is_blank trim_space is_empty neg64
flows = (refl, refl)

elsewhere :
    (u a : Text)
    → text_eq (codes "a1") a ≡ false
    → text_eq (codes "a2") a ≡ false
    → posted_flow u a lunch + posted_flow u a saved ≡ 0
unfolding posted_flow is_posted flow is_account has_id is_blank trim_space is_empty neg64
elsewhere u a e f = ground arith

db-IsBalanced :
    (a : Text) (first second : Bool)
    → text_eq (codes "a1") a ≡ first
    → text_eq (codes "a2") a ≡ second
    → IsBalanced db.transactions a
        (if first then some cash_account else if second then some savings_account else none)
db-IsBalanced a true second e f =
    rw (posted_total-db user a, ← (text_eq_iff (codes "a1") a).0 e, flows.0)
db-IsBalanced a false true e f =
    rw (posted_total-db user a, ← (text_eq_iff (codes "a2") a).0 f, flows.1)
db-IsBalanced a false false e f = λ u. rw (posted_total-db u a, elsewhere u a e f)

pub db-IsLedger : IsLedger db
unfolding lookup
db-IsLedger = record {
  balanced = λ a. db-IsBalanced a (text_eq (codes "a1") a) (text_eq (codes "a2") a) refl refl;
}
