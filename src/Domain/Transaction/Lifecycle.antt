-- ===== src/Domain/Transaction/Lifecycle.antt =====
-- internal/domain/transactions/transaction.go: the state changes of a transaction, as steps.
use moneo_backend.Common.{ℕ, zero, suc, ◌+◌, ◌≤◌, ◌≡◌, ◌↔◌, refl, ap, true, Option, some, ok, arith}
use moneo_backend.Domain.Transaction.{
  Transaction, TransactionStatus, planned, posted, cancelled, is_supported_status, post,
  post_status, cancel, cancel_status,
}
use moneo_backend.Domain.Transaction.Rules.{IsMade, new_transaction_iff}

-- One state change of the program, at any time.
pub data Step (t u : Transaction) : Type 0 where
  posts : (at : ℕ) → post t at ≡ ok u → Step t u
  cancels : (at : ℕ) → cancel t at ≡ ok u → Step t u

-- A number of state changes in a row.
pub data Steps (t : Transaction) : ℕ → Transaction → Type 0 where
  here : Steps t zero t
  next : {n : ℕ} {u v : Transaction} → Steps t n u → Step u v → Steps t (suc n) v

-- How far a status is; nothing follows on the last one.
abbrev pub rank : TransactionStatus → ℕ
rank planned = 0
rank posted = 1
rank cancelled = 2
rank (TransactionStatus.other s) = 2

post_status-rank :
    (s : TransactionStatus) (t : Transaction) (at : ℕ) {u : Transaction}
    → post_status s t at ≡ ok u
    → (s ≡ planned) × (u ≡ record t { status = posted; posted_at = some at; updated_at = at })
unfolding post_status
post_status-rank planned t at h = ground arith
post_status-rank _ t at h = ground arith

cancel_status-rank :
    (s : TransactionStatus) (t : Transaction) (at : ℕ) {u : Transaction}
    → cancel_status s t at ≡ ok u
    → (suc (rank s) ≤ 2)
      × (u ≡ record t { status = cancelled; cancelled_at = some at; updated_at = at })
unfolding cancel_status
cancel_status-rank planned t at h = ground arith
cancel_status-rank _ t at h = ground arith

Step-rank : {t u : Transaction} → Step t u → suc (rank t.status) ≤ rank u.status
unfolding post cancel
Step-rank {t} (posts at h) =
    let (e, f) = post_status-rank t.status t at h in rw (e, f) (omega arith)
Step-rank {t} (cancels at h) = let (l, f) = cancel_status-rank t.status t at h in rw f l

rank-le : (s : TransactionStatus) → rank s ≤ 2
rank-le planned = omega arith
rank-le posted = omega arith
rank-le cancelled = omega arith
rank-le (TransactionStatus.other s) = omega arith

-- Every state change moves the status forward: after `n` changes, its rank, which is 0 for planned,
-- 1 for posted and 2 for anything else, has grown by `n` at least, and is 2 at most.
pub Steps-rank :
    {t u : Transaction} {n : ℕ}
    → Steps t n u
    → (rank t.status + n ≤ rank u.status) × (rank u.status ≤ 2)
Steps-rank {t} here = (omega arith, rank-le t.status)
Steps-rank (next {u = u} {v = v} s st) =
    let (h, _) = Steps-rank s in let step = Step-rank st in (omega arith, rank-le v.status)

-- `Post` succeeds exactly on a planned transaction, and then changes the status, the time of
-- posting and the time of the update, and nothing else.
pub post_iff :
    (t u : Transaction) (at : ℕ)
    → (post t at ≡ ok u) ↔ (
        (t.status ≡ planned)
        × (u ≡ record t { status = posted; posted_at = some at; updated_at = at }))
unfolding post post_status
post_iff t u at = (λ h. post_status-rank t.status t at h, λ (e, f). rw (e, f))

-- A transaction with another status and other times.
abbrev pub restamp : Transaction → TransactionStatus → Option ℕ → Option ℕ → ℕ → Transaction
restamp t s posted_at cancelled_at updated_at = record t {
  status = s;
  posted_at = posted_at;
  cancelled_at = cancelled_at;
  updated_at = updated_at;
}

pub IsMade-restamp :
    (t : Transaction) (s : TransactionStatus) (posted_at cancelled_at : Option ℕ) (updated_at : ℕ)
    → is_supported_status s ≡ true
    → IsMade t
    → IsMade (restamp t s posted_at cancelled_at updated_at)
IsMade-restamp t s p c at k m =
    let (a, e) = (new_transaction_iff t t).0 m in
    (new_transaction_iff (restamp t s p c at) (restamp t s p c at)).1 (
      record {
        id_given = a.id_given;
        user_given = a.user_given;
        status_known = k;
        amount_sign = a.amount_sign;
        category_given = a.category_given;
        shaped = a.shaped;
      },
      ap (λ x. restamp x s p c at) e,
    )

-- What one state change writes.
record Restamps (t u : Transaction) : Type 0 where
  status : TransactionStatus
  posted_at : Option ℕ
  cancelled_at : Option ℕ
  updated_at : ℕ
  known : is_supported_status status ≡ true
  result : u ≡ restamp t status posted_at cancelled_at updated_at

Step-Restamps : {t u : Transaction} → Step t u → Restamps t u
unfolding post cancel is_supported_status
Step-Restamps {t} (posts at h) = record {
  status = posted;
  posted_at = some at;
  cancelled_at = t.cancelled_at;
  updated_at = at;
  known = refl;
  result = (post_status-rank t.status t at h).1;
}
Step-Restamps {t} (cancels at h) = record {
  status = cancelled;
  posted_at = t.posted_at;
  cancelled_at = some at;
  updated_at = at;
  known = refl;
  result = (cancel_status-rank t.status t at h).1;
}

-- Any number of state changes keeps a transaction that the constructor accepts as it is so, and
-- keeps its id, its user, its type, its amount and its accounts.
pub Steps-IsMade :
    {t u : Transaction} {n : ℕ}
    → Steps t n u
    → IsMade t
    → IsMade u
      × (u.id ≡ t.id)
      × (u.user_id ≡ t.user_id)
      × (u.transaction_type ≡ t.transaction_type)
      × (u.amount ≡ t.amount)
      × (u.account_from_id ≡ t.account_from_id)
      × (u.account_to_id ≡ t.account_to_id)
Steps-IsMade here m = (m, refl, refl, refl, refl, refl, refl)
Steps-IsMade (next {u = u} s st) m =
    let (made, i, w, y, a, f, o) = Steps-IsMade s m in
    let r = Step-Restamps st in
    rw r.result (
      IsMade-restamp u r.status r.posted_at r.cancelled_at r.updated_at r.known made,
      i,
      w,
      y,
      a,
      f,
      o,
    )

pub cancel-fields :
    (t u : Transaction) (at : ℕ)
    → cancel t at ≡ ok u
    → (u.created_at ≡ t.created_at) × (u.status ≡ cancelled)
unfolding cancel
cancel-fields t u at h =
    let e = (cancel_status-rank t.status t at h).1 in
    (ap (λ (x : Transaction). x.created_at) e, ap (λ (x : Transaction). x.status) e)
