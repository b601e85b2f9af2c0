-- ===== src/App/Bulk/Transitions.antt =====
-- `validateBulkPatchStatusTransition` of internal/app/accounting/transactions_bulk.go, and the status
-- that `PatchBulk` leaves.
use mathlib.Core.Path.{subst}
use moneo_backend.Common.{ℕ, ◌≡◌, ◌↔◌, ◌⊎◌, refl, some, ok, arith, inl, inr}
use moneo_backend.Domain.Errors.{Outcome}
use moneo_backend.Domain.Transaction.{
  Transaction, TransactionStatus, planned, posted, cancelled, post, cancel, post_status,
  cancel_status,
}
use moneo_backend.Domain.Transaction.Lifecycle.{Step, posts, cancels}
use moneo_backend.App.Bulk.{validate_transition}

ok-injective : {A : Type 0} {a b : A} → ◌≡◌ {A = Outcome A} (ok a) (ok b) → a ≡ b
ok-injective h = ground arith

accepted_sound :
    (s target : TransactionStatus) (t : Transaction)
    → t.status ≡ s
    → validate_transition s target ≡ ok tt
    → ((t.status ≡ planned) × (target ≡ planned))
      ⊎ ((u : Transaction) × Step t u × (u.status ≡ target))
unfolding validate_transition post cancel post_status cancel_status
accepted_sound planned planned t e h = inl (e, refl)
accepted_sound planned posted t e h =
    inr (record t { status = posted; posted_at = some 0; updated_at = 0 }, posts 0 (rw e), refl)
accepted_sound planned cancelled t e h =
    inr (
      record t { status = cancelled; cancelled_at = some 0; updated_at = 0 },
      cancels 0 (rw e),
      refl,
    )
accepted_sound planned (TransactionStatus.other x) t e h = cc
accepted_sound posted planned t e h = cc
accepted_sound posted posted t e h = cc
accepted_sound posted cancelled t e h =
    inr (
      record t { status = cancelled; cancelled_at = some 0; updated_at = 0 },
      cancels 0 (rw e),
      refl,
    )
accepted_sound posted (TransactionStatus.other x) t e h = cc
accepted_sound cancelled target t e h = cc
accepted_sound (TransactionStatus.other x) target t e h = cc

posted-accepted :
    (s : TransactionStatus) (t : Transaction) (at : ℕ) {u : Transaction}
    → post_status s t at ≡ ok u
    → validate_transition s u.status ≡ ok tt
unfolding post_status validate_transition
posted-accepted planned t at h = let e = ok-injective h in rw (← e) refl
posted-accepted posted t at h = cc
posted-accepted cancelled t at h = cc
posted-accepted (TransactionStatus.other x) t at h = cc

cancelled-accepted :
    (s : TransactionStatus) (t : Transaction) (at : ℕ) {u : Transaction}
    → cancel_status s t at ≡ ok u
    → validate_transition s u.status ≡ ok tt
unfolding cancel_status validate_transition
cancelled-accepted planned t at h = let e = ok-injective h in rw (← e) refl
cancelled-accepted posted t at h = let e = ok-injective h in rw (← e) refl
cancelled-accepted cancelled t at h = cc
cancelled-accepted (TransactionStatus.other x) t at h = cc

Step-accepted : {t u : Transaction} → Step t u → validate_transition t.status u.status ≡ ok tt
unfolding post cancel
Step-accepted {t} (posts at h) = posted-accepted t.status t at h
Step-accepted {t} (cancels at h) = cancelled-accepted t.status t at h

-- `PatchBulk` accepts a target status exactly when the transaction is planned and is to stay so, or
-- when a step of the state machine, `Post` or `Cancel`, leads the transaction to a transaction with
-- that status.
pub validate_transition_iff :
    (t : Transaction) (target : TransactionStatus)
    → (validate_transition t.status target ≡ ok tt) ↔ (
        ((t.status ≡ planned) × (target ≡ planned))
        ⊎ ((u : Transaction) × Step t u × (u.status ≡ target)))
unfolding validate_transition
validate_transition_iff t target = (
  accepted_sound t.status target t refl,
  λ c. elim c [
    | inl (e, f) ↦ rw (e, f) refl
    | inr (u, s, e) ↦ subst (λ x. validate_transition t.status x ≡ ok tt) e (Step-accepted s)
  ],
)
