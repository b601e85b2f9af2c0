-- ===== src/App/Services/Patches.antt =====
-- internal/app/accounting/transactions.go: the ledger under `patchInTx`.
use moneo_backend.Common.{
  ℕ, ◌+◌, ◌≡◌, refl, ap, ◌∙◌, false, ◌&&◌, Text, Option, none, some, ok, if◌then◌else◌, arith, inl,
  inr, Bool-cases,
}
use moneo_backend.Domain.Money.{Money}
use moneo_backend.Domain.Transaction.{Transaction, TransactionType, new_transaction}
use moneo_backend.Domain.Transaction.Rules.{new_transaction_iff, new_transaction_idem}
use moneo_backend.Infra.Database.{
  Env, World, >>=-elim, >>-elim, lift-eq-ok, raise_if-eq-ok, clock_now-db,
}
use moneo_backend.Infra.TransactionRepository.Laws.{find-eq-ok}
use moneo_backend.App.Effect.Moves.{◌≈◌, AccountsMove-zero}
use moneo_backend.App.Effect.Flow.{flow}
use moneo_backend.App.Ledger.{IsLedger}
use moneo_backend.App.Transactions.{
  PatchTransactionInput, is_posted, is_cancelled, patched_params, set_or_keep, required,
  patches_posted_field, patch_in_tx,
}
use moneo_backend.App.Services.Rewrites.{Follows, updated-IsLedger, world_db, last_db}

required-eq-ok :
    {A : Type 0} (o : Option A) (w : World) {a : A} {w' : World}
    → required o w ≡ (ok a, w')
    → (o ≡ some a) × (w' ≡ w)
unfolding required
required-eq-ok none w h = cc
required-eq-ok (some a) w h = ground arith

patch-Follows :
    (t u : Transaction) (p : PatchTransactionInput) (y : TransactionType) (m : Money) (at : ℕ)
    → new_transaction (patched_params t p y m at) ≡ ok u
    → Follows t u × (u.status ≡ t.status)
unfolding patched_params
patch-Follows t u p y m at n =
    let e = ((new_transaction_iff (patched_params t p y m at) u).0 n).1 in
    (
      record {
        made = new_transaction_idem (patched_params t p y m at) u n;
        same_id = ap (λ (x : Transaction). x.id) e;
        same_user = ap (λ (x : Transaction). x.user_id) e;
        same_creation = ap (λ (x : Transaction). x.created_at) e;
      },
      ap (λ (x : Transaction). x.status) e,
    )

posted_field-unset :
    (p : PatchTransactionInput)
    → patches_posted_field p ≡ false
    → (p.amount_set ≡ false) × (p.account_from_id_set ≡ false) × (p.account_to_id_set ≡ false)
unfolding patches_posted_field
posted_field-unset p h = ground arith

-- What a patch of the fields that a posted transaction may change leaves alone.
patch-flow :
    (t u : Transaction) (p : PatchTransactionInput) (y : TransactionType) (m : Money) (at : ℕ)
    → patches_posted_field p ≡ false
    → set_or_keep p.amount_set p.new_amount t.amount ≡ some m
    → new_transaction (patched_params t p y m at) ≡ ok u
    → (a : Text) → flow u a ≡ flow t a
unfolding patched_params set_or_keep flow
patch-flow t u p y m at c k n a =
    let e = ((new_transaction_iff (patched_params t p y m at) u).0 n).1 in
    let (not_amount, not_from, not_to) = posted_field-unset p c in
    let kept : t.amount ≡ m = ground (arith, rw not_amount at k) in
    rw (e, not_from, not_to, ← kept) refl

patched-flows :
    (t u : Transaction) (p : PatchTransactionInput) (y : TransactionType) (m : Money) (at : ℕ)
    → is_posted t.status && patches_posted_field p ≡ false
    → set_or_keep p.amount_set p.new_amount t.amount ≡ some m
    → new_transaction (patched_params t p y m at) ≡ ok u
    → (a : Text)
    → (if is_posted t.status then flow t a else 0) + 0
      ≈ (if is_posted u.status then flow u a else 0)
patched-flows t u p y m at c k n a =
    let (_, s) = patch-Follows t u p y m at n in
    rw s (elim (Bool-cases (is_posted t.status)) [
      | inl is_now ↦ rw is_now (ground (arith, patch-flow t u p y m at (rw is_now at c) k n a))
      | inr is_not ↦ rw is_not refl
    ])

module _ (env : Env) where
  -- A `patchInTx` that succeeds leads from a ledger to a ledger.
  pub patch-IsLedger :
      (p : PatchTransactionInput) (t : Transaction) (w w' : World)
      → patch_in_tx env p w ≡ (ok t, w')
      → IsLedger w.db
      → IsLedger w'.db
  unfolding patch_in_tx
  patch-IsLedger p t w w' h l = >>=-elim _ _ _ h λ current w₁ h₁ g₁. >>-elim _ _ _ g₁ λ w₂ h₂ g₂.
      >>-elim _ _ _ g₂ λ w₃ h₃ g₃. >>=-elim _ _ _ g₃ λ next_type w₄ h₄ g₄.
        >>=-elim _ _ _ g₄ λ next_amount w₅ h₅ g₅. >>=-elim _ _ _ g₅ λ at w₆ h₆ g₆.
          >>=-elim _ _ _ g₆ λ next w₇ h₇ g₇. >>-elim _ _ _ g₇ λ w₈ h₈ g₈.
            let (f, d₁, s) = find-eq-ok env p.user_id p.transaction_id w h₁ in
            let (_, e₂) = raise_if-eq-ok (is_cancelled current.status) _ w₁ h₂ in
            let (c, e₃) =
              raise_if-eq-ok (is_posted current.status && patches_posted_field p) _ w₂ h₃ in
            let (_, e₄) = required-eq-ok _ w₃ h₄ in
            let (k, e₅) = required-eq-ok _ w₄ h₅ in
            let (n, e₇) =
              lift-eq-ok (new_transaction (patched_params current p next_type next_amount at)) w₆
                h₇ in
            let same : w₇.db ≡ w.db =
              ap world_db e₇
              ∙ clock_now-db env w₅ h₆
              ∙ ap world_db e₅
              ∙ ap world_db e₄
              ∙ ap world_db e₃
              ∙ ap world_db e₂
              ∙ d₁ in
            rw (last_db g₈) (
              updated-IsLedger env p.user_id p.transaction_id current.updated_at w.db w₇ w₈ w₈.db
                current next (λ a. 0) f s
                (patch-Follows current next p next_type next_amount at n).0 same h₈
                (AccountsMove-zero current.user_id _ _ refl)
                (patched-flows current next p next_type next_amount at c k n) l)
