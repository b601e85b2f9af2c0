-- ===== src/App/Bulk/Answers.antt =====
-- internal/app/accounting/transactions_bulk.go: what the bulk services answer.
use mathlib.Core.Path.{subst}
use moneo_backend.Common.{
  ℕ, zero, suc, ◌≤◌, ◌≡◌, refl, sym, ap, ◌∙◌, false, Text, Option, none, some, List, [], ◌∷◌, ok,
  length, ltb, ◌⊎◌, Bool-cases, inl, inr, arith,
}
use moneo_backend.Domain.Errors.{Outcome}
use moneo_backend.Domain.Transaction.{
  Transaction, TransactionStatus, planned, posted, cancelled, new_transaction, post, cancel,
}
use moneo_backend.Domain.Transaction.Rules.{new_transaction_iff}
use moneo_backend.Domain.Transaction.Lifecycle.{post_iff, cancel-fields}
use moneo_backend.Infra.Table.{lookup, one_row}
use moneo_backend.Infra.Database.{
  Database, Env, World, Action, >>=-elim, >>-elim, lift-eq-ok, map_error-eq-ok, lift,
}
use moneo_backend.Infra.Database.Atomic.{within_tx-ran}
use moneo_backend.Infra.TransactionRepository.{scan_transaction}
use moneo_backend.Infra.TransactionRepository.Laws.{Found, find-eq-ok}
use moneo_backend.App.Transactions.{
  CreateTransactionInput, PatchTransactionInput, patch_in_tx, post_in_tx, cancel_in_tx, get_by_id,
  patched_params, map_transaction_status_error,
}
use moneo_backend.App.Bulk.{
  max_items, within_limits, validate_transition, without_status, each_item, create_item,
  create_bulk, patch_bulk, change_status, set_status, patch_status, patch_item,
}

answer :
    {A : Type 0} {a b : A} {w w' : World} → ◌≡◌ {A = Outcome A × World} (ok a, w) (ok b, w') → a ≡ b
answer h = ground arith

answer_of : {A : Type 0} {a b : A} → ◌≡◌ {A = Outcome A} (ok a) (ok b) → a ≡ b
answer_of h = ground arith

-- One transaction for each item.
each_item-length :
    {Item : Type 0} (body : ℕ → Item → Action Transaction) (items : List Item) (idx : ℕ)
    (ts : List Transaction) (w w' : World)
    → each_item body idx items w ≡ (ok ts, w')
    → length ts ≡ length items
unfolding each_item
each_item-length body [] idx ts w w' h = ap length (sym (answer h))
each_item-length body (item ∷ items) idx ts w w' h = >>=-elim _ _ _ h λ t w₁ h₁ g₁.
    >>=-elim _ _ _ g₁ λ rest w₂ h₂ g₂.
      ap length (sym (answer g₂)) ∙ ap suc (each_item-length body items (suc idx) rest w₁ w₂ h₂)

within_limits-eq-ok :
    (n : ℕ) (w : World) {u : Unit {0}} {w' : World}
    → within_limits n w ≡ (ok u, w')
    → (1 ≤ n) × (n ≤ max_items)
unfolding within_limits
within_limits-eq-ok zero w h = cc
within_limits-eq-ok (suc n) w h = elim (Bool-cases (ltb max_items (suc n))) [
  | inl above ↦ cc
  | inr inside ↦ (omega arith, grind arith)
]

-- The transaction has the status that the item asks for, if it asks for one.
abbrev pub HasAskedStatus : PatchTransactionInput → Transaction → Type 0
HasAskedStatus item t = (item.status_set ≡ false) ⊎ (item.new_status ≡ some t.status)

-- The same for each item and the answer in its place.
abbrev pub HaveAskedStatus : List PatchTransactionInput → List Transaction → Type 0
HaveAskedStatus [] [] = Unit
HaveAskedStatus [] (t ∷ ts) = ⊥
HaveAskedStatus (item ∷ items) [] = ⊥
HaveAskedStatus (item ∷ items) (t ∷ ts) = HasAskedStatus item t × HaveAskedStatus items ts

posts-status : (t u : Transaction) (at : ℕ) → post t at ≡ ok u → u.status ≡ posted
posts-status t u at h = ap (λ (x : Transaction). x.status) ((post_iff t u at).0 h).1

module _ (env : Env) where
  post-status :
      (user_id id : Text) (t : Transaction) (w w' : World)
      → post_in_tx env user_id id w ≡ (ok t, w')
      → t.status ≡ posted
  unfolding post_in_tx
  post-status user_id id t w w' h = >>=-elim _ _ _ h λ now w₁ h₁ g₁.
      >>=-elim _ _ _ g₁ λ current w₂ h₂ g₂. >>=-elim _ _ _ g₂ λ dated w₃ h₃ g₃.
        >>=-elim _ _ _ g₃ λ candidate w₄ h₄ g₄. >>-elim _ _ _ g₄ λ w₅ h₅ g₅.
          >>-elim _ _ _ g₅ λ w₆ h₆ g₆.
            let (p, _) =
              lift-eq-ok (post dated now) w₃
                (map_error-eq-ok map_transaction_status_error (lift (post dated now)) w₃ h₄) in
            ap (λ (x : Transaction). x.status) (sym (answer g₆))
            ∙ posts-status dated candidate now p

  cancel-status :
      (user_id id : Text) (t : Transaction) (w w' : World)
      → cancel_in_tx env user_id id w ≡ (ok t, w')
      → t.status ≡ cancelled
  unfolding cancel_in_tx
  cancel-status user_id id t w w' h = >>=-elim _ _ _ h λ now w₁ h₁ g₁.
      >>=-elim _ _ _ g₁ λ current w₂ h₂ g₂. >>=-elim _ _ _ g₂ λ candidate w₃ h₃ g₃.
        >>-elim _ _ _ g₃ λ w₄ h₄ g₄. >>-elim _ _ _ g₄ λ w₅ h₅ g₅.
          let (c, _) =
            lift-eq-ok (cancel current now) w₂
              (map_error-eq-ok map_transaction_status_error (lift (cancel current now)) w₂ h₃) in
          ap (λ (x : Transaction). x.status) (sym (answer g₅))
          ∙ (cancel-fields current candidate now c).1

  -- A patch leaves the status of the transaction that is there.
  patch-status :
      (p : PatchTransactionInput) (current t : Transaction) (w w' : World)
      (f : Found p.user_id p.transaction_id w.db)
      → scan_transaction p.transaction_id f.row ≡ ok current
      → patch_in_tx env p w ≡ (ok t, w')
      → t.status ≡ current.status
  unfolding patch_in_tx patched_params
  patch-status p current t w w' f s h = >>=-elim _ _ _ h λ again w₁ h₁ g₁.
      >>-elim _ _ _ g₁ λ w₂ h₂ g₂. >>-elim _ _ _ g₂ λ w₃ h₃ g₃.
        >>=-elim _ _ _ g₃ λ next_type w₄ h₄ g₄. >>=-elim _ _ _ g₄ λ next_amount w₅ h₅ g₅.
          >>=-elim _ _ _ g₅ λ at w₆ h₆ g₆. >>=-elim _ _ _ g₆ λ next w₇ h₇ g₇.
            >>-elim _ _ _ g₇ λ w₈ h₈ g₈.
              let (g, _, s') = find-eq-ok env p.user_id p.transaction_id w h₁ in
              let one : f.row ≡ g.row =
                one_row p.transaction_id w.db.transactions f.stands g.stands in
              let same : again ≡ current =
                answer_of (sym s' ∙ ap (scan_transaction p.transaction_id) (sym one) ∙ s) in
              let (n, _) =
                lift-eq-ok (new_transaction (patched_params again p next_type next_amount at)) w₆
                  h₇ in
              let e =
                ((new_transaction_iff (patched_params again p next_type next_amount at) next).0
                  n).1 in
              ap (λ (x : Transaction). x.status) (sym (answer g₈) ∙ e)
              ∙ ap (λ (x : Transaction). x.status) same

  set_none :
      (item : PatchTransactionInput) (current patched : Transaction) (w : World) {t : Transaction}
      {w' : World}
      → set_status env item current patched none w ≡ (ok t, w')
      → ⊥
  unfolding set_status
  set_none item current patched w h = cc

  set_status-status :
      (item : PatchTransactionInput) (current patched t : Transaction) (target : TransactionStatus)
      (w w' : World)
      → patched.status ≡ current.status
      → set_status env item current patched (some target) w ≡ (ok t, w')
      → t.status ≡ target
  unfolding set_status validate_transition change_status
  set_status-status item current patched t target w w' e h = >>-elim _ _ _ h λ w₁ h₁ g₁.
      let (v, _) = lift-eq-ok (validate_transition current.status target) w h₁ in
      reached current.status target w₁ refl v g₁
    where
      reached :
          (s target : TransactionStatus) (u : World)
          → current.status ≡ s
          → validate_transition s target ≡ ok tt
          → change_status env item patched target u ≡ (ok t, w')
          → t.status ≡ target
      reached s posted u q v g = post-status item.user_id item.transaction_id t u w' g
      reached s cancelled u q v g = cancel-status item.user_id item.transaction_id t u w' g
      reached planned planned u q v g = ap (λ (x : Transaction). x.status) (sym (answer g)) ∙ e ∙ q
      reached _ planned u q v g = cc
      reached planned (TransactionStatus.other x) u q v g = cc
      reached _ (TransactionStatus.other x) u q v g = cc

  patch_status-HasAskedStatus :
      (item : PatchTransactionInput) (current patched t : Transaction) (w w' : World)
      → patched.status ≡ current.status
      → patch_status env item current patched w ≡ (ok t, w')
      → HasAskedStatus item t
  unfolding patch_status
  patch_status-HasAskedStatus item current patched t w w' e h = elim (Bool-cases item.status_set) [
    | inl given ↦ inr (target item.new_status refl (simp given at h))
    | inr absent ↦ inl absent
  ]
    where
      target :
          (o : Option TransactionStatus)
          → item.new_status ≡ o
          → set_status env item current patched item.new_status w ≡ (ok t, w')
          → item.new_status ≡ some t.status
      target none q g = absurd (set_none item current patched w (simp q at g))
      target (some s) q g =
          q ∙ ap some (sym (set_status-status item current patched t s w w' e (simp q at g)))

  patch_item-HasAskedStatus :
      (idx : ℕ) (item : PatchTransactionInput) (t : Transaction) (w w' : World)
      → patch_item env idx item w ≡ (ok t, w')
      → HasAskedStatus item t
  unfolding patch_item get_by_id without_status
  patch_item-HasAskedStatus idx item t w w' h = >>=-elim _ _ _ h λ current w₁ h₁ g₁.
      >>=-elim _ _ _ g₁ λ patched w₂ h₂ g₂.
        let (f, d, s) =
          find-eq-ok env item.user_id item.transaction_id w
            (map_error-eq-ok _ (get_by_id env item.user_id item.transaction_id) w h₁) in
        let there : lookup item.transaction_id w₁.db.transactions ≡ some f.row =
          subst (λ (x : Database). lookup item.transaction_id x.transactions ≡ some f.row) (sym d)
            f.stands in
        patch_status-HasAskedStatus item current patched t w₂ w'
          (patch-status (without_status item) current patched w₁ w₂
            (record { row = f.row; stands = there; owned = f.owned }) s
            (map_error-eq-ok _ (patch_in_tx env (without_status item)) w₁ h₂))
          (map_error-eq-ok _ (patch_status env item current patched) w₂ g₂)

  each_item-HaveAskedStatus :
      (items : List PatchTransactionInput) (idx : ℕ) (ts : List Transaction) (w w' : World)
      → each_item (patch_item env) idx items w ≡ (ok ts, w')
      → HaveAskedStatus items ts
  unfolding each_item
  each_item-HaveAskedStatus [] idx ts w w' h = subst (HaveAskedStatus []) (answer h) tt
  each_item-HaveAskedStatus (item ∷ items) idx ts w w' h = >>=-elim _ _ _ h λ t w₁ h₁ g₁.
      >>=-elim _ _ _ g₁ λ rest w₂ h₂ g₂. subst (HaveAskedStatus (item ∷ items)) (answer g₂) (
        patch_item-HasAskedStatus idx item t w w₁ h₁,
        each_item-HaveAskedStatus items (suc idx) rest w₁ w₂ h₂,
      )

-- A `CreateBulk` that succeeds was given 1 to 100 items and answers one transaction for each.
pub create_bulk-length :
    (env : Env) (items : List CreateTransactionInput) (ts : List Transaction) (w w' : World)
    → create_bulk env items w ≡ (ok ts, w')
    → (length ts ≡ length items) × (1 ≤ length items) × (length items ≤ max_items)
unfolding create_bulk
create_bulk-length env items ts w w' h = >>-elim _ _ _ h λ w₁ h₁ g₁.
    let (low, high) = within_limits-eq-ok (length items) w h₁ in
    let (u, u', q) = within_tx-ran env _ w₁ g₁ in
    (each_item-length (create_item env) items 0 ts u u' q, low, high)

-- A `PatchBulk` that succeeds was given 1 to 100 items and answers, for each and in their order, a
-- transaction that has the status that the item asks for, if it asks for one.
pub patch_bulk-HaveAskedStatus :
    (env : Env) (items : List PatchTransactionInput) (ts : List Transaction) (w w' : World)
    → patch_bulk env items w ≡ (ok ts, w')
    → HaveAskedStatus items ts × (1 ≤ length items) × (length items ≤ max_items)
unfolding patch_bulk
patch_bulk-HaveAskedStatus env items ts w w' h = >>-elim _ _ _ h λ w₁ h₁ g₁.
    let (low, high) = within_limits-eq-ok (length items) w h₁ in
    let (u, u', q) = within_tx-ran env _ w₁ g₁ in
    (each_item-HaveAskedStatus env items 0 ts u u' q, low, high)
