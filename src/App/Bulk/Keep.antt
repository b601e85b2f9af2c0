-- ===== src/App/Bulk/Keep.antt =====
-- internal/app/accounting/transactions_bulk.go: the ledger under the bulk services.
use moneo_backend.Common.{
  ℕ, zero, suc, ltb, err, ◌≡◌, refl, sym, ap, false, Option, none, some, List, [], ◌∷◌, ok, length,
  Bool-cases, inl, inr,
}
use moneo_backend.Domain.Errors.{Error, Outcome}
use moneo_backend.Domain.Transaction.{Transaction, TransactionStatus, planned, posted, cancelled}
use moneo_backend.Infra.Database.{
  Env, World, Action, ◌>>=◌, ◌>>◌, within_tx, >>=-elim, >>-elim, lift-eq-ok, map_error-eq-ok,
}
use moneo_backend.Infra.Database.Atomic.{within_tx-err, CommitsAnswered, within_tx-keeps}
use moneo_backend.Infra.TransactionRepository.Laws.{find-eq-ok}
use moneo_backend.App.Ledger.{IsLedger}
use moneo_backend.App.Transactions.{
  CreateTransactionInput, PatchTransactionInput, create_in_tx, patch_in_tx, get_by_id,
}
use moneo_backend.App.Services.Keep.{create-IsLedger}
use moneo_backend.App.Services.Rewrites.{post-IsLedger, cancel-IsLedger, last_db}
use moneo_backend.App.Services.Patches.{patch-IsLedger}
use moneo_backend.App.Bulk.{
  validate_transition, without_status, each_item, create_item, change_status, set_status,
  patch_status, patch_item, within_limits, max_items, create_bulk, patch_bulk,
}

-- What each round of the loop keeps is kept by the loop.
pub each_item-keeps :
    {Item : Type 0} (body : ℕ → Item → Action Transaction)
    → ((idx : ℕ) (item : Item) (t : Transaction) (w w' : World)
        → body idx item w ≡ (ok t, w')
        → IsLedger w.db
        → IsLedger w'.db)
    → (items : List Item) (idx : ℕ) (ts : List Transaction) (w w' : World)
    → each_item body idx items w ≡ (ok ts, w')
    → IsLedger w.db
    → IsLedger w'.db
unfolding each_item
each_item-keeps body keep [] idx ts w w' h l =
    rw (ap (λ (r : Outcome (List Transaction) × World). r.1.db) (sym h)) l
each_item-keeps body keep (item ∷ items) idx ts w w' h l = >>=-elim _ _ _ h λ t w₁ h₁ g₁.
    >>=-elim _ _ _ g₁ λ rest w₂ h₂ g₂.
      rw (ap (λ (r : Outcome (List Transaction) × World). r.1.db) (sym g₂))
        (each_item-keeps body keep items (suc idx) rest w₁ w₂ h₂ (keep idx item t w w₁ h₁ l))

module _ (env : Env) where
  pub create_item-IsLedger :
      (idx : ℕ) (item : CreateTransactionInput) (t : Transaction) (w w' : World)
      → create_item env idx item w ≡ (ok t, w')
      → IsLedger w.db
      → IsLedger w'.db
  unfolding create_item
  create_item-IsLedger idx item t w w' h l =
      create-IsLedger env item t w w' (map_error-eq-ok _ (create_in_tx env item) w h) l

  change_status-IsLedger :
      (item : PatchTransactionInput) (patched : Transaction) (target : TransactionStatus)
      (t : Transaction) (w w' : World)
      → change_status env item patched target w ≡ (ok t, w')
      → IsLedger w.db
      → IsLedger w'.db
  unfolding change_status
  change_status-IsLedger item patched posted t w w' h l =
      post-IsLedger env item.user_id item.transaction_id t w w' h l
  change_status-IsLedger item patched cancelled t w w' h l =
      cancel-IsLedger env item.user_id item.transaction_id t w w' h l
  change_status-IsLedger item patched planned t w w' h l = rw (last_db h) l
  change_status-IsLedger item patched (TransactionStatus.other s) t w w' h l = rw (last_db h) l

  set_status-IsLedger :
      (item : PatchTransactionInput) (current patched : Transaction)
      (target : Option TransactionStatus) (t : Transaction) (w w' : World)
      → set_status env item current patched target w ≡ (ok t, w')
      → IsLedger w.db
      → IsLedger w'.db
  unfolding set_status
  set_status-IsLedger item current patched none t w w' h l = cc
  set_status-IsLedger item current patched (some target) t w w' h l = >>-elim _ _ _ h λ w₁ h₁ g₁.
      let (_, e) = lift-eq-ok (validate_transition current.status target) w h₁ in
      change_status-IsLedger item patched target t w₁ w' g₁ (rw e l)

  patch_status-IsLedger :
      (item : PatchTransactionInput) (current patched t : Transaction) (w w' : World)
      → patch_status env item current patched w ≡ (ok t, w')
      → IsLedger w.db
      → IsLedger w'.db
  unfolding patch_status
  patch_status-IsLedger item current patched t w w' h l = elim (Bool-cases item.status_set) [
    | inl given ↦
        set_status-IsLedger item current patched item.new_status t w w' (simp given at h) l
    | inr absent ↦ rw (last_db (simp absent at h)) l
  ]

  pub patch_item-IsLedger :
      (idx : ℕ) (item : PatchTransactionInput) (t : Transaction) (w w' : World)
      → patch_item env idx item w ≡ (ok t, w')
      → IsLedger w.db
      → IsLedger w'.db
  unfolding patch_item get_by_id
  patch_item-IsLedger idx item t w w' h l = >>=-elim _ _ _ h λ current w₁ h₁ g₁.
      >>=-elim _ _ _ g₁ λ patched w₂ h₂ g₂.
        let (_, d, _) =
          find-eq-ok env item.user_id item.transaction_id w
            (map_error-eq-ok _ (get_by_id env item.user_id item.transaction_id) w h₁) in
        patch_status-IsLedger item current patched t w₂ w'
          (map_error-eq-ok _ (patch_status env item current patched) w₂ g₂)
          (patch-IsLedger env (without_status item) patched w₁ w₂
            (map_error-eq-ok _ (patch_in_tx env (without_status item)) w₁ h₂) (rw d l))

  -- The limits are looked at before a transaction is begun.
  limited-err :
      {A : Type 0} (n : ℕ) (m : Action A) (w : World) {e : Error}
      → CommitsAnswered env
      → w.in_tx ≡ false
      → ((within_limits n >> within_tx env m) w).0 ≡ err e
      → (((within_limits n >> within_tx env m) w).1.in_tx ≡ false)
        × (((within_limits n >> within_tx env m) w).1.db ≡ w.db)
  unfolding within_limits ◌>>=◌ ◌>>◌
  limited-err zero m w a o h = (o, refl)
  limited-err (suc n) m w a o h = elim (Bool-cases (ltb max_items (suc n))) [
    | inl above ↦ rw above (o, refl)
    | inr inside ↦ rw inside (within_tx-err env m w a o (rw inside at h))
  ]

  limited-keeps :
      {A : Type 0} (n : ℕ) (m : Action A) (w : World)
      → ((a : A) (u u' : World) → m u ≡ (ok a, u') → IsLedger u.db → IsLedger u'.db)
      → w.in_tx ≡ false
      → IsLedger w.db
      → IsLedger ((within_limits n >> within_tx env m) w).1.db
  unfolding within_limits ◌>>=◌ ◌>>◌
  limited-keeps zero m w k o l = l
  limited-keeps (suc n) m w k o l = elim (Bool-cases (ltb max_items (suc n))) [
    | inl above ↦ rw above l
    | inr inside ↦ rw inside (within_tx-keeps IsLedger env m w k o l)
  ]

  pub create_bulk-err :
      (items : List CreateTransactionInput) (w : World) {e : Error}
      → CommitsAnswered env
      → w.in_tx ≡ false
      → (create_bulk env items w).0 ≡ err e
      → ((create_bulk env items w).1.in_tx ≡ false) × ((create_bulk env items w).1.db ≡ w.db)
  unfolding create_bulk
  create_bulk-err items w a o h = limited-err (length items) _ w a o h

  pub patch_bulk-err :
      (items : List PatchTransactionInput) (w : World) {e : Error}
      → CommitsAnswered env
      → w.in_tx ≡ false
      → (patch_bulk env items w).0 ≡ err e
      → ((patch_bulk env items w).1.in_tx ≡ false) × ((patch_bulk env items w).1.db ≡ w.db)
  unfolding patch_bulk
  patch_bulk-err items w a o h = limited-err (length items) _ w a o h

  pub create_bulk-IsLedger :
      (items : List CreateTransactionInput) (w : World)
      → w.in_tx ≡ false
      → IsLedger w.db
      → IsLedger (create_bulk env items w).1.db
  unfolding create_bulk
  create_bulk-IsLedger items w o l =
      limited-keeps (length items) (each_item (create_item env) 0 items) w
        (each_item-keeps (create_item env) create_item-IsLedger items 0) o l

  pub patch_bulk-IsLedger :
      (items : List PatchTransactionInput) (w : World)
      → w.in_tx ≡ false
      → IsLedger w.db
      → IsLedger (patch_bulk env items w).1.db
  unfolding patch_bulk
  patch_bulk-IsLedger items w o l =
      limited-keeps (length items) (each_item (patch_item env) 0 items) w
        (each_item-keeps (patch_item env) patch_item-IsLedger items 0) o l
