-- ===== src/App/Bulk/Failures.antt =====
-- internal/app/accounting/transactions_bulk.go: which item an error of the bulk services names.
use moneo_backend.Common.{
  ◌≢◌, ok, ap, refl, sym, ◌∙◌, ◌++◌, false, ℕ, zero, suc, ◌+◌, ◌<◌, ◌≡◌, ◌⊎◌, inl, inr, codes, List,
  [], ◌∷◌, err, length, ltb, arith, Bool-cases,
}
use moneo_backend.Domain.Errors.{
  Error, Outcome, bulk_item, database_failure, no_items, too_many_items,
}
use moneo_backend.Domain.Transaction.{Transaction}
use moneo_backend.Infra.Database.{Env, World, Database, done, Action, ◌>>◌, >>=-ok, within_tx}
use moneo_backend.Infra.Database.Failures.{>>=-eq-err, map_error-eq-err, within_tx-IsCaused}
use moneo_backend.App.Transactions.{CreateTransactionInput, create_in_tx}
use moneo_backend.App.Bulk.{
  max_items, within_limits, each_item, create_item, create_bulk, infer_create_field,
}

module _ {Item : Type 0} (body : ℕ → Item → Action Transaction) where
  -- The error is that of an item, by its place, when all items before it have been done.
  abbrev pub FailsAt : ℕ → List Item → World → Error → Type 0
  FailsAt idx items w e =
      (before : List Item) × (item : Item) × (after : List Item) × (ts : List Transaction)
      × (u : World) × (items ≡ before ++ item ∷ after)
      × (each_item body idx before w ≡ (ok ts, u))
      × ((body (idx + length before) item u).0 ≡ err e)

  at_index :
      (k n : ℕ) (item : Item) (w : World) {e : Error}
      → k ≡ n
      → (body k item w).0 ≡ err e
      → (body n item w).0 ≡ err e
  at_index k n item w h f = rw (← h) f

  each_item-FailsAt :
      (items : List Item) (idx : ℕ) (w : World) (e : Error)
      → (each_item body idx items w).0 ≡ err e
      → FailsAt idx items w e
  unfolding each_item
  each_item-FailsAt [] idx w e h = cc
  each_item-FailsAt (item ∷ items) idx w e h = elim (>>=-eq-err (body idx item) _ w h) [
    | inl first ↦
        ([], item, items, [], w, refl, refl, at_index idx (idx + 0) item w (omega arith) first)
    | inr (t, u, q, g) ↦ elim (>>=-eq-err (each_item body (suc idx) items) _ u g) [
      | inl more ↦
          let (before, x, after, ts, v, split, run, failed) =
            each_item-FailsAt items (suc idx) u e more in
          (
            item ∷ before,
            x,
            after,
            t ∷ ts,
            v,
            ap (λ l. item ∷ l) split,
            >>=-ok (body idx item) _ w q ∙ >>=-ok (each_item body (suc idx) before) _ u run,
            at_index (suc idx + length before) _ x v (omega arith) failed,
          )
      | inr (ts, v, r, q) ↦ cc
    ]
  ]

module _ (env : Env) where
  -- What an error of `CreateBulk` on the items, called with the tables `tables`, may be: the answer
  -- to no item or to too many; a failure of the database around the items; or the error that an item
  -- gives after the items before it have been created, under the number of these.
  abbrev pub IsReported : List CreateTransactionInput → Database → Error → Type 0
  IsReported items tables e =
      ((length items ≡ 0) × (e ≡ bulk_item 0 (codes "items") no_items))
      ⊎ (((max_items < length items) × (e ≡ bulk_item 0 (codes "items") too_many_items))
          ⊎ (((e ≡ database_failure) × (n : ℕ) × (env.reply n ≢ done))
              ⊎ ((before : List CreateTransactionInput) × (item : CreateTransactionInput)
                  × (after : List CreateTransactionInput) × (ts : List Transaction) × (v u : World)
                  × (cause : Error) × (items ≡ before ++ item ∷ after)
                  × (v.db ≡ tables)
                  × (each_item (create_item env) 0 before v ≡ (ok ts, u))
                  × ((create_in_tx env item u).0 ≡ err cause)
                  × (e ≡ bulk_item (length before) (infer_create_field cause) cause))))

  create_item-eq-err :
      (idx : ℕ) (item : CreateTransactionInput) (w : World) (e : Error)
      → (create_item env idx item w).0 ≡ err e
      → (cause : Error) × ((create_in_tx env item w).0 ≡ err cause)
        × (e ≡ bulk_item idx (infer_create_field cause) cause)
  unfolding create_item
  create_item-eq-err idx item w e h = map_error-eq-err _ (create_in_tx env item) w h

  within_limits-eq-err :
      (n : ℕ) (w : World) (e : Error)
      → (within_limits n w).0 ≡ err e
      → ((n ≡ 0) × (e ≡ bulk_item 0 (codes "items") no_items))
        ⊎ ((max_items < n) × (e ≡ bulk_item 0 (codes "items") too_many_items))
  unfolding within_limits
  within_limits-eq-err zero w e h = inl (refl, ground arith)
  within_limits-eq-err (suc n) w e h = elim (Bool-cases (ltb max_items (suc n))) [
    | inl above ↦ inr (ground arith, ground arith)
    | inr inside ↦ cc
  ]

  ok-ne-err : {x : Unit {0}} {e : Error} → ◌≢◌ {A = Outcome Unit} (ok x) (err e)
  ok-ne-err h = cc

  within_limits-world : (n : ℕ) (w u : World) {a : Unit {0}} → within_limits n w ≡ (ok a, u) → u ≡ w
  unfolding within_limits
  within_limits-world zero w u h = cc
  within_limits-world (suc n) w u h = elim (Bool-cases (ltb max_items (suc n))) [
    | inl above ↦
        let q = rw above at h in
        absurd (ok-ne-err {e = bulk_item 0 (codes "items") too_many_items} (sym (λ i. (q i).0)))
    | inr inside ↦ let q = rw inside at h in sym (λ i. (q i).1)
  ]

  -- An error of `CreateBulk`, called outside of a transaction, is the answer to no item, or to more
  -- than 100; or it is a failure of the database around the items, which has then refused a call; or
  -- it is the error that an item gives after all items before it have been created on the tables from
  -- before, and names their number as the index, the field and the cause.
  pub create_bulk-IsReported :
      (items : List CreateTransactionInput) (w : World) (e : Error)
      → w.in_tx ≡ false
      → (create_bulk env items w).0 ≡ err e
      → IsReported items w.db e
  unfolding create_bulk ◌>>◌
  create_bulk-IsReported items w e o h =
      elim (>>=-eq-err (within_limits (length items))
        (λ _. within_tx env (each_item (create_item env) 0 items)) w h) [
          | inl limit ↦ elim (within_limits-eq-err (length items) w e limit) [
            | inl none_given ↦ inl none_given
            | inr too_many ↦ inr (inl too_many)
          ]
          | inr (t, u, q, g) ↦
              let same = within_limits-world (length items) w u q in
              elim (within_tx-IsCaused env (each_item (create_item env) 0 items) u
                (ap (λ (y : World). y.in_tx) same ∙ o) g) [
                  | inl refused ↦ inr (inr (inl refused))
                  | inr (v, d, f) ↦
                      let (before, item, after, ts, x, split, run, failed) =
                        each_item-FailsAt (create_item env) items 0 v e f in
                      let (cause, c, named) = create_item-eq-err (length before) item x e (
                        at_index (create_item env) (0 + length before) (length before) item x
                          (omega arith) failed) in
                      inr (
                        inr (
                          inr (
                            before,
                            item,
                            after,
                            ts,
                            v,
                            x,
                            cause,
                            split,
                            d ∙ ap (λ (y : World). y.db) same,
                            run,
                            c,
                            named,
                          )))
                ]
        ]
