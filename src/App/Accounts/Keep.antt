-- ===== src/App/Accounts/Keep.antt =====
-- internal/app/accounting: the ledger under the services for accounts.
use mathlib.Core.Path.{subst}
use moneo_backend.Common.{
  ◌≡◌, refl, sym, ap, ◌∙◌, Text, text_eq, text_eq_iff, none, some, ok, err, arith, Bool-cases, inl,
  inr, is_negative,
}
use moneo_backend.Domain.Errors.{Error, Outcome}
use moneo_backend.Domain.Account.{Account, new_account, new_account-eq-ok}
use moneo_backend.Infra.Table.{lookup, insert, lookup-insert, one_row}
use moneo_backend.Infra.Database.{
  AccountRow, Database, Env, World, Action, >>=-elim, >>-elim, lift-eq-ok, raise_if-eq-ok,
  map_error-eq-ok, clock_now-db, generate_id-db,
}
use moneo_backend.Infra.AccountRepository.{
  row_of, rewrite, create, update_by_id, archive_by_id, restore_by_id,
}
use moneo_backend.Infra.AccountRepository.Laws.{
  find-eq-ok, scan-fields, create-eq-ok, update-eq-ok, archive-eq-ok, restore-eq-ok,
}
use moneo_backend.Infra.Database.Clean.{Reads-Same, IsClean-Same}
use moneo_backend.App.Accounts.Clean.{archive-IsClean, archive_failed-Reads}
use moneo_backend.App.Effect.Moves.{◌≈◌}
use moneo_backend.App.Ledger.{IsLedger, IsBalanced, posted_total}
use moneo_backend.App.Accounts.{
  CreateAccountInput, UpdateAccountInput, created_account, updated_account, name_taken, is_archived,
  archived_account, restored_account, handling, create_account, update_account, archive_failed,
  archive_active, archive_account, restore_archived, restore_account,
}

-- One row is written; the balances of the other accounts stay as they are.
IsLedger-insert :
    (id : Text) (s : AccountRow) (db : Database)
    → IsBalanced db.transactions id (some s)
    → IsLedger db
    → IsLedger (record db { accounts = insert id s db.accounts })
IsLedger-insert id s db b l = record {
  balanced = λ a. rw (lookup-insert id a s db.accounts) (elim (Bool-cases (text_eq id a)) [
    | inl same ↦
        rw same (subst (λ k. IsBalanced db.transactions k (some s)) ((text_eq_iff id a).0 same) b)
    | inr other ↦ rw other (l.balanced a)
  ]);
}

-- A row that has the owner and the balances of the one that it replaces.
IsLedger-replace :
    (id : Text) (r s : AccountRow) (db : Database)
    → lookup id db.accounts ≡ some r
    → s.user_id ≡ r.user_id
    → s.balance_minor ≡ r.balance_minor
    → s.initial_balance_minor ≡ r.initial_balance_minor
    → IsLedger db
    → IsLedger (record db { accounts = insert id s db.accounts })
IsLedger-replace id r s db stands u b i l =
    let old : IsBalanced db.transactions id (some r) =
      subst (IsBalanced db.transactions id) stands (l.balanced id) in
    IsLedger-insert id s db (rw (u, b, i) old) l

-- A row under a new id whose balance is its initial balance.
IsLedger-open :
    (id : Text) (s : AccountRow) (db : Database)
    → lookup id db.accounts ≡ none
    → s.balance_minor ≡ s.initial_balance_minor
    → IsLedger db
    → IsLedger (record db { accounts = insert id s db.accounts })
IsLedger-open id s db absent b l =
    let none_yet : (user_id : Text) → posted_total user_id id db.transactions ≈ 0 =
      subst (IsBalanced db.transactions id) absent (l.balanced id) in
    IsLedger-insert id s db (rw b (omega (arith, none_yet s.user_id))) l

-- What `handling` has done when it succeeds.
handling-elim :
    {P : Type 0} (m : Action (Unit {0})) (handler : Error → Action Account) (rest : Action Account)
    (w : World) {a : Account} {w' : World}
    → handling m handler rest w ≡ (ok a, w')
    → ((u : World) → m w ≡ (ok tt, u) → rest u ≡ (ok a, w') → P)
    → ((e : Error) (u : World) → m w ≡ (err e, u) → handler e u ≡ (ok a, w') → P)
    → P
unfolding handling
handling-elim {P} m handler rest w {a} {w'} h k j = cases (m w).0 (m w).1 refl h
  where
    cases :
        (r : Outcome (Unit {0})) (u : World)
        → m w ≡ (r, u)
        → ◌≡◌ {A = Outcome Account × World}
            (elim r [ ok t ↦ rest u | err e ↦ handler e u ])
            (ok a, w')
        → P
    cases (ok t) u q g = k u q g
    cases (err e) u q g = j e u q g

module _ (env : Env) where
  pub create_account-IsLedger :
      (input : CreateAccountInput) (a : Account) (w w' : World)
      → create_account env input w ≡ (ok a, w')
      → IsLedger w.db
      → IsLedger w'.db
  unfolding create_account created_account row_of
  create_account-IsLedger input a w w' h l = >>-elim _ _ _ h λ w₁ h₁ g₁.
      >>=-elim _ _ _ g₁ λ now w₂ h₂ g₂. >>=-elim _ _ _ g₂ λ id w₃ h₃ g₃.
        >>=-elim _ _ _ g₃ λ made w₄ h₄ g₄. >>-elim _ _ _ g₄ λ w₅ h₅ g₅.
          let (_, e₁) = raise_if-eq-ok (is_negative input.initial_balance.minor_units) _ w h₁ in
          let (n, e₄) = lift-eq-ok (new_account (created_account input now id)) w₃ h₄ in
          let same : w₄.db ≡ w.db =
            ap (λ (v : World). v.db) e₄
            ∙ generate_id-db env w₂ h₃
            ∙ clock_now-db env w₁ h₂
            ∙ ap (λ (v : World). v.db) e₁ in
          let (absent, written) =
            create-eq-ok env made w₄ (map_error-eq-ok name_taken (create env made) w₄ h₅) in
          let last : w'.db ≡ w₅.db = ap (λ (r : Outcome Account × World). r.1.db) (sym g₅) in
          let m = new_account-eq-ok (created_account input now id) n in
          rw (last, written, same)
            (IsLedger-open made.id (row_of made) w.db (rw same at absent)
              (ap (λ (x : Account). x.balance.minor_units) m
                ∙ sym (ap (λ (x : Account). x.initial_balance.minor_units) m))
              l)

  pub update_account-IsLedger :
      (input : UpdateAccountInput) (a : Account) (w w' : World)
      → update_account env input w ≡ (ok a, w')
      → IsLedger w.db
      → IsLedger w'.db
  unfolding update_account updated_account rewrite
  update_account-IsLedger input a w w' h l = >>=-elim _ _ _ h λ account w₁ h₁ g₁.
      >>=-elim _ _ _ g₁ λ at w₂ h₂ g₂. >>=-elim _ _ _ g₂ λ updated w₃ h₃ g₃.
        >>-elim _ _ _ g₃ λ w₄ h₄ g₄.
          let (f, d, s) = find-eq-ok env input.user_id input.account_id w h₁ in
          let (n, e₃) = lift-eq-ok (new_account (updated_account input account at)) w₂ h₃ in
          let same : w₃.db ≡ w.db = ap (λ (v : World). v.db) e₃ ∙ clock_now-db env w₁ h₂ ∙ d in
          let (g, written) =
            update-eq-ok env updated account.updated_at w₃
              (map_error-eq-ok name_taken (update_by_id env updated account.updated_at) w₃ h₄) in
          let last : w'.db ≡ w₄.db = ap (λ (r : Outcome Account × World). r.1.db) (sym g₄) in
          let (k, u, b, i, _) = scan-fields input.account_id f.row s in
          let m = new_account-eq-ok (updated_account input account at) n in
          let id_same : updated.id ≡ input.account_id = ap (λ (x : Account). x.id) m ∙ k in
          let there : lookup updated.id w.db.accounts ≡ some g.row =
            subst (λ (x : Database). lookup updated.id x.accounts ≡ some g.row) same g.stands in
          let one : g.row ≡ f.row =
            one_row input.account_id w.db.accounts (rw id_same at there) f.stands in
          rw (last, written, same)
            (IsLedger-replace updated.id g.row (rewrite g.row updated) w.db there refl
              (ap (λ (x : Account). x.balance.minor_units) m
                ∙ b
                ∙ sym (ap (λ (x : AccountRow). x.balance_minor) one))
              (ap (λ (x : Account). x.initial_balance.minor_units) m
                ∙ i
                ∙ sym (ap (λ (x : AccountRow). x.initial_balance_minor) one))
              l)

  archive_active-IsLedger :
      (user_id id : Text) (account a : Account) (w w' : World)
      → archive_active env user_id id account w ≡ (ok a, w')
      → IsLedger w.db
      → IsLedger w'.db
  unfolding archive_active
  archive_active-IsLedger user_id id account a w w' h l = >>=-elim _ _ _ h λ at w₁ h₁ g₁.
      handling-elim (archive_by_id env user_id id at) (archive_failed env user_id id) _ w₁ g₁
        (λ u e g.
          let (f, written) = archive-eq-ok env user_id id at w₁ e in
          let (_, last) = lift-eq-ok (new_account (archived_account account at)) u g in
          rw (ap (λ (v : World). v.db) last, written, clock_now-db env w h₁)
            (IsLedger-replace id f.row (record f.row { archived_at = some at; updated_at = at })
              w.db
              (subst (λ (x : Database). lookup id x.accounts ≡ some f.row) (clock_now-db env w h₁)
                f.stands)
              refl refl refl l))
        (λ x u e g.
          let (d, _) = Reads-Same _ (archive_failed-Reads env user_id id x) u g in
          let (d', _) = IsClean-Same _ (archive-IsClean env user_id id at) w₁ e in
          rw (d, d', clock_now-db env w h₁) l)

  pub archive_account-IsLedger :
      (user_id id : Text) (a : Account) (w w' : World)
      → archive_account env user_id id w ≡ (ok a, w')
      → IsLedger w.db
      → IsLedger w'.db
  unfolding archive_account
  archive_account-IsLedger user_id id a w w' h l = >>=-elim _ _ _ h λ account w₁ h₁ g₁.
      let (_, d, _) = find-eq-ok env user_id id w h₁ in
      elim (Bool-cases (is_archived account)) [
        | inl is_so ↦ rw (sym (ap (λ (r : Outcome Account × World). r.1.db) (rw is_so at g₁)), d) l
        | inr not_so ↦ archive_active-IsLedger user_id id account a w₁ w' (rw not_so at g₁) (rw d l)
      ]

  restore_archived-IsLedger :
      (user_id id : Text) (account a : Account) (w w' : World)
      → restore_archived env user_id id account w ≡ (ok a, w')
      → IsLedger w.db
      → IsLedger w'.db
  unfolding restore_archived
  restore_archived-IsLedger user_id id account a w w' h l = >>=-elim _ _ _ h λ at w₁ h₁ g₁.
      >>-elim _ _ _ g₁ λ w₂ h₂ g₂.
        let (f, written) =
          restore-eq-ok env user_id id at w₁
            (map_error-eq-ok name_taken (restore_by_id env user_id id at) w₁ h₂) in
        let (_, last) = lift-eq-ok (new_account (restored_account account at)) w₂ g₂ in
        rw (ap (λ (v : World). v.db) last, written, clock_now-db env w h₁)
          (IsLedger-replace id f.row (record f.row { archived_at = none; updated_at = at }) w.db
            (subst (λ (x : Database). lookup id x.accounts ≡ some f.row) (clock_now-db env w h₁)
              f.stands)
            refl refl refl l)

  pub restore_account-IsLedger :
      (user_id id : Text) (a : Account) (w w' : World)
      → restore_account env user_id id w ≡ (ok a, w')
      → IsLedger w.db
      → IsLedger w'.db
  unfolding restore_account
  restore_account-IsLedger user_id id a w w' h l = >>=-elim _ _ _ h λ account w₁ h₁ g₁.
      let (_, d, _) = find-eq-ok env user_id id w h₁ in
      elim (Bool-cases (is_archived account)) [
        | inl is_so ↦ restore_archived-IsLedger user_id id account a w₁ w' (rw is_so at g₁) (rw d l)
        | inr not_so ↦
            rw (sym (ap (λ (r : Outcome Account × World). r.1.db) (rw not_so at g₁)), d) l
      ]
