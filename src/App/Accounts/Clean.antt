-- ===== src/App/Accounts/Clean.antt =====
-- internal/app/accounting: what the services for accounts leave behind when they fail.
use moneo_backend.Common.{
  ℕ, ◌≡◌, refl, ◌∙◌, true, false, Text, trim_space, trim_space_idem, Option, none, some, ok, err,
  if◌then◌else◌, arith, Bool-cases, inl, inr, >>=-eq-ok as result->>=-eq-ok,
}
use moneo_backend.Domain.Errors.{Error, Outcome, database_failure, account_not_found}
use moneo_backend.Domain.Account.{Account, new_account, parse_account_type}
use moneo_backend.Domain.Money.{parse_currency}
use moneo_backend.Infra.Database.{AccountRow, Database, Env, World, Action}
use moneo_backend.Infra.Database.Clean.{
  IsClean, Reads, Same, Succeeds, >>=-Reads, >>=-IsClean, >>=-IsClean_at, >>-IsClean,
  raise_if-then-IsClean, raise-Reads, pure-Reads, Reads-IsClean, map_error-IsClean, lift-Reads,
  lift-Succeeds, clock_now-Reads, generate_id-Reads, execute-IsClean, execute-Reads,
  execute-then-IsClean,
}
use moneo_backend.Infra.AccountRepository.{
  create, find_by_id, update_by_id, archive_by_id, restore_by_id, scan_account, params_of,
  scan_found, missed_update, report_missed_update, require_affected, select_account,
}
use moneo_backend.Infra.AccountRepository as repository
use moneo_backend.Infra.AccountRepository.Laws.{find-eq-ok}
use moneo_backend.App.Accounts.{
  CreateAccountInput, UpdateAccountInput, archived_account, restored_account, name_taken,
  is_archived, archived_meanwhile, handling, create_account, update_account, archive_failed,
  archive_active, archive_account, restore_archived, restore_account,
}

scan_found-Reads : (id : Text) (row : Option AccountRow) → Reads (scan_found id row)
unfolding scan_found Reads
scan_found-Reads id none w = (refl, refl)
scan_found-Reads id (some row) w = (refl, refl)

missed_update-Reads : (row : Option AccountRow) → Reads (missed_update row)
unfolding missed_update Reads
missed_update-Reads none w = (refl, refl)
missed_update-Reads (some row) w = (refl, refl)

-- the constructor takes again what it made, under other dates
remade :
    (p a : Account) (archived_at : Option ℕ) (at : ℕ)
    → new_account p ≡ ok a
    → new_account (record a { archived_at = archived_at; updated_at = at })
      ≡ ok (record a { archived_at = archived_at; updated_at = at })
unfolding new_account
remade p a archived_at at h = ground (arith, trim_space_idem p.name)

-- what was read from a row has a name, a type and currencies that the constructor takes
found-remade :
    (env : Env) (user_id id : Text) (w : World) {a : Account} (archived_at : Option ℕ) (at : ℕ)
    → (find_by_id env user_id id w).0 ≡ ok a
    → new_account (record a { archived_at = archived_at; updated_at = at })
      ≡ ok (record a { archived_at = archived_at; updated_at = at })
unfolding scan_account
found-remade env user_id id w {a} archived_at at h =
    let (f, _, s) =
      find-eq-ok env user_id id w {a = a} {w' = (find_by_id env user_id id w).1}
        (λ i. (h i, (find_by_id env user_id id w).1)) in
    let (y, _, h₁) = result->>=-eq-ok (parse_account_type (trim_space f.row.type_column)) _ s in
    let (c, _, h₂) = result->>=-eq-ok (parse_currency (trim_space f.row.currency)) _ h₁ in
    remade (params_of id f.row y c) a archived_at at h₂

require_affected-IsClean : IsClean (require_affected false)
unfolding require_affected IsClean
require_affected-IsClean w e h = (refl, refl)

require_affected-Succeeds : Succeeds (require_affected true)
unfolding require_affected Succeeds
require_affected-Succeeds w e h = cc

update-no_effect :
    (a : Account) (expected : ℕ) (db db' : Database)
    → repository.update_account a expected db ≡ ok (false, db')
    → db' ≡ db
unfolding repository.update_account
update-no_effect a expected db db' h = ground arith

archive-no_effect :
    (user_id id : Text) (at : ℕ) (db db' : Database)
    → repository.archive_account user_id id at db ≡ ok (false, db')
    → db' ≡ db
unfolding repository.archive_account
archive-no_effect user_id id at db db' h = ground arith

restore-no_effect :
    (user_id id : Text) (at : ℕ) (db db' : Database)
    → repository.restore_account user_id id at db ≡ ok (false, db')
    → db' ≡ db
unfolding repository.restore_account
restore-no_effect user_id id at db db' h = ground arith

-- `if err := m; err != nil { return handler(err) }; return rest`, where the rest never fails
handling-IsClean :
    (m : Action (Unit {0})) (handler : Error → Action Account) (rest : Action Account)
    → IsClean m
    → ((e : Error) → IsClean (handler e))
    → Succeeds rest
    → IsClean (handling m handler rest)
unfolding handling IsClean Succeeds
handling-IsClean m handler rest c k s w = after (m w).0 (m w).1 (c w)
  where
    after :
        (r : Outcome (Unit {0})) (u : World)
        → ((e : Error) → r ≡ err e → Same w u)
        → (e : Error)
        → (let p : Outcome Account × World = elim r [ ok t ↦ rest u | err x ↦ handler x u ] in p).0
          ≡ err e
        → Same w
            (let p : Outcome Account × World = elim r [ ok t ↦ rest u | err x ↦ handler x u ] in
              p).1
    after (ok t) u h e x = absurd (s u e x)
    after (err y) u h e x = let (d, i) = h y refl in let (d', i') = k y u e x in (d' ∙ d, i' ∙ i)

archived_meanwhile-Reads : (m : Action Account) → Reads m → Reads (archived_meanwhile m)
unfolding archived_meanwhile Reads
archived_meanwhile-Reads m h w = after (m w).0 (m w).1 (h w)
  where
    after :
        (r : Outcome Account) (u : World)
        → Same w u
        → Same w
            (let p : Outcome Account × World = elim r [
              | ok current ↦
                  if is_archived current then (ok current, u) else (err account_not_found, u)
              | err e ↦ (err account_not_found, u)
            ] in
              p).1
    after (ok current) u s = elim (Bool-cases (is_archived current)) [
      | inl is_so ↦ rw is_so s
      | inr not_so ↦ rw not_so s
    ]
    after (err y) u s = s

module _ (env : Env) where
  pub find-Reads : (user_id id : Text) → Reads (find_by_id env user_id id)
  unfolding find_by_id
  find-Reads user_id id =
      >>=-Reads _ _ (execute-Reads env database_failure (select_account user_id id))
        (scan_found-Reads id)

  create-IsClean : (a : Account) → IsClean (create env a)
  unfolding create
  create-IsClean a = execute-IsClean env _ _

  missed-IsClean : (user_id id : Text) → IsClean (report_missed_update env user_id id false)
  unfolding report_missed_update
  missed-IsClean user_id id = Reads-IsClean _ (
      >>=-Reads _ _ (execute-Reads env database_failure (select_account user_id id))
        missed_update-Reads)

  report-Succeeds : (user_id id : Text) → Succeeds (report_missed_update env user_id id true)
  unfolding report_missed_update Succeeds
  report-Succeeds user_id id w e x = cc

  update-IsClean : (a : Account) (expected : ℕ) → IsClean (update_by_id env a expected)
  unfolding update_by_id
  update-IsClean a expected =
      execute-then-IsClean env _ _ _ (update-no_effect a expected) (missed-IsClean a.user_id a.id)
        (report-Succeeds a.user_id a.id)

  pub archive-IsClean : (user_id id : Text) (at : ℕ) → IsClean (archive_by_id env user_id id at)
  unfolding archive_by_id
  archive-IsClean user_id id at =
      execute-then-IsClean env _ _ _ (archive-no_effect user_id id at) require_affected-IsClean
        require_affected-Succeeds

  restore-IsClean : (user_id id : Text) (at : ℕ) → IsClean (restore_by_id env user_id id at)
  unfolding restore_by_id
  restore-IsClean user_id id at =
      execute-then-IsClean env _ _ _ (restore-no_effect user_id id at) require_affected-IsClean
        require_affected-Succeeds

  pub create_account-IsClean : (input : CreateAccountInput) → IsClean (create_account env input)
  unfolding create_account
  create_account-IsClean input = raise_if-then-IsClean _ _ _ (
      >>=-IsClean _ _ (clock_now-Reads env) λ now. >>=-IsClean _ _ (generate_id-Reads env) λ id.
        >>=-IsClean _ _ (lift-Reads _) λ account.
          >>-IsClean _ _ (map_error-IsClean name_taken _ (create-IsClean account))
            (lift-Succeeds (ok account) refl))

  pub update_account-IsClean : (input : UpdateAccountInput) → IsClean (update_account env input)
  unfolding update_account
  update_account-IsClean input =
      >>=-IsClean _ _ (find-Reads input.user_id input.account_id) λ account.
        >>=-IsClean _ _ (clock_now-Reads env) λ at. >>=-IsClean _ _ (lift-Reads _) λ updated.
          >>-IsClean _ _
            (map_error-IsClean name_taken _ (update-IsClean updated account.updated_at))
            (lift-Succeeds (ok updated) refl)

  pub archive_failed-Reads :
      (user_id id : Text) (e : Error) → Reads (archive_failed env user_id id e)
  unfolding archive_failed
  archive_failed-Reads user_id id account_not_found =
      archived_meanwhile-Reads _ (find-Reads user_id id)
  archive_failed-Reads user_id id e = raise-Reads Account e

  pub archive_account-IsClean : (user_id id : Text) → IsClean (archive_account env user_id id)
  unfolding archive_account archive_active archived_account
  archive_account-IsClean user_id id = >>=-IsClean_at _ _ (find-Reads user_id id) λ account w h.
      elim (Bool-cases (is_archived account)) [
        | inl is_so ↦ rw is_so (Reads-IsClean _ (pure-Reads account))
        | inr not_so ↦ rw not_so (
            >>=-IsClean _ _ (clock_now-Reads env) λ at.
              handling-IsClean _ _ _ (archive-IsClean user_id id at)
                (λ e. Reads-IsClean _ (archive_failed-Reads user_id id e))
                (lift-Succeeds _ (found-remade env user_id id w (some at) at h)))
      ]

  pub restore_account-IsClean : (user_id id : Text) → IsClean (restore_account env user_id id)
  unfolding restore_account restore_archived restored_account
  restore_account-IsClean user_id id = >>=-IsClean_at _ _ (find-Reads user_id id) λ account w h.
      elim (Bool-cases (is_archived account)) [
        | inl is_so ↦ rw is_so (
            >>=-IsClean _ _ (clock_now-Reads env) λ at.
              >>-IsClean _ _ (map_error-IsClean name_taken _ (restore-IsClean user_id id at))
                (lift-Succeeds _ (found-remade env user_id id w none at h)))
        | inr not_so ↦ rw not_so (Reads-IsClean _ (pure-Reads account))
      ]
