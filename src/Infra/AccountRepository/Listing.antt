-- ===== src/Infra/AccountRepository/Listing.antt =====
-- internal/infra/postgres/account_repository.go: `ListByUserID`.
use moneo_backend.Common.{
  ℕ, suc, Bool, true, false, not, ◌&&◌, ◌||◌, Text, text_eq, text_ltb, Option, none, some, List, [],
  ◌∷◌, Result, ok, err, if◌then◌else◌, ltb, ◌==◌,
}
use moneo_backend.Common
use moneo_backend.Domain.Errors.{Outcome, database_failure}
use moneo_backend.Domain.Account.{Account}
use moneo_backend.Infra.Table.{Table}
use moneo_backend.Infra.Database.{AccountRow, Env, Action, lift, ◌>>=◌, execute}
use moneo_backend.Infra.AccountRepository.{scan_account}

-- `WHERE user_id = $1`, and `AND archived_at IS NULL` unless archived accounts are included
unfoldable pub is_listed : Text → Bool → AccountRow → Bool
is_listed user_id include_archived row =
    text_eq row.user_id user_id
    && (include_archived || elim row.archived_at [ none ↦ true | some at ↦ false ])

-- `ORDER BY created_at DESC, id`
unfoldable pub created_later : Text × AccountRow → Text × AccountRow → Bool
created_later p q =
    ltb q.1.created_at p.1.created_at || (p.1.created_at == q.1.created_at && text_ltb p.0 q.0)

unfoldable pub insert_row : Text × AccountRow → Table AccountRow → Table AccountRow
insert_row p [] = p ∷ []
insert_row p (q ∷ rows) = if created_later q p then q ∷ insert_row p rows else p ∷ q ∷ rows

-- the SELECT statement
unfoldable pub select_accounts : Text → Bool → Table AccountRow → Table AccountRow
select_accounts user_id include_archived [] = []
select_accounts user_id include_archived ((id, row) ∷ rows) =
    let rest = select_accounts user_id include_archived rows in
    if is_listed user_id include_archived row then insert_row (id, row) rest else rest

-- the loop over the rows
unfoldable pub scan_accounts : Table AccountRow → Outcome (List Account)
scan_accounts [] = ok []
scan_accounts ((id, row) ∷ rows) =
    Common.◌>>=◌ (scan_account id row)
      λ account. Common.◌>>=◌ (scan_accounts rows) λ accounts. ok (account ∷ accounts)

-- `AccountRepository.ListByUserID`
unfoldable pub list_by_user_id : Env → Text → Bool → Action (List Account)
list_by_user_id env user_id include_archived = do
  rows ←
      execute env database_failure
        (λ db. ok (select_accounts user_id include_archived db.accounts, db))
  lift (scan_accounts rows)
