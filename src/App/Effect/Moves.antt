-- ===== src/App/Effect/Moves.antt =====
-- The loop of `applyTransactionBalanceEffect` in internal/app/accounting/transactions.go: how the
-- balances of the accounts move.
use mathlib.Core.Path.{subst}
use moneo_backend.Common.{
  ℕ, ◌+◌, ◌%◌, ◌≡◌, refl, ap, ◌∙◌, true, Text, text_eq, text_eq_iff, Option, none, some, List, [],
  ◌∷◌, ok, if◌then◌else◌, ◌==◌, arith, int64_mod, add64, inl, inr, Bool-cases,
}
use moneo_backend.Domain.Account.{Account, new_account, new_account-eq-ok}
use moneo_backend.Infra.Table.{Table, lookup, insert, lookup-insert, one_row}
use moneo_backend.Infra.Database.{AccountRow, Database, Env, World, >>=-elim, >>-elim, lift-eq-ok}
use moneo_backend.Infra.AccountRepository.{rewrite, scan_account}
use moneo_backend.Infra.AccountRepository.Laws.{Found, find-eq-ok, update-eq-ok, scan-fields}
use moneo_backend.App.Effect.{delta_of, adjusted, adjust_account, adjust_unless_zero, adjust_each}

-- `a` and `b` are the same `int64`.
infix 50 ◌≈◌
abbrev pub ◌≈◌ : ℕ → ℕ → Type 0
a ≈ b = a % int64_mod ≡ b % int64_mod

-- How an account's row may change when its user's accounts move by `d`: the owner and the initial
-- balance stay, and the balance moves by `d` if the account is the user's. An account that is not
-- there cannot move.
abbrev pub Moved : Text → ℕ → Option AccountRow → Option AccountRow → Type 0
Moved user_id d none none = d ≈ 0
Moved user_id d none (some s) = ⊥
Moved user_id d (some r) none = ⊥
Moved user_id d (some r) (some s) =
    (s.user_id ≡ r.user_id)
    × (s.initial_balance_minor ≡ r.initial_balance_minor)
    × (s.balance_minor ≈ r.balance_minor + (if text_eq r.user_id user_id then d else 0))

-- The accounts of one user move by `delta`, and the transactions stay.
pub record AccountsMove (user_id : Text) (delta : Text → ℕ) (db db' : Database) : Type 0 where
  pub transactions_stay : db'.transactions ≡ db.transactions
  pub moved :
      (id : Text) → Moved user_id (delta id) (lookup id db.accounts) (lookup id db'.accounts)

Moved-zero : (user_id : Text) (o : Option AccountRow) → Moved user_id 0 o o
Moved-zero user_id none = refl
Moved-zero user_id (some r) = (refl, refl, ground arith)

Moved-trans :
    (user_id : Text) (d e : ℕ) (o p q : Option AccountRow)
    → Moved user_id d o p
    → Moved user_id e p q
    → Moved user_id (d + e) o q
Moved-trans user_id d e none none none h k = ground arith
Moved-trans user_id d e none none (some s) h k = absurd k
Moved-trans user_id d e none (some r) q h k = absurd h
Moved-trans user_id d e (some r) none q h k = absurd h
Moved-trans user_id d e (some r) (some s) none h k = absurd k
Moved-trans user_id d e (some r) (some s) (some t) (u, i, b) (v, j, c) = (
  v ∙ u,
  j ∙ i,
  elim (Bool-cases (text_eq r.user_id user_id)) [
    | inl own ↦ rw own (ground arith)
    | inr not_own ↦ rw not_own (ground arith)
  ],
)

pub Moved-≈ :
    (user_id : Text) (d e : ℕ) (o p : Option AccountRow)
    → d ≈ e
    → Moved user_id d o p
    → Moved user_id e o p
Moved-≈ user_id d e none none h m = ground arith
Moved-≈ user_id d e none (some s) h m = absurd m
Moved-≈ user_id d e (some r) none h m = absurd m
Moved-≈ user_id d e (some r) (some s) h (u, i, b) = (
  u,
  i,
  elim (Bool-cases (text_eq r.user_id user_id)) [
    | inl own ↦ rw own (ground arith)
    | inr not_own ↦ rw not_own (ground arith)
  ],
)

-- The sum of the deltas of a loop over `ids` that go to the account `a`.
unfoldable pub applied : Table ℕ → List Text → Text → ℕ
applied deltas [] a = 0
applied deltas (id ∷ ids) a =
    (if text_eq id a then delta_of deltas id else 0) + applied deltas ids a

-- One account: a single write under its id.
Moved-insert :
    (user_id id a : Text) (d : ℕ) (rows : Table AccountRow) (r s : AccountRow)
    → lookup id rows ≡ some r
    → r.user_id ≡ user_id
    → s.user_id ≡ r.user_id
    → s.initial_balance_minor ≡ r.initial_balance_minor
    → s.balance_minor ≡ add64 r.balance_minor d
    → Moved user_id (if text_eq id a then d else 0) (lookup a rows) (lookup a (insert id s rows))
unfolding add64
Moved-insert user_id id a d rows r s l o u i b = elim (Bool-cases (text_eq id a)) [
  | inl same ↦
      let e : id ≡ a = (text_eq_iff id a).0 same in
      let own : text_eq r.user_id user_id ≡ true = (text_eq_iff r.user_id user_id).1 o in
      rw (same, lookup-insert id a s rows, same, subst (λ k. lookup k rows ≡ some r) e l, own)
        (u, i, ground arith)
  | inr other ↦ rw (other, lookup-insert id a s rows, other) (Moved-zero user_id (lookup a rows))
]

-- The account that was read, written back with the adjusted balance.
written-move :
    (user_id id : Text) (d at : ℕ) (db db' : Database) (account updated : Account)
    (f : Found user_id id db) (g : Found updated.user_id updated.id db)
    → scan_account id f.row ≡ ok account
    → new_account (adjusted account d at) ≡ ok updated
    → db' ≡ record db { accounts = insert updated.id (rewrite g.row updated) db.accounts }
    → AccountsMove user_id (λ a. if text_eq id a then d else 0) db db'
unfolding adjusted rewrite
written-move user_id id d at db db' account updated f g s n e =
    let (k, u, b, i, _) = scan-fields id f.row s in
    let m = new_account-eq-ok (adjusted account d at) n in
    let id_same : updated.id ≡ id = ap (λ (x : Account). x.id) m ∙ k in
    let balance : updated.balance.minor_units ≡ add64 f.row.balance_minor d =
      ap (λ (x : Account). x.balance.minor_units) m ∙ ap (λ n. add64 n d) b in
    let initial : updated.initial_balance.minor_units ≡ f.row.initial_balance_minor =
      ap (λ (x : Account). x.initial_balance.minor_units) m ∙ i in
    let same_row : g.row ≡ f.row =
      one_row id db.accounts (subst (λ k. lookup k db.accounts ≡ some g.row) id_same g.stands)
        f.stands in
    rw (e, id_same)
      (record {
        transactions_stay = refl;
        moved = λ a.
            Moved-insert user_id id a d db.accounts f.row (rewrite g.row updated) f.stands f.owned
              (ap (λ (x : AccountRow). x.user_id) same_row) initial balance;
      })

-- What an update has written.
abbrev Written : Account → Database → Database → Type 0
Written a db db' =
    (g : Found a.user_id a.id db) × (db'
      ≡ record db { accounts = insert a.id (rewrite g.row a) db.accounts })

AccountsMove-trans :
    {user_id : Text} {d e : Text → ℕ} {db db' db'' : Database}
    → AccountsMove user_id d db db'
    → AccountsMove user_id e db' db''
    → AccountsMove user_id (λ a. d a + e a) db db''
AccountsMove-trans {user_id} {d} {e} {db} {db'} {db''} m n = record {
  transactions_stay = n.transactions_stay ∙ m.transactions_stay;
  moved = λ a.
      Moved-trans user_id (d a) (e a) (lookup a db.accounts) (lookup a db'.accounts)
        (lookup a db''.accounts) (m.moved a) (n.moved a);
}

pub AccountsMove-≈ :
    {user_id : Text} {db db' : Database} (d e : Text → ℕ)
    → ((a : Text) → d a ≈ e a)
    → AccountsMove user_id d db db'
    → AccountsMove user_id e db db'
AccountsMove-≈ {user_id} {db} {db'} d e h m = record {
  transactions_stay = m.transactions_stay;
  moved = λ a.
      Moved-≈ user_id (d a) (e a) (lookup a db.accounts) (lookup a db'.accounts) (h a) (m.moved a);
}

pub AccountsMove-zero :
    (user_id : Text) (db db' : Database) → db' ≡ db → AccountsMove user_id (λ a. 0) db db'
AccountsMove-zero user_id db db' e =
    rw e
      (record { transactions_stay = refl; moved = λ a. Moved-zero user_id (lookup a db.accounts) })

module _ (env : Env) where
  adjust_account-move :
      (user_id : Text) (at : ℕ) (id : Text) (d : ℕ) (w : World) {u : Unit {0}} {w' : World}
      → adjust_account env user_id at id d w ≡ (ok u, w')
      → AccountsMove user_id (λ a. if text_eq id a then d else 0) w.db w'.db
  unfolding adjust_account
  adjust_account-move user_id at id d w {w' = w'} h = >>=-elim _ _ _ h λ account w₁ h₁ g₁.
      >>=-elim _ _ _ g₁ λ updated w₂ h₂ g₂.
        let (f, d₁, s) = find-eq-ok env user_id id w h₁ in
        let (n, d₂) = lift-eq-ok (new_account (adjusted account d at)) w₁ h₂ in
        let same : w₂.db ≡ w.db = ap (λ (x : World). x.db) d₂ ∙ d₁ in
        let (g, e) =
          subst (λ (x : Database). Written updated x w'.db) same
            (update-eq-ok env updated account.updated_at w₂ g₂) in
        written-move user_id id d at w.db w'.db account updated f g s n e

  adjust_unless_zero-move :
      (user_id : Text) (at : ℕ) (id : Text) (d : ℕ) (w : World) {u : Unit {0}} {w' : World}
      → adjust_unless_zero env user_id at id d w ≡ (ok u, w')
      → AccountsMove user_id (λ a. if text_eq id a then d else 0) w.db w'.db
  unfolding adjust_unless_zero
  adjust_unless_zero-move user_id at id d w {w' = w'} h = elim (Bool-cases (d == 0)) [
    | inl zero_delta ↦
        AccountsMove-≈ (λ a. 0) (λ a. if text_eq id a then d else 0) (λ a. ground arith)
          (AccountsMove-zero user_id w.db w'.db (ground arith))
    | inr nonzero ↦ adjust_account-move user_id at id d w (rw nonzero at h)
  ]

  pub adjust_each-move :
      (user_id : Text) (at : ℕ) (deltas : Table ℕ) (ids : List Text) (w : World) {u : Unit {0}}
      {w' : World}
      → adjust_each env user_id at deltas ids w ≡ (ok u, w')
      → AccountsMove user_id (applied deltas ids) w.db w'.db
  unfolding adjust_each applied
  adjust_each-move user_id at deltas [] w {w' = w'} h =
      AccountsMove-zero user_id w.db w'.db (ground arith)
  adjust_each-move user_id at deltas (id ∷ ids) w h = >>-elim _ _ _ h λ w₁ h₁ g₁.
      AccountsMove-trans (adjust_unless_zero-move user_id at id (delta_of deltas id) w h₁)
        (adjust_each-move user_id at deltas ids w₁ g₁)
