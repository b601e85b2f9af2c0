-- ===== src/Infra/Database.antt =====
-- The rows of db/migrations, the state that a request works on, and internal/infra/postgres/tx.go.
-- What a statement does to the tables is written with each repository; whether the database
-- carries it out at all is a parameter, and so are the clock and the generator of ids.
pub mod Atomic
pub mod Clean
pub mod Failures
pub mod Histories
pub mod Commits
use moneo_backend.Common.{
  ℕ, suc, ◌≡◌, refl, sym, ap, Bool, true, false, Text, Option, none, some, Result, ok, err,
  if◌then◌else◌, arith,
}
use moneo_backend.Domain.Errors.{Error, Outcome, database_failure, duplicate_active_account_name}
use moneo_backend.Infra.Table.{Table}

-- A row of `transactions` without its id.
pub record TransactionRow : Type 0 where
  pub user_id : Text
  pub type_column : Text
  pub status_column : Text
  pub amount_minor : ℕ
  pub currency : Text
  pub occurred_at : Option ℕ
  pub planned_at : Option ℕ
  pub account_from_id : Option Text
  pub account_to_id : Option Text
  pub category_id : Option Text
  pub subcategory_id : Option Text
  pub budget_member_id : Option Text
  pub income_source_id : Option Text
  pub debt_id : Option Text
  pub goal_id : Option Text
  pub investment_id : Option Text
  pub recurring_payment_id : Option Text
  pub comment : Option Text
  pub posted_at : Option ℕ
  pub cancelled_at : Option ℕ
  pub created_at : ℕ
  pub updated_at : ℕ

-- A row of `accounts` without its id.
pub record AccountRow : Type 0 where
  pub user_id : Text
  pub name : Text
  pub type_column : Text
  pub currency : Text
  pub balance_minor : ℕ
  pub initial_balance_minor : ℕ
  pub include_in_net_worth : Bool
  pub include_in_daily_budget : Bool
  pub archived_at : Option ℕ
  pub created_at : ℕ
  pub updated_at : ℕ

-- A row of `users` without its id.
pub record UserRow : Type 0 where
  pub email : Text
  pub normalized_email : Text
  pub password_hash : Text
  pub email_verified : Bool
  pub created_at : ℕ
  pub updated_at : ℕ

-- A row of `sessions` without its id.
pub record SessionRow : Type 0 where
  pub user_id : Text
  pub refresh_token_hash : Text
  pub user_agent : Option Text
  pub ip : Option Text
  pub device_name : Option Text
  pub created_at : ℕ
  pub last_used_at : Option ℕ
  pub expires_at : ℕ
  pub revoked_at : Option ℕ

-- A row of `auth_one_time_tokens` without its id.
pub record OneTimeTokenRow : Type 0 where
  pub user_id : Text
  pub purpose : Text
  pub token_hash : Text
  pub created_at : ℕ
  pub expires_at : ℕ
  pub used_at : Option ℕ

pub record Database : Type 0 where
  pub transactions : Table TransactionRow
  pub accounts : Table AccountRow
  pub users : Table UserRow
  pub sessions : Table SessionRow
  pub one_time_tokens : Table OneTimeTokenRow

-- What PostgreSQL answers to a statement: it carries it out, refuses it because of a unique index
-- that the caller looks at, or fails for any other reason.
pub data Reply : Type 0 where
  done unique_violation failure : Reply

-- The world outside: its answers, by the number of calls made before. `commit_kept` tells, of a
-- COMMIT that is answered by an error, whether the database has carried it out nevertheless, as when
-- the connection is lost before the answer.
pub record Env : Type 0 where
  pub reply : ℕ → Reply
  pub now : ℕ → ℕ
  pub new_id : ℕ → Text
  pub commit_kept : ℕ → Bool

-- The state of a request: the tables, whether its context carries a transaction, and the number
-- of calls to the world outside.
pub record World : Type 0 where
  pub db : Database
  pub in_tx : Bool
  pub calls : ℕ

abbrev pub Action : Type 0 → Type 0
Action A = World → Outcome A × World

module _ {A : Type 0} where
  abbrev pub pure : A → Action A
  pure a w = (ok a, w)

  abbrev pub raise : Error → Action A
  raise e w = (err e, w)

  abbrev pub lift : Outcome A → Action A
  lift r w = (r, w)

infixl 5 ◌>>=◌ ◌>>◌
unfoldable pub ◌>>=◌ : {A B : Type 0} → Action A → (A → Action B) → Action B
◌>>=◌ m f w = let (r, w') = m w in elim r [ ok a ↦ f a w' | err e ↦ (err e, w') ]

bind-eq-ok :
    {A B : Type 0} (r : Outcome A) (f : A → Action B) (u : World) {b : B} {w' : World}
    → ◌≡◌ {A = Outcome B × World} (elim r [ ok a ↦ f a u | err e ↦ (err e, u) ]) (ok b, w')
    → (a : A) × (r ≡ ok a) × (f a u ≡ (ok b, w'))
bind-eq-ok (ok a) f u h = (a, refl, h)
bind-eq-ok (err e) f u h = cc

unfoldable pub ◌>>◌ : {B : Type 0} → Action (Unit {0}) → Action B → Action B
unfolding ◌>>=◌
m >> k = m >>= λ _. k

-- A successful sequence after a step without a value.
pub >>-eq-ok :
    {B : Type 0} (m : Action (Unit {0})) (k : Action B) (w : World) {b : B} {w' : World}
    → (m >> k) w ≡ (ok b, w')
    → (u : World) × (m w ≡ (ok tt, u)) × (k u ≡ (ok b, w'))
unfolding ◌>>◌
>>-eq-ok m k w h =
    let (a, e, g) = bind-eq-ok (m w).0 (λ _. k) (m w).1 h in ((m w).1, λ i. (e i, (m w).1), g)

abbrev pub raise_if : Bool → Error → Action (Unit {0})
raise_if b e w = (if b then err e else ok tt, w)

-- A call whose error the caller translates.
abbrev pub map_error : {A : Type 0} → (Error → Error) → Action A → Action A
map_error f m w = let (r, w') = m w in (elim r [ ok a ↦ ok a | err e ↦ err (f e) ], w')

abbrev pub tick : World → World
tick w = record w { calls = suc w.calls }

-- `clock.Now()` and `idgen.New…ID()`
unfoldable pub clock_now : Env → Action ℕ
clock_now env w = (ok (env.now w.calls), tick w)

unfoldable pub generate_id : Env → Action Text
generate_id env w = (ok (env.new_id w.calls), tick w)

-- the effect of a statement that is carried out; an error in it leaves the tables alone
unfoldable pub after_statement : {A : Type 0} → Outcome (A × Database) → World → Outcome A × World
after_statement (ok (a, db')) w = (ok a, record (tick w) { db = db' })
after_statement (err e) w = (err e, tick w)

unfoldable pub answered :
    {A : Type 0} → Reply → Error → (Database → Outcome (A × Database)) → Action A
answered done unique f w = after_statement (f w.db) w
answered unique_violation unique f w = (err unique, tick w)
answered failure unique f w = (err database_failure, tick w)

-- One statement. `unique` is the error that the caller makes of a unique violation.
unfoldable pub execute : {A : Type 0} → Env → Error → (Database → Outcome (A × Database)) → Action A
unfolding answered after_statement
execute env unique f w = answered (env.reply w.calls) unique f w

-- `BEGIN`, `COMMIT` or `ROLLBACK`: true if it was carried out.
unfoldable pub control : Env → World → Bool × World
control env w = (elim (env.reply w.calls) [ done ↦ true | _ ↦ false ], tick w)

-- what is left of a transaction that began at the tables `before`, by whether the database answers
-- that it has carried out its COMMIT, after a success, or its ROLLBACK, and whether a COMMIT that is
-- answered by an error is kept; the error of a failed ROLLBACK is the database's, and has the first
-- one in its text only
unfoldable pub close_tx :
    {A : Type 0} → Database → Outcome A → Bool → Bool → World → Outcome A × World
close_tx before (ok a) true kept w = (ok a, record w { in_tx = false })
close_tx before (ok a) false true w = (err database_failure, record w { in_tx = false })
close_tx before (ok a) false false w =
    (err database_failure, record w { in_tx = false; db = before })
close_tx before (err e) true kept w = (err e, record w { in_tx = false; db = before })
close_tx before (err e) false kept w =
    (err database_failure, record w { in_tx = false; db = before })

unfoldable pub finish_tx : {A : Type 0} → Env → Database → Outcome A → World → Outcome A × World
unfolding close_tx
finish_tx env before r w =
    let (closed, w') = control env w in close_tx before r closed (env.commit_kept w.calls) w'

-- a new transaction, if the database begins one
unfoldable pub run_tx : {A : Type 0} → Env → Action A → Bool → World → Outcome A × World
unfolding finish_tx
run_tx env m true w = let (r, w') = m (record w { in_tx = true }) in finish_tx env w.db r w'
run_tx env m false w = (err database_failure, w)

-- `TxManager.WithinTx`: inside a transaction the function runs in it; otherwise a new one is begun,
-- and committed if the function succeeds. A transaction that is not committed has no effect.
unfoldable pub within_tx : {A : Type 0} → Env → Action A → Action A
unfolding run_tx control
within_tx env m w =
    if w.in_tx then m w else (let (begun, w') = control env w in run_tx env m begun w')

-- A successful sequence: both parts succeed.
pub >>=-eq-ok :
    {A B : Type 0} (m : Action A) (f : A → Action B) (w : World) {b : B} {w' : World}
    → (m >>= f) w ≡ (ok b, w')
    → (a : A) × (u : World) × (m w ≡ (ok a, u)) × (f a u ≡ (ok b, w'))
unfolding ◌>>=◌
>>=-eq-ok m f w h =
    let (a, e, g) = bind-eq-ok (m w).0 f (m w).1 h in (a, (m w).1, λ i. (e i, (m w).1), g)

-- The same, handing the parts to the rest of a proof.
pub >>=-elim :
    {A B P : Type 0} (m : Action A) (f : A → Action B) (w : World) {b : B} {w' : World}
    → (m >>= f) w ≡ (ok b, w')
    → ((a : A) (u : World) → m w ≡ (ok a, u) → f a u ≡ (ok b, w') → P)
    → P
>>=-elim m f w h k = let (a, u, e, g) = >>=-eq-ok m f w h in k a u e g

pub >>-elim :
    {B P : Type 0} (m : Action (Unit {0})) (k : Action B) (w : World) {b : B} {w' : World}
    → (m >> k) w ≡ (ok b, w')
    → ((u : World) → m w ≡ (ok tt, u) → k u ≡ (ok b, w') → P)
    → P
>>-elim m k w h c = let (u, e, g) = >>-eq-ok m k w h in c u e g

pub raise_if-eq-ok :
    (b : Bool) (e : Error) (w : World) {u : Unit {0}} {w' : World}
    → raise_if b e w ≡ (ok u, w')
    → (b ≡ false) × (w' ≡ w)
raise_if-eq-ok b e w h = ground arith

pub lift-eq-ok :
    {A : Type 0} (r : Outcome A) (w : World) {a : A} {w' : World}
    → lift r w ≡ (ok a, w')
    → (r ≡ ok a) × (w' ≡ w)
lift-eq-ok r w h = (λ i. (h i).0, sym (λ i. (h i).1))

map_error-go :
    {A : Type 0} (f : Error → Error) (r : Outcome A) {a : A}
    → ◌≡◌ {A = Outcome A} (elim r [ ok a ↦ ok a | err e ↦ err (f e) ]) (ok a)
    → r ≡ ok a
map_error-go f (ok a) h = h
map_error-go f (err e) h = cc

pub map_error-eq-ok :
    {A : Type 0} (f : Error → Error) (m : Action A) (w : World) {a : A} {w' : World}
    → map_error f m w ≡ (ok a, w')
    → m w ≡ (ok a, w')
map_error-eq-ok f m w h = λ i. (map_error-go f (m w).0 (λ j. (h j).0) i, (h i).1)

pub clock_now-db :
    (env : Env) (w : World) {n : ℕ} {w' : World} → clock_now env w ≡ (ok n, w') → w'.db ≡ w.db
unfolding clock_now
clock_now-db env w h = ground arith

pub generate_id-db :
    (env : Env) (w : World) {n : Text} {w' : World} → generate_id env w ≡ (ok n, w') → w'.db ≡ w.db
unfolding generate_id
generate_id-db env w h = ground arith

after_statement-eq-ok :
    {A : Type 0} (r : Outcome (A × Database)) (w : World) {a : A} {w' : World}
    → after_statement r w ≡ (ok a, w')
    → r ≡ ok (a, w'.db)
unfolding after_statement
after_statement-eq-ok (ok (b, db')) w h = ground arith
after_statement-eq-ok (err e) w h = cc

answered-eq-ok :
    {A : Type 0} (reply : Reply) (e : Error) (f : Database → Outcome (A × Database)) (w : World)
    {a : A} {w' : World}
    → answered reply e f w ≡ (ok a, w')
    → f w.db ≡ ok (a, w'.db)
unfolding answered
answered-eq-ok done e f w h = after_statement-eq-ok (f w.db) w h
answered-eq-ok unique_violation e f w h = cc
answered-eq-ok failure e f w h = cc

-- A statement that succeeds has done to the tables what it says.
pub execute-eq-ok :
    {A : Type 0} (env : Env) (e : Error) (f : Database → Outcome (A × Database)) (w : World) {a : A}
    {w' : World}
    → execute env e f w ≡ (ok a, w')
    → f w.db ≡ ok (a, w'.db)
unfolding execute
execute-eq-ok env e f w h = answered-eq-ok (env.reply w.calls) e f w h

-- A statement that the database carries out.
pub execute-done :
    {A : Type 0} (env : Env) (e : Error) (f : Database → Outcome (A × Database)) (w : World) {a : A}
    {db' : Database}
    → env.reply w.calls ≡ done
    → f w.db ≡ ok (a, db')
    → execute env e f w ≡ (ok a, record (tick w) { db = db' })
unfolding execute
execute-done env e f w r h = rw (r, answered) (rw (h, after_statement))

-- what `>>=` makes of the first step's outcome
then_do : {A B : Type 0} → (A → Action B) → Outcome A × World → Outcome B × World
then_do f r = elim r.0 [ ok a ↦ f a r.1 | err e ↦ (err e, r.1) ]

-- A step that succeeds is followed by the rest.
pub >>=-ok :
    {A B : Type 0} (m : Action A) (f : A → Action B) (w : World) {a : A} {u : World}
    → m w ≡ (ok a, u)
    → (m >>= f) w ≡ f a u
unfolding ◌>>=◌ then_do
>>=-ok m f w h = ap (then_do f) h

-- A step that fails ends the sequence.
pub >>=-err :
    {A B : Type 0} (m : Action A) (f : A → Action B) (w : World) {e : Error} {u : World}
    → m w ≡ (err e, u)
    → (m >>= f) w ≡ (err e, u)
unfolding ◌>>=◌ then_do
>>=-err m f w h = ap (then_do f) h
