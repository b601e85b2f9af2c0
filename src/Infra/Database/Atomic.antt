-- ===== src/Infra/Database/Atomic.antt =====
-- internal/infra/postgres/tx.go: how a transaction begins and ends.
use moneo_backend.Common.{
  ℕ, ◌≡◌, ◌≢◌, ◌⊎◌, refl, sym, ap, ◌∙◌, Bool, true, false, ok, err, if◌then◌else◌, Bool-cases, inl,
  inr, arith,
}
use mathlib.Core.Path.{subst}
use moneo_backend.Domain.Errors.{Error, Outcome, database_failure}
use moneo_backend.Infra.Database.{
  done, tick, Database, Env, World, Action, control, close_tx, finish_tx, run_tx, within_tx,
}

-- How a transaction that was begun at the tables `before` ends: it is committed, it is dropped after
-- an error of its function or of the database, or its COMMIT is carried out but not answered so.
data Ending {A : Type 0} (env : Env) (m : Action A) (before : Database)
    : Outcome A → World → Type 0 where
  committed :
      (a : A) (u u' w : World)
      → u.db ≡ before
      → m u ≡ (ok a, u')
      → w.db ≡ u'.db
      → w.in_tx ≡ false
      → Ending env m before (ok a) w
  dropped :
      (e : Error) (u w : World)
      → u.db ≡ before
      → (e ≡ database_failure) ⊎ ((m u).0 ≡ err e)
      → w.db ≡ before
      → w.in_tx ≡ false
      → Ending env m before (err e) w
  lost :
      (a : A) (u u' w : World) (n : ℕ)
      → u.db ≡ before
      → m u ≡ (ok a, u')
      → w.db ≡ u'.db
      → w.in_tx ≡ false
      → env.commit_kept n ≡ true
      → Ending env m before (err database_failure) w

close-Ending :
    {A : Type 0} (env : Env) (m : Action A) (before : Database) (u : World) (r : Outcome A)
    (closed kept : Bool) (n : ℕ) (u' v : World)
    → env.commit_kept n ≡ kept
    → u.db ≡ before
    → m u ≡ (r, u')
    → v.db ≡ u'.db
    → Ending env m before (close_tx before r closed kept v).0 (close_tx before r closed kept v).1
unfolding close_tx
close-Ending env m before u (ok a) true kept n u' v k e h d = committed a u u' _ e h d refl
close-Ending env m before u (ok a) false true n u' v k e h d = lost a u u' _ n e h d refl k
close-Ending env m before u (ok a) false false n u' v k e h d = dropped _ u _ e (inl refl) refl refl
close-Ending env m before u (err x) true kept n u' v k e h d =
    dropped _ u _ e (inr (λ i. (h i).0)) refl refl
close-Ending env m before u (err x) false kept n u' v k e h d = dropped _ u _ e (inl refl) refl refl

run-Ending :
    {A : Type 0} (env : Env) (m : Action A) (begun : Bool) (w : World)
    → w.in_tx ≡ false
    → Ending env m w.db (run_tx env m begun w).0 (run_tx env m begun w).1
unfolding run_tx finish_tx control
run-Ending env m true w h =
    let u : World = record w { in_tx = true } in
    close-Ending env m w.db u (m u).0 (control env (m u).1).0 _ (m u).1.calls (m u).1
      (control env (m u).1).1 refl refl refl refl
run-Ending env m false w h = dropped _ w _ refl (inl refl) refl h

pub within_tx-outside :
    {A : Type 0} (env : Env) (m : Action A) (w : World)
    → w.in_tx ≡ false
    → within_tx env m w ≡ run_tx env m (control env w).0 (control env w).1
unfolding within_tx
within_tx-outside env m w h =
    ap (λ b. if b then m w else run_tx env m (control env w).0 (control env w).1) h

pub within_tx-inside :
    {A : Type 0} (env : Env) (m : Action A) (w : World) → w.in_tx ≡ true → within_tx env m w ≡ m w
unfolding within_tx
within_tx-inside env m w h =
    ap (λ b. if b then m w else run_tx env m (control env w).0 (control env w).1) h

within_tx-Ending :
    {A : Type 0} (env : Env) (m : Action A) (w : World)
    → w.in_tx ≡ false
    → Ending env m w.db (within_tx env m w).0 (within_tx env m w).1
unfolding control
within_tx-Ending env m w h =
    rw (within_tx-outside env m w h) (run-Ending env m (control env w).0 (control env w).1 h)

-- What `WithinTx` may do outside of a transaction to `m`, by its answer and the world after it: it
-- succeeds as the function does, on the tables from before, whose tables stay; or it answers the
-- function's error or the database's, with the tables from before; or it answers the database's error
-- after a COMMIT that was carried out nevertheless.
abbrev pub IsAtomic : {A : Type 0} → Env → Action A → World → Outcome A → World → Type 0
IsAtomic {A} env m w r v =
    ((a : A) × (u u' : World) × (r ≡ ok a) × (u.db ≡ w.db) × (m u ≡ (ok a, u')) × (v.db ≡ u'.db))
    ⊎ (((e : Error) × (u : World) × (r ≡ err e)
          × (u.db ≡ w.db)
          × ((e ≡ database_failure) ⊎ ((m u).0 ≡ err e))
          × (v.db ≡ w.db))
        ⊎ ((a : A) × (u u' : World) × (n : ℕ) × (r ≡ err database_failure)
            × (u.db ≡ w.db)
            × (m u ≡ (ok a, u'))
            × (v.db ≡ u'.db)
            × (env.commit_kept n ≡ true)))

-- `WithinTx` outside of a transaction: its context carries no transaction after it, and either it
-- answers what the function answered on the tables from before, and leaves the tables as the function
-- left them; or it answers the function's error on them, or the database's, and the tables are as
-- they were before; or it answers the database's error although a COMMIT was carried out, and leaves
-- the tables as the function, which succeeded, left them.
pub within_tx-IsAtomic :
    {A : Type 0} (env : Env) (m : Action A) (w : World)
    → w.in_tx ≡ false
    → ((within_tx env m w).1.in_tx ≡ false)
      × IsAtomic env m w (within_tx env m w).0 (within_tx env m w).1
within_tx-IsAtomic {A} env m w h = outcome (within_tx-Ending env m w h)
  where
    outcome :
        {r : Outcome A} {v : World}
        → Ending env m w.db r v
        → (v.in_tx ≡ false) × IsAtomic env m w r v
    outcome (committed a u u' v d k e o) = (o, inl (a, u, u', refl, d, k, e))
    outcome (dropped e u v d c k o) = (o, inr (inl (e, u, refl, d, c, k)))
    outcome (lost a u u' v n d k e o l) = (o, inr (inr (a, u, u', n, refl, d, k, e, l)))

true-ne-false : true ≢ false
true-ne-false h = cc

ok-ne-err : {A : Type 0} {a : A} {e : Error} → ◌≢◌ {A = Outcome A} (ok a) (err e)
ok-ne-err h = cc

-- What `WithinTx` answers on success, the function has answered.
pub within_tx-ran :
    {A : Type 0} (env : Env) (m : Action A) (w : World) {a : A} {w' : World}
    → within_tx env m w ≡ (ok a, w')
    → (u u' : World) × (m u ≡ (ok a, u'))
within_tx-ran {A} env m w {a} h = elim (Bool-cases w.in_tx) [
  | inl inside ↦ (w, _, sym (within_tx-inside env m w inside) ∙ h)
  | inr outside ↦ ran (within_tx-Ending env m w outside) (λ i. (h i).0)
]
  where
    ran :
        {r : Outcome A} {v : World}
        → Ending env m w.db r v
        → r ≡ ok a
        → (u u' : World) × (m u ≡ (ok a, u'))
    ran (committed b u u' v d e f o) q = (u, u', ground arith)
    ran (dropped e u v d c k o) q = absurd (ok-ne-err (sym q))
    ran (lost b u u' v n d k e o l) q = absurd (ok-ne-err (sym q))

-- No COMMIT that is answered by an error has been carried out.
abbrev pub CommitsAnswered : Env → Type 0
CommitsAnswered env = (n : ℕ) → env.commit_kept n ≡ false

-- An error that `WithinTx` answers leaves the tables as they were.
pub within_tx-err :
    {A : Type 0} (env : Env) (m : Action A) (w : World) {e : Error}
    → CommitsAnswered env
    → w.in_tx ≡ false
    → (within_tx env m w).0 ≡ err e
    → ((within_tx env m w).1.in_tx ≡ false) × ((within_tx env m w).1.db ≡ w.db)
within_tx-err {A} env m w {e} answered h x = outcome (within_tx-Ending env m w h) x
  where
    outcome :
        {r : Outcome A} {v : World}
        → Ending env m w.db r v
        → r ≡ err e
        → (v.in_tx ≡ false) × (v.db ≡ w.db)
    outcome (committed a u u' v d k f o) q = absurd (ok-ne-err q)
    outcome (dropped x u v d c k o) q = (o, k)
    outcome (lost a u u' v n d k f o l) q = absurd (true-ne-false (sym l ∙ answered n))

-- A property of the tables that the function keeps whenever it succeeds is kept by `WithinTx`,
-- whatever the outcome.
pub within_tx-keeps :
    {A : Type 0} (P : Database → Type 0) (env : Env) (m : Action A) (w : World)
    → ((a : A) (u u' : World) → m u ≡ (ok a, u') → P u.db → P u'.db)
    → w.in_tx ≡ false
    → P w.db
    → P (within_tx env m w).1.db
within_tx-keeps {A} P env m w k h p = outcome (within_tx-Ending env m w h)
  where
    outcome : {r : Outcome A} {v : World} → Ending env m w.db r v → P v.db
    outcome (committed a u u' v d e f o) = subst P (sym f) (k a u u' e (subst P (sym d) p))
    outcome (dropped e u v d c f o) = subst P (sym f) p
    outcome (lost a u u' v n d e f o l) = subst P (sym f) (k a u u' e (subst P (sym d) p))

run_tx-within :
    {A : Type 0} (env : Env) (m : Action A) (begun : Bool) (w : World)
    → run_tx env (within_tx env m) begun w ≡ run_tx env m begun w
unfolding run_tx
run_tx-within env m true w = rw (within_tx-inside env m (record w { in_tx = true }) refl)
run_tx-within env m false w = refl

-- A call of `WithinTx` directly inside another one joins it: the two are one transaction.
pub within_tx_idem :
    {A : Type 0} (env : Env) (m : Action A) (w : World)
    → within_tx env (within_tx env m) w ≡ within_tx env m w
within_tx_idem env m w = elim (Bool-cases w.in_tx) [
  | inl inside ↦ within_tx-inside env (within_tx env m) w inside
  | inr outside ↦
      within_tx-outside env (within_tx env m) w outside
      ∙ run_tx-within env m (control env w).0 (control env w).1
      ∙ sym (within_tx-outside env m w outside)
]

control-done : (env : Env) (w : World) → env.reply w.calls ≡ done → control env w ≡ (true, tick w)
unfolding control
control-done env w r = rw r

finish-done :
    {A : Type 0} (env : Env) (before : Database) (a : A) (u : World)
    → env.reply u.calls ≡ done
    → finish_tx env before (ok a) u ≡ (ok a, record (tick u) { in_tx = false })
unfolding finish_tx close_tx
finish-done env before a u r =
    ap (λ c. close_tx before (ok a) c.0 (env.commit_kept u.calls) c.1) (control-done env u r)

-- A transaction that is begun and committed answers what the function answered.
pub within_tx-done :
    {A : Type 0} (env : Env) (m : Action A) (w : World) {a : A} {u : World}
    → w.in_tx ≡ false
    → env.reply w.calls ≡ done
    → m (record (tick w) { in_tx = true }) ≡ (ok a, u)
    → env.reply u.calls ≡ done
    → within_tx env m w ≡ (ok a, record (tick u) { in_tx = false })
unfolding run_tx
within_tx-done env m w {a} {u} h r k q =
    within_tx-outside env m w h
    ∙ ap (λ c. run_tx env m c.0 c.1) (control-done env w r)
    ∙ ap (λ x. finish_tx env w.db x.0 x.1) k
    ∙ finish-done env w.db a u q

finish-err :
    {A : Type 0} (env : Env) (before : Database) (e : Error) (u : World)
    → env.reply u.calls ≡ done
    → (finish_tx {A = A} env before (err e) u).0 ≡ err e
unfolding finish_tx close_tx
finish-err {A} env before e u r =
    ap (λ c. (close_tx {A = A} before (err e) c.0 (env.commit_kept u.calls) c.1).0)
      (control-done env u r)

-- The error of a function that fails after its transaction is begun is the answer, when the
-- transaction is rolled back.
pub within_tx-fails :
    {A : Type 0} (env : Env) (m : Action A) (w : World) {e : Error} {u : World}
    → w.in_tx ≡ false
    → env.reply w.calls ≡ done
    → m (record (tick w) { in_tx = true }) ≡ (err e, u)
    → env.reply u.calls ≡ done
    → (within_tx env m w).0 ≡ err e
unfolding run_tx
within_tx-fails env m w {e} {u} h r k q =
    ap (λ c. c.0)
      (within_tx-outside env m w h
        ∙ ap (λ c. run_tx env m c.0 c.1) (control-done env w r)
        ∙ ap (λ x. finish_tx env w.db x.0 x.1) k)
    ∙ finish-err env w.db e u q
