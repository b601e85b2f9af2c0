-- ===== src/Infra/Database/Failures.antt =====
-- Where the error of a composed action comes from.
use moneo_backend.Common.{
  ℕ, ◌≡◌, ◌≢◌, ◌⊎◌, inl, inr, sym, ap, ◌∙◌, Bool, true, false, ok, err, refl, arith,
}
use moneo_backend.Domain.Errors.{Error, Outcome, database_failure}
use moneo_backend.Infra.Database.{
  Database, Env, World, done, Action, ◌>>=◌, map_error, control, close_tx, finish_tx, run_tx,
  within_tx,
}
use moneo_backend.Infra.Database.Atomic.{within_tx-outside}

ok-ne-err : {A : Type 0} {a : A} {e : Error} → ◌≢◌ {A = Outcome A} (ok a) (err e)
ok-ne-err h = cc

-- A sequence that answers an error: the first part does, or the rest does after it.
pub >>=-eq-err :
    {A B : Type 0} (m : Action A) (f : A → Action B) (w : World) {e : Error}
    → ((m >>= f) w).0 ≡ err e
    → ((m w).0 ≡ err e) ⊎ ((a : A) × (u : World) × (m w ≡ (ok a, u)) × ((f a u).0 ≡ err e))
unfolding ◌>>=◌
>>=-eq-err {A} {B} m f w {e} h = parts (m w).0 (m w).1 refl h
  where
    parts :
        (r : Outcome A) (u : World)
        → m w ≡ (r, u)
        → (let p : Outcome B × World = elim r [ ok a ↦ f a u | err x ↦ (err x, u) ] in p).0 ≡ err e
        → ((m w).0 ≡ err e) ⊎ ((a : A) × (u : World) × (m w ≡ (ok a, u)) × ((f a u).0 ≡ err e))
    parts (ok a) u k q = inr (a, u, k, q)
    parts (err x) u k q = inl ((λ i. (k i).0) ∙ renamed q)
      where
        renamed : ◌≡◌ {A = Outcome B} (err x) (err e) → ◌≡◌ {A = Outcome A} (err x) (err e)
        renamed p = ground arith

-- An error that the caller translates is the translation of one.
pub map_error-eq-err :
    {A : Type 0} (g : Error → Error) (m : Action A) (w : World) {e : Error}
    → (map_error g m w).0 ≡ err e
    → (x : Error) × ((m w).0 ≡ err x) × (e ≡ g x)
map_error-eq-err {A} g m w {e} h = translated (m w).0 refl h
  where
    translated :
        (r : Outcome A)
        → (m w).0 ≡ r
        → (let p : Outcome A = elim r [ ok a ↦ ok a | err x ↦ err (g x) ] in p) ≡ err e
        → (x : Error) × ((m w).0 ≡ err x) × (e ≡ g x)
    translated (ok a) k q = absurd (ok-ne-err q)
    translated (err x) k q = (x, k, ground arith)

control-Refused : (env : Env) (w : World) → (control env w).0 ≡ false → env.reply w.calls ≢ done
unfolding control
control-Refused env w h r = ground (arith, rw r at h)

-- Where an error of `WithinTx` comes from: a call of its own that the database refuses, or the
-- function, which ran on the tables from before.
abbrev pub IsCaused : {A : Type 0} → Env → Action A → Database → Error → Type 0
IsCaused env m before e =
    ((e ≡ database_failure) × (n : ℕ) × (env.reply n ≢ done))
    ⊎ ((u : World) × (u.db ≡ before) × ((m u).0 ≡ err e))

close_tx-IsCaused :
    {A : Type 0} (env : Env) (m : Action A) (before : Database) (u v : World) (n : ℕ)
    (r : Outcome A) (closed kept : Bool) {e : Error}
    → u.db ≡ before
    → (m u).0 ≡ r
    → (closed ≡ false → env.reply n ≢ done)
    → (close_tx before r closed kept v).0 ≡ err e
    → IsCaused env m before e
unfolding close_tx
close_tx-IsCaused env m before u v n (ok a) true kept d q c h = absurd (ok-ne-err h)
close_tx-IsCaused env m before u v n (ok a) false true d q c h = inl (ground arith, n, c refl)
close_tx-IsCaused env m before u v n (ok a) false false d q c h = inl (ground arith, n, c refl)
close_tx-IsCaused env m before u v n (err x) true kept d q c h = inr (u, d, q ∙ h)
close_tx-IsCaused env m before u v n (err x) false kept d q c h = inl (ground arith, n, c refl)

run_tx-IsCaused :
    {A : Type 0} (env : Env) (m : Action A) (begun : Bool) (n : ℕ) (w : World) {e : Error}
    → (begun ≡ false → env.reply n ≢ done)
    → (run_tx env m begun w).0 ≡ err e
    → IsCaused env m w.db e
unfolding run_tx finish_tx
run_tx-IsCaused env m true n w c h =
    let u : World = record w { in_tx = true } in
    close_tx-IsCaused env m w.db u (control env (m u).1).1 (m u).1.calls (m u).0
      (control env (m u).1).0 (env.commit_kept (m u).1.calls) refl refl
      (control-Refused env (m u).1) h
run_tx-IsCaused env m false n w c h = inl (ground arith, n, c refl)

-- An error of `WithinTx` outside of a transaction.
pub within_tx-IsCaused :
    {A : Type 0} (env : Env) (m : Action A) (w : World) {e : Error}
    → w.in_tx ≡ false
    → (within_tx env m w).0 ≡ err e
    → IsCaused env m w.db e
unfolding control
within_tx-IsCaused env m w o h =
    run_tx-IsCaused env m (control env w).0 w.calls (control env w).1 (control-Refused env w)
      (ap (λ r. r.0) (sym (within_tx-outside env m w o)) ∙ h)
