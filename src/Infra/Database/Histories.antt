-- ===== src/Infra/Database/Histories.antt =====
-- What holds between the worlds before and after an action, whatever its outcome, for a relation that
-- is kept by what changes no table and by sequences.
use moneo_backend.Common.{
  ◌≤◌, ◌≡◌, refl, sym, Bool, true, false, ok, err, arith, Bool-cases, inl, inr,
}
use mathlib.Core.Path.{subst}
use moneo_backend.Domain.Errors.{Error, Outcome}
use moneo_backend.Infra.Database.{
  Database, Env, World, Action, Reply, done, unique_violation, failure, pure, raise, lift, ◌>>=◌,
  ◌>>◌, raise_if, map_error, clock_now, generate_id, execute, tick, answered, after_statement,
  control, close_tx, finish_tx, run_tx, within_tx, execute-eq-ok,
}
use moneo_backend.Infra.Database.Atomic.{within_tx-inside, within_tx-outside}

pub record IsHistory (R : World → World → Type 0) : Type 0 where
  pub same_tables : (u v : World) → v.db ≡ u.db → u.calls ≤ v.calls → R u v
  pub in_turn : (u v w : World) → R u v → R v w → R u w
  pub in_time : (u v : World) → R u v → u.calls ≤ v.calls

module _ (R : World → World → Type 0) where
  unfoldable pub Moves : {A : Type 0} → Action A → Type 0
  Moves m = (w : World) → R w (m w).1

module _ {R : World → World → Type 0} (history : IsHistory R) where
  pub >>=-Moves :
      {A B : Type 0} (m : Action A) (f : A → Action B)
      → Moves R m
      → ((a : A) → Moves R (f a))
      → Moves R (m >>= f)
  unfolding ◌>>=◌ Moves
  >>=-Moves {A} {B} m f h k w = after (m w).0 (m w).1 (h w)
    where
      after :
          (r : Outcome A) (u : World)
          → R w u
          → R w (let p : Outcome B × World = elim r [ ok a ↦ f a u | err e ↦ (err e, u) ] in p).1
      after (ok a) u s = history.in_turn w u (f a u).1 s (k a u)
      after (err e) u s = s

  pub >>-Moves :
      {B : Type 0} (m : Action (Unit {0})) (k : Action B) → Moves R m → Moves R k → Moves R (m >> k)
  unfolding ◌>>◌
  >>-Moves m k h g = >>=-Moves m (λ _. k) h (λ _. g)

  pub lift-Moves : {A : Type 0} (r : Outcome A) → Moves R (lift r)
  unfolding Moves
  lift-Moves r w = history.same_tables w w refl (omega arith)

  -- The rest after a check, at what the check answers.
  pub lift-then-Moves :
      {A B : Type 0} (r : Outcome A) (f : A → Action B)
      → ((a : A) → r ≡ ok a → Moves R (f a))
      → Moves R (lift r >>= f)
  unfolding ◌>>=◌ Moves
  lift-then-Moves (ok a) f k w = k a refl w
  lift-then-Moves (err e) f k w = history.same_tables w w refl (omega arith)

  pub pure-Moves : {A : Type 0} (a : A) → Moves R (pure a)
  unfolding Moves
  pure-Moves a w = history.same_tables w w refl (omega arith)

  pub raise-Moves : (A : Type 0) (e : Error) → Moves R (raise {A = A} e)
  unfolding Moves
  raise-Moves A e w = history.same_tables w w refl (omega arith)

  pub raise_if-Moves : (b : Bool) (e : Error) → Moves R (raise_if b e)
  unfolding Moves
  raise_if-Moves b e w = history.same_tables w w refl (omega arith)

  pub map_error-Moves :
      {A : Type 0} (f : Error → Error) (m : Action A) → Moves R m → Moves R (map_error f m)
  unfolding Moves
  map_error-Moves f m h w = h w

  pub clock_now-Moves : (env : Env) → Moves R (clock_now env)
  unfolding Moves clock_now
  clock_now-Moves env w = history.same_tables w (tick w) refl (omega arith)

  pub generate_id-Moves : (env : Env) → Moves R (generate_id env)
  unfolding Moves generate_id
  generate_id-Moves env w = history.same_tables w (tick w) refl (omega arith)

  -- A statement, by what it does to the tables when it is carried out.
  pub execute-Moves :
      {A : Type 0} (env : Env) (unique : Error) (f : Database → Outcome (A × Database))
      → ((w : World) (a : A) (db' : Database)
          → f w.db ≡ ok (a, db')
          → R w (record (tick w) { db = db' }))
      → Moves R (execute env unique f)
  unfolding Moves execute answered after_statement
  execute-Moves {A} env unique f h w = by_reply (env.reply w.calls)
    where
      ticked : R w (tick w)
      ticked = history.same_tables w (tick w) refl (omega arith)

      carried_out : (r : Outcome (A × Database)) → f w.db ≡ r → R w (after_statement r w).1
      carried_out (ok (a, db')) q = h w a db' q
      carried_out (err e) q = ticked

      by_reply : (reply : Reply) → R w (answered reply unique f w).1
      by_reply done = carried_out (f w.db) refl
      by_reply unique_violation = ticked
      by_reply failure = ticked

  -- A query.
  pub execute-Moves_query :
      {A : Type 0} (env : Env) (unique : Error) (f : Database → A)
      → Moves R (execute env unique (λ db. ok (f db, db)))
  execute-Moves_query env unique f =
      execute-Moves env unique (λ db. ok (f db, db))
        λ w a db' q.
          history.same_tables w (record (tick w) { db = db' }) (ground arith) (omega arith)

  close_tx-Moves :
      {A : Type 0} (w u : World) (r : Outcome A) (closed kept : Bool)
      → R w u
      → R w (close_tx w.db r closed kept (tick u)).1
  unfolding close_tx
  close_tx-Moves w u (ok a) true kept s =
      history.in_turn w u _ s (history.same_tables u _ refl (omega arith))
  close_tx-Moves w u (ok a) false true s =
      history.in_turn w u _ s (history.same_tables u _ refl (omega arith))
  close_tx-Moves w u (ok a) false false s =
      history.same_tables w _ refl (omega (arith, history.in_time w u s))
  close_tx-Moves w u (err e) true kept s =
      history.same_tables w _ refl (omega (arith, history.in_time w u s))
  close_tx-Moves w u (err e) false kept s =
      history.same_tables w _ refl (omega (arith, history.in_time w u s))

  run_tx-Moves :
      {A : Type 0} (env : Env) (m : Action A) (begun : Bool) (w u : World)
      → Moves R m
      → u.db ≡ w.db
      → w.calls ≤ u.calls
      → R w (run_tx env m begun u).1
  unfolding Moves run_tx finish_tx control
  run_tx-Moves env m false w u h d c = history.same_tables w u d c
  run_tx-Moves env m true w u h d c =
      let start : World = record u { in_tx = true } in
      let opened = history.in_turn w start _ (history.same_tables w start d c) (h start) in
      subst
        (λ before.
          R w
            (close_tx before (m start).0 (control env (m start).1).0
              (env.commit_kept (m start).1.calls) (tick (m start).1)).1)
        (sym d) (close_tx-Moves w (m start).1 (m start).0 _ _ opened)

  pub within_tx-Moves :
      {A : Type 0} (env : Env) (m : Action A) → Moves R m → Moves R (within_tx env m)
  unfolding Moves control
  within_tx-Moves env m h w = elim (Bool-cases w.in_tx) [
    | inl inside ↦ rw (within_tx-inside env m w inside) (h w)
    | inr outside ↦
        rw (within_tx-outside env m w outside)
          (run_tx-Moves env m (control env w).0 w (control env w).1 h refl (omega arith))
  ]

-- The same for a run that is known.
pub Moves-run :
    (R : World → World → Type 0) {A : Type 0} (m : Action A) (w : World) {r : Outcome A} {u : World}
    → Moves R m
    → m w ≡ (r, u)
    → R w u
unfolding Moves
Moves-run R m w h e = subst (R w) (λ i. (e i).1) (h w)

-- What a query answers.
pub query-eq-ok :
    {A : Type 0} (env : Env) (unique : Error) (f : Database → A) (w : World) {a : A} {u : World}
    → execute env unique (λ db. ok (f db, db)) w ≡ (ok a, u)
    → (f w.db ≡ a) × (u.db ≡ w.db)
query-eq-ok env unique f w h =
    let e = execute-eq-ok env unique (λ db. ok (f db, db)) w h in ground arith
