-- ===== src/Infra/Database/Commits.antt =====
-- Calls that succeed: of `WithinTx`, after a check, and with an error that the caller translates.
use moneo_backend.Common.{
  ◌≤◌, ◌≡◌, refl, sym, ◌∙◌, ap, Bool, true, false, ok, err, arith, Bool-cases, inl, inr,
}
use moneo_backend.Domain.Errors.{Error, Outcome}
use moneo_backend.Infra.Database.{
  Database, Env, World, Action, tick, control, close_tx, finish_tx, run_tx, within_tx, ◌>>=◌, ◌>>◌,
  raise_if, map_error,
}
use moneo_backend.Infra.Database.Atomic.{within_tx-inside, within_tx-outside}

close_tx-eq-ok :
    {A : Type 0} (before : Database) (r : Outcome A) (closed kept : Bool) (v : World) {a : A}
    {w' : World}
    → close_tx before r closed kept v ≡ (ok a, w')
    → (r ≡ ok a) × (w'.db ≡ v.db) × (w'.calls ≡ v.calls)
unfolding close_tx
close_tx-eq-ok before (ok b) true kept v h =
    (λ i. (h i).0, sym (λ i. (h i).1.db), sym (λ i. (h i).1.calls))
close_tx-eq-ok before (ok b) false true v h = cc
close_tx-eq-ok before (ok b) false false v h = cc
close_tx-eq-ok before (err e) true kept v h = cc
close_tx-eq-ok before (err e) false kept v h = cc

run_tx-eq-ok :
    {A : Type 0} (env : Env) (m : Action A) (begun : Bool) (w : World) {a : A} {w' : World}
    → run_tx env m begun w ≡ (ok a, w')
    → (u u' : World) × (u.db ≡ w.db)
      × (u.calls ≡ w.calls)
      × (m u ≡ (ok a, u'))
      × (w'.db ≡ u'.db)
      × (u'.calls ≤ w'.calls)
unfolding run_tx finish_tx control
run_tx-eq-ok env m false w h = cc
run_tx-eq-ok env m true w h =
    let u : World = record w { in_tx = true } in
    let (r, d, c) = close_tx-eq-ok w.db (m u).0 _ _ (tick (m u).1) h in
    (u, (m u).1, refl, refl, λ i. (r i, (m u).1), d, omega (arith, c))

-- It has run on the tables from before, and its tables stay.
pub within_tx-eq-ok :
    {A : Type 0} (env : Env) (m : Action A) (w : World) {a : A} {w' : World}
    → within_tx env m w ≡ (ok a, w')
    → (u u' : World) × (u.db ≡ w.db)
      × (w.calls ≤ u.calls)
      × (m u ≡ (ok a, u'))
      × (w'.db ≡ u'.db)
      × (u'.calls ≤ w'.calls)
unfolding control
within_tx-eq-ok {A} env m w {a} {w'} h = elim (Bool-cases w.in_tx) [
  | inl inside ↦
      (w, w', refl, omega arith, sym (within_tx-inside env m w inside) ∙ h, refl, omega arith)
  | inr outside ↦
      let (u, u', d, c, e, d', c') =
        run_tx-eq-ok env m _ (tick w) (sym (within_tx-outside env m w outside) ∙ h) in
      (u, u', d, omega (arith, c), e, d', c')
]

-- A check that passes is followed by the rest.
pub passed :
    {A : Type 0} (b : Bool) (e : Error) (k : Action A) (w : World)
    → b ≡ false
    → (raise_if b e >> k) w ≡ k w
unfolding ◌>>◌ ◌>>=◌
passed b e k w h = rw h refl

-- A success is not translated.
pub map_error-ok :
    {A : Type 0} (f : Error → Error) (m : Action A) (w : World) {a : A} {u : World}
    → m w ≡ (ok a, u)
    → map_error f m w ≡ (ok a, u)
map_error-ok {A} f m w h = ap translate h
  where
    translate : Outcome A × World → Outcome A × World
    translate p = (elim p.0 [ ok a ↦ ok a | err e ↦ err (f e) ], p.1)
