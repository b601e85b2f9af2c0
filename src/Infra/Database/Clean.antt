-- ===== src/Infra/Database/Clean.antt =====
-- Actions without a database transaction: those that only read, and those whose errors leave no
-- trace.
use mathlib.Core.Path.{subst}
use moneo_backend.Common.{◌≡◌, ◌≢◌, refl, sym, ◌∙◌, Bool, true, false, ok, err}
use moneo_backend.Domain.Errors.{Error, Outcome}
use moneo_backend.Infra.Database.{
  Database, Env, World, Action, Reply, done, unique_violation, failure, pure, raise, lift, ◌>>=◌,
  ◌>>◌, raise_if, map_error, clock_now, generate_id, execute, tick, answered, after_statement,
}

-- The tables and the open transaction are those of `w`.
abbrev pub Same : World → World → Type 0
Same w u = (u.db ≡ w.db) × (u.in_tx ≡ w.in_tx)

-- Whatever it answers, it changes no table.
unfoldable pub Reads : {A : Type 0} → Action A → Type 0
Reads m = (w : World) → Same w (m w).1

-- When it answers an error, it has changed no table.
unfoldable pub IsClean : {A : Type 0} → Action A → Type 0
IsClean m = (w : World) (e : Error) → (m w).0 ≡ err e → Same w (m w).1

Same-trans : (u v w : World) → Same u v → Same v w → Same u w
Same-trans u v w (d, t) (d', t') = (d' ∙ d, t' ∙ t)

module _ {A B : Type 0} where
  pub >>=-Reads :
      (m : Action A) (f : A → Action B) → Reads m → ((a : A) → Reads (f a)) → Reads (m >>= f)
  unfolding ◌>>=◌ Reads
  >>=-Reads m f h k w = after (m w).0 (m w).1 (h w)
    where
      after :
          (r : Outcome A) (u : World)
          → Same w u
          → Same w (let p : Outcome B × World = elim r [ ok a ↦ f a u | err e ↦ (err e, u) ] in p).1
      after (ok a) u s = Same-trans w u (f a u).1 s (k a u)
      after (err e) u s = s

  -- Reading first leaves it to the rest, at what the first part answers.
  pub >>=-IsClean_at :
      (m : Action A) (f : A → Action B)
      → Reads m
      → ((a : A) (w : World) → (m w).0 ≡ ok a → IsClean (f a))
      → IsClean (m >>= f)
  unfolding ◌>>=◌ Reads IsClean
  >>=-IsClean_at m f h k w = after (m w).0 (m w).1 refl (h w)
    where
      after :
          (r : Outcome A) (u : World)
          → (m w).0 ≡ r
          → Same w u
          → (e : Error)
          → (let p : Outcome B × World = elim r [ ok a ↦ f a u | err e ↦ (err e, u) ] in p).0
            ≡ err e
          → Same w (let p : Outcome B × World = elim r [ ok a ↦ f a u | err e ↦ (err e, u) ] in p).1
      after (ok a) u q s e x = Same-trans w u (f a u).1 s (k a w q u e x)
      after (err e) u q s e' x = s

  pub >>=-IsClean :
      (m : Action A) (f : A → Action B) → Reads m → ((a : A) → IsClean (f a)) → IsClean (m >>= f)
  >>=-IsClean m f h k = >>=-IsClean_at m f h (λ a w q. k a)

ok-ne-err : {A : Type 0} {a : A} {e : Error} → ◌≢◌ {A = Outcome A} (ok a) (err e)
ok-ne-err h = cc

-- It never answers an error.
unfoldable pub Succeeds : {A : Type 0} → Action A → Type 0
Succeeds m = (w : World) (e : Error) → (m w).0 ≢ err e

pub lift-Succeeds : {A : Type 0} (r : Outcome A) {a : A} → r ≡ ok a → Succeeds (lift r)
unfolding Succeeds
lift-Succeeds r h w e x = ok-ne-err (sym h ∙ x)

-- A rest that never fails adds no error.
pub >>-IsClean :
    {A : Type 0} (m : Action (Unit {0})) (k : Action A) → IsClean m → Succeeds k → IsClean (m >> k)
unfolding ◌>>=◌ ◌>>◌ IsClean Succeeds
>>-IsClean {A} m k h s w = after (m w).0 (m w).1 (h w)
  where
    after :
        (r : Outcome (Unit {0})) (u : World)
        → ((e : Error) → r ≡ err e → Same w u)
        → (e : Error)
        → (let p : Outcome A × World = elim r [ ok t ↦ k u | err e ↦ (err e, u) ] in p).0 ≡ err e
        → Same w (let p : Outcome A × World = elim r [ ok t ↦ k u | err e ↦ (err e, u) ] in p).1
    after (ok t) u c e x = absurd (s u e x)
    after (err e) u c e' x = c e refl

pub raise_if-then-IsClean :
    {A : Type 0} (b : Bool) (e : Error) (k : Action A) → IsClean k → IsClean (raise_if b e >> k)
unfolding ◌>>=◌ ◌>>◌ IsClean
raise_if-then-IsClean true e k h w e' x = (refl, refl)
raise_if-then-IsClean false e k h w e' x = h w e' x

pub raise-Reads : (A : Type 0) (e : Error) → Reads (raise {A = A} e)
unfolding Reads
raise-Reads A e w = (refl, refl)

pub pure-Reads : {A : Type 0} (a : A) → Reads (pure a)
unfolding Reads
pure-Reads a w = (refl, refl)

pub Reads-IsClean : {A : Type 0} (m : Action A) → Reads m → IsClean m
unfolding Reads IsClean
Reads-IsClean m h w e x = h w

-- The same for a run that is known.
pub Reads-Same :
    {A : Type 0} (m : Action A) (h : Reads m) (w : World) {r : Outcome A} {w' : World}
    → m w ≡ (r, w')
    → Same w w'
unfolding Reads
Reads-Same m h w q = subst (Same w) (λ i. (q i).1) (h w)

pub IsClean-Same :
    {A : Type 0} (m : Action A) (h : IsClean m) (w : World) {e : Error} {w' : World}
    → m w ≡ (err e, w')
    → Same w w'
unfolding IsClean
IsClean-Same m h w q = subst (Same w) (λ i. (q i).1) (h w _ (λ i. (q i).0))

pub map_error-IsClean :
    {A : Type 0} (g : Error → Error) (m : Action A) → IsClean m → IsClean (map_error g m)
unfolding IsClean
map_error-IsClean {A} g m h w = after (m w).0 (h w)
  where
    after :
        (r : Outcome A)
        → ((e : Error) → r ≡ err e → Same w (m w).1)
        → (e : Error)
        → (let p : Outcome A = elim r [ ok a ↦ ok a | err e ↦ err (g e) ] in p) ≡ err e
        → Same w (m w).1
    after (ok a) k e x = k e x
    after (err e) k e' x = k e refl

pub lift-Reads : {A : Type 0} (r : Outcome A) → Reads (lift r)
unfolding Reads
lift-Reads r w = (refl, refl)

pub clock_now-Reads : (env : Env) → Reads (clock_now env)
unfolding clock_now Reads
clock_now-Reads env w = (refl, refl)

pub generate_id-Reads : (env : Env) → Reads (generate_id env)
unfolding generate_id Reads
generate_id-Reads env w = (refl, refl)

after_statement-Same :
    {A : Type 0} (r : Outcome (A × Database)) (w : World) (e : Error)
    → (after_statement r w).0 ≡ err e
    → Same w (after_statement r w).1
unfolding after_statement
after_statement-Same (ok (a, db')) w e x = absurd (ok-ne-err x)
after_statement-Same (err e) w e' x = (refl, refl)

answered-Same :
    {A : Type 0} (reply : Reply) (unique : Error) (f : Database → Outcome (A × Database))
    (w : World) (e : Error)
    → (answered reply unique f w).0 ≡ err e
    → Same w (answered reply unique f w).1
unfolding answered
answered-Same done unique f w e x = after_statement-Same (f w.db) w e x
answered-Same unique_violation unique f w e x = (refl, refl)
answered-Same failure unique f w e x = (refl, refl)

-- One statement that reports an error has changed nothing.
pub execute-IsClean :
    {A : Type 0} (env : Env) (unique : Error) (f : Database → Outcome (A × Database))
    → IsClean (execute env unique f)
unfolding execute IsClean
execute-IsClean env unique f w = answered-Same (env.reply w.calls) unique f w

answered-Reads :
    {A : Type 0} (reply : Reply) (unique : Error) (f : Database → A) (w : World)
    → Same w (answered reply unique (λ db. ok (f db, db)) w).1
unfolding answered after_statement
answered-Reads done unique f w = (refl, refl)
answered-Reads unique_violation unique f w = (refl, refl)
answered-Reads failure unique f w = (refl, refl)

-- A query.
pub execute-Reads :
    {A : Type 0} (env : Env) (unique : Error) (f : Database → A)
    → Reads (execute env unique (λ db. ok (f db, db)))
unfolding execute Reads
execute-Reads env unique f w = answered-Reads (env.reply w.calls) unique f w

-- A statement that reports whether it has an effect, and the rest after it.
pub execute-then-IsClean :
    {B : Type 0} (env : Env) (unique : Error) (f : Database → Outcome (Bool × Database))
    (k : Bool → Action B)
    → ((db db' : Database) → f db ≡ ok (false, db') → db' ≡ db)
    → IsClean (k false)
    → Succeeds (k true)
    → IsClean (execute env unique f >>= k)
unfolding ◌>>=◌ execute answered after_statement IsClean Succeeds
execute-then-IsClean {B} env unique f k n c t w = after (env.reply w.calls)
  where
    carried_out :
        (r : Outcome (Bool × Database)) (e : Error)
        → f w.db ≡ r
        → (let p : Outcome B × World = elim (after_statement r w).0 [
          | ok a ↦ k a (after_statement r w).1
          | err e ↦ (err e, (after_statement r w).1)
        ] in
            p).0
          ≡ err e
        → Same w
            (let p : Outcome B × World = elim (after_statement r w).0 [
              | ok a ↦ k a (after_statement r w).1
              | err e ↦ (err e, (after_statement r w).1)
            ] in
              p).1
    carried_out (ok (true, db')) e q x = absurd (t _ e x)
    carried_out (ok (false, db')) e q x =
        let u : World = record (tick w) { db = db' } in
        let (d, i) = c u e x in (d ∙ n w.db db' q, i)
    carried_out (err e) e' q x = (refl, refl)

    after :
        (reply : Reply) (e : Error)
        → (let p : Outcome B × World = elim (answered reply unique f w).0 [
          | ok a ↦ k a (answered reply unique f w).1
          | err e ↦ (err e, (answered reply unique f w).1)
        ] in
            p).0
          ≡ err e
        → Same w
            (let p : Outcome B × World = elim (answered reply unique f w).0 [
              | ok a ↦ k a (answered reply unique f w).1
              | err e ↦ (err e, (answered reply unique f w).1)
            ] in
              p).1
    after done e x = carried_out (f w.db) e refl x
    after unique_violation e x = (refl, refl)
    after failure e x = (refl, refl)

-- A property of the tables that an action keeps whenever it succeeds, and that changes no table
-- when it fails, is kept by it, whatever its outcome.
pub clean-keeps :
    {A : Type 0} (P : Database → Type 0) (m : Action A)
    → IsClean m
    → ((a : A) (w w' : World) → m w ≡ (ok a, w') → P w.db → P w'.db)
    → (w : World) → P w.db
    → P (m w).1.db
unfolding IsClean
clean-keeps {A} P m c k w p = outcome (m w).0 refl
  where
    outcome : (r : Outcome A) → (m w).0 ≡ r → P (m w).1.db
    outcome (ok a) q = k a w (m w).1 (λ i. (q i, (m w).1)) p
    outcome (err e) q = subst P (sym (c w e q).0) p
