-- ===== src/Ops/Repair/Termination.antt =====
-- internal/ops/repair/transactions_format_job.go: the loop of `Run` as a whole.
use mathlib.Core.Path.{subst}
use moneo_backend.Common.{
  ℕ, zero, suc, ◌+◌, ◌≤◌, ◌<◌, ◌≡◌, ◌≢◌, ◌⊎◌, refl, sym, ap, ◌∙◌, Text, Option, none, some, List,
  [], ◌∷◌, length, take, drop, ok, err, if◌then◌else◌, arith, Option-cases, inl, inr, ◌==◌,
  length-drop, take-append-drop, length-append, is_empty,
}
use moneo_backend.Domain.Errors.{Outcome, database_failure}
use moneo_backend.Infra.Table.{Table}
use moneo_backend.Infra.Database.{TransactionRow, Database, Env, World, done}
use moneo_backend.App.Ledger.{IsLedger}
use moneo_backend.Ops.Repair.{
  FormatOptions, Progress, no_stats, repair_rows, after_fetch, fetch_batch, select_batch,
  order_by_id, after_id, batch_limit, next_batch, repair_loop, run_format, is_after,
}
use moneo_backend.Ops.Repair.Keys.{
  ids, ids-order_by_id, ids-after_id, ids-take, length-ids, order_ids, ids_after, length-order_ids,
  HasIds, ordered-HasIds,
}
use moneo_backend.Ops.Repair.Batches.{last_of, ids_after_next}
use moneo_backend.Ops.Repair.Ledger.{update_format-IsLedger}
use moneo_backend.Ops.Repair.Rounds.{ids-update_format, repair_rows-keeps, fetched_reply}

ids-select_batch :
    (last : Text) (limit : ℕ) (db : Database)
    → ids (select_batch last limit db)
      ≡ take limit (ids_after last (order_ids (ids db.transactions)))
unfolding select_batch
ids-select_batch last limit db =
    ids-take limit (after_id last (order_by_id db.transactions))
    ∙ ap (take limit) (
        ids-after_id last (order_by_id db.transactions)
        ∙ ap (ids_after last) (ids-order_by_id db.transactions))

length_parts : (n : ℕ) (ks : List Text) → length (take n ks) + length (drop n ks) ≡ length ks
length_parts n ks = sym (length-append (take n ks) (drop n ks)) ∙ ap length (take-append-drop n ks)

above_zero : (m : ℕ) → 1 ≤ m → (n : ℕ) × (m ≡ suc n)
above_zero zero h = absurd (omega arith)
above_zero (suc n) h = (n, refl)

module _ (env : Env) (opts : FormatOptions) where
  -- How one round of the loop ends, where `all` are the ids of the table in their order.
  data Round (all : List Text) (n : ℕ) (p : Progress) (w : World)
      (rest : Progress → World → Option (Outcome Progress × World))
      : Option (Outcome Progress × World) → Type 0 where
    failed :
        (w' : World)
        → env.reply w.calls ≢ done
        → w'.db ≡ w.db
        → Round all n p w rest (some (err database_failure, w'))
    finished :
        (w' : World)
        → w'.db ≡ w.db
        → ids_after p.last_id all ≡ []
        → Round all n p w rest (some (ok p, w'))
    goes_on :
        (k : Text) (ks : List Text) (p' : Progress) (w' : World)
        → ids_after p.last_id all ≡ k ∷ ks
        → ids w'.db.transactions ≡ ids w.db.transactions
        → p'.last_id ≡ last_of k (take n ks)
        → p'.stats.scanned ≡ p.stats.scanned + suc (length (take n ks))
        → (IsLedger w.db → IsLedger w'.db)
        → Round all n p w rest (rest p' w')

  take-eq-nil : (n : ℕ) (ks : List Text) → [] ≡ take (suc n) ks → ks ≡ []
  take-eq-nil n [] h = refl
  take-eq-nil n (k ∷ ks) h = cc

  take-eq-cons :
      (n : ℕ) (j : Text) (js ks : List Text)
      → j ∷ js ≡ take (suc n) ks
      → (rest : List Text) × (ks ≡ j ∷ rest) × (js ≡ take n rest)
  take-eq-cons n j js [] h = cc
  take-eq-cons n j js (k ∷ ks) h = (ks, ground arith, ground arith)

  fetched-Round :
      (n : ℕ) (p : Progress) (w : World)
      (rest : Progress → World → Option (Outcome Progress × World))
      (r : Outcome (Table TransactionRow)) (u : World)
      → u.db ≡ w.db
      → ((env.reply w.calls ≢ done) × (r ≡ err database_failure))
        ⊎ (r ≡ ok (select_batch p.last_id (suc n) w.db))
      → Round (order_ids (ids w.db.transactions)) n p w rest (after_fetch env opts p rest (r, u))
  unfolding after_fetch
  fetched-Round n p w rest (err e) u d (inl (no_reply, q)) =
      let same : database_failure ≡ e = ground arith in rw (← same) (failed u no_reply d)
  fetched-Round n p w rest (err e) u d (inr q) = cc
  fetched-Round n p w rest (ok rows) u d (inl (no_reply, q)) = cc
  fetched-Round n p w rest (ok []) u d (inr q) =
      let read : [] ≡ select_batch p.last_id (suc n) w.db = ground arith in
      finished u d (take-eq-nil n _ (ap ids read ∙ ids-select_batch p.last_id (suc n) w.db))
  fetched-Round n p w rest (ok ((id, row) ∷ rows)) u d (inr q) =
      let read : (id, row) ∷ rows ≡ select_batch p.last_id (suc n) w.db = ground arith in
      let (ks, e, f) =
        take-eq-cons n id (ids rows) _ (ap ids read ∙ ids-select_batch p.last_id (suc n) w.db) in
      let s = repair_rows env opts ((id, row) ∷ rows) (p, u) in
      let (same, c, i) =
        repair_rows-keeps env (λ (x : Database). ids x.transactions ≡ ids w.db.transactions) opts
          (λ k expected now patch db db' b h g.
            ids-update_format k expected patch now db db' b h ∙ g)
          ((id, row) ∷ rows) p u (ap (λ (x : Database). ids x.transactions) d) in
      let (kept, _, _) =
        repair_rows-keeps env (λ (x : Database). IsLedger w.db → IsLedger x) opts
          (λ k expected now patch db db' b h g l.
            update_format-IsLedger k expected patch now db db' b h (g l))
          ((id, row) ∷ rows) p u
          (subst (λ (x : Database). IsLedger w.db → IsLedger x) (sym d) (λ l. l)) in
      let many : length rows ≡ length (take n ks) = sym (length-ids rows) ∙ ap length f in
      goes_on id ks s.0 s.1 e same (i ∙ ap (last_of id) f) (omega (arith, c, many)) kept

  round :
      (n : ℕ) (p : Progress) (w : World)
      (rest : Progress → World → Option (Outcome Progress × World))
      → Round
          (order_ids (ids w.db.transactions))
          n
          p
          w
          rest
          (after_fetch env opts p rest (fetch_batch env p.last_id (suc n) w))
  round n p w rest =
      let f = fetch_batch env p.last_id (suc n) w in
      let (d, c) = fetched_reply env (env.reply w.calls) p.last_id (suc n) w refl in
      fetched-Round n p w rest f.0 f.1 d c

  -- What is known of the end of the loop, where `left` ids are left to read.
  record Ends (p : Progress) (w : World) (left : ℕ) (r : Outcome Progress × World) : Type 0 where
    ledger : IsLedger w.db → IsLedger r.1.db
    all_read :
        ((n : ℕ) → env.reply n ≡ done)
        → opts.limit ≡ 0
        → (p' : Progress) × (r.0 ≡ ok p') × (p'.stats.scanned ≡ p.stats.scanned + left)

  batch_limit-none : (scanned : ℕ) → batch_limit opts scanned ≡ none → opts.limit ≢ 0
  unfolding batch_limit
  batch_limit-none scanned h = ground arith

  batch_limit_pos :
      (scanned m : ℕ) → 1 ≤ opts.batch_size → batch_limit opts scanned ≡ some m → 1 ≤ m
  unfolding batch_limit
  batch_limit_pos scanned m b h = ground arith

  -- What is to be shown of a loop that is at `p` and `w`.
  abbrev Ended : Progress → World → Option (Outcome Progress × World) → Type 0
  Ended p w x =
      (r : Outcome Progress × World) × (x ≡ some r)
      × Ends p w (length (ids_after p.last_id (order_ids (ids w.db.transactions)))) r

  Round-Ended :
      (n fuel : ℕ) (p : Progress) (w : World)
      (rest : Progress → World → Option (Outcome Progress × World))
      {x : Option (Outcome Progress × World)}
      → HasIds (ids w.db.transactions)
      → length (ids_after p.last_id (order_ids (ids w.db.transactions))) < suc fuel
      → ((p' : Progress) (w' : World)
          → HasIds (ids w'.db.transactions)
          → length (ids_after p'.last_id (order_ids (ids w'.db.transactions))) < fuel
          → Ended p' w' (rest p' w'))
      → Round (order_ids (ids w.db.transactions)) n p w rest x
      → Ended p w x
  Round-Ended n fuel p w rest i f again (failed w' no_reply d) = (
    (err database_failure, w'),
    refl,
    record { ledger = λ l. rw d l; all_read = λ replies z. absurd (no_reply (replies w.calls)) },
  )
  Round-Ended n fuel p w rest i f again (finished w' d e) = (
    (ok p, w'),
    refl,
    record { ledger = λ l. rw d l; all_read = λ replies z. (p, refl, omega (arith, ap length e)) },
  )
  Round-Ended n fuel p w rest i f again (goes_on k ks p' w' e same last c kept) =
      let all = order_ids (ids w.db.transactions) in
      let (sorted, given) = ordered-HasIds (ids w.db.transactions) i in
      let next : ids_after p'.last_id (order_ids (ids w'.db.transactions)) ≡ drop n ks =
        ap (λ xs. ids_after p'.last_id (order_ids xs)) same
        ∙ ap (λ z. ids_after z all) last
        ∙ ids_after_next p.last_id k n all ks sorted given e in
      let less : length (ids_after p'.last_id (order_ids (ids w'.db.transactions))) < fuel =
        omega (arith, ap length next, ap length e, length-drop n ks, f) in
      let (r, q, z) = again p' w' (subst HasIds (sym same) i) less in
      (
        r,
        q,
        record {
          ledger = λ l. z.ledger (kept l);
          all_read = λ replies o.
              let (p'', a, g) = z.all_read replies o in
              (p'', a, omega (arith, g, ap length next, ap length e, length_parts n ks, c));
        },
      )

  repair_loop-Ended :
      (fuel : ℕ) (p : Progress) (w : World)
      → 1 ≤ opts.batch_size
      → HasIds (ids w.db.transactions)
      → length (ids_after p.last_id (order_ids (ids w.db.transactions))) < fuel
      → Ended p w (repair_loop env fuel opts p w)
  unfolding repair_loop next_batch
  repair_loop-Ended zero p w b i f = absurd (omega arith)
  repair_loop-Ended (suc fuel) p w b i f = elim (Option-cases (batch_limit opts p.stats.scanned)) [
    | inl reached ↦ rw reached (
      (ok p, w),
      refl,
      record {
        ledger = λ l. l;
        all_read = λ replies z. absurd (batch_limit-none p.stats.scanned reached z);
      },
    )
    | inr (m, h) ↦
        let (n, e) = above_zero m (batch_limit_pos p.stats.scanned m b h) in
        rw (h, e)
          (Round-Ended n fuel p w (repair_loop env fuel opts) i f
            (λ p' w' i' f'. repair_loop-Ended fuel p' w' b i' f')
            (round n p w (repair_loop env fuel opts)))
  ]

length-ids_after : (ks : List Text) → length (ids_after [] ks) ≡ length ks
unfolding ids_after is_after is_empty
length-ids_after [] = refl
length-ids_after (k ∷ ks) = ap suc (length-ids_after ks)

abbrev defaulted : FormatOptions → FormatOptions
defaulted opts = record opts { batch_size = if opts.batch_size == 0 then 500 else opts.batch_size }

run_format-Ends :
    (env : Env) (opts : FormatOptions) (fuel : ℕ) (w : World)
    → HasIds (ids w.db.transactions)
    → length w.db.transactions < fuel
    → (r : Outcome Progress × World) × (run_format env fuel opts w ≡ some r)
      × Ends env
          (defaulted opts)
          (record { stats = no_stats; issues = []; last_id = [] })
          w
          (length w.db.transactions)
          r
unfolding run_format
run_format-Ends env opts fuel w i f =
    let start : Progress = record { stats = no_stats; issues = []; last_id = [] } in
    let all : length (ids_after [] (order_ids (ids w.db.transactions))) ≡ length w.db.transactions =
      length-ids_after (order_ids (ids w.db.transactions))
      ∙ length-order_ids (ids w.db.transactions)
      ∙ length-ids w.db.transactions in
    let (r, q, z) =
      repair_loop-Ended env (defaulted opts) fuel start w (ground arith) i
        (omega (arith, all, f)) in
    (r, q, subst (λ n. Ends env (defaulted opts) start w n r) all z)

-- With a fuel above the number of rows, on a table whose ids are distinct and not empty, the job
-- ends, whatever its options, the answers of the database and the clock.
pub run_format_ends :
    (env : Env) (opts : FormatOptions) (fuel : ℕ) (w : World)
    → HasIds (ids w.db.transactions)
    → length w.db.transactions < fuel
    → (r : Outcome Progress × World) × (run_format env fuel opts w ≡ some r)
run_format_ends env opts fuel w i f = let (r, q, _) = run_format-Ends env opts fuel w i f in (r, q)

-- With a fuel above the number of rows, on a table whose ids are distinct and not empty, the job
-- ends and leads from a ledger to a ledger, whatever its options, its outcome, the answers of the
-- database and the clock.
pub run_format-IsLedger :
    (env : Env) (opts : FormatOptions) (fuel : ℕ) (w : World)
    → HasIds (ids w.db.transactions)
    → length w.db.transactions < fuel
    → IsLedger w.db
    → (r : Outcome Progress × World) × (run_format env fuel opts w ≡ some r) × IsLedger r.1.db
run_format-IsLedger env opts fuel w i f l =
    let (r, q, z) = run_format-Ends env opts fuel w i f in (r, q, z.ledger l)

-- With a fuel above the number of rows, on a table whose ids are distinct and not empty, without a
-- limit, and when the database carries every statement out, the job succeeds and has scanned as
-- many rows as the table has, whatever the size of a batch.
pub run_format_reads_all :
    (env : Env) (opts : FormatOptions) (fuel : ℕ) (w : World)
    → HasIds (ids w.db.transactions)
    → length w.db.transactions < fuel
    → ((n : ℕ) → env.reply n ≡ done)
    → opts.limit ≡ 0
    → (p : Progress) × (w' : World) × (run_format env fuel opts w ≡ some (ok p, w'))
      × (p.stats.scanned ≡ length w.db.transactions)
run_format_reads_all env opts fuel w i f replies o =
    let (r, q, z) = run_format-Ends env opts fuel w i f in
    let (p, a, g) = z.all_read replies o in (p, r.1, q ∙ (λ j. some (a j, r.1)), omega (arith, g))
