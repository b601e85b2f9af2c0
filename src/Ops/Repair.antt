-- ===== src/Ops/Repair.antt =====
-- internal/ops/repair/transactions_format_job.go: the job that repairs the times and the reserved
-- columns of the rows of `transactions`, batch by batch in the order of the ids. It prints what it
-- does; what it prints is left out, but for the issues, which it collects. The job works on the
-- connection pool, so each statement stands for itself.
pub mod Aligned
pub mod Ledger
pub mod Keys
pub mod Rounds
pub mod Batches
pub mod Termination
use moneo_backend.Common.{
  ℕ, zero, suc, ◌+◌, ◌-◌, ◌≡◌, refl, Bool, true, false, ◌&&◌, ◌||◌, not, Text, codes, text_eq,
  text_ltb, is_empty, trim_space, Option, none, some, List, [], ◌∷◌, ◌++◌, length, take, ok, err,
  if◌then◌else◌, ltb, leb, ◌==◌,
}
use moneo_backend.Domain.Errors.{Error, Outcome, database_failure}
use moneo_backend.Infra.Table.{Table, lookup, insert}
use moneo_backend.Infra.Database.{
  TransactionRow, Database, Env, World, Action, ◌>>=◌, execute, clock_now,
}

-- `TransactionsFormatOptions`
pub record FormatOptions : Type 0 where
  pub dry_run : Bool
  pub batch_size : ℕ
  pub limit : ℕ

-- `TransactionsFormatStats`
pub record FormatStats : Type 0 where
  pub scanned : ℕ
  pub needs_fix : ℕ
  pub repaired : ℕ
  pub skipped : ℕ
  pub conflicts : ℕ
  pub errors : ℕ
  pub reserved_fixed : ℕ
  pub timestamp_fix : ℕ

abbrev pub no_stats : FormatStats
no_stats = record {
  scanned = 0;
  needs_fix = 0;
  repaired = 0;
  skipped = 0;
  conflicts = 0;
  errors = 0;
  reserved_fixed = 0;
  timestamp_fix = 0;
}

-- `transactionFormatPatch`
pub record FormatPatch : Type 0 where
  pub needs_fix : Bool
  pub has_timestamp : Bool
  pub has_reserved_ids : Bool
  pub posted_at : Option ℕ
  pub cancelled_at : Option ℕ

-- `transactionFormatIssue`, by its reason; the details of a failed update are the error's text
pub data FormatIssue : Type 0 where
  update_failed concurrent_update : Text → FormatIssue

unfoldable pub is_given {ℓ} : {A : Type ℓ} → Option A → Bool
is_given none = false
is_given (some a) = true

-- `firstNonNilTime`
unfoldable pub first_non_nil_time : List (Option ℕ) → Option ℕ
first_non_nil_time [] = none
first_non_nil_time (none ∷ values) = first_non_nil_time values
first_non_nil_time (some at ∷ values) = some at

-- the times that the `switch` on the status leaves, `posted_at` first
unfoldable pub aligned_times : TransactionRow → Option ℕ × Option ℕ
aligned_times row =
    let status = trim_space row.status_column in
    if text_eq status (codes "planned")
    then (none, none)
    else if text_eq status (codes "posted")
    then (
      if is_given row.posted_at
          then row.posted_at
          else first_non_nil_time
              (row.occurred_at ∷ some row.updated_at ∷ some row.created_at ∷ []),
      none,
    )
    else if text_eq status (codes "cancelled")
    then (
      row.posted_at,
      if is_given row.cancelled_at
          then row.cancelled_at
          else first_non_nil_time (
              some row.updated_at
              ∷ row.posted_at
              ∷ row.occurred_at
              ∷ row.planned_at
              ∷ some row.created_at
              ∷ []),
    )
    else (row.posted_at, row.cancelled_at)

-- whether the `switch` sets `HasTimestamp`
unfoldable pub times_differ : TransactionRow → Bool
times_differ row =
    let status = trim_space row.status_column in
    if text_eq status (codes "planned")
    then is_given row.posted_at || is_given row.cancelled_at
    else if text_eq status (codes "posted")
    then not (is_given row.posted_at) || is_given row.cancelled_at
    else if text_eq status (codes "cancelled")
    then not (is_given row.cancelled_at)
    else false

unfoldable pub has_reserved_ids : TransactionRow → Bool
has_reserved_ids row =
    is_given row.budget_member_id
    || is_given row.income_source_id
    || is_given row.debt_id
    || is_given row.goal_id
    || is_given row.investment_id
    || is_given row.recurring_payment_id

-- `buildTransactionFormatPatch`
unfoldable pub build_format_patch : TransactionRow → FormatPatch
build_format_patch row = record {
  needs_fix = times_differ row || has_reserved_ids row;
  has_timestamp = times_differ row;
  has_reserved_ids = has_reserved_ids row;
  posted_at = (aligned_times row).0;
  cancelled_at = (aligned_times row).1;
}

-- the SET clause of the statement of `applyPatch`
unfoldable pub patched_row : TransactionRow → FormatPatch → ℕ → TransactionRow
patched_row row patch now = record row {
  posted_at = patch.posted_at;
  cancelled_at = patch.cancelled_at;
  budget_member_id = none;
  income_source_id = none;
  debt_id = none;
  goal_id = none;
  investment_id = none;
  recurring_payment_id = none;
  updated_at = now;
}

-- the statement of `applyPatch`: it affects the row if that was not updated since it was read
unfoldable pub update_format : Text → ℕ → FormatPatch → ℕ → Database → Outcome (Bool × Database)
update_format id expected patch now db = elim (lookup id db.transactions) [
  | none ↦ ok (false, db)
  | some row ↦
      if row.updated_at == expected
      then ok
          (true, record db { transactions = insert id (patched_row row patch now) db.transactions })
      else ok (false, db)
]

-- `ORDER BY id ASC`: the canonical form of ids is ordered as the ids are
unfoldable pub insert_by_id : {A : Type 0} → Text → A → Table A → Table A
insert_by_id id r [] = (id, r) ∷ []
insert_by_id id r ((k, q) ∷ rows) =
    if text_ltb k id then (k, q) ∷ insert_by_id id r rows else (id, r) ∷ (k, q) ∷ rows

unfoldable pub order_by_id : {A : Type 0} → Table A → Table A
order_by_id [] = []
order_by_id ((k, r) ∷ rows) = insert_by_id k r (order_by_id rows)

-- `WHERE id > $1`, which is left out before the first batch
unfoldable pub is_after : Text → Text → Bool
is_after last id = is_empty last || text_ltb last id

unfoldable pub after_id : {A : Type 0} → Text → Table A → Table A
after_id last [] = []
after_id last ((k, r) ∷ rows) =
    if is_after last k then (k, r) ∷ after_id last rows else after_id last rows

-- the SELECT statement of `fetchBatch`
unfoldable pub select_batch : Text → ℕ → Database → Table TransactionRow
select_batch last limit db = take limit (after_id last (order_by_id db.transactions))

-- `maxIssueSamples` and `appendIssue`
abbrev pub max_issue_samples : ℕ
max_issue_samples = 100

unfoldable pub append_issue : List FormatIssue → FormatIssue → List FormatIssue
append_issue issues issue =
    if leb max_issue_samples (length issues) then issues else issues ++ issue ∷ []

-- What the loop of `Run` carries from one row to the next.
pub record Progress : Type 0 where
  pub stats : FormatStats
  pub issues : List FormatIssue
  pub last_id : Text

abbrev pub count : Bool → ℕ → ℕ
count b n = if b then suc n else n

-- what is counted of a row before it is written
unfoldable pub counted : FormatPatch → FormatStats → FormatStats
counted patch stats = record stats {
  scanned = suc stats.scanned;
  skipped = count (not patch.needs_fix) stats.skipped;
  needs_fix = count patch.needs_fix stats.needs_fix;
  timestamp_fix = count patch.has_timestamp stats.timestamp_fix;
  reserved_fixed = count patch.has_reserved_ids stats.reserved_fixed;
}

-- what is made of the answer of `applyPatch`
unfoldable pub note_update : Text → Outcome Bool → Progress → Progress
note_update id (err e) p = record p {
  stats = record p.stats { errors = suc p.stats.errors };
  issues = append_issue p.issues (update_failed id);
}
note_update id (ok false) p = record p {
  stats = record p.stats { conflicts = suc p.stats.conflicts };
  issues = append_issue p.issues (concurrent_update id);
}
note_update id (ok true) p = record p { stats = record p.stats { repaired = suc p.stats.repaired } }

-- `batchLimit`, or nothing when the limit is reached
unfoldable pub batch_limit : FormatOptions → ℕ → Option ℕ
batch_limit opts scanned =
    if opts.limit == 0
    then some opts.batch_size
    else if leb opts.limit scanned
    then none
    else some (
        if ltb (opts.limit - scanned) opts.batch_size
        then opts.limit - scanned
        else opts.batch_size)

module _ (env : Env) where
  -- `applyPatch(ctx, row, patch, time.Now().UTC())`
  unfoldable pub apply_patch : Text → TransactionRow → FormatPatch → Action Bool
  apply_patch id row patch = do
    now ← clock_now env
    execute env database_failure (update_format id row.updated_at patch now)

  -- the body of the loop over a batch
  unfoldable pub repair_row :
      FormatOptions → Text → TransactionRow → Progress × World → Progress × World
  repair_row opts id row (p, w) =
      let patch = build_format_patch row in
      let seen : Progress = record p { stats = counted patch p.stats; last_id = id } in
      if patch.needs_fix && not opts.dry_run
      then (let (r, w') = apply_patch id row patch w in (note_update id r seen, w'))
      else (seen, w)

  unfoldable pub repair_rows :
      FormatOptions → Table TransactionRow → Progress × World → Progress × World
  repair_rows opts [] s = s
  repair_rows opts ((id, row) ∷ rows) s = repair_rows opts rows (repair_row opts id row s)

  -- what is made of the answer of `fetchBatch`; the rest of the rounds is `rest`
  unfoldable pub after_fetch :
      FormatOptions
      → Progress
      → (Progress → World → Option (Outcome Progress × World))
      → Outcome (Table TransactionRow) × World
      → Option (Outcome Progress × World)
  after_fetch opts p rest (err e, w) = some (err e, w)
  after_fetch opts p rest (ok [], w) = some (ok p, w)
  after_fetch opts p rest (ok (row ∷ rows), w) =
      let (p', w') = repair_rows opts (row ∷ rows) (p, w) in rest p' w'

  unfoldable pub fetch_batch : Text → ℕ → Action (Table TransactionRow)
  fetch_batch last limit = execute env database_failure (λ db. ok (select_batch last limit db, db))

  unfoldable pub next_batch :
      FormatOptions
      → Option ℕ
      → Progress
      → World
      → (Progress → World → Option (Outcome Progress × World))
      → Option (Outcome Progress × World)
  next_batch opts none p w rest = some (ok p, w)
  next_batch opts (some limit) p w rest = after_fetch opts p rest (fetch_batch p.last_id limit w)

  -- the loop of `Run`, with fuel; `none` means that the fuel ran out
  unfoldable pub repair_loop :
      ℕ → FormatOptions → Progress → World → Option (Outcome Progress × World)
  repair_loop zero opts p w = none
  repair_loop (suc fuel) opts p w =
      next_batch opts (batch_limit opts p.stats.scanned) p w (repair_loop fuel opts)

  -- `TransactionsFormatJob.Run`, on the options that `defaultBatchSize` completes
  unfoldable pub run_format : ℕ → FormatOptions → World → Option (Outcome Progress × World)
  run_format fuel opts w =
      repair_loop fuel
        (record opts { batch_size = if opts.batch_size == 0 then 500 else opts.batch_size })
        (record { stats = no_stats; issues = []; last_id = [] }) w
