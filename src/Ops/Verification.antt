-- ===== src/Ops/Verification.antt =====
-- internal/ops/repair/transactions_verification_job.go: the snapshot of the verification job, which
-- counts the rows that break an invariant, and the discrepancies that are found in it. The samples
-- of ids, the counts by status, type and currency, and the report are left out.
pub mod Agreement
use moneo_backend.Common.{
  ℕ, zero, suc, ◌+◌, Bool, true, false, ◌&&◌, ◌||◌, not, Text, codes, text_eq, trim_space, is_empty,
  Option, none, some, List, [], ◌∷◌, ◌++◌, if◌then◌else◌,
}
use moneo_backend.Infra.Table.{Table}
use moneo_backend.Infra.Database.{TransactionRow}
use moneo_backend.Ops.Repair.{build_format_patch, has_reserved_ids, is_given, count}

-- `TransactionsVerificationInvariantCounts`
pub record InvariantCounts : Type 0 where
  pub posted_without_posted_at : ℕ
  pub planned_with_posted_at : ℕ
  pub planned_with_cancelled_at : ℕ
  pub posted_with_cancelled_at : ℕ
  pub cancelled_without_cancelled_at : ℕ
  pub reserved_refs_present : ℕ
  pub effective_at_missing : ℕ

-- `TransactionsVerificationSnapshot`: the totals, the aggregates on repairs and the invariants
pub record Snapshot : Type 0 where
  pub scanned : ℕ
  pub rows_needing_repair : ℕ
  pub rows_already_aligned : ℕ
  pub rows_with_unknown_enum : ℕ
  pub invariants : InvariantCounts

abbrev pub empty_snapshot : Snapshot
empty_snapshot = record {
  scanned = 0;
  rows_needing_repair = 0;
  rows_already_aligned = 0;
  rows_with_unknown_enum = 0;
  invariants = record {
    posted_without_posted_at = 0;
    planned_with_posted_at = 0;
    planned_with_cancelled_at = 0;
    posted_with_cancelled_at = 0;
    cancelled_without_cancelled_at = 0;
    reserved_refs_present = 0;
    effective_at_missing = 0;
  };
}

abbrev pub has_status : Text → TransactionRow → Bool
has_status status row = text_eq (trim_space row.status_column) status

-- the `switch` on the status and the two tests after it
unfoldable pub count_invariants : TransactionRow → InvariantCounts → InvariantCounts
count_invariants row c =
    let is_posted = has_status (codes "posted") row in
    let is_planned = has_status (codes "planned") row in
    let is_cancelled = has_status (codes "cancelled") row in
    record {
      posted_without_posted_at =
          count (is_posted && not (is_given row.posted_at)) c.posted_without_posted_at;
      planned_with_posted_at =
          count (is_planned && is_given row.posted_at) c.planned_with_posted_at;
      planned_with_cancelled_at =
          count (is_planned && is_given row.cancelled_at) c.planned_with_cancelled_at;
      posted_with_cancelled_at =
          count (is_posted && is_given row.cancelled_at) c.posted_with_cancelled_at;
      cancelled_without_cancelled_at =
          count (is_cancelled && not (is_given row.cancelled_at)) c.cancelled_without_cancelled_at;
      reserved_refs_present = count (has_reserved_ids row) c.reserved_refs_present;
      effective_at_missing =
          count (not (is_given row.occurred_at) && not (is_given row.planned_at))
            c.effective_at_missing;
    }

-- the body of the loop of `collectSnapshot` over a batch
unfoldable pub observe_row : TransactionRow → Snapshot → Snapshot
observe_row row s =
    let needs_fix = (build_format_patch row).needs_fix in
    record {
      scanned = suc s.scanned;
      rows_needing_repair = count needs_fix s.rows_needing_repair;
      rows_already_aligned = count (not needs_fix) s.rows_already_aligned;
      rows_with_unknown_enum =
          count
            (is_empty (trim_space row.status_column)
              || is_empty (trim_space row.type_column)
              || is_empty (trim_space row.currency))
            s.rows_with_unknown_enum;
      invariants = count_invariants row s.invariants;
    }

unfoldable pub observe_rows : Table TransactionRow → Snapshot → Snapshot
observe_rows [] s = s
observe_rows ((id, row) ∷ rows) s = observe_rows rows (observe_row row s)

-- `VerificationSeverity`
pub data Severity : Type 0 where
  high medium low : Severity

-- `TransactionsVerificationDiscrepancy`, without its texts
pub record Discrepancy : Type 0 where
  pub code : Text
  pub severity : Severity
  pub rows : ℕ

unfoldable pub add_if_positive : Text → ℕ → Severity → List Discrepancy → List Discrepancy
add_if_positive code zero severity rest = rest
add_if_positive code (suc n) severity rest =
    record { code = code; severity = severity; rows = suc n } ∷ rest

-- `discrepanciesFromCurrentSnapshot`
unfoldable pub discrepancies_from_snapshot : Snapshot → List Discrepancy
discrepancies_from_snapshot s =
    let c = s.invariants in
    add_if_positive (codes "posted_without_posted_at") c.posted_without_posted_at high (
      add_if_positive (codes "cancelled_without_cancelled_at") c.cancelled_without_cancelled_at high
        (add_if_positive (codes "planned_with_posted_at") c.planned_with_posted_at medium (
          add_if_positive (codes "planned_with_cancelled_at") c.planned_with_cancelled_at medium (
            add_if_positive (codes "posted_with_cancelled_at") c.posted_with_cancelled_at medium (
              add_if_positive (codes "reserved_refs_present") c.reserved_refs_present medium
                (add_if_positive (codes "effective_at_missing") c.effective_at_missing low []))))))
