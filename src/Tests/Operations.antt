-- ===== src/Tests/Operations.antt =====
-- The jobs on the small database.
use moneo_backend.Common.{◌+◌, ◌≡◌, ◌↔◌, refl, true, false, some, ok, text_eq, is_empty, all, arith}
use moneo_backend.Domain.Errors.{Outcome}
use moneo_backend.Infra.Database.{World}
use moneo_backend.App.Ledger.{IsLedger}
use moneo_backend.Ops.Repair.{FormatOptions, Progress, run_format}
use moneo_backend.Ops.Repair.Keys.{ids, HasIds}
use moneo_backend.Ops.Repair.Termination.{
  run_format_ends, run_format-IsLedger, run_format_reads_all,
}
use moneo_backend.Ops.Verification.{empty_snapshot, observe_rows, discrepancies_from_snapshot}
use moneo_backend.Ops.Verification.Agreement.{is_low, repair_agrees_verification}
use moneo_backend.Tests.Data.{db, env, world, db-IsLedger}
use moneo_backend.Tests.Runs.{failing}

abbrev options : FormatOptions
options = record { dry_run = false; batch_size = 1; limit = 0 }

db-HasIds : HasIds (ids db.transactions)
unfolding text_eq is_empty
db-HasIds = record { distinct = ((refl, tt), (tt, tt)); given = (refl, (refl, tt)) }

run_format_ends_example :
    (r : Outcome Progress × World) × (run_format failing 3 options world ≡ some r)
run_format_ends_example = run_format_ends failing options 3 world db-HasIds (omega arith)

run_format-IsLedger_example :
    (r : Outcome Progress × World) × (run_format failing 3 options world ≡ some r) × IsLedger r.1.db
run_format-IsLedger_example =
    run_format-IsLedger failing options 3 world db-HasIds (omega arith) db-IsLedger

run_format_reads_all_example :
    (p : Progress) × (w : World) × (run_format env 3 options world ≡ some (ok p, w))
    × (p.stats.scanned ≡ 2)
run_format_reads_all_example =
    run_format_reads_all env options 3 world db-HasIds (omega arith) (λ n. refl) refl

repair_agrees_verification_example :
    ((observe_rows db.transactions empty_snapshot).rows_needing_repair ≡ 0
      ↔ all is_low (discrepancies_from_snapshot (observe_rows db.transactions empty_snapshot))
        ≡ true)
    × ((observe_rows db.transactions empty_snapshot).scanned
        ≡ (observe_rows db.transactions empty_snapshot).rows_needing_repair
          + (observe_rows db.transactions empty_snapshot).rows_already_aligned)
repair_agrees_verification_example = repair_agrees_verification db.transactions
