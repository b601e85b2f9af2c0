-- ===== src/Ops/Repair/Aligned.antt =====
-- internal/ops/repair/transactions_format_job.go: the row that the job writes.
use moneo_backend.Common.{ℕ, ◌≡◌, false, arith}
use moneo_backend.Infra.Database.{TransactionRow}
use moneo_backend.Ops.Repair.{
  build_format_patch, patched_row, aligned_times, times_differ, has_reserved_ids, is_given,
  first_non_nil_time,
}

times_differ-patched :
    (row : TransactionRow) (now : ℕ)
    → times_differ (patched_row row (build_format_patch row) now) ≡ false
unfolding build_format_patch patched_row aligned_times times_differ is_given first_non_nil_time
times_differ-patched row now = ground arith

-- A row that the job has written needs no repair any more.
pub patched_row-build_format_patch :
    (row : TransactionRow) (now : ℕ)
    → (build_format_patch (patched_row row (build_format_patch row) now)).needs_fix ≡ false
unfolding build_format_patch patched_row has_reserved_ids is_given
patched_row-build_format_patch row now = rw (times_differ-patched row now)
