-- ===== src/Ops/Verification/Agreement.antt =====
-- internal/ops/repair: the verification job against the repair job.
use moneo_backend.Common.{
  ℕ, zero, suc, ◌+◌, ◌≡◌, ◌↔◌, refl, Bool, true, false, ◌&&◌, ◌||◌, not, Text, codes, text_eq,
  text_eq_iff, trim_space, List, [], ◌∷◌, all, if◌then◌else◌, arith, Bool-cases, inl, inr, ◌==◌,
}
use moneo_backend.Infra.Table.{Table}
use moneo_backend.Infra.Database.{TransactionRow}
use moneo_backend.Ops.Repair.{build_format_patch, times_differ, has_reserved_ids, is_given, count}
use moneo_backend.Ops.Verification.{
  InvariantCounts, Snapshot, empty_snapshot, count_invariants, observe_row, observe_rows, high,
  medium, low, Discrepancy, add_if_positive, discrepancies_from_snapshot,
}

-- The counts that are not only for information.
abbrev broken : InvariantCounts → ℕ
broken c =
    c.posted_without_posted_at + c.planned_with_posted_at + c.planned_with_cancelled_at
    + c.posted_with_cancelled_at + c.cancelled_without_cancelled_at + c.reserved_refs_present

one_status :
    (s : Text)
    → (text_eq s (codes "planned") && text_eq s (codes "posted") ≡ false)
      × (text_eq s (codes "planned") && text_eq s (codes "cancelled") ≡ false)
      × (text_eq s (codes "posted") && text_eq s (codes "cancelled") ≡ false)
unfolding text_eq
one_status s = (
  apart s (codes "planned") (codes "posted") refl,
  apart s (codes "planned") (codes "cancelled") refl,
  apart s (codes "posted") (codes "cancelled") refl,
)
  where
    apart : (s a b : Text) → text_eq a b ≡ false → text_eq s a && text_eq s b ≡ false
    apart s a b h = ground (arith, text_eq_iff s a, text_eq_iff s b, text_eq_iff a b)

-- The same for the tests on a row.
tests_agree :
    (planned posted cancelled posted_given cancelled_given reserved : Bool) (a b c d e f : ℕ)
    → planned && posted ≡ false
    → planned && cancelled ≡ false
    → posted && cancelled ≡ false
    → (count (posted && not posted_given) a
          + count (planned && posted_given) b
          + count (planned && cancelled_given) c
          + count (posted && cancelled_given) d
          + count (cancelled && not cancelled_given) e
          + count reserved f
        ≡ 0)
      ↔ (((if planned
                then posted_given || cancelled_given
                else if posted
                then not posted_given || cancelled_given
                else if cancelled
                then not cancelled_given
                else false)
              || reserved
            ≡ false)
          × (a + b + c + d + e + f ≡ 0))
tests_agree true true ca pg cg rs a b c d e f h h' h'' = cc
tests_agree true false true pg cg rs a b c d e f h h' h'' = cc
tests_agree false true true pg cg rs a b c d e f h h' h'' = cc
tests_agree true false false pg cg rs a b c d e f h h' h'' = (ground arith, ground arith)
tests_agree false true false pg cg rs a b c d e f h h' h'' = (ground arith, ground arith)
tests_agree false false ca pg cg rs a b c d e f h h' h'' = (ground arith, ground arith)

-- A row needs repair exactly when it adds to one of the counts.
row_agrees :
    (row : TransactionRow) (c : InvariantCounts)
    → (broken (count_invariants row c) ≡ 0)
      ↔ (((build_format_patch row).needs_fix ≡ false) × (broken c ≡ 0))
unfolding count_invariants build_format_patch times_differ
row_agrees row c =
    let status = trim_space row.status_column in
    let (p, q, r) = one_status status in
    tests_agree (text_eq status (codes "planned")) (text_eq status (codes "posted"))
      (text_eq status (codes "cancelled")) (is_given row.posted_at) (is_given row.cancelled_at)
      (has_reserved_ids row) c.posted_without_posted_at c.planned_with_posted_at
      c.planned_with_cancelled_at c.posted_with_cancelled_at c.cancelled_without_cancelled_at
      c.reserved_refs_present p q r

-- What both jobs say of the rows that were seen.
abbrev Agrees : Snapshot → Type 0
Agrees s =
    ((s.rows_needing_repair ≡ 0) ↔ (broken s.invariants ≡ 0))
    × (s.scanned ≡ s.rows_needing_repair + s.rows_already_aligned)

observe_row-Agrees : (row : TransactionRow) (s : Snapshot) → Agrees s → Agrees (observe_row row s)
unfolding observe_row
observe_row-Agrees row s (h, n) = elim (Bool-cases (build_format_patch row).needs_fix) [
  | inl fix ↦ (
    (
      (λ (z : count (build_format_patch row).needs_fix s.rows_needing_repair ≡ 0).
          absurd (counted_ne_zero s.rows_needing_repair fix z)),
      λ z. absurd (needed fix ((row_agrees row s.invariants).0 z).0),
    ),
    rw fix (omega (arith, n)),
  )
  | inr aligned ↦ rw aligned (
    (
      λ z. (row_agrees row s.invariants).1 (aligned, h.0 z),
      λ z. h.1 ((row_agrees row s.invariants).0 z).1,
    ),
    omega (arith, n),
  )
]
  where
    counted_ne_zero : {b : Bool} (n : ℕ) → b ≡ true → count b n ≡ 0 → ⊥
    counted_ne_zero n p q = ground arith

    needed : {b : Bool} → b ≡ true → b ≡ false → ⊥
    needed p q = cc

pub observe_rows-Agrees :
    (rows : Table TransactionRow) (s : Snapshot) → Agrees s → Agrees (observe_rows rows s)
unfolding observe_rows
observe_rows-Agrees [] s a = a
observe_rows-Agrees ((id, row) ∷ rows) s a =
    observe_rows-Agrees rows (observe_row row s) (observe_row-Agrees row s a)

-- Whether a discrepancy is for information only.
unfoldable pub is_low : Discrepancy → Bool
is_low d = elim d.severity [ high ↦ false | medium ↦ false | low ↦ true ]

low_high :
    (code : Text) (n : ℕ) (rest : List Discrepancy)
    → all is_low (add_if_positive code n high rest) ≡ (n == 0 && all is_low rest)
unfolding add_if_positive is_low
low_high code zero rest = ground arith
low_high code (suc n) rest = ground arith

low_medium :
    (code : Text) (n : ℕ) (rest : List Discrepancy)
    → all is_low (add_if_positive code n medium rest) ≡ (n == 0 && all is_low rest)
unfolding add_if_positive is_low
low_medium code zero rest = ground arith
low_medium code (suc n) rest = ground arith

low_low :
    (code : Text) (n : ℕ) (rest : List Discrepancy)
    → all is_low (add_if_positive code n low rest) ≡ all is_low rest
unfolding add_if_positive is_low
low_low code zero rest = refl
low_low code (suc n) rest = refl

only_low :
    (s : Snapshot) → (all is_low (discrepancies_from_snapshot s) ≡ true) ↔ (broken s.invariants ≡ 0)
unfolding discrepancies_from_snapshot
only_low s = simp (low_high, low_medium, low_low) (ground arith, ground arith)

-- Over any rows, no row needs repair exactly when every discrepancy that the
-- verification finds in its snapshot is of low severity; and each scanned row counts either as one
-- that needs repair or as one that is aligned.
pub repair_agrees_verification :
    (rows : Table TransactionRow)
    → ((observe_rows rows empty_snapshot).rows_needing_repair ≡ 0
        ↔ all is_low (discrepancies_from_snapshot (observe_rows rows empty_snapshot)) ≡ true)
      × ((observe_rows rows empty_snapshot).scanned
          ≡ (observe_rows rows empty_snapshot).rows_needing_repair
            + (observe_rows rows empty_snapshot).rows_already_aligned)
repair_agrees_verification rows =
    let s = observe_rows rows empty_snapshot in
    let (h, n) = observe_rows-Agrees rows empty_snapshot (((λ z. refl), (λ z. refl)), refl) in
    let k = only_low s in (((λ z. k.1 (h.0 z)), (λ z. h.1 (k.0 z))), n)
