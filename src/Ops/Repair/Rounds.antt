-- ===== src/Ops/Repair/Rounds.antt =====
-- internal/ops/repair/transactions_format_job.go: one round of the loop of `Run`.
use mathlib.Core.Path.{subst}
use moneo_backend.Common.{
  ℕ, suc, ◌+◌, ◌≡◌, ◌≢◌, refl, sym, ap, ◌∙◌, Bool, true, false, Text, [], ◌∷◌, length, ok, err, not,
  ◌⊎◌, ◌&&◌, arith, Bool-cases, Option-cases, inl, inr,
}
use moneo_backend.Domain.Errors.{Outcome, database_failure}
use moneo_backend.Infra.Table.{Table, lookup}
use moneo_backend.Infra.Database.{
  TransactionRow, Database, Env, World, done, unique_violation, failure, >>=-elim, clock_now-db,
  execute, execute-eq-ok, Reply, answered, after_statement,
}
use moneo_backend.Infra.Database.Clean.{
  IsClean, >>=-IsClean, clock_now-Reads, execute-IsClean, clean-keeps,
}
use moneo_backend.Ops.Repair.{
  FormatOptions, FormatPatch, Progress, build_format_patch, patched_row, counted, update_format,
  apply_patch, note_update, repair_row, repair_rows, fetch_batch, select_batch,
}
use moneo_backend.Ops.Repair.Keys.{ids, ids-insert}
use moneo_backend.Ops.Repair.Batches.{last_of}

pub ids-update_format :
    (id : Text) (expected : ℕ) (patch : FormatPatch) (now : ℕ) (db db' : Database) (b : Bool)
    → update_format id expected patch now db ≡ ok (b, db')
    → ids db'.transactions ≡ ids db.transactions
unfolding update_format
ids-update_format id expected patch now db db' b h =
    elim (Option-cases (lookup id db.transactions)) [
      | inl absent ↦ ground arith
      | inr (row, e) ↦
          ground (arith, ids-insert id (patched_row row patch now) db.transactions {q = row})
    ]

note_update-keeps :
    (id : Text) (r : Outcome Bool) (p : Progress)
    → ((note_update id r p).stats.scanned ≡ p.stats.scanned)
      × ((note_update id r p).last_id ≡ p.last_id)
unfolding note_update
note_update-keeps id (err e) p = (refl, refl)
note_update-keeps id (ok false) p = (refl, refl)
note_update-keeps id (ok true) p = (refl, refl)

module _ (env : Env) where
  apply_patch-IsClean :
      (id : Text) (row : TransactionRow) (patch : FormatPatch)
      → IsClean (apply_patch env id row patch)
  unfolding apply_patch
  apply_patch-IsClean id row patch =
      >>=-IsClean _ _ (clock_now-Reads env) λ now. execute-IsClean env _ _

  -- What each statement of the job keeps is kept by it, whether it succeeds or not.
  apply_patch-keeps :
      (P : Database → Type 0) (id : Text) (row : TransactionRow) (patch : FormatPatch)
      → ((expected now : ℕ) (db db' : Database) (b : Bool)
          → update_format id expected patch now db ≡ ok (b, db')
          → P db
          → P db')
      → (w : World) → P w.db
      → P (apply_patch env id row patch w).1.db
  unfolding apply_patch
  apply_patch-keeps P id row patch k =
      clean-keeps P (apply_patch env id row patch) (apply_patch-IsClean id row patch) λ b w w' h l.
        >>=-elim _ _ _ h λ now w₁ h₁ g₁.
          k row.updated_at now w₁.db w'.db b
            (execute-eq-ok env database_failure (update_format id row.updated_at patch now) w₁ g₁)
            (subst P (sym (clock_now-db env w h₁)) l)

  repair_row-keeps :
      (P : Database → Type 0) (opts : FormatOptions) (id : Text) (row : TransactionRow)
      → ((expected now : ℕ) (patch : FormatPatch) (db db' : Database) (b : Bool)
          → update_format id expected patch now db ≡ ok (b, db')
          → P db
          → P db')
      → (p : Progress) (w : World) → P w.db
      → P (repair_row env opts id row (p, w)).1.db
        × ((repair_row env opts id row (p, w)).0.stats.scanned ≡ suc p.stats.scanned)
        × ((repair_row env opts id row (p, w)).0.last_id ≡ id)
  unfolding repair_row counted
  repair_row-keeps P opts id row k p w l =
      let patch = build_format_patch row in
      let seen : Progress = record p { stats = counted patch p.stats; last_id = id } in
      elim (Bool-cases (patch.needs_fix && not opts.dry_run)) [
        | inl written ↦
            let (c, i) = note_update-keeps id (apply_patch env id row patch w).0 seen in
            rw written
              (apply_patch-keeps P id row patch (λ expected now. k expected now patch) w l, c, i)
        | inr not_written ↦ rw not_written (l, refl, refl)
      ]

  pub repair_rows-keeps :
      (P : Database → Type 0) (opts : FormatOptions)
      → ((id : Text) (expected now : ℕ) (patch : FormatPatch) (db db' : Database) (b : Bool)
          → update_format id expected patch now db ≡ ok (b, db')
          → P db
          → P db')
      → (rows : Table TransactionRow) (p : Progress) (w : World) → P w.db
      → P (repair_rows env opts rows (p, w)).1.db
        × ((repair_rows env opts rows (p, w)).0.stats.scanned ≡ p.stats.scanned + length rows)
        × ((repair_rows env opts rows (p, w)).0.last_id ≡ last_of p.last_id (ids rows))
  unfolding repair_rows
  repair_rows-keeps P opts k [] p w l = (l, omega arith, refl)
  repair_rows-keeps P opts k ((id, row) ∷ rows) p w l =
      let (l', c, i) = repair_row-keeps P opts id row (k id) p w l in
      let s = repair_row env opts id row (p, w) in
      let (l'', c', i') = repair_rows-keeps P opts k rows s.0 s.1 l' in
      (l'', omega (arith, c, c'), i' ∙ ap (λ x. last_of x (ids rows)) i)

  pub fetched_reply :
      (reply : Reply) (last : Text) (limit : ℕ) (w : World)
      → env.reply w.calls ≡ reply
      → ((fetch_batch env last limit w).1.db ≡ w.db)
        × (((env.reply w.calls ≢ done) × ((fetch_batch env last limit w).0 ≡ err database_failure))
            ⊎ ((fetch_batch env last limit w).0 ≡ ok (select_batch last limit w.db)))
  unfolding fetch_batch execute answered after_statement
  fetched_reply done last limit w h = rw h (refl, inr refl)
  fetched_reply unique_violation last limit w h = rw h (refl, inl ((λ e. cc), refl))
  fetched_reply failure last limit w h = rw h (refl, inl ((λ e. cc), refl))
