-- ===== src/Infra/Table/Unique.antt =====
-- Unique indexes: of the rows that pass a test, no two have the same key.
use moneo_backend.Common.{
  ◌≡◌, ◌≢◌, refl, sym, ◌∙◌, ap, Bool, true, false, Text, text_eq, text_eq_iff, none, some, [], ◌∷◌,
  arith, Bool-cases, Option-cases, inl, inr,
}
use moneo_backend.Infra.Table.{
  Table, lookup, insert, find_row, map_rows, lookup-insert, lookup-map_rows, HasKeys,
}

module _ {R : Type 0} where
  pub find_row-eq-none :
      (p : R → Bool) (id : Text) (rows : Table R) {r : R}
      → find_row p rows ≡ none
      → lookup id rows ≡ some r
      → p r ≡ false
  unfolding find_row lookup
  find_row-eq-none p id [] f h = cc
  find_row-eq-none p id ((k, q) ∷ rows) {r} f h = elim (Bool-cases (p q)) [
    | inl passes ↦ absurd (ground arith)
    | inr fails ↦ elim (Bool-cases (text_eq k id)) [
      | inl same ↦ ground arith
      | inr other ↦ find_row-eq-none p id rows (ground arith) (ground arith)
    ]
  ]

  -- The row that a test finds passes it, and stands under its id.
  pub find_row-eq-some :
      (p : R → Bool) (id : Text) (rows : Table R) {r : R}
      → HasKeys rows
      → find_row p rows ≡ some (id, r)
      → (p r ≡ true) × (lookup id rows ≡ some r)
  unfolding find_row lookup HasKeys
  find_row-eq-some p id [] k f = cc
  find_row-eq-some p id ((j, q) ∷ rows) {r} k f = elim (Bool-cases (p q)) [
    | inl passes ↦ ground (arith, text_eq_iff j id)
    | inr fails ↦
        let (t, l) = find_row-eq-some p id rows {r = r} k.1 (ground arith) in
        (t, ground (arith, text_eq_iff j id, k.0))
  ]

  pub map_rows-HasKeys : (f : R → R) (rows : Table R) → HasKeys rows → HasKeys (map_rows f rows)
  unfolding map_rows HasKeys
  map_rows-HasKeys f [] h = tt
  map_rows-HasKeys f ((k, r) ∷ rows) h =
      (rw (lookup-map_rows f k rows, h.0) refl, map_rows-HasKeys f rows h.1)

module _ {R : Type 0} (p : R → Bool) (key : R → Text) where
  unfoldable pub IsUnique : Table R → Type 0
  IsUnique rows =
      (i j : Text) (r s : R)
      → lookup i rows ≡ some r
      → lookup j rows ≡ some s
      → p r ≡ true
      → p s ≡ true
      → key r ≡ key s
      → i ≡ j

  -- What stands in a table after a write: the row that is written, or one from before.
  cases_insert :
      (id j : Text) (new r : R) (rows : Table R) {P : Type 0}
      → lookup j (insert id new rows) ≡ some r
      → (id ≡ j → new ≡ r → P)
      → (text_eq id j ≡ false → lookup j rows ≡ some r → P)
      → P
  cases_insert id j new r rows h same other = elim (Bool-cases (text_eq id j)) [
    | inl e ↦ same ((text_eq_iff id j).0 e) (ground (arith, lookup-insert id j new rows))
    | inr e ↦ other e (ground (arith, lookup-insert id j new rows))
  ]

  pub insert_new-IsUnique :
      (id : Text) (new : R) (rows : Table R)
      → ((j : Text) (s : R) → lookup j rows ≡ some s → p s ≡ true → key s ≢ key new)
      → IsUnique rows
      → IsUnique (insert id new rows)
  unfolding IsUnique
  insert_new-IsUnique id new rows f u i j r s hi hj pr ps e =
      cases_insert id i new r rows hi
        (λ ei er.
          cases_insert id j new s rows hj (λ ej es. sym ei ∙ ej)
            λ ej lj. absurd (f j s lj ps (sym e ∙ ap key (sym er))))
        λ ei li.
          cases_insert id j new s rows hj (λ ej es. absurd (f i r li pr (e ∙ ap key (sym es))))
            λ ej lj. u i j r s li lj pr ps e

  -- A write in the place of a row with the same key.
  pub insert-IsUnique :
      (id : Text) (old new : R) (rows : Table R)
      → lookup id rows ≡ some old
      → (p new ≡ true → p old ≡ true)
      → key new ≡ key old
      → IsUnique rows
      → IsUnique (insert id new rows)
  unfolding IsUnique
  insert-IsUnique id old new rows l q k u i j r s hi hj pr ps e =
      cases_insert id i new r rows hi
        (λ ei er.
          cases_insert id j new s rows hj (λ ej es. sym ei ∙ ej)
            λ ej lj. sym ei ∙ u id j old s l lj (q (ap p er ∙ pr)) ps (sym k ∙ ap key er ∙ e))
        λ ei li.
          cases_insert id j new s rows hj
            (λ ej es. u i id r old li l pr (q (ap p es ∙ ps)) (e ∙ sym (ap key es) ∙ k) ∙ ej)
            λ ej lj. u i j r s li lj pr ps e

  pub map_rows-IsUnique :
      (f : R → R) (rows : Table R)
      → ((r : R) → p (f r) ≡ true → p r ≡ true)
      → ((r : R) → key (f r) ≡ key r)
      → IsUnique rows
      → IsUnique (map_rows f rows)
  unfolding IsUnique
  map_rows-IsUnique f rows q k u i j r s hi hj pr ps e = from i r hi λ r' li er.
      from j s hj λ s' lj es.
        u i j r' s' li lj (q r' (ap p er ∙ pr)) (q s' (ap p es ∙ ps))
          (sym (k r') ∙ ap key er ∙ e ∙ sym (ap key es) ∙ k s')
    where
      from :
          (x : Text) (y : R) {P : Type 0}
          → lookup x (map_rows f rows) ≡ some y
          → ((y' : R) → lookup x rows ≡ some y' → f y' ≡ y → P)
          → P
      from x y h c = elim (Option-cases (lookup x rows)) [
        | inl gone ↦ absurd (ground (arith, lookup-map_rows f x rows))
        | inr (y', there) ↦ c y' there (ground (arith, lookup-map_rows f x rows))
      ]
