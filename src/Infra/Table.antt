-- ===== src/Infra/Table.antt =====
-- A table with the primary key `id`: a list of rows, in the order of insertion.
pub mod Unique
use moneo_backend.Common.{
  ℕ, ◌+◌, ◌≡◌, refl, Bool, false, Option, none, some, List, [], ◌∷◌, arith, Text, text_eq,
  text_eq_iff, Bool-cases, inl, inr, if◌then◌else◌,
}

abbrev pub Table {ℓ} : Type ℓ → Type ℓ
Table R = List (Text × R)

module _ {ℓ} {R : Type ℓ} where
  -- the row with the given id
  unfoldable pub lookup : Text → Table R → Option R
  lookup id [] = none
  lookup id ((k, r) ∷ rows) = if text_eq k id then some r else lookup id rows

  -- writes a row under an id: in place of the row with that id, or as a new one
  unfoldable pub insert : Text → R → Table R → Table R
  insert id r [] = (id, r) ∷ []
  insert id r ((k, q) ∷ rows) = if text_eq k id then (k, r) ∷ rows else (k, q) ∷ insert id r rows

  -- removes the row with the given id
  unfoldable pub erase : Text → Table R → Table R
  erase id [] = []
  erase id ((k, q) ∷ rows) = if text_eq k id then rows else (k, q) ∷ erase id rows

  -- the first row that passes a test, with its id
  unfoldable pub find_row : (R → Bool) → Table R → Option (Text × R)
  find_row p [] = none
  find_row p ((k, r) ∷ rows) = if p r then some (k, r) else find_row p rows

  -- the rows that pass a test
  unfoldable pub select_rows : (R → Bool) → Table R → Table R
  select_rows p [] = []
  select_rows p ((k, r) ∷ rows) =
      let rest = select_rows p rows in if p r then (k, r) ∷ rest else rest

  -- writes every row anew
  unfoldable pub map_rows : (R → R) → Table R → Table R
  map_rows f [] = []
  map_rows f ((k, r) ∷ rows) = (k, f r) ∷ map_rows f rows

  -- The sum of a weight of the rows.
  unfoldable pub total : (Text → R → ℕ) → Table R → ℕ
  total f [] = 0
  total f ((k, r) ∷ rows) = f k r + total f rows

module _ {ℓ} {R : Type ℓ} where
  pub one_row :
      (id : Text) (rows : Table R) {r s : R}
      → lookup id rows ≡ some r
      → lookup id rows ≡ some s
      → r ≡ s
  one_row id rows h k = ground arith

  pub lookup-insert :
      (id j : Text) (r : R) (rows : Table R)
      → lookup j (insert id r rows) ≡ (if text_eq id j then some r else lookup j rows)
  unfolding lookup insert
  lookup-insert id j r [] = refl
  lookup-insert id j r ((k, q) ∷ rows) =
      ground (arith, text_eq_iff k id, text_eq_iff k j, text_eq_iff id j, lookup-insert id j r rows)

  pub lookup-erase_ne :
      (id j : Text) (rows : Table R)
      → text_eq id j ≡ false
      → lookup j (erase id rows) ≡ lookup j rows
  unfolding lookup erase
  lookup-erase_ne id j [] h = refl
  lookup-erase_ne id j ((k, q) ∷ rows) h =
      ground
        (arith, text_eq_iff k id, text_eq_iff k j, text_eq_iff id j, lookup-erase_ne id j rows h)

  -- Each id stands once.
  unfoldable pub HasKeys : Table R → Type ℓ
  HasKeys [] = Unit
  HasKeys ((k, r) ∷ rows) = (lookup k rows ≡ none) × HasKeys rows

  pub lookup-erase_self :
      (id : Text) (rows : Table R) → HasKeys rows → lookup id (erase id rows) ≡ none
  unfolding lookup erase HasKeys
  lookup-erase_self id [] h = refl
  lookup-erase_self id ((k, q) ∷ rows) h =
      ground (arith, text_eq_iff k id, lookup-erase_self id rows h.1)

  pub insert-HasKeys :
      (id : Text) (r : R) (rows : Table R) → HasKeys rows → HasKeys (insert id r rows)
  unfolding lookup insert HasKeys
  insert-HasKeys id r [] h = (refl, tt)
  insert-HasKeys id r ((k, q) ∷ rows) h = ground (
    arith,
    text_eq_iff k id,
    text_eq_iff id k,
    lookup-insert id k r rows,
    insert-HasKeys id r rows h.1,
  )

  pub erase-HasKeys : (id : Text) (rows : Table R) → HasKeys rows → HasKeys (erase id rows)
  unfolding lookup erase HasKeys
  erase-HasKeys id [] h = tt
  erase-HasKeys id ((k, q) ∷ rows) h = ground (
    arith,
    text_eq_iff k id,
    text_eq_iff id k,
    lookup-erase_ne id k rows,
    erase-HasKeys id rows h.1,
  )

  -- A write adds the weight of the new row, and takes away that of the one it replaces.
  pub total-insert :
      (f : Text → R → ℕ) (id : Text) (r : R) (rows : Table R) {q : R}
      → lookup id rows ≡ some q
      → total f (insert id r rows) + f id q ≡ total f rows + f id r
  unfolding lookup insert total
  total-insert f id r [] h = cc
  total-insert f id r ((k, p) ∷ rows) {q = q} h =
      ground (arith, text_eq_iff k id, total-insert f id r rows {q = q})

  pub total-insert_new :
      (f : Text → R → ℕ) (id : Text) (r : R) (rows : Table R)
      → lookup id rows ≡ none
      → total f (insert id r rows) ≡ total f rows + f id r
  unfolding lookup insert total
  total-insert_new f id r [] h = omega arith
  total-insert_new f id r ((k, p) ∷ rows) h = ground (arith, total-insert_new f id r rows)

  pub total-erase :
      (f : Text → R → ℕ) (id : Text) (rows : Table R) {q : R}
      → lookup id rows ≡ some q
      → total f (erase id rows) + f id q ≡ total f rows
  unfolding lookup erase total
  total-erase f id [] h = cc
  total-erase f id ((k, p) ∷ rows) {q = q} h =
      ground (arith, text_eq_iff k id, total-erase f id rows {q = q})

  pub lookup-map_rows :
      (f : R → R) (id : Text) (rows : Table R)
      → lookup id (map_rows f rows) ≡ elim (lookup id rows) [ none ↦ none | some r ↦ some (f r) ]
  unfolding lookup map_rows
  lookup-map_rows f id [] = refl
  lookup-map_rows f id ((k, r) ∷ rows) = elim (Bool-cases (text_eq k id)) [
    | inl same ↦ simp same refl
    | inr other ↦ simp other (lookup-map_rows f id rows)
  ]
