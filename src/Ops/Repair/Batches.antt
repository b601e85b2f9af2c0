-- ===== src/Ops/Repair/Batches.antt =====
-- internal/ops/repair/transactions_format_job.go: what is left to read after a batch.
use mathlib.Core.Path.{subst}
use moneo_backend.Common.{
  ℕ, zero, suc, ◌≡◌, refl, sym, ap, ◌∙◌, true, false, Text, text_ltb, text_ltb_irrefl,
  text_ltb_trans, text_ltb_asym, is_empty, List, [], ◌∷◌, take, drop, arith, Bool-cases, inl, inr,
}
use moneo_backend.Ops.Repair.{is_after}
use moneo_backend.Ops.Repair.Keys.{ids_after, NoneIsEmpty, IsAscending, AllAbove}

-- The id of the last row of a batch; `last` if it has none.
abbrev pub last_of : Text → List Text → Text
last_of last [] = last
last_of last (k ∷ ks) = last_of k ks

ids_after-AllAbove :
    (last : Text) (ks : List Text)
    → is_empty last ≡ false
    → AllAbove last ks
    → ids_after last ks ≡ ks
unfolding ids_after is_after
ids_after-AllAbove last [] e a = refl
ids_after-AllAbove last (k ∷ ks) e (a, more) =
    rw (e, a) (ap (λ xs. k ∷ xs) (ids_after-AllAbove last ks e more))

last_of_above :
    (k j : Text) (n : ℕ) (ks : List Text)
    → text_ltb k j ≡ true
    → AllAbove k ks
    → text_ltb k (last_of j (take n ks)) ≡ true
last_of_above k j zero ks h a = h
last_of_above k j (suc n) [] h a = h
last_of_above k j (suc n) (x ∷ ks) h (a, more) = last_of_above k x n ks a more

last_of_not_empty :
    (j : Text) (n : ℕ) (ks : List Text)
    → is_empty j ≡ false
    → NoneIsEmpty ks
    → is_empty (last_of j (take n ks)) ≡ false
last_of_not_empty j zero ks h a = h
last_of_not_empty j (suc n) [] h a = h
last_of_not_empty j (suc n) (x ∷ ks) h (a, more) = last_of_not_empty x n ks a more

ids_after_skip :
    (z k : Text) (ks : List Text)
    → is_empty z ≡ false
    → text_ltb z k ≡ false
    → ids_after z (k ∷ ks) ≡ ids_after z ks
unfolding ids_after is_after
ids_after_skip z k ks e h = rw (e, h) refl

-- Of ascending ids, those after the last one of a batch are what the batch leaves.
ids_after_batch :
    (n : ℕ) (k : Text) (ks : List Text)
    → IsAscending (k ∷ ks)
    → NoneIsEmpty (k ∷ ks)
    → ids_after (last_of k (take n ks)) (k ∷ ks) ≡ drop n ks
unfolding ids_after is_after
ids_after_batch zero k ks (a, s) (e, es) = rw (e, text_ltb_irrefl k) (ids_after-AllAbove k ks e a)
ids_after_batch (suc n) k [] (a, s) (e, es) = rw (e, text_ltb_irrefl k) refl
ids_after_batch (suc n) k (x ∷ ks) ((a, more), s) (e, es) =
    let above = last_of_above k x n ks a more in
    let given = last_of_not_empty x n ks es.0 es.1 in
    ids_after_skip (last_of x (take n ks)) k (x ∷ ks) given
      (text_ltb_asym k (last_of x (take n ks)) above)
    ∙ ids_after_batch n x ks s es

AllAbove-ids_after :
    (j last : Text) (ks : List Text) → AllAbove j ks → AllAbove j (ids_after last ks)
unfolding ids_after
AllAbove-ids_after j last [] a = tt
AllAbove-ids_after j last (k ∷ ks) (a, more) = elim (Bool-cases (is_after last k)) [
  | inl later ↦ rw later (a, AllAbove-ids_after j last ks more)
  | inr not_later ↦ rw not_later (AllAbove-ids_after j last ks more)
]

pub ids_after-IsAscending :
    (last : Text) (ks : List Text) → IsAscending ks → IsAscending (ids_after last ks)
unfolding ids_after
ids_after-IsAscending last [] s = tt
ids_after-IsAscending last (k ∷ ks) (a, s) = elim (Bool-cases (is_after last k)) [
  | inl later ↦ rw later (AllAbove-ids_after k last ks a, ids_after-IsAscending last ks s)
  | inr not_later ↦ rw not_later (ids_after-IsAscending last ks s)
]

pub ids_after-NoneIsEmpty :
    (last : Text) (ks : List Text) → NoneIsEmpty ks → NoneIsEmpty (ids_after last ks)
unfolding ids_after
ids_after-NoneIsEmpty last [] e = tt
ids_after-NoneIsEmpty last (k ∷ ks) (e, es) = elim (Bool-cases (is_after last k)) [
  | inl later ↦ rw later (e, ids_after-NoneIsEmpty last ks es)
  | inr not_later ↦ rw not_later (ids_after-NoneIsEmpty last ks es)
]

-- All of the ids are read after `last`.
abbrev AllAfter : Text → List Text → Type 0
AllAfter last [] = Unit
AllAfter last (k ∷ ks) = (is_after last k ≡ true) × AllAfter last ks

ids_after-AllAfter : (last : Text) (ks : List Text) → AllAfter last (ids_after last ks)
unfolding ids_after
ids_after-AllAfter last [] = tt
ids_after-AllAfter last (k ∷ ks) = elim (Bool-cases (is_after last k)) [
  | inl later ↦ rw later (later, ids_after-AllAfter last ks)
  | inr not_later ↦ rw not_later (ids_after-AllAfter last ks)
]

last_of-AllAfter :
    (last k : Text) (n : ℕ) (ks : List Text)
    → is_after last k ≡ true
    → AllAfter last ks
    → is_after last (last_of k (take n ks)) ≡ true
last_of-AllAfter last k zero ks h a = h
last_of-AllAfter last k (suc n) [] h a = h
last_of-AllAfter last k (suc n) (x ∷ ks) h (a, more) = last_of-AllAfter last x n ks a more

is_after_trans :
    (last z k : Text)
    → is_after last z ≡ true
    → is_empty z ≡ false
    → is_after z k ≡ true
    → is_after last k ≡ true
unfolding is_after
is_after_trans last z k h e a = ground (arith, text_ltb_trans last z k)

-- Reading after a later id, it does not matter whether the ids were those after an earlier one.
ids_after_twice :
    (last z : Text) (ks : List Text)
    → is_after last z ≡ true
    → is_empty z ≡ false
    → ids_after z (ids_after last ks) ≡ ids_after z ks
unfolding ids_after
ids_after_twice last z [] h e = refl
ids_after_twice last z (k ∷ ks) h e =
    ground (arith, is_after_trans last z k, ids_after_twice last z ks)

-- After a batch of `n + 1` ids has been read, what is left is what the batch leaves.
pub ids_after_next :
    (last k : Text) (n : ℕ) (all ks : List Text)
    → IsAscending all
    → NoneIsEmpty all
    → ids_after last all ≡ k ∷ ks
    → ids_after (last_of k (take n ks)) all ≡ drop n ks
ids_after_next last k n all ks s e h =
    let given = subst NoneIsEmpty h (ids_after-NoneIsEmpty last all e) in
    let sorted = subst IsAscending h (ids_after-IsAscending last all s) in
    let later = subst (AllAfter last) h (ids_after-AllAfter last all) in
    let z = last_of k (take n ks) in
    sym (
      ids_after_twice last z all (last_of-AllAfter last k n ks later.0 later.1)
        (last_of_not_empty k n ks given.0 given.1))
    ∙ ap (ids_after z) h
    ∙ ids_after_batch n k ks sorted given
