-- ===== src/Common/TextOrder.antt =====
-- The order of texts is a strict total order.
use mathlib.Core.Path.{◌≡◌, refl}
use mathlib.Core.Logic.{inl, inr}
use mathlib.Core.Bool.{Bool, true, false}
use mathlib.Core.List.{[], ◌∷◌}
use native.Mathlib.Omega.{arith}
use moneo_backend.Common.Tests.{Bool-cases}
use moneo_backend.Common.Texts.{Text, text_eq, text_ltb}

pub text_ltb_irrefl : (s : Text) → text_ltb s s ≡ false
unfolding text_ltb
text_ltb_irrefl [] = refl
text_ltb_irrefl (c ∷ s) = ground (arith, text_ltb_irrefl s)

pub text_ltb_trans :
    (s t u : Text) → text_ltb s t ≡ true → text_ltb t u ≡ true → text_ltb s u ≡ true
unfolding text_ltb
text_ltb_trans [] [] u h k = cc
text_ltb_trans [] (d ∷ t) [] h k = cc
text_ltb_trans [] (d ∷ t) (e ∷ u) h k = refl
text_ltb_trans (c ∷ s) [] u h k = cc
text_ltb_trans (c ∷ s) (d ∷ t) [] h k = cc
text_ltb_trans (c ∷ s) (d ∷ t) (e ∷ u) h k = ground (arith, text_ltb_trans s t u)

pub text_ltb_total : (s t : Text) → text_ltb s t ≡ false → text_eq s t ≡ false → text_ltb t s ≡ true
unfolding text_ltb text_eq
text_ltb_total [] [] h k = cc
text_ltb_total [] (d ∷ t) h k = cc
text_ltb_total (c ∷ s) [] h k = refl
text_ltb_total (c ∷ s) (d ∷ t) h k = ground (arith, text_ltb_total s t)

pub text_ltb_asym : (s t : Text) → text_ltb s t ≡ true → text_ltb t s ≡ false
text_ltb_asym s t h = elim (Bool-cases (text_ltb t s)) [
  | inl back ↦ absurd (clash (text_ltb_trans s t s h back) (text_ltb_irrefl s))
  | inr none ↦ none
]
  where
    clash : {b : Bool} → b ≡ true → b ≡ false → ⊥
    clash p q = cc

pub text_ltb_negtrans :
    (s t u : Text) → text_ltb s t ≡ false → text_ltb t u ≡ false → text_ltb s u ≡ false
unfolding text_ltb
text_ltb_negtrans [] [] u h k = k
text_ltb_negtrans [] (d ∷ t) u h k = cc
text_ltb_negtrans (c ∷ s) [] [] h k = refl
text_ltb_negtrans (c ∷ s) [] (e ∷ u) h k = cc
text_ltb_negtrans (c ∷ s) (d ∷ t) [] h k = refl
text_ltb_negtrans (c ∷ s) (d ∷ t) (e ∷ u) h k = ground (arith, text_ltb_negtrans s t u)
