-- ===== src/Http/Contains.antt =====
-- Membership in a list of texts, as the middlewares test it in their sets.
use zerohttp.Prelude.{◌≡◌, ◌⊎◌, ◌↔◌, inl, inr, true, List, [], ◌∷◌, arith, Bool-cases}
use zerohttp.Text.{Text, text_eq}
use zerohttp.Text.Laws.{text_eq_iff}
use zerohttp.Http.{contains}

-- Membership as a proposition by recursion.
abbrev pub IsIn : Text → List Text → Type 0
IsIn x [] = ⊥
IsIn x (y ∷ ys) = (x ≡ y) ⊎ IsIn x ys

pub contains_sound : (x : Text) (ys : List Text) → contains x ys ≡ true → IsIn x ys
unfolding contains
contains_sound x [] h = cc
contains_sound x (y ∷ ys) h = elim (Bool-cases (text_eq x y)) [
  | inl same ↦ inl ((text_eq_iff x y).0 same)
  | inr other ↦ inr (contains_sound x ys (rw other at h))
]

pub contains_complete : (x : Text) (ys : List Text) → IsIn x ys → contains x ys ≡ true
unfolding contains
contains_complete x [] i = absurd i
contains_complete x (y ∷ ys) (inl e) = ground (arith, text_eq_iff x y)
contains_complete x (y ∷ ys) (inr i) = ground (arith, contains_complete x ys i)

pub contains_iff : (x : Text) (ys : List Text) → (contains x ys ≡ true) ↔ IsIn x ys
contains_iff x ys = (contains_sound x ys, contains_complete x ys)
