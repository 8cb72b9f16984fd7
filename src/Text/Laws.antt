-- ===== src/Text/Laws.antt =====
-- Equality, order, prefixes and suffixes of texts.
use mathlib.Core.Path.{subst}
use zerohttp.Prelude.{
  sym, ◌∙◌, Bool-cases, inl, inr, ℕ, zero, suc, ◌+◌, ◌-◌, ◌≡◌, refl, ap, ◌↔◌, true, false, [], ◌∷◌,
  ◌++◌, some, arith, length, drop,
}
use zerohttp.Text.{Text, text_eq, text_lt, has_prefix, has_suffix, cut_suffix, trim_suffix, take}

text_eq_sound : (s t : Text) → text_eq s t ≡ true → s ≡ t
unfolding text_eq
text_eq_sound [] [] h = refl
text_eq_sound (a ∷ s) (b ∷ t) h = ground (arith, text_eq_sound s t)
text_eq_sound _ _ h = cc

pub text_eq_refl : (s : Text) → text_eq s s ≡ true
unfolding text_eq
text_eq_refl [] = refl
text_eq_refl (a ∷ s) = ground (arith, text_eq_refl s)

pub text_eq_iff : (s t : Text) → (text_eq s t ≡ true) ↔ (s ≡ t)
text_eq_iff s t = (text_eq_sound s t, λ e. rw e (text_eq_refl t))

pub text_lt_irrefl : (s : Text) → text_lt s s ≡ false
unfolding text_lt
text_lt_irrefl [] = refl
text_lt_irrefl (a ∷ s) = ground (arith, text_lt_irrefl s)

pub text_lt_trans : (s t u : Text) → text_lt s t ≡ true → text_lt t u ≡ true → text_lt s u ≡ true
unfolding text_lt
text_lt_trans [] (b ∷ t) (c ∷ u) h k = refl
text_lt_trans (a ∷ s) (b ∷ t) (c ∷ u) h k = ground (arith, text_lt_trans s t u)
text_lt_trans s t u h k = ground arith

pub text_lt_total : (s t : Text) → text_lt s t ≡ false → text_lt t s ≡ false → s ≡ t
unfolding text_lt
text_lt_total [] [] h k = refl
text_lt_total (a ∷ s) (b ∷ t) h k = ground (arith, text_lt_total s t)
text_lt_total _ _ h k = cc

-- A prefix is there exactly when the text is the prefix and a rest.
pub has_prefix_append : (s t : Text) → has_prefix (s ++ t) s ≡ true
unfolding has_prefix
has_prefix_append [] t = refl
has_prefix_append (a ∷ s) t = ground (arith, has_prefix_append s t)

pub prefix_rest : (s p : Text) → has_prefix s p ≡ true → (r : Text) × (s ≡ p ++ r)
unfolding has_prefix
prefix_rest s [] h = (s, refl)
prefix_rest [] (p ∷ ps) h = cc
prefix_rest (a ∷ s) (p ∷ ps) h = let (r, e) = prefix_rest s ps (ground arith) in (r, ground arith)

pub length-append_text : (s t : Text) → length (s ++ t) ≡ length s + length t
length-append_text [] t = omega arith
length-append_text (a ∷ s) t = omega (arith, length-append_text s t)

pub drop-append : (s t : Text) → drop (length s) (s ++ t) ≡ t
drop-append [] t = refl
drop-append (a ∷ s) t = drop-append s t

pub take-append : (s t : Text) → take (length s) (s ++ t) ≡ s
take-append [] t = refl
take-append (a ∷ s) t = ap (◌∷◌ a) (take-append s t)

pub take-append-drop : (n : ℕ) (s : Text) → take n s ++ drop n s ≡ s
take-append-drop zero s = refl
take-append-drop (suc n) [] = refl
take-append-drop (suc n) (a ∷ s) = ap (◌∷◌ a) (take-append-drop n s)

add_sub : (a b : ℕ) → a + b - b ≡ a
add_sub a b = omega arith

length_suffix : (s t : Text) → length (s ++ t) - length t ≡ length s
length_suffix s t = rw length-append_text (add_sub (length s) (length t))

pub has_suffix_append : (s t : Text) → has_suffix (s ++ t) t ≡ true
unfolding has_suffix
has_suffix_append s t =
    rw (length_suffix s t, drop-append s t, text_eq_refl t) (ground (arith, length-append_text s t))

pub cut_suffix_append : (s t : Text) → cut_suffix (s ++ t) t ≡ some s
unfolding cut_suffix
cut_suffix_append s t = rw (has_suffix_append s t, length_suffix s t, take-append s t)

pub trim_suffix_append : (s t : Text) → trim_suffix (s ++ t) t ≡ s
unfolding trim_suffix
trim_suffix_append s t = rw (has_suffix_append s t, length_suffix s t, take-append s t)

-- A text with the suffix is a front and the suffix.
pub suffix_front : (s t : Text) → has_suffix s t ≡ true → s ≡ take (length s - length t) s ++ t
unfolding has_suffix
suffix_front s t h =
    let e : drop (length s - length t) s ≡ t = text_eq_sound _ _ (ground arith) in
    subst (λ x. s ≡ take (length s - length t) s ++ x) e
      (sym (take-append-drop (length s - length t) s))

pub text_lt_asym : (s t : Text) → text_lt s t ≡ true → text_lt t s ≡ false
text_lt_asym s t h = elim (Bool-cases (text_lt t s)) [
  | inl back ↦
      absurd (let e : true ≡ false = sym (text_lt_trans s t s h back) ∙ text_lt_irrefl s in cc)
  | inr fine ↦ fine
]

pub text_lt_neg_trans :
    (s t u : Text) → text_lt s t ≡ false → text_lt t u ≡ false → text_lt s u ≡ false
unfolding text_lt
text_lt_neg_trans [] [] [] h k = refl
text_lt_neg_trans (a ∷ s) (b ∷ t) (c ∷ u) h k = ground (arith, text_lt_neg_trans s t u)
text_lt_neg_trans s t u h k = ground arith
