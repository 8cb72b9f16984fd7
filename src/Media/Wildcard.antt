-- ===== src/Media/Wildcard.antt =====
-- The stars of middleware/mediatype/media_type.go, matchWildcard.
use zerohttp.Prelude.{
  ◌≡◌, refl, sym, ap, ◌∙◌, ◌≢◌, Bool-cases, Option-cases, inl, inr, true, false, List, [], ◌∷◌,
  ◌++◌, ℕ, some, length, drop, arith,
}
use zerohttp.Text.{Text, codes, text_eq, has_prefix, split, split_from}
use zerohttp.Text.Laws.{text_eq_iff, has_prefix_append, drop-append}
use zerohttp.Media.{has_star, after_first, match_rest, match_parts, match_wildcard}

-- The text is the parts in this order, with any text before each.
abbrev pub Follows : Text → List Text → Type 0
Follows s [] = s ≡ []
Follows s (p ∷ ps) =
    (skipped : Text) × (rest : Text) × (s ≡ skipped ++ (p ++ rest)) × Follows rest ps

-- The text is what the pattern with these parts describes: every star stands for some text.
abbrev pub Describes : List Text → Text → Type 0
Describes [] s = ⊥
Describes (p ∷ ps) s = (rest : Text) × (s ≡ p ++ rest) × Follows rest ps

prefix_drop : (part s : Text) → has_prefix s part ≡ true → s ≡ part ++ drop (length part) s
unfolding has_prefix
prefix_drop [] s h = refl
prefix_drop (p ∷ part) [] h = cc
prefix_drop (p ∷ part) (c ∷ s) h =
    let e = prefix_drop part s (ground arith) in let d : c ≡ p = ground arith in rw d (ap (◌∷◌ p) e)

after_first_sound :
    (part s rest : Text)
    → after_first part s ≡ some rest
    → (skipped : Text) × (s ≡ skipped ++ (part ++ rest))
unfolding after_first has_prefix
after_first_sound [] [] rest h = ([], ground arith)
after_first_sound (p ∷ part) [] rest h = absurd (ground arith)
after_first_sound part (c ∷ s) rest h = elim (Bool-cases (has_prefix (c ∷ s) part)) [
  | inl there ↦
      let e : drop (length part) (c ∷ s) ≡ rest = ground arith in
      ([], prefix_drop part (c ∷ s) there ∙ ap (λ x. part ++ x) e)
  | inr gone ↦
      let (skipped, e) = after_first_sound part s rest (ground arith) in (c ∷ skipped, ap (◌∷◌ c) e)
]

append_nil : (s : Text) → s ++ [] ≡ s
append_nil [] = refl
append_nil (a ∷ s) = ap (◌∷◌ a) (append_nil s)

match_rest_sound : (s : Text) (parts : List Text) → match_rest s parts ≡ true → Follows s parts
unfolding match_rest
match_rest_sound s [] h = (text_eq_iff s []).0 h
match_rest_sound s ([] ∷ []) h = (s, [], sym (append_nil s), refl)
match_rest_sound s ([] ∷ p ∷ more) h = ([], s, refl, match_rest_sound s (p ∷ more) h)
match_rest_sound s ((a ∷ part) ∷ more) h = elim (Option-cases (after_first (a ∷ part) s)) [
  | inl gone ↦ absurd (let bad = (rw (gone, match_rest) at h) in cc)
  | inr (rest, found) ↦
      let (skipped, e) = after_first_sound (a ∷ part) s rest found in
      (skipped, rest, e, match_rest_sound rest more (rw (found, match_rest) at h))
]

-- What matches a pattern with a star is a text that the pattern describes: it begins with the part
-- before the first star and has the other parts behind it in their order, the last one at its end.
pub match_wildcard_sound :
    (s pattern p q : Text) (parts : List Text)
    → split pattern b'*' ≡ p ∷ q ∷ parts
    → match_wildcard s pattern ≡ true
    → Describes (p ∷ q ∷ parts) s
unfolding match_wildcard match_parts
match_wildcard_sound s pattern p q parts e h =
    let k : match_parts s pattern (p ∷ q ∷ parts) ≡ true = (rw e at h) in
    (
      drop (length p) s,
      prefix_drop p s (ground arith),
      match_rest_sound (drop (length p) s) (q ∷ parts) (ground arith),
    )

snoc_append : (s : Text) (c : ℕ) (t : Text) → (s ++ c ∷ []) ++ t ≡ s ++ c ∷ t
snoc_append [] c t = refl
snoc_append (a ∷ s) c t = ap (◌∷◌ a) (snoc_append s c t)

-- A pattern with one star, in its parts.
split_plain : (cur s : Text) → has_star s ≡ false → split_from cur b'*' s ≡ (cur ++ s) ∷ []
unfolding split_from
split_plain cur [] h = rw (append_nil cur)
split_plain cur (c ∷ s) h =
    ground (arith, split_plain (cur ++ c ∷ []) s (ground arith), snoc_append cur c s)

split_star :
    (cur s q : Text)
    → has_star s ≡ false
    → split_from cur b'*' (s ++ b'*' ∷ q) ≡ (cur ++ s) ∷ split_from [] b'*' q
unfolding split_from
split_star cur [] q h = rw (append_nil cur)
split_star cur (c ∷ s) q h =
    ground (arith, split_star (cur ++ c ∷ []) s q (ground arith), snoc_append cur c s)

split_one :
    (p q : Text) → has_star p ≡ false → has_star q ≡ false → split (p ++ b'*' ∷ q) b'*' ≡ p ∷ q ∷ []
unfolding split
split_one p q hp hq = split_star [] p q hp ∙ ap (λ x. p ∷ x) (split_plain [] q hq)

after_first_append :
    (a : ℕ) (part rest : Text) → after_first (a ∷ part) ((a ∷ part) ++ rest) ≡ some rest
unfolding after_first
after_first_append a part rest =
    let there = has_prefix_append (a ∷ part) rest in
    let e = drop-append (a ∷ part) rest in ground arith

-- With one star at the end of the pattern, and none before, what matches is what begins with the
-- text before the star.
pub match_wildcard_prefix :
    (s p : Text) → has_star p ≡ false → match_wildcard s (p ++ codes "*") ≡ has_prefix s p
unfolding match_wildcard match_parts match_rest
match_wildcard_prefix s p h = rw (split_one p [] h refl) (ground arith)

-- With one star inside the pattern, a text that has the end of the pattern twice behind its beginning
-- is refused, although the star could stand for the first of the two.
pub match_wildcard_repeated :
    (p q : Text)
    → has_star p ≡ false
    → has_star q ≡ false
    → q ≢ []
    → match_wildcard (p ++ (q ++ q)) (p ++ b'*' ∷ q) ≡ false
unfolding match_wildcard match_parts match_rest text_eq
match_wildcard_repeated p [] hp hq n = absurd (n refl)
match_wildcard_repeated p (a ∷ q) hp hq n =
    let rest : match_rest ((a ∷ q) ++ (a ∷ q)) ((a ∷ q) ∷ []) ≡ false =
      rw (after_first_append a q (a ∷ q), match_rest) refl in
    rw (
      split_one p (a ∷ q) hp hq,
      has_prefix_append p ((a ∷ q) ++ (a ∷ q)),
      drop-append p ((a ∷ q) ++ (a ∷ q)),
      rest,
    )
