-- ===== src/Router/Pattern/Laws.antt =====
-- What the patterns of router.go, matchPattern, match.
use mathlib.Core.List.{append_assoc}
use zerohttp.Prelude.{
  ◌-◌, ◌++◌, ap, sym, ◌∙◌, Exists, ◌≡◌, refl, ◌⊎◌, ◌↔◌, inl, inr, true, false, List, [], ◌∷◌, none,
  some, arith, Bool-cases, Option-cases, All, length, nat_beq_iff, ◌≢◌,
}
use zerohttp.Text.{Text, codes, text_eq, take, has_suffix}
use zerohttp.Text.Laws.{text_eq_iff, suffix_front, has_suffix_append}
use zerohttp.Map.{lookup, text_keys}
use zerohttp.Router.{Methods, Routes}
use zerohttp.Router.Pattern.{
  segments, dots, is_param, is_rest_param, match_segments, ends_in_dots, match_parts, match_pattern,
  first_match, find_matching_route,
}

-- Segment by segment: a parameter, or the same text.
abbrev pub Fits : List Text → List Text → Type 0
Fits [] [] = Unit
Fits (p ∷ ps) (a ∷ as_) = ((is_param p ≡ true) ⊎ (p ≡ a)) × Fits ps as_
Fits _ _ = ⊥

-- No segment is `...`.
abbrev pub IsPlain : List Text → Type 0
IsPlain ps = All (λ p. text_eq p dots ≡ false) ps

-- `{name...}` is a parameter as well, so the case for it is never reached.
rest_param : (p : Text) → is_rest_param p ≡ true → is_param p ≡ true
unfolding is_param is_rest_param
rest_param p h =
    let front = take (length p - length (codes "...}")) p in
    let e : p ≡ front ++ codes "...}" = suffix_front p (codes "...}") (ground arith) in
    let regroup : p ≡ (front ++ codes "...") ++ codes "}" =
      e ∙ sym (append_assoc front (codes "...") (codes "}")) in
    let ends : has_suffix p (codes "}") ≡ true =
      ap (λ x. has_suffix x (codes "}")) regroup
      ∙ has_suffix_append (front ++ codes "...") (codes "}") in
    ground arith

match_segments_sound :
    (ps as_ : List Text)
    → IsPlain ps
    → length ps ≡ length as_
    → match_segments ps as_ ≡ true
    → Fits ps as_
unfolding match_segments
match_segments_sound [] [] d e h = tt
match_segments_sound [] (a ∷ as_) d e h = absurd (omega arith)
match_segments_sound (p ∷ ps) [] d e h = absurd (omega arith)
match_segments_sound (p ∷ ps) (a ∷ as_) (d, ds) e h = elim (Bool-cases (is_param p)) [
  | inl param ↦ (inl param, match_segments_sound ps as_ ds (omega arith) (ground arith))
  | inr literal ↦
      let no_rest : is_rest_param p ≡ false = ground (arith, rest_param p) in
      (
        inr (ground (arith, text_eq_iff p a)),
        match_segments_sound ps as_ ds (omega arith) (ground arith),
      )
]

match_segments_complete : (ps as_ : List Text) → Fits ps as_ → match_segments ps as_ ≡ true
unfolding match_segments
match_segments_complete [] [] f = refl
match_segments_complete [] (a ∷ as_) f = absurd f
match_segments_complete (p ∷ ps) [] f = absurd f
match_segments_complete (p ∷ ps) (a ∷ as_) (inl param, f) =
    ground (arith, match_segments_complete ps as_ f)
match_segments_complete (p ∷ ps) (a ∷ as_) (inr same, f) =
    ground (arith, match_segments_complete ps as_ f, text_eq_iff p a)

Fits-length : (ps as_ : List Text) → Fits ps as_ → length ps ≡ length as_
Fits-length [] [] f = refl
Fits-length [] (a ∷ as_) f = absurd f
Fits-length (p ∷ ps) [] f = absurd f
Fits-length (p ∷ ps) (a ∷ as_) (_, f) = omega (arith, Fits-length ps as_ f)

plain_end : (ps : List Text) → IsPlain ps → ends_in_dots ps ≡ false
unfolding ends_in_dots
plain_end [] d = refl
plain_end (p ∷ []) (d, ds) = d
plain_end (p ∷ q ∷ ps) (d, ds) = plain_end (q ∷ ps) ds

-- A pattern without a segment `...` matches a path exactly when both have as many segments, between
-- the slashes at their ends, and each segment of the pattern is a parameter or the path's own. A
-- parameter `{name...}` takes one segment like any other.
pub match_pattern_iff :
    (pattern path : Text)
    → IsPlain (segments pattern)
    → (match_pattern pattern path ≡ true) ↔ Fits (segments pattern) (segments path)
unfolding match_pattern match_parts
match_pattern_iff pattern path d =
    let ps = segments pattern in
    let as_ = segments path in
    let no_dots = plain_end ps d in
    (
      (λ h.
          let e : length ps ≡ length as_ = ground (arith, nat_beq_iff (length ps) (length as_)) in
          match_segments_sound ps as_ d e (ground arith)),
      (λ f.
          let e = Fits-length ps as_ f in let m = match_segments_complete ps as_ f in ground arith),
    )

-- The pattern of a route takes the path.
abbrev pub Takes : Text → Text × Methods → Type 0
Takes path (pattern, methods) = (pattern ≡ path) ⊎ (match_pattern pattern path ≡ true)

lookup_taken :
    (path : Text) (methods : Methods) (routes : Routes)
    → lookup path routes ≡ some methods
    → Exists (Takes path) routes
unfolding lookup
lookup_taken path methods [] h = cc
lookup_taken path methods ((p, m) ∷ routes) h = elim (Bool-cases (text_eq p path)) [
  | inl same ↦ inl (inl ((text_eq_iff p path).0 same))
  | inr other ↦ inr (lookup_taken path methods routes (ground arith))
]

first_match_taken :
    (path : Text) (methods : Methods) (routes : Routes)
    → first_match path routes ≡ some methods
    → Exists (Takes path) routes
unfolding first_match
first_match_taken path methods [] h = cc
first_match_taken path methods ((p, m) ∷ routes) h = elim (Bool-cases (match_pattern p path)) [
  | inl hit ↦ inl (inr hit)
  | inr other ↦ inr (first_match_taken path methods routes (ground arith))
]

taken_found :
    (path : Text) (routes : Routes)
    → Exists (Takes path) routes
    → lookup path routes ≡ none
    → first_match path routes ≢ none
unfolding first_match lookup
taken_found path [] t absent e = t
taken_found path ((p, m) ∷ routes) (inl (inl same)) absent e =
    let k = (text_eq_iff p path).1 same in ground arith
taken_found path ((p, m) ∷ routes) (inl (inr hit)) absent e = ground arith
taken_found path ((p, m) ∷ routes) (inr later) absent e =
    let rest : lookup path routes ≡ none = ground arith in
    let more = taken_found path routes later rest in ground arith

-- findMatchingRoute finds a route for a path exactly when some registered pattern is the path or
-- matches it, in whatever order the map gives the patterns.
pub find_matching_route_iff :
    (path : Text) (routes : Routes)
    → (find_matching_route path routes ≢ none) ↔ Exists (Takes path) routes
unfolding find_matching_route
find_matching_route_iff path routes = (
  (λ n. elim (Option-cases (lookup path routes)) [
    | inr (methods, found) ↦ lookup_taken path methods routes found
    | inl absent ↦ elim (Option-cases (first_match path routes)) [
      | inr (methods, found) ↦ first_match_taken path methods routes found
      | inl nothing ↦ absurd (n (ground arith))
    ]
  ]),
  (λ t e. elim (Option-cases (lookup path routes)) [
    | inr (methods, found) ↦ ground arith
    | inl absent ↦ taken_found path routes t absent (ground arith)
  ]),
)
