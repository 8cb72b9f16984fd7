-- ===== src/Router/Pattern.antt =====
-- router.go: matchPattern and findMatchingRoute, which say whether any method is registered for a
-- path.
pub mod Laws
use zerohttp.Prelude.{
  ℕ, ◌-◌, ◌+◌, Bool, true, false, ◌&&◌, List, [], ◌∷◌, Option, none, some, if◌then◌else◌, length,
  nat_beq, leb,
}
use zerohttp.Text.{Text, codes, text_eq, has_prefix, has_suffix, split}
use zerohttp.Map.{lookup, text_keys}
use zerohttp.Router.{Methods, Routes}

-- `strings.Trim(s, "/")`.
unfoldable pub trim_slashes_left : Text → Text
trim_slashes_left [] = []
trim_slashes_left (c ∷ s) = let rest = trim_slashes_left s in if nat_beq c b'/' then rest else c ∷ s

unfoldable pub trim_slashes_right : Text → Text
trim_slashes_right [] = []
trim_slashes_right (c ∷ s) = elim (trim_slashes_right s) [
  | [] ↦ if nat_beq c b'/' then [] else c ∷ []
  | d ∷ rest ↦ c ∷ d ∷ rest
]

unfoldable pub segments : Text → List Text
segments s = split (trim_slashes_right (trim_slashes_left s)) b'/'

abbrev pub dots : Text
dots = codes "..."

-- A segment such as `{name}`: it matches any segment.
unfoldable pub is_param : Text → Bool
is_param p = has_prefix p (codes "{") && has_suffix p (codes "}")

unfoldable pub is_rest_param : Text → Bool
is_rest_param p = has_prefix p (codes "{") && has_suffix p (codes "...}")

-- The loop over the segments of the pattern.
unfoldable pub match_segments : List Text → List Text → Bool
match_segments [] as_ = true
match_segments (p ∷ ps) [] = false
match_segments (p ∷ ps) (a ∷ as_) =
    let rest = match_segments ps as_ in
    if is_param p
    then rest
    else if is_rest_param p
    then true
    else if text_eq p dots
    then true
    else if text_eq p a
    then rest
    else false

unfoldable pub ends_in_dots : List Text → Bool
ends_in_dots [] = false
ends_in_dots (p ∷ []) = text_eq p dots
ends_in_dots (p ∷ q ∷ ps) = ends_in_dots (q ∷ ps)

unfoldable pub take_segments : ℕ → List Text → List Text
take_segments ℕ.zero as_ = []
take_segments (ℕ.suc n) [] = []
take_segments (ℕ.suc n) (a ∷ as_) = a ∷ take_segments n as_

unfoldable pub match_parts : List Text → List Text → Bool
match_parts ps as_ =
    let n = length ps - 1 in
    if nat_beq (length ps) (length as_)
    then match_segments ps as_
    else if ends_in_dots ps
    then if leb n (length as_)
      then match_segments (take_segments n ps) (take_segments n as_)
      else false
    else false

unfoldable pub match_pattern : Text → Text → Bool
match_pattern pattern path = match_parts (segments pattern) (segments path)

-- The loop over the registered patterns, in the order in which the map gives them.
unfoldable pub first_match : Text → Routes → Option Methods
first_match path [] = none
first_match path ((pattern, methods) ∷ routes) =
    let rest = first_match path routes in if match_pattern pattern path then some methods else rest

unfoldable pub find_matching_route : Text → Routes → Option Methods
find_matching_route path routes = elim (lookup path routes) [
  | some methods ↦ some methods
  | none ↦ first_match path routes
]
