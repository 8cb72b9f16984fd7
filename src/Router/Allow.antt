-- ===== src/Router/Allow.antt =====
-- router.go: allowedMethods, the value of `Allow`.
pub mod Order
use zerohttp.Prelude.{Bool, true, false, not, ◌&&◌, List, [], ◌∷◌, ◌++◌, if◌then◌else◌}
use zerohttp.Text.{Text, codes, text_lt, join}
use zerohttp.Router.{Methods, has_method}

abbrev pub keys : Methods → List Text
keys [] = []
keys ((method, _) ∷ methods) = method ∷ keys methods

-- `slices.Sort`.
unfoldable pub insert_sorted : Text → List Text → List Text
insert_sorted x [] = x ∷ []
insert_sorted x (y ∷ ys) =
    let rest = insert_sorted x ys in if text_lt y x then y ∷ rest else x ∷ y ∷ ys

unfoldable pub sort : List Text → List Text
sort [] = []
sort (x ∷ xs) = insert_sorted x (sort xs)

-- The methods that are allowed without a route: HEAD with GET, and OPTIONS.
unfoldable pub implicit_methods : Methods → List Text
implicit_methods methods =
    (if has_method (codes "GET") methods && not (has_method (codes "HEAD") methods)
      then codes "HEAD" ∷ []
      else [])
    ++ (if has_method (codes "OPTIONS") methods then [] else codes "OPTIONS" ∷ [])

unfoldable pub allowed_methods : Methods → Text
allowed_methods methods = join (sort (keys methods ++ implicit_methods methods)) (codes ", ")
