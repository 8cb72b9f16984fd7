-- ===== src/Paths/Tests.antt =====
-- Path patterns at concrete inputs.
use zerohttp.Prelude.{◌≡◌, refl, ◌↔◌, true, false, [], ◌∷◌}
use zerohttp.Text.{codes, text_eq, cut_suffix, has_prefix}
use zerohttp.Paths.{path_matches, validate_path_config}
use zerohttp.Paths.Laws.{Matches, path_matches_iff}

-- The doc comment of `PathMatches` lists the last path as one that the pattern matches.
live :
    (path_matches (codes "/api/livez") (codes "/api/live*") ≡ true)
    × (path_matches (codes "/api/public") (codes "/api/public/") ≡ true)
    × (path_matches (codes "/api/health/live") (codes "/api/live*") ≡ false)
unfolding path_matches text_eq cut_suffix has_prefix
live = (refl, refl, refl)

both_lists_panic : validate_path_config (codes "/a" ∷ []) (codes "/b" ∷ []) ≡ false
unfolding validate_path_config
both_lists_panic = refl

path_matches_iff_example :
    (path_matches (codes "/api/livez") (codes "/api/live*") ≡ true)
    ↔ Matches (codes "/api/livez") (codes "/api/live*")
path_matches_iff_example = path_matches_iff (codes "/api/livez") (codes "/api/live*")
