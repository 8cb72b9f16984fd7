-- ===== src/Paths.antt =====
-- internal/mwutil/util.go: the path patterns that say which requests a middleware handles.
pub mod Laws
pub mod Tests
use zerohttp.Prelude.{
  Bool, true, false, not, ◌&&◌, List, [], ◌∷◌, Option, none, some, if◌then◌else◌, any,
}
use zerohttp.Text.{Text, codes, text_eq, has_prefix, cut_suffix}

unfoldable pub path_matches : Text → Text → Bool
path_matches request_path excluded_path =
    if text_eq excluded_path request_path
    then true
    else elim (cut_suffix excluded_path (codes "*")) [
      | some base ↦ has_prefix request_path base
      | none ↦ elim (cut_suffix excluded_path (codes "/")) [
        | some base ↦
            if text_eq request_path base then true else has_prefix request_path excluded_path
        | none ↦ false
      ]
    ]

unfoldable pub should_process_middleware : Text → List Text → List Text → Bool
should_process_middleware path [] excluded = not (any (path_matches path) excluded)
should_process_middleware path (i ∷ included) excluded = any (path_matches path) (i ∷ included)

-- `ValidatePathConfig`: whether the constructor goes on, or panics.
unfoldable pub validate_path_config : List Text → List Text → Bool
validate_path_config [] included = true
validate_path_config (e ∷ excluded) [] = true
validate_path_config (e ∷ excluded) (i ∷ included) = false
