-- ===== src/Content.antt =====
-- middleware/contenttype, middleware/contentencoding and middleware/contentcharset: the checks of
-- what a request says about its body. This file has what the handlers share.
pub mod Kind
pub mod Encoding
pub mod Charset
pub mod Tests
use zerohttp.Prelude.{zero, Bool, true, false, List, map}
use zerohttp.Prelude.Int.{ℤ, pos}
use zerohttp.Text.{Text, to_lower, trim_space}

-- `r.ContentLength == 0`.
unfoldable pub is_empty_body : ℤ → Bool
is_empty_body (pos zero) = true
is_empty_body _ = false

-- The keys of the map that a middleware makes of its allowed names.
abbrev pub allowed_names : List Text → List Text
allowed_names names = map (λ n. trim_space (to_lower n)) names
