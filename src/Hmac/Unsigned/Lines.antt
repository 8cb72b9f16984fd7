-- ===== src/Hmac/Unsigned/Lines.antt =====
-- The signed lines of middleware/hmacauth/hmac_auth.go and its required headers, where a field changes.
use zerohttp.Prelude.{ℕ, ◌≡◌, ◌≢◌, refl, ◌∙◌, false, List, [], ◌∷◌, All, map, arith}
use zerohttp.Text.{Text, text_eq, to_lower, trim_space}
use zerohttp.Text.Laws.{text_eq_iff}
use zerohttp.Http.{get, set, get-set}
use zerohttp.Hmac.{Request, is_missing, first_missing, signed_value, signed_line}

module _ (canonical : Text → Text) where
  abbrev pub with_header : Text → Text → Request → Request
  with_header name value r = record r { headers = set name value r.headers }

  is_missing-set :
      (r : Request) (name value header : Text)
      → get name r.headers ≢ []
      → value ≢ []
      → is_missing canonical (with_header name value r) header ≡ is_missing canonical r header
  unfolding is_missing
  is_missing-set r name value header there given = ground (
    arith,
    get-set name (canonical header) value r.headers,
    text_eq_iff name (canonical header),
    text_eq_iff value [],
    text_eq_iff (get (canonical header) r.headers) [],
  )

  pub first_missing-set :
      (r : Request) (name value : Text) (required : List Text)
      → get name r.headers ≢ []
      → value ≢ []
      → first_missing canonical (with_header name value r) required
        ≡ first_missing canonical r required
  unfolding first_missing
  first_missing-set r name value [] there given = refl
  first_missing-set r name value (header ∷ hs) there given =
      rw
        (
          is_missing-set r name value header there given,
          first_missing-set r name value hs there given,
        )
        refl

  -- The field is not among the signed ones.
  abbrev pub IsUnsigned : Text → List Text → Type 0
  IsUnsigned name signed =
      All (λ h. text_eq name (canonical (to_lower (trim_space h))) ≡ false) signed

  -- Nor is the timestamp.
  abbrev pub IsUntimed : Text → List Text → Type 0
  IsUntimed timestamp_header signed =
      All (λ h. text_eq (to_lower (trim_space h)) (to_lower timestamp_header) ≡ false) signed

  module _ (format_time : ℕ → Text) where
    pub lines-set :
        (r : Request) (name value timestamp_header : Text) (t : ℕ) (signed : List Text)
        → IsUnsigned name signed
        → map
            (signed_line canonical format_time (with_header name value r) timestamp_header t)
            signed
          ≡ map (signed_line canonical format_time r timestamp_header t) signed
    unfolding signed_line signed_value
    lines-set r name value timestamp_header t [] u = refl
    lines-set r name value timestamp_header t (h ∷ hs) (n, u) =
        let same : get (canonical (to_lower (trim_space h))) (set name value r.headers)
            ≡ get (canonical (to_lower (trim_space h))) r.headers =
          get-set name (canonical (to_lower (trim_space h))) value r.headers ∙ rw n refl in
        rw (same, lines-set r name value timestamp_header t hs u) refl

    pub lines-untimed :
        (r : Request) (timestamp_header : Text) (t u : ℕ) (signed : List Text)
        → IsUntimed timestamp_header signed
        → map (signed_line canonical format_time r timestamp_header t) signed
          ≡ map (signed_line canonical format_time r timestamp_header u) signed
    unfolding signed_line signed_value
    lines-untimed r timestamp_header t u [] n = refl
    lines-untimed r timestamp_header t u (h ∷ hs) (n, ns) =
        rw (n, lines-untimed r timestamp_header t u hs ns) refl
