-- ===== src/Cors.antt =====
-- middleware/cors/cors.go: the handler of `New`, with the sets that it builds from its
-- configuration. `allow_origin_func` is `none` where the source has nil. The maximal age is given as
-- the text that the header carries. A preflight is any request with the method OPTIONS.
pub mod Laws
pub mod Preflight
pub mod Tests
use zerohttp.Prelude.{
  ℕ, Bool, true, false, not, ◌&&◌, ◌||◌, List, [], ◌∷◌, Option, none, some, map, if◌then◌else◌,
}
use zerohttp.Text.{Text, codes, text_eq, to_lower, to_upper, trim_space, split, join}
use zerohttp.Http.{Headers, get, set, Request, Outcome, pass, write, problem, contains}
use zerohttp.Paths.{should_process_middleware}

pub record Config : Type 0 where
  pub allowed_origins : List Text
  pub allowed_methods : List Text
  pub allowed_headers : List Text
  pub exposed_headers : List Text
  pub allow_credentials : Bool
  pub max_age : Text
  pub options_passthrough : Bool
  pub allow_origin_func : Option (Text → Bool)
  pub excluded_paths : List Text
  pub included_paths : List Text

-- The counters that the handler increments.
pub data Metric : Type 0 where
  preflight : Metric
  requests : (result : Text) → Metric

abbrev pub header_origin : Text
header_origin = codes "Origin"

abbrev pub header_vary : Text
header_vary = codes "Vary"

abbrev pub header_allow : Text
header_allow = codes "Allow"

abbrev pub header_allow_origin : Text
header_allow_origin = codes "Access-Control-Allow-Origin"

abbrev pub header_allow_credentials : Text
header_allow_credentials = codes "Access-Control-Allow-Credentials"

abbrev pub header_expose_headers : Text
header_expose_headers = codes "Access-Control-Expose-Headers"

abbrev pub header_allow_methods : Text
header_allow_methods = codes "Access-Control-Allow-Methods"

abbrev pub header_allow_headers : Text
header_allow_headers = codes "Access-Control-Allow-Headers"

abbrev pub header_max_age : Text
header_max_age = codes "Access-Control-Max-Age"

abbrev pub header_request_method : Text
header_request_method = codes "Access-Control-Request-Method"

abbrev pub header_request_headers : Text
header_request_headers = codes "Access-Control-Request-Headers"

abbrev pub method_options : Text
method_options = codes "OPTIONS"

-- The loop over the allowed origins: whether it met `*`, and the origins before that.
unfoldable pub scan_origins : List Text → Bool × List Text
scan_origins [] = (false, [])
scan_origins (o ∷ os) =
    let (all, known) = scan_origins os in
    if text_eq o (codes "*") then (true, []) else (all, to_lower o ∷ known)

module _ (c : Config) where
  unfoldable pub origin_allowed : Text → Bool
  origin_allowed origin = elim c.allow_origin_func [
    | some allow ↦ allow origin
    | none ↦
        (scan_origins c.allowed_origins).0
        || contains (to_lower origin) (scan_origins c.allowed_origins).1
  ]

  -- The value of `allowedOrigin`: empty where the origin is not allowed.
  unfoldable pub allowed_origin : Text → Text
  allowed_origin origin =
      if origin_allowed origin
      then if (scan_origins c.allowed_origins).0 && not c.allow_credentials
        then codes "*"
        else origin
      else []

  unfoldable pub vary_headers : Headers → Headers
  vary_headers hs = elim c.allow_origin_func [
    | some allow ↦ set header_vary header_origin hs
    | none ↦ hs
  ]

  unfoldable pub expose : List Text → Headers → Headers
  expose [] hs = hs
  expose (e ∷ es) hs = set header_expose_headers (join (e ∷ es) (codes ", ")) hs

  -- The header fields that tell the client that its origin is allowed.
  unfoldable pub origin_headers : Text → Headers → Headers
  unfolding vary_headers expose
  origin_headers allowed hs =
      if text_eq allowed []
      then vary_headers hs
      else expose c.exposed_headers (
          if c.allow_credentials
          then set header_allow_credentials (codes "true")
              (set header_allow_origin allowed (vary_headers hs))
          else set header_allow_origin allowed (vary_headers hs))

  -- The check of the requested headers: every one that the list names is allowed.
  unfoldable pub headers_allowed : List Text → Bool
  headers_allowed [] = true
  headers_allowed (h ∷ hs) =
      contains (to_lower (trim_space h)) (map to_lower c.allowed_headers) && headers_allowed hs

  unfoldable pub method_refused : Text → Bool
  method_refused method =
      not (text_eq method []) && not (contains (to_upper method) (map to_upper c.allowed_methods))

  unfoldable pub headers_refused : Text → Bool
  headers_refused requested =
      not (text_eq requested []) && not (headers_allowed (split requested b','))

  -- The end of a preflight: to the wrapped handler, or 204.
  unfoldable pub options_end : Request → Headers → Outcome
  options_end r hs = if c.options_passthrough then pass r hs else write 204 hs

  unfoldable pub answer_preflight : Request → Text → Headers → List Metric × Outcome
  unfolding options_end
  answer_preflight r allowed hs =
      if text_eq allowed []
      then (preflight ∷ requests (codes "rejected") ∷ [], options_end r hs)
      else if method_refused (get header_request_method r.headers)
      then (
        preflight ∷ [],
        problem 405 (codes "Method not allowed")
            (set header_allow (join c.allowed_methods (codes ", ")) hs),
      )
      else if headers_refused (get header_request_headers r.headers)
      then (preflight ∷ [], problem 403 (codes "Request header not allowed") hs)
      else (
        preflight ∷ [],
        options_end r (
            set header_max_age c.max_age (
              set header_allow_headers (join c.allowed_headers (codes ", "))
                (set header_allow_methods (join c.allowed_methods (codes ", ")) hs))),
      )

  abbrev is_options : Request → Bool
  is_options r = text_eq r.method method_options

  unfoldable pub handle_origin : Request → Text → Headers → List Metric × Outcome
  handle_origin r origin w =
      let allowed = allowed_origin origin in
      let hs = origin_headers allowed w in
      if is_options r then answer_preflight r allowed hs else (
        requests (if text_eq allowed [] then codes "rejected" else codes "allowed") ∷ [],
        pass r hs,
      )

  -- The handler, on a request and the response's header fields so far.
  unfoldable pub handle : Request → Headers → List Metric × Outcome
  unfolding options_end
  handle r w =
      if should_process_middleware r.path c.included_paths c.excluded_paths
      then if text_eq (get header_origin r.headers) []
        then ([], if is_options r then options_end r w else pass r w)
        else handle_origin r (get header_origin r.headers) w
      else ([], pass r w)
