-- ===== src/Cors/Laws.antt =====
-- Which origins middleware/cors/cors.go lets in, and what it tells the client.
use zerohttp.Prelude.{
  ◌≡◌, refl, ◌∙◌, ◌⊎◌, ◌↔◌, inl, inr, true, false, ◌||◌, List, [], ◌∷◌, none, map, if◌then◌else◌,
  arith, Bool-cases,
}
use zerohttp.Text.{Text, codes, text_eq, to_lower}
use zerohttp.Text.Laws.{text_eq_iff}
use zerohttp.Http.{
  Headers, get, get-set, Request, Outcome, pass, write, problem, redirect, contains,
}
use zerohttp.Http.Contains.{IsIn, contains_sound, contains_complete}
use zerohttp.Paths.{should_process_middleware}
use zerohttp.Cors.{
  Config, scan_origins, origin_allowed, allowed_origin, vary_headers, expose, origin_headers,
  method_refused, headers_refused, options_end, answer_preflight, handle_origin, handle,
  header_origin, header_vary, header_allow, header_allow_origin, header_allow_credentials,
  header_expose_headers, header_allow_methods, header_allow_headers, header_max_age, is_options,
  header_request_method, header_request_headers,
}

-- The header fields of the response at the moment at which the handler is done.
abbrev pub headers_of : Outcome → Headers
headers_of (pass r hs) = hs
headers_of (write status hs) = hs
headers_of (problem status title hs) = hs
headers_of (redirect code path hs) = hs

-- The origin is on the list, without regard to case, or the list has `*`.
scan_origins_lem :
    (origin : Text) (os : List Text)
    → ((scan_origins os).0 || contains (to_lower origin) (scan_origins os).1)
      ≡ (contains (codes "*") os || contains (to_lower origin) (map to_lower os))
unfolding scan_origins contains
scan_origins_lem origin [] = refl
scan_origins_lem origin (o ∷ os) =
    ground (arith, scan_origins_lem origin os, text_eq_iff o (codes "*"), text_eq_iff (codes "*") o)

-- Without a custom validator an origin is allowed exactly when the allowed origins hold `*` or,
-- without regard to case, the origin.
pub origin_allowed_iff :
    (c : Config) (origin : Text)
    → c.allow_origin_func ≡ none
    → (origin_allowed c origin ≡ true) ↔ (
        IsIn (codes "*") c.allowed_origins
        ⊎ IsIn (to_lower origin) (map to_lower c.allowed_origins))
unfolding origin_allowed
origin_allowed_iff c origin e =
    let star = codes "*" in
    let lower = to_lower origin in
    let known = map to_lower c.allowed_origins in
    let all = scan_origins_lem origin c.allowed_origins in
    rw (e, origin_allowed, all)
      (
        λ h. elim (Bool-cases (contains star c.allowed_origins)) [
          | inl any_origin ↦ inl (contains_sound star c.allowed_origins any_origin)
          | inr listed ↦ inr (contains_sound lower known (rw listed at h))
        ],
        λ h. elim h [
          | inl i ↦ rw (contains_complete star c.allowed_origins i)
          | inr i ↦ ground (arith, contains_complete lower known i)
        ],
      )

module _ (c : Config) where
  pub get-expose :
      (name : Text) (es : List Text) (hs : Headers)
      → text_eq header_expose_headers name ≡ false
      → get name (expose c es hs) ≡ get name hs
  unfolding expose
  get-expose name [] hs e = refl
  get-expose name (x ∷ es) hs e = rw (get-set, e)

  pub get-vary_headers :
      (name : Text) (hs : Headers)
      → text_eq header_vary name ≡ false
      → get name (vary_headers c hs) ≡ get name hs
  unfolding vary_headers
  get-vary_headers name hs e = ground (arith, get-set header_vary name header_origin hs)

  -- `Access-Control-Allow-Origin` and `Access-Control-Allow-Credentials` as `origin_headers` sets them.
  get-origin_headers :
      (allowed : Text) (hs : Headers)
      → (get header_allow_origin (origin_headers c allowed hs)
          ≡ (if text_eq allowed [] then get header_allow_origin hs else allowed))
        × (get header_allow_credentials (origin_headers c allowed hs) ≡ (
            if text_eq allowed []
            then get header_allow_credentials hs
            else if c.allow_credentials
            then codes "true"
            else get header_allow_credentials hs))
  unfolding origin_headers text_eq
  get-origin_headers [] hs = (
    get-vary_headers header_allow_origin hs refl,
    get-vary_headers header_allow_credentials hs refl,
  )
  get-origin_headers (a ∷ as') hs = elim (Bool-cases c.allow_credentials) [
    | inl on ↦ rw on (
      get-expose header_allow_origin c.exposed_headers _ refl ∙ simp get-set,
      get-expose header_allow_credentials c.exposed_headers _ refl ∙ simp get-set,
    )
    | inr off ↦ rw off (
      get-expose header_allow_origin c.exposed_headers _ refl ∙ simp get-set,
      get-expose header_allow_credentials c.exposed_headers _ refl
          ∙ simp (get-set, get-vary_headers header_allow_credentials hs refl),
    )
  ]

  pub headers_of-options_end : (r : Request) (hs : Headers) → headers_of (options_end c r hs) ≡ hs
  unfolding options_end
  headers_of-options_end r hs = ground arith

  -- The fields that a preflight adds are others.
  get-answer_preflight :
      (name allowed : Text) (r : Request) (hs : Headers)
      → text_eq header_allow name ≡ false
      → text_eq header_allow_methods name ≡ false
      → text_eq header_allow_headers name ≡ false
      → text_eq header_max_age name ≡ false
      → get name (headers_of (answer_preflight c r allowed hs).1) ≡ get name hs
  unfolding answer_preflight
  get-answer_preflight name allowed r hs n₁ n₂ n₃ n₄ = elim (Bool-cases (text_eq allowed [])) [
    | inl none_allowed ↦ rw (none_allowed, answer_preflight, headers_of-options_end)
    | inr some_allowed ↦
        elim (Bool-cases (method_refused c (get header_request_method r.headers))) [
          | inl bad ↦ rw (some_allowed, answer_preflight, bad) (simp (get-set, n₁))
          | inr good ↦
              elim (Bool-cases (headers_refused c (get header_request_headers r.headers))) [
                | inl bad ↦ rw (some_allowed, answer_preflight, good, bad)
                | inr fine ↦
                    rw (some_allowed, answer_preflight, good, fine, headers_of-options_end)
                      (simp (get-set, n₂, n₃, n₄))
              ]
        ]
  ]

  -- The origin that the response names: what the request's origin gives where the handler looks at
  -- it, and none otherwise.
  abbrev pub origin_named : Request → Text
  origin_named r =
      if should_process_middleware r.path c.included_paths c.excluded_paths
      then if text_eq (get header_origin r.headers) []
        then []
        else allowed_origin c (get header_origin r.headers)
      else []

  abbrev pub response_of : Request → Headers → Headers
  response_of r w = headers_of (handle c r w).1

  get-handle_origin :
      (name : Text) (r : Request) (origin : Text) (w : Headers)
      → text_eq header_allow name ≡ false
      → text_eq header_allow_methods name ≡ false
      → text_eq header_allow_headers name ≡ false
      → text_eq header_max_age name ≡ false
      → get name (headers_of (handle_origin c r origin w).1)
        ≡ get name (origin_headers c (allowed_origin c origin) w)
  unfolding handle_origin
  get-handle_origin name r origin w n₁ n₂ n₃ n₄ = elim (Bool-cases (is_options c r)) [
    | inl options ↦ rw (options, handle_origin) (get-answer_preflight name _ r _ n₁ n₂ n₃ n₄)
    | inr other ↦ rw (other, handle_origin)
  ]

  -- `Access-Control-Allow-Origin` is set exactly where the handler looks at the request and the origin
  -- is allowed, and then to the value for that origin; `Access-Control-Allow-Credentials` is set to
  -- `true` exactly there and with credentials allowed. Otherwise both keep the values that the
  -- response had, whatever the method of the request and the end of a preflight.
  pub allow_headers_lem :
      (r : Request) (w : Headers)
      → (get header_allow_origin (response_of r w)
          ≡ (if text_eq (origin_named r) [] then get header_allow_origin w else origin_named r))
        × (get header_allow_credentials (response_of r w) ≡ (
            if text_eq (origin_named r) []
            then get header_allow_credentials w
            else if c.allow_credentials
            then codes "true"
            else get header_allow_credentials w))
  unfolding handle text_eq
  allow_headers_lem r w =
      elim (Bool-cases (should_process_middleware r.path c.included_paths c.excluded_paths)) [
        | inr skipped ↦ rw (skipped, handle) (refl, refl)
        | inl looked ↦ elim (Bool-cases (text_eq (get header_origin r.headers) [])) [
          | inl no_origin ↦ elim (Bool-cases (is_options c r)) [
            | inl options ↦
                rw (looked, handle, no_origin, options, headers_of-options_end) (refl, refl)
            | inr other ↦ rw (looked, handle, no_origin, other) (refl, refl)
          ]
          | inr with_origin ↦
              let origin = get header_origin r.headers in
              let (named, credentials) = get-origin_headers (allowed_origin c origin) w in
              rw (looked, handle, with_origin)
                (
                  get-handle_origin header_allow_origin r origin w refl refl refl refl ∙ named,
                  get-handle_origin header_allow_credentials r origin w refl refl refl refl
                      ∙ credentials,
                )
        ]
      ]

  allowed_origin-credentials :
      (origin : Text)
      → c.allow_credentials ≡ true
      → text_eq (allowed_origin c origin) [] ≡ false
      → allowed_origin c origin ≡ origin
  unfolding allowed_origin text_eq
  allowed_origin-credentials origin on h = ground arith

  origin_named_lem :
      (r : Request)
      → c.allow_credentials ≡ true
      → text_eq (origin_named r) [] ≡ false
      → origin_named r ≡ get header_origin r.headers
  unfolding text_eq
  origin_named_lem r on h =
      ground (arith, allowed_origin-credentials (get header_origin r.headers) on)

  -- Credentials are never allowed for the star: where the handler allows credentials in a response
  -- that did not allow them before, the origin that it names is the one that the request gives.
  pub credentials_no_star :
      (r : Request) (w : Headers)
      → get header_allow_credentials w ≡ []
      → get header_allow_credentials (response_of r w) ≡ codes "true"
      → get header_allow_origin (response_of r w) ≡ get header_origin r.headers
  credentials_no_star r w before allowed =
      let (named, credentials) = allow_headers_lem r w in
      let there : text_eq (origin_named r) [] ≡ false = ground arith in
      let on : c.allow_credentials ≡ true = ground arith in
      named ∙ (rw there (origin_named_lem r on there))
