-- ===== src/Cors/Preflight.antt =====
-- When middleware/cors/cors.go grants a preflight.
use zerohttp.Prelude.{
  ◌≡◌, refl, ◌∙◌, ◌≢◌, ◌⊎◌, ◌↔◌, inl, inr, true, false, List, [], ◌∷◌, map, if◌then◌else◌, arith,
  Bool-cases, All,
}
use zerohttp.Text.{Text, codes, text_eq, to_lower, to_upper, trim_space, split}
use zerohttp.Text.Laws.{text_eq_iff}
use zerohttp.Http.{Headers, get, get-set, Request}
use zerohttp.Paths.{should_process_middleware}
use zerohttp.Cors.{
  Config, allowed_origin, origin_headers, headers_allowed, method_refused, headers_refused,
  answer_preflight, handle_origin, handle, header_origin, header_max_age, is_options,
  header_request_method, header_request_headers,
}
use zerohttp.Http.Contains.{IsIn, contains_iff}
use zerohttp.Cors.Laws.{
  headers_of, origin_named, response_of, get-vary_headers, get-expose, headers_of-options_end,
}

module _ (c : Config) where
  -- The method that the preflight asks for is on the list, without regard to case, or none is named.
  abbrev pub MethodAllowed : Text → Type 0
  MethodAllowed method = (method ≡ []) ⊎ IsIn (to_upper method) (map to_upper c.allowed_methods)

  -- So is each header field that it asks for.
  abbrev pub HeadersAllowed : Text → Type 0
  HeadersAllowed requested =
      (requested ≡ [])
      ⊎ All (λ h. IsIn (to_lower (trim_space h)) (map to_lower c.allowed_headers))
          (split requested b',')

  method_refused_sound : (m : Text) → method_refused c m ≡ false → MethodAllowed m
  unfolding method_refused text_eq
  method_refused_sound [] h = inl refl
  method_refused_sound (a ∷ m) h = inr ((contains_iff _ _).0 (ground arith))

  method_refused_complete : (m : Text) → MethodAllowed m → method_refused c m ≡ false
  unfolding method_refused text_eq
  method_refused_complete m (inl e) = rw e
  method_refused_complete m (inr i) =
      let listed = (contains_iff (to_upper m) (map to_upper c.allowed_methods)).1 i in
      rw listed (ground arith)

  headers_allowed_sound :
      (hs : List Text)
      → headers_allowed c hs ≡ true
      → All (λ h. IsIn (to_lower (trim_space h)) (map to_lower c.allowed_headers)) hs
  unfolding headers_allowed
  headers_allowed_sound [] e = tt
  headers_allowed_sound (h ∷ hs) e =
      ((contains_iff _ _).0 (ground arith), headers_allowed_sound hs (ground arith))

  headers_allowed_complete :
      (hs : List Text)
      → All (λ h. IsIn (to_lower (trim_space h)) (map to_lower c.allowed_headers)) hs
      → headers_allowed c hs ≡ true
  unfolding headers_allowed
  headers_allowed_complete [] e = refl
  headers_allowed_complete (h ∷ hs) (i, is) =
      let listed = (contains_iff (to_lower (trim_space h)) (map to_lower c.allowed_headers)).1 i in
      rw listed (headers_allowed_complete hs is)

  headers_refused_sound : (q : Text) → headers_refused c q ≡ false → HeadersAllowed q
  unfolding headers_refused text_eq
  headers_refused_sound [] h = inl refl
  headers_refused_sound (a ∷ q) h = inr (headers_allowed_sound (split (a ∷ q) b',') (ground arith))

  headers_refused_complete : (q : Text) → HeadersAllowed q → headers_refused c q ≡ false
  unfolding headers_refused text_eq
  headers_refused_complete q (inl e) = rw e
  headers_refused_complete q (inr i) = rw (headers_allowed_complete (split q b',') i) (ground arith)

  get-origin_headers_other :
      (allowed : Text) (hs : Headers)
      → get header_max_age (origin_headers c allowed hs) ≡ get header_max_age hs
  unfolding origin_headers text_eq
  get-origin_headers_other [] hs = get-vary_headers c header_max_age hs refl
  get-origin_headers_other (a ∷ allowed) hs = elim (Bool-cases c.allow_credentials) [
    | inl on ↦ rw on (
        get-expose c header_max_age c.exposed_headers _ refl
        ∙ simp (get-set, get-vary_headers c header_max_age hs refl))
    | inr off ↦ rw off (
        get-expose c header_max_age c.exposed_headers _ refl
        ∙ simp (get-set, get-vary_headers c header_max_age hs refl))
  ]

  get-answer :
      (r : Request) (allowed : Text) (hs : Headers)
      → text_eq allowed [] ≡ false
      → get header_max_age (headers_of (answer_preflight c r allowed hs).1) ≡ (
          if method_refused c (get header_request_method r.headers)
          then get header_max_age hs
          else if headers_refused c (get header_request_headers r.headers)
          then get header_max_age hs
          else c.max_age)
  unfolding answer_preflight text_eq
  get-answer r allowed hs there =
      elim (Bool-cases (method_refused c (get header_request_method r.headers))) [
        | inl bad ↦ rw (there, answer_preflight, bad) (simp get-set)
        | inr good ↦ elim (Bool-cases (headers_refused c (get header_request_headers r.headers))) [
          | inl bad ↦ rw (there, answer_preflight, good, bad)
          | inr fine ↦
              rw (there, answer_preflight, good, fine, headers_of-options_end) (simp get-set)
        ]
      ]

  get-handle :
      (r : Request) (w : Headers)
      → r.method ≡ codes "OPTIONS"
      → text_eq (origin_named c r) [] ≡ false
      → get header_max_age (response_of c r w) ≡ (
          if method_refused c (get header_request_method r.headers)
          then get header_max_age w
          else if headers_refused c (get header_request_headers r.headers)
          then get header_max_age w
          else c.max_age)
  unfolding handle handle_origin text_eq
  get-handle r w options there =
      elim (Bool-cases (should_process_middleware r.path c.included_paths c.excluded_paths)) [
        | inr skipped ↦ absurd (let e : true ≡ false = (rw skipped at there) in cc)
        | inl looked ↦ elim (Bool-cases (text_eq (get header_origin r.headers) [])) [
          | inl no_origin ↦ absurd (let e : true ≡ false = (rw (looked, no_origin) at there) in cc)
          | inr with_origin ↦
              let allowed = allowed_origin c (get header_origin r.headers) in
              let some_allowed : text_eq allowed [] ≡ false = (rw (looked, with_origin) at there) in
              let is_preflight : is_options c r ≡ true =
                (text_eq_iff r.method (codes "OPTIONS")).1 options in
              rw (looked, handle, with_origin, is_preflight)
                (get-answer r allowed (origin_headers c allowed w) some_allowed
                  ∙ (rw (get-origin_headers_other allowed w)))
        ]
      ]

  -- A request with the method OPTIONS that the handler looks at, from an allowed origin, is granted
  -- the preflight (it gets the configured `Access-Control-Max-Age`, which is not empty and which the
  -- response did not have) exactly when the method and every header field that it asks for are
  -- allowed.
  pub preflight_granted_iff :
      (r : Request) (w : Headers)
      → get header_max_age w ≡ []
      → c.max_age ≢ []
      → r.method ≡ codes "OPTIONS"
      → text_eq (origin_named c r) [] ≡ false
      → (get header_max_age (response_of c r w) ≡ c.max_age) ↔ (
          MethodAllowed (get header_request_method r.headers)
          × HeadersAllowed (get header_request_headers r.headers))
  preflight_granted_iff r w before age options there =
      let m = get header_request_method r.headers in
      let q = get header_request_headers r.headers in
      let answer = get-handle r w options there in
      (
        λ h. (method_refused_sound m (ground arith), headers_refused_sound q (ground arith)),
        λ (p : MethodAllowed m × HeadersAllowed q).
            let good = method_refused_complete m p.0 in
            let fine = headers_refused_complete q p.1 in answer ∙ (rw (good, fine)),
      )
