-- ===== src/Hmac/Decision.antt =====
-- Which requests middleware/hmacauth/hmac_auth.go passes on.
pub mod Accepted
use zerohttp.Prelude.{
  ℕ, ◌+◌, ◌≤◌, ◌≡◌, ◌≢◌, refl, ◌⊎◌, ◌↔◌, inl, inr, Bool, true, false, List, All, keep, leb, length,
  [], ◌∷◌, ◌++◌, Option, none, some, Exists, any, arith, Bool-cases, Option-cases,
}
use zerohttp.Text.{Text, codes, text_eq, to_lower}
use zerohttp.Text.Laws.{text_eq_iff}
use zerohttp.Http.{get}
use zerohttp.Hmac.{
  ParsedAuth, Config, Request, passed, algorithm_name, build_canonical_request, string_to_sign,
  valid_secret_keys, timestamp_holds, hash_for, signature_holds, check_signature, check_secrets,
  required_missing, authenticate, is_missing, first_missing, min_length, validate_timestamp,
  validate_presigned_url_timestamp,
}
use zerohttp.Hmac.Decision.Accepted.{authenticate-IsAccepted}

Exists-keep_iff :
    (n : ℕ) (P : Text → Type 0) (xs : List Text)
    → Exists P (keep (λ x. leb n (length x)) xs) ↔ Exists (λ x. (n ≤ length x) × P x) xs
Exists-keep_iff n P [] = ((λ e. e), (λ e. e))
Exists-keep_iff n P (x ∷ xs) =
    let (forth, back) = Exists-keep_iff n P xs in
    elim (Bool-cases (leb n (length x))) [
      | inl long ↦
          let enough : n ≤ length x = ground arith in
          rw (long, Exists)
            (
              (λ e. elim e [ inl h ↦ inl (enough, h) | inr t ↦ inr (forth t) ]),
              (λ e. elim e [ inl h ↦ inl (h.1) | inr t ↦ inr (back t) ]),
            )
      | inr short ↦
          let few : ¬ (n ≤ length x) = λ h. ground arith in
          rw (short, Exists)
            ((λ e. inr (forth e)), (λ e. elim e [ inl h ↦ absurd (few (h.0)) | inr t ↦ back t ]))
    ]

module _ (canonical : Text → Text) (format_time : ℕ → Text) (path_escape : Text → Text)
    (query_string : Bool → Text) (mac : Text → Text → Text) (credential_store : Text → List Text)
    (body_hash : Option Text) (c : Config) where
  -- A required header is there: the host of the request, or a field.
  abbrev pub IsPresent : Request → Text → Type 0
  IsPresent r header =
      ((header ≡ codes "host") × (r.host ≢ []))
      ⊎ ((header ≢ codes "host") × (get (canonical header) r.headers ≢ []))

  first_missing_iff :
      (r : Request) (hs : List Text) → (first_missing canonical r hs ≡ none) ↔ All (IsPresent r) hs
  unfolding first_missing is_missing
  first_missing_iff r [] = ((λ e. tt), (λ a. refl))
  first_missing_iff r (h ∷ hs) =
      let (forth, back) = first_missing_iff r hs in
      let named = text_eq_iff h (codes "host") in
      let hosted = text_eq_iff r.host [] in
      let valued = text_eq_iff (get (canonical h) r.headers) [] in
      elim (Bool-cases (is_missing canonical r h)) [
        | inl missing ↦ (
          (λ e. absurd (ground arith)),
          (λ (a : All (IsPresent r) (h ∷ hs)). let (here, later) = a in absurd (ground arith)),
        )
        | inr there ↦ (
          (λ e. (ground arith, forth (ground arith))),
          (λ (a : All (IsPresent r) (h ∷ hs)).
              let none_later = back a.1 in rw (there, none_later, first_missing) refl),
        )
      ]

  -- The time of a request: a presigned one has not expired, any other is within the skew, and not further
  -- in the future than the grace.
  abbrev pub IsTimely : (now : ℕ) → ParsedAuth → Type 0
  IsTimely now p =
      ((p.is_presigned ≡ true) × (now ≤ p.timestamp + c.clock_skew_grace))
      ⊎ ((p.is_presigned ≡ false)
          × (now ≤ p.timestamp + (c.max_skew + c.clock_skew_grace))
          × (p.timestamp ≤ now + c.clock_skew_grace))

  timestamp_holds_iff :
      (now : ℕ) (p : ParsedAuth)
      → (timestamp_holds canonical format_time path_escape query_string mac credential_store
            body_hash c now p
          ≡ true)
        ↔ IsTimely now p
  unfolding timestamp_holds validate_timestamp validate_presigned_url_timestamp
  timestamp_holds_iff now p = ground arith

  -- What stands for the body in the signature.
  abbrev pub IsBodyHash : Text → Type 0
  IsBodyHash hashed =
      ((c.allow_unsigned_payload ≡ true) × (hashed ≡ codes "UNSIGNED-PAYLOAD"))
      ⊎ ((c.allow_unsigned_payload ≡ false) × (body_hash ≡ some hashed))

  hash_for_iff :
      (hashed : Text)
      → (hash_for canonical format_time path_escape query_string mac credential_store body_hash c
          ≡ some hashed)
        ↔ IsBodyHash hashed
  unfolding hash_for
  hash_for_iff hashed = ground arith

  -- The secret is long enough for the algorithm, and makes the signature of the canonical request.
  abbrev pub IsSigning : Request → ParsedAuth → Text → Text → Type 0
  IsSigning r p hashed secret =
      (min_length c.algorithm ≤ length secret)
      × (p.signature
          ≡ mac secret (
              string_to_sign canonical format_time path_escape query_string mac credential_store
                body_hash c
                (build_canonical_request canonical format_time path_escape query_string r p hashed
                  c.timestamp_header)))

  valid_secret_keys_iff :
      (r : Request) (p : ParsedAuth) (hashed key : Text)
      → Exists
          (λ secret.
            p.signature
            ≡ mac secret (
                string_to_sign canonical format_time path_escape query_string mac credential_store
                  body_hash c
                  (build_canonical_request canonical format_time path_escape query_string r p hashed
                    c.timestamp_header)))
          (valid_secret_keys canonical format_time path_escape query_string mac credential_store
            body_hash c key)
        ↔ Exists (IsSigning r p hashed) (credential_store key)
  unfolding valid_secret_keys
  valid_secret_keys_iff r p hashed key =
      Exists-keep_iff (min_length c.algorithm) _ (credential_store key)

  -- What a request must fulfil, by the request and the configuration.
  abbrev pub IsAuthentic : (now : ℕ) → Request → ParsedAuth → Type 0
  IsAuthentic now r p =
      (to_lower p.algorithm ≡ to_lower (codes "HMAC-" ++ algorithm_name c.algorithm))
      × ((p.is_presigned ≡ true) ⊎ All (IsPresent r) c.required_headers)
      × IsTimely now p
      × ((hashed : Text) × IsBodyHash hashed
          × Exists (IsSigning r p hashed) (credential_store p.access_key_id))

  required_missing_iff :
      (r : Request) (p : ParsedAuth)
      → (required_missing canonical format_time path_escape query_string mac credential_store
            body_hash c r p
          ≡ none)
        ↔ ((p.is_presigned ≡ true) ⊎ All (IsPresent r) c.required_headers)
  unfolding required_missing
  required_missing_iff r p =
      let (forth, back) = first_missing_iff r c.required_headers in
      elim (Bool-cases p.is_presigned) [
        | inl presigned ↦ ((λ e. inl presigned), (λ h. ground arith))
        | inr plain ↦ (
          (λ e. inr (forth (ground arith))),
          (λ h. elim h [
            | inl presigned ↦ absurd (ground arith)
            | inr there ↦ let none_missing = back there in ground arith
          ]),
        )
      ]

  -- A request is passed on, with the key that it names, exactly when its algorithm is the configured one
  -- in any case of its letters; it is presigned, or has every required header; it has not expired, or is
  -- within the skew and not further in the future than the grace; its body is not over the limit where it
  -- is signed; and the signature is the MAC of the canonical request under a secret of its key that is
  -- long enough for the algorithm.
  pub authenticate-passed_iff :
      (now : ℕ) (r : Request) (p : ParsedAuth)
      → (authenticate canonical format_time path_escape query_string mac credential_store body_hash
            c now r p
          ≡ passed p.access_key_id)
        ↔ IsAuthentic now r p
  authenticate-passed_iff now r p =
      let (accepted, passes) =
        authenticate-IsAccepted canonical format_time path_escape query_string mac credential_store
          body_hash c now r p in
      let same =
        text_eq_iff (to_lower p.algorithm)
          (to_lower (codes "HMAC-" ++ algorithm_name c.algorithm)) in
      let required = required_missing_iff r p in
      let timely = timestamp_holds_iff now p in
      (
        (λ e.
            let (a, m, t, signed) = accepted e in
            let (hashed, h, s) = signed in
            (
              same.0 a,
              required.0 m,
              timely.0 t,
              (
                hashed,
                (hash_for_iff hashed).0 h,
                (valid_secret_keys_iff r p hashed p.access_key_id).0 s,
              ),
            )),
        (λ (g : IsAuthentic now r p).
            let (a, m, t, signed) = g in
            let (hashed, h, s) = signed in
            passes (
              same.1 a,
              required.1 m,
              timely.1 t,
              (
                hashed,
                (hash_for_iff hashed).1 h,
                (valid_secret_keys_iff r p hashed p.access_key_id).1 s,
              ),
            )),
      )
