-- ===== src/Hmac/Decision/Accepted.antt =====
-- The tests of middleware/hmacauth/hmac_auth.go that a request passes.
use zerohttp.Prelude.{
  ℕ, ◌≡◌, ◌≢◌, ◌↔◌, inl, inr, Bool, true, List, [], ◌∷◌, ◌++◌, Option, none, some, Exists, any,
  arith, Bool-cases, Option-cases,
}
use zerohttp.Text.{Text, codes, text_eq, to_lower}
use zerohttp.Text.Laws.{text_eq_iff}
use zerohttp.Hmac.{
  ParsedAuth, Config, Request, passed, algorithm_name, build_canonical_request, string_to_sign,
  valid_secret_keys, timestamp_holds, hash_for, signature_holds, check_signature, check_secrets,
  required_missing, authenticate,
}

any-text_eq_iff :
    (s : Text) (g : Text → Text) (xs : List Text)
    → (any (λ x. text_eq s (g x)) xs ≡ true) ↔ Exists (λ x. s ≡ g x) xs
any-text_eq_iff s g [] = ((λ e. absurd (ground arith)), (λ e. absurd e))
any-text_eq_iff s g (x ∷ xs) =
    let (forth, back) = any-text_eq_iff s g xs in
    let (same, equal) = text_eq_iff s (g x) in
    elim (Bool-cases (text_eq s (g x))) [
      | inl here ↦ ((λ e. inl (same here)), (λ e. ground arith))
      | inr other ↦ (
        (λ e. inr (forth (ground arith))),
        (λ e. elim e [
          | inl first ↦ let is_equal = equal first in ground arith
          | inr later ↦ let found = back later in ground arith
        ]),
      )
    ]

module _ (canonical : Text → Text) (format_time : ℕ → Text) (path_escape : Text → Text)
    (query_string : Bool → Text) (mac : Text → Text → Text) (credential_store : Text → List Text)
    (body_hash : Option Text) (c : Config) where
  -- The tests that a request must pass.
  abbrev pub IsAccepted : (now : ℕ) → Request → ParsedAuth → Type 0
  IsAccepted now r p =
      (text_eq (to_lower p.algorithm) (to_lower (codes "HMAC-" ++ algorithm_name c.algorithm))
        ≡ true)
      × (required_missing canonical format_time path_escape query_string mac credential_store
            body_hash c r p
          ≡ none)
      × (timestamp_holds canonical format_time path_escape query_string mac credential_store
            body_hash c now p
          ≡ true)
      × ((hashed : Text) × (hash_for canonical format_time path_escape query_string mac
              credential_store body_hash c
            ≡ some hashed)
          × Exists
              (λ secret.
                p.signature
                ≡ mac secret (
                    string_to_sign canonical format_time path_escape query_string mac
                      credential_store body_hash c
                      (build_canonical_request canonical format_time path_escape query_string r p
                        hashed c.timestamp_header)))
              (valid_secret_keys canonical format_time path_escape query_string mac credential_store
                body_hash c p.access_key_id))

  signature_holds_iff :
      (r : Request) (p : ParsedAuth) (hashed : Text)
      → (signature_holds canonical format_time path_escape query_string mac credential_store
            body_hash c r p hashed
          ≡ true)
        ↔ Exists
            (λ secret.
              p.signature
              ≡ mac secret (
                  string_to_sign canonical format_time path_escape query_string mac credential_store
                    body_hash c
                    (build_canonical_request canonical format_time path_escape query_string r p
                      hashed c.timestamp_header)))
            (valid_secret_keys canonical format_time path_escape query_string mac credential_store
              body_hash c p.access_key_id)
  unfolding signature_holds
  signature_holds_iff r p hashed = any-text_eq_iff p.signature _ _

  signature_key :
      (r : Request) (p : ParsedAuth) (hashed : Text)
      → signature_holds canonical format_time path_escape query_string mac credential_store
          body_hash c r p hashed
        ≡ true
      → valid_secret_keys canonical format_time path_escape query_string mac credential_store
          body_hash c p.access_key_id
        ≢ []
  unfolding signature_holds
  signature_key r p hashed h none_valid = ground arith

  pub authenticate-IsAccepted :
      (now : ℕ) (r : Request) (p : ParsedAuth)
      → (authenticate canonical format_time path_escape query_string mac credential_store body_hash
            c now r p
          ≡ passed p.access_key_id)
        ↔ IsAccepted now r p
  unfolding authenticate check_secrets check_signature
  authenticate-IsAccepted now r p =
      elim (Option-cases (
        hash_for canonical format_time path_escape query_string mac credential_store body_hash c)) [
          | inl too_large ↦ (
            (λ e. absurd (ground arith)),
            (λ (h : IsAccepted now r p).
                let (hashed, is_hash, signed) = h.3 in absurd (ground arith)),
          )
          | inr (hashed, is_hash) ↦ (
            (λ e.
                let held : signature_holds canonical format_time path_escape query_string mac
                      credential_store body_hash c r p hashed
                    ≡ true =
                  ground arith in
                (
                  ground arith,
                  ground arith,
                  ground arith,
                  (hashed, is_hash, (signature_holds_iff r p hashed).0 held),
                )),
            (λ (h : IsAccepted now r p).
                let (same_algorithm, required, in_time, rest) = h in
                let (hashed2, is_hash2, signed) = rest in
                let held = (signature_holds_iff r p hashed2).1 signed in
                let has_key = signature_key r p hashed2 held in ground arith),
          )
        ]
