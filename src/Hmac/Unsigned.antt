-- ===== src/Hmac/Unsigned.antt =====
-- What middleware/hmacauth/hmac_auth.go leaves out of the signature.
pub mod Lines
use zerohttp.Prelude.{
  ℕ, ◌≡◌, ◌≢◌, refl, sym, ◌∙◌, ap, Bool, true, false, not, List, [], ◌∷◌, ◌++◌, Option, none, some,
  All, if◌then◌else◌, map, arith, any,
}
use zerohttp.Text.{Text, codes, text_eq, to_lower, trim_space}
use zerohttp.Text.Laws.{text_eq_iff}
use zerohttp.Http.{get, set, get-set}
use zerohttp.Hmac.Parsing.{
  auth_header, parsed_auth, parse_presigned_url_params, parse_authorization_header, handle,
}
use zerohttp.Hmac.{
  ParsedAuth, Config, Request, Verdict, is_missing, first_missing, signed_value, signed_line,
  build_signed_headers, build_canonical_request, timestamp_holds, signature_holds, check_signature,
  check_secrets, required_missing, authenticate, algorithm_name, invalid_format, missing_header,
  valid_secret_keys, string_to_sign, hash_for, passed, signature_mismatch, request_expired,
  invalid_credentials,
}
use zerohttp.Hmac.Unsigned.Lines.{
  with_header, IsUnsigned, IsUntimed, first_missing-set, lines-set, lines-untimed,
}

module _ (canonical : Text → Text) where
  module _ (format_time : ℕ → Text) where
    module _ (path_escape : Text → Text) (query_string : Bool → Text) (mac : Text → Text → Text)
        (credential_store : Text → List Text) (body_hash : Option Text) (c : Config) where
      -- Two requests, the second parsed with another timestamp, of which the same text is signed.
      module _ (r q : Request) (p : ParsedAuth) (t : ℕ)
          (same_text : (hashed : Text)
            → build_canonical_request canonical format_time path_escape query_string q
                (record p { timestamp = t })
                hashed
                c.timestamp_header
              ≡ build_canonical_request canonical format_time path_escape query_string r p hashed
                  c.timestamp_header) where
        check_signature-same :
            (o : Option Text)
            → check_signature canonical format_time path_escape query_string mac credential_store
                body_hash c q
                (record p { timestamp = t })
                o
              ≡ check_signature canonical format_time path_escape query_string mac credential_store
                  body_hash c r p o
        unfolding check_signature signature_holds
        check_signature-same none = refl
        check_signature-same (some hashed) =
            ap
              (λ text.
                if any
                  (λ secret. text_eq p.signature (
                    mac secret (
                      string_to_sign canonical format_time path_escape query_string mac
                        credential_store body_hash c text)))
                  (valid_secret_keys canonical format_time path_escape query_string mac
                    credential_store body_hash c p.access_key_id)
                then passed p.access_key_id
                else signature_mismatch)
              (same_text hashed)

        -- What the timestamp and the signature make of it.
        abbrev decided : Bool → Verdict → Verdict
        decided holds v =
            if not holds
            then request_expired
            else elim (valid_secret_keys canonical format_time path_escape query_string mac
                credential_store body_hash c p.access_key_id) [
                  | [] ↦ invalid_credentials
                  | secret ∷ more ↦ v
                ]

        check_secrets-same :
            (now later : ℕ)
            → timestamp_holds canonical format_time path_escape query_string mac credential_store
                body_hash c later
                (record p { timestamp = t })
              ≡ timestamp_holds canonical format_time path_escape query_string mac credential_store
                  body_hash c now p
            → check_secrets canonical format_time path_escape query_string mac credential_store
                body_hash c later q
                (record p { timestamp = t })
              ≡ check_secrets canonical format_time path_escape query_string mac credential_store
                  body_hash c now r p
        unfolding check_secrets
        check_secrets-same now later times =
            let hashed =
              hash_for canonical format_time path_escape query_string mac credential_store body_hash
                c in
            ap
              (λ b. decided b (
                check_signature canonical format_time path_escape query_string mac credential_store
                  body_hash c q (record p { timestamp = t }) hashed))
              times
            ∙ ap
                (decided (
                  timestamp_holds canonical format_time path_escape query_string mac
                    credential_store body_hash c now p))
                (check_signature-same hashed)

        -- What the algorithm and the required headers make of it.
        abbrev concluded : Option Text → Verdict → Verdict
        concluded m v =
            if not (
              text_eq (to_lower p.algorithm)
                (to_lower (codes "HMAC-" ++ algorithm_name c.algorithm)))
            then invalid_format
            else elim (if p.is_presigned then none else m) [
              | some header ↦ missing_header header
              | none ↦ v
            ]

        authenticate-same :
            (now later : ℕ)
            → timestamp_holds canonical format_time path_escape query_string mac credential_store
                body_hash c later
                (record p { timestamp = t })
              ≡ timestamp_holds canonical format_time path_escape query_string mac credential_store
                  body_hash c now p
            → first_missing canonical q c.required_headers
              ≡ first_missing canonical r c.required_headers
            → authenticate canonical format_time path_escape query_string mac credential_store
                body_hash c later q
                (record p { timestamp = t })
              ≡ authenticate canonical format_time path_escape query_string mac credential_store
                  body_hash c now r p
        unfolding authenticate required_missing
        authenticate-same now later times missing =
            ap
              (λ m. concluded m (
                check_secrets canonical format_time path_escape query_string mac credential_store
                  body_hash c later q (record p { timestamp = t })))
              missing
            ∙ ap (concluded (first_missing canonical r c.required_headers))
                (check_secrets-same now later times)

      -- With the same authorization.
      authenticate-set :
          (now : ℕ) (r : Request) (p : ParsedAuth) (name value : Text)
          → IsUnsigned canonical name p.headers
          → get name r.headers ≢ []
          → value ≢ []
          → authenticate canonical format_time path_escape query_string mac credential_store
              body_hash c now
              (record r { headers = set name value r.headers })
              p
            ≡ authenticate canonical format_time path_escape query_string mac credential_store
                body_hash c now r p
      unfolding build_canonical_request build_signed_headers
      authenticate-set now r p name value u there given =
          authenticate-same r (record r { headers = set name value r.headers }) p p.timestamp
            (λ hashed.
              rw
                (
                  lines-set canonical format_time r name value c.timestamp_header p.timestamp
                      p.headers u,
                  build_canonical_request,
                  build_signed_headers,
                )
                refl)
            now now refl (first_missing-set canonical r name value c.required_headers there given)

      -- Where the client did not list the timestamp as signed, any other timestamp gets the same verdict
      -- as long as both are within their times: a request may be sent again with a new timestamp.
      pub timestamp_unsigned :
          (now later t : ℕ) (r : Request) (p : ParsedAuth)
          → IsUntimed canonical c.timestamp_header p.headers
          → timestamp_holds canonical format_time path_escape query_string mac credential_store
              body_hash c now p
            ≡ true
          → timestamp_holds canonical format_time path_escape query_string mac credential_store
              body_hash c later
              (record p { timestamp = t })
            ≡ true
          → authenticate canonical format_time path_escape query_string mac credential_store
              body_hash c later r
              (record p { timestamp = t })
            ≡ authenticate canonical format_time path_escape query_string mac credential_store
                body_hash c now r p
      unfolding build_canonical_request build_signed_headers
      timestamp_unsigned now later t r p u held holds_later =
          authenticate-same r r p t
            (λ hashed.
              rw
                (
                  lines-untimed canonical format_time r c.timestamp_header t p.timestamp p.headers
                      u,
                  build_canonical_request,
                  build_signed_headers,
                )
                refl)
            now later (holds_later ∙ sym held) refl

      module _ (parse_time : Text → Text → Option ℕ) (decode : Text → Option Text)
          (query_value : Text → Text) where
        auth_header-set :
            (r : Request) (name value : Text)
            → text_eq name (canonical c.auth_header_name) ≡ false
            → auth_header parse_time decode query_value canonical c
                (with_header canonical name value r)
              ≡ auth_header parse_time decode query_value canonical c r
        unfolding auth_header
        auth_header-set r name value other =
            get-set name (canonical c.auth_header_name) value r.headers ∙ (rw other)

        parsed_auth-set :
            (r : Request) (name value : Text)
            → text_eq name (canonical c.auth_header_name) ≡ false
            → parsed_auth parse_time decode query_value canonical c
                (with_header canonical name value r)
              ≡ parsed_auth parse_time decode query_value canonical c r
        unfolding parsed_auth
        parsed_auth-set r name value other =
            ap
              (λ header.
                if text_eq header []
                then (if c.allow_presigned_urls
                    then parse_presigned_url_params parse_time decode query_value
                    else none)
                else parse_authorization_header parse_time decode header)
              (auth_header-set r name value other)

        -- A header field that the client did not list as signed may be given any value that is not
        -- empty, required or not: the handler answers the same where the field was there, as long as it
        -- is not the field of the authorization itself and the authorization can be parsed.
        pub header_unsigned :
            (now : ℕ) (r : Request) (p : ParsedAuth) (name value : Text)
            → parsed_auth parse_time decode query_value canonical c r ≡ some p
            → text_eq name (canonical c.auth_header_name) ≡ false
            → IsUnsigned canonical name p.headers
            → get name r.headers ≢ []
            → value ≢ []
            → handle parse_time decode query_value canonical c format_time path_escape query_string
                mac credential_store body_hash now
                (record r { headers = set name value r.headers })
              ≡ handle parse_time decode query_value canonical c format_time path_escape
                  query_string mac credential_store body_hash now r
        unfolding handle
        header_unsigned now r p name value parsed other u there given =
            let again = parsed_auth-set r name value other ∙ parsed in
            rw (parsed, again, authenticate-set now r p name value u there given) refl
