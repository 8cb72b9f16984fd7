-- ===== src/Hmac.antt =====
-- middleware/hmacauth/hmac_auth.go: what is checked of a request once its authorization is parsed, and the
-- text that is signed; the parsers and the whole handler are in Parsing. The canonical query string, the
-- hash of the body, the MAC and the canonical form of a header's name (net/textproto) are arguments. Times
-- are natural numbers.
pub mod Parsing
pub mod Decision
pub mod Unsigned
pub mod Tests
use zerohttp.Prelude.{
  ℕ, ◌+◌, ◌-◌, Bool, true, false, not, ◌&&◌, ◌||◌, List, [], ◌∷◌, ◌++◌, Option, none, some,
  if◌then◌else◌, ltb, leb, nat_beq, length, any, map, keep,
}
use zerohttp.Text.{Text, codes, text_eq, to_lower, to_upper, trim_space, has_prefix, join}
use zerohttp.Http.{Headers, get}

pub record ParsedAuth : Type 0 where
  pub algorithm : Text
  pub access_key_id : Text
  pub timestamp : ℕ
  pub headers : List Text
  pub signature : Text
  pub is_presigned : Bool

pub data HashAlgorithm : Type 0 where
  sha256 : HashAlgorithm
  sha384 : HashAlgorithm
  sha512 : HashAlgorithm
  other_algorithm : Text → HashAlgorithm

unfoldable pub algorithm_name : HashAlgorithm → Text
algorithm_name sha256 = codes "SHA256"
algorithm_name sha384 = codes "SHA384"
algorithm_name sha512 = codes "SHA512"
algorithm_name (other_algorithm name) = name

unfoldable pub min_length : HashAlgorithm → ℕ
min_length sha256 = 32
min_length sha384 = 48
min_length sha512 = 64
min_length (other_algorithm name) = 32

pub record Config : Type 0 where
  pub algorithm : HashAlgorithm
  -- Trimmed and in lower case, as `New` makes them.
  pub required_headers : List Text
  pub excluded_paths : List Text
  pub included_paths : List Text
  pub auth_header_name : Text
  pub max_skew : ℕ
  pub clock_skew_grace : ℕ
  pub allow_unsigned_payload : Bool
  pub allow_presigned_urls : Bool
  pub timestamp_header : Text

pub record Request : Type 0 where
  pub method : Text
  pub path : Text
  pub host : Text
  pub headers : Headers

-- Refusals, in the order of the checks, or the key that is passed on in the context; or a path that is
-- passed on without a check.
pub data Verdict : Type 0 where
  not_checked : Verdict
  missing_auth : Verdict
  invalid_format : Verdict
  missing_header : Text → Verdict
  request_expired : Verdict
  invalid_credentials : Verdict
  body_too_large : Verdict
  signature_mismatch : Verdict
  passed : (access_key_id : Text) → Verdict

unfoldable pub validate_presigned_url_timestamp : (now expiration grace : ℕ) → Bool
validate_presigned_url_timestamp now expiration grace = leb now (expiration + grace)

unfoldable pub validate_timestamp : (now ts max_skew grace : ℕ) → Bool
validate_timestamp now ts max_skew grace =
    let diff = (now - ts) + (ts - now) in leb diff (max_skew + grace) && leb ts (now + grace)

module _ (canonical : Text → Text) where
  -- A required header that is not there.
  unfoldable pub is_missing : Request → Text → Bool
  is_missing r header =
      if text_eq header (codes "host")
      then text_eq r.host []
      else text_eq (get (canonical header) r.headers) []

  unfoldable pub first_missing : Request → List Text → Option Text
  first_missing r [] = none
  first_missing r (header ∷ hs) =
      let rest = first_missing r hs in if is_missing r header then some header else rest

  -- `buildSignedHeaders`; a parsed timestamp is never the zero time.
  module _ (format_time : ℕ → Text) where
    unfoldable pub signed_value : Request → Text → (timestamp_header : Text) → ℕ → Text
    signed_value r h timestamp_header timestamp =
        if text_eq h (codes "host")
        then r.host
        else if text_eq h (to_lower timestamp_header)
        then format_time timestamp
        else get (canonical h) r.headers

    unfoldable pub signed_line : Request → (timestamp_header : Text) → ℕ → Text → Text
    signed_line r timestamp_header timestamp h =
        let name = to_lower (trim_space h) in
        name ++ (b':' ∷ trim_space (signed_value r name timestamp_header timestamp))

    unfoldable pub build_signed_headers : Request → List Text → (timestamp_header : Text) → ℕ → Text
    build_signed_headers r headers timestamp_header timestamp =
        join (map (signed_line r timestamp_header timestamp) headers) (codes "\n")

    -- The path is escaped by net/url, and the query string is the one without the parameters of a
    -- presigned URL where the request has them.
    module _ (path_escape : Text → Text) (query_string : Bool → Text) where
      unfoldable pub build_canonical_request :
          Request → ParsedAuth → (body_hash timestamp_header : Text) → Text
      build_canonical_request r p body_hash timestamp_header =
          to_upper r.method
          ++ (codes "\n"
              ++ (path_escape r.path
                  ++ (codes "\n"
                      ++ (query_string p.is_presigned
                          ++ (codes "\n"
                              ++ (build_signed_headers r p.headers timestamp_header p.timestamp
                                  ++ (codes "\n\n" ++ body_hash)))))))

      module _ (mac : Text → Text → Text) (credential_store : Text → List Text)
          (body_hash : Option Text) (c : Config) where
        unfoldable pub string_to_sign : Text → Text
        string_to_sign request =
            codes "HMAC-" ++ (algorithm_name c.algorithm ++ (codes "\n" ++ request))

        unfoldable pub valid_secret_keys : Text → List Text
        valid_secret_keys access_key_id =
            keep (λ secret. leb (min_length c.algorithm) (length secret))
              (credential_store access_key_id)

        unfoldable pub timestamp_holds : (now : ℕ) → ParsedAuth → Bool
        timestamp_holds now p =
            if p.is_presigned
            then validate_presigned_url_timestamp now p.timestamp c.clock_skew_grace
            else validate_timestamp now p.timestamp c.max_skew c.clock_skew_grace

        -- The hash that is signed, `none` where the body is over its limit.
        unfoldable pub hash_for : Option Text
        hash_for = if c.allow_unsigned_payload then some (codes "UNSIGNED-PAYLOAD") else body_hash

        unfoldable pub signature_holds : Request → ParsedAuth → Text → Bool
        signature_holds r p hashed =
            any
              (λ secret. text_eq p.signature (
                mac secret
                  (string_to_sign (build_canonical_request r p hashed c.timestamp_header))))
              (valid_secret_keys p.access_key_id)

        unfoldable pub check_signature : Request → ParsedAuth → Option Text → Verdict
        check_signature r p none = body_too_large
        check_signature r p (some hashed) =
            if signature_holds r p hashed then passed p.access_key_id else signature_mismatch

        -- From the comparison of the algorithms on.
        unfoldable pub check_secrets : (now : ℕ) → Request → ParsedAuth → Verdict
        check_secrets now r p =
            if not (timestamp_holds now p)
            then request_expired
            else elim (valid_secret_keys p.access_key_id) [
              | [] ↦ invalid_credentials
              | secret ∷ more ↦ check_signature r p hash_for
            ]

        unfoldable pub required_missing : Request → ParsedAuth → Option Text
        required_missing r p = if p.is_presigned then none else first_missing r c.required_headers

        unfoldable pub authenticate : (now : ℕ) → Request → ParsedAuth → Verdict
        authenticate now r p =
            if not (
              text_eq (to_lower p.algorithm)
                (to_lower (codes "HMAC-" ++ algorithm_name c.algorithm)))
            then invalid_format
            else elim (required_missing r p) [
              | some header ↦ missing_header header
              | none ↦ check_secrets now r p
            ]
