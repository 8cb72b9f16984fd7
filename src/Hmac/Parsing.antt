-- ===== src/Hmac/Parsing.antt =====
-- The parsers of middleware/hmacauth/hmac_auth.go, and the handler of `New` that uses them. time.Parse by
-- its layout, the decoding of base64 and the parameters of the query (net/url) are arguments. Texts are
-- bytes; a header that is no UTF-8 is left out.
use zerohttp.Prelude.{
  ℕ, Bool, true, false, not, ◌&&◌, List, [], ◌∷◌, Option, none, some, if◌then◌else◌, nat_beq,
}
use zerohttp.Text.{Text, codes, text_eq, has_prefix, trim_space, split}
use zerohttp.Http.{get}
use zerohttp.Paths.{should_process_middleware}
use zerohttp.Hmac.{
  ParsedAuth, Config, Request, Verdict, not_checked, missing_auth, invalid_format, authenticate,
}

infixl 10 ◌>>=◌
abbrev ◌>>=◌ : {A B : Type 0} → Option A → (A → Option B) → Option B
none >>= f = none
some x >>= f = f x

-- `strings.SplitN(s, sep, 2)` where it has two parts.
unfoldable pub split_two : Text → ℕ → Option (Text × Text)
split_two [] sep = none
split_two (a ∷ s) sep =
    let rest = split_two s sep in
    if nat_beq a sep
    then some ([], s)
    else elim rest [ none ↦ none | some parts ↦ some (a ∷ parts.0, parts.1) ]

-- `splitAuthPairs`: an empty part at the end is none.
unfoldable pub split_auth_pairs : Text → List Text
split_auth_pairs [] = []
split_auth_pairs (ch ∷ s) =
    let rest = split_auth_pairs s in
    if nat_beq ch b','
    then [] ∷ rest
    else elim rest [ [] ↦ (ch ∷ []) ∷ [] | part ∷ parts ↦ (ch ∷ part) ∷ parts ]

-- The result of the loop over the pairs so far; a signature is there once its pair was read.
pub record Fields : Type 0 where
  pub access_key_id : Text
  pub timestamp : ℕ
  pub headers : List Text
  pub signature : Option Text

module _ (parse_time : (layout : Text) → Text → Option ℕ) (decode : Text → Option Text) where
  -- The two layouts.
  unfoldable pub parse_timestamp : Text → Option ℕ
  parse_timestamp s = elim (parse_time (codes "2006-01-02T15:04:05Z07:00") s) [
    | some ts ↦ some ts
    | none ↦ parse_time (codes "2006-01-02T15:04:05Z") s
  ]

  unfoldable pub parse_credential : Text → Option (Text × ℕ)
  parse_credential value = do
    cred_parts ← split_two value b'/'
    ts ← parse_timestamp (cred_parts.1)
    some (cred_parts.0, ts)

  -- One pair; `none` is an error.
  unfoldable pub read_pair : Fields → (key value : Text) → Option Fields
  read_pair f key value =
      if text_eq key (codes "Credential")
      then elim (parse_credential value) [
        | none ↦ none
        | some c ↦ some (record f { access_key_id = c.0; timestamp = c.1 })
      ]
      else if text_eq key (codes "SignedHeaders")
      then some (record f { headers = split value b';' })
      else if text_eq key (codes "Signature")
      then elim (decode value) [ none ↦ none | some sig ↦ some (record f { signature = some sig }) ]
      else some f

  unfoldable pub read_pairs : List Text → Fields → Option Fields
  read_pairs [] f = some f
  read_pairs (pair ∷ pairs) f = elim (split_two pair b'=') [
    | none ↦ read_pairs pairs f
    | some kv ↦ elim (read_pair f (trim_space (kv.0)) (trim_space (kv.1))) [
      | none ↦ none
      | some g ↦ read_pairs pairs g
    ]
  ]

  -- The required fields.
  unfoldable pub complete : Text → Fields → Option ParsedAuth
  complete algo f = elim f.signature [
    | none ↦ none
    | some sig ↦ if text_eq f.access_key_id [] then none else elim f.headers [
      | [] ↦ none
      | h ∷ hs ↦ some (record {
        algorithm = algo;
        access_key_id = f.access_key_id;
        timestamp = f.timestamp;
        headers = f.headers;
        signature = sig;
        is_presigned = false;
      })
    ]
  ]

  unfoldable pub parse_authorization_header : Text → Option ParsedAuth
  parse_authorization_header header = do
    parts ← split_two header b' '
    fields ←
        if has_prefix (parts.0) (codes "HMAC-")
        then read_pairs (split_auth_pairs (parts.1))
            (record { access_key_id = []; timestamp = 0; headers = []; signature = none })
        else none
    complete (parts.0) fields

  -- `parsePresignedURLParams`, by the parameters of the query.
  unfoldable pub required_value : Text → Option Text
  required_value value = if text_eq value [] then none else some value

  unfoldable pub parse_presigned_url_params : (query_value : Text → Text) → Option ParsedAuth
  parse_presigned_url_params query_value = do
    algo ← required_value (query_value (codes "X-HMAC-Algorithm"))
    credential ← required_value (query_value (codes "X-HMAC-Credential"))
    signed_headers ← required_value (query_value (codes "X-HMAC-SignedHeaders"))
    signature ← required_value (query_value (codes "X-HMAC-Signature"))
    key_time ← parse_credential credential
    sig ← decode signature
    some (record {
      algorithm = algo;
      access_key_id = key_time.0;
      timestamp = key_time.1;
      headers = split signed_headers b';';
      signature = sig;
      is_presigned = true;
    })

  module _ (query_value : Text → Text) (canonical : Text → Text) (c : Config) where
    unfoldable pub auth_header : Request → Text
    auth_header r = get (canonical c.auth_header_name) r.headers

    -- What is parsed of a request: nothing is a missing or invalid authorization.
    unfoldable pub parsed_auth : Request → Option ParsedAuth
    parsed_auth r =
        if text_eq (auth_header r) []
        then (if c.allow_presigned_urls then parse_presigned_url_params query_value else none)
        else parse_authorization_header (auth_header r)

    -- The handler of `New`.
    module _ (format_time : ℕ → Text) (path_escape : Text → Text) (query_string : Bool → Text)
        (mac : Text → Text → Text) (credential_store : Text → List Text)
        (body_hash : Option Text) where
      unfoldable pub handle : (now : ℕ) → Request → Verdict
      handle now r =
          if not (should_process_middleware r.path c.included_paths c.excluded_paths)
          then not_checked
          else elim (parsed_auth r) [
            | none ↦
                if text_eq (auth_header r) [] && not c.allow_presigned_urls
                then missing_auth
                else invalid_format
            | some p ↦
                authenticate canonical format_time path_escape query_string mac credential_store
                  body_hash c now r p
          ]
