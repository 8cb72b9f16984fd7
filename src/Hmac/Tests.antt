-- ===== src/Hmac/Tests.antt =====
-- Signed requests, with the secret itself as the MAC.
use zerohttp.Prelude.{ℕ, ◌≡◌, ◌≢◌, ◌↔◌, refl, Bool, true, false, List, [], ◌∷◌, Option, none, some}
use zerohttp.Text.{
  Text, codes, text_eq, to_lower, trim_space, trim_left, trim_right, has_prefix, split, split_from,
}
use zerohttp.Map.{lookup}
use zerohttp.Http.{get, set}
use zerohttp.Hmac.{
  ParsedAuth, Config, Request, sha256, passed, authenticate, timestamp_holds, validate_timestamp,
  algorithm_name, min_length, required_missing, first_missing, is_missing, check_secrets,
  valid_secret_keys, hash_for, check_signature, signature_holds,
}
use zerohttp.Hmac.Parsing.{
  split_two, split_auth_pairs, read_pair, read_pairs, parse_credential, parse_timestamp, complete,
  parse_authorization_header, auth_header, parsed_auth, handle,
}
use zerohttp.Hmac.Decision.{IsAuthentic, authenticate-passed_iff}
use zerohttp.Hmac.Unsigned.Lines.{IsUnsigned, IsUntimed}
use zerohttp.Hmac.Unsigned.{header_unsigned, timestamp_unsigned}

abbrev config : Config
config = record {
  algorithm = sha256;
  required_headers = codes "host" ∷ codes "X-Tenant" ∷ [];
  excluded_paths = [];
  included_paths = [];
  auth_header_name = codes "Authorization";
  max_skew = 300;
  clock_skew_grace = 60;
  allow_unsigned_payload = false;
  allow_presigned_urls = false;
  timestamp_header = codes "X-Timestamp";
}

abbrev secret : Text
secret = codes "0123456789abcdef0123456789abcdef"

abbrev same_name : Text → Text
same_name name = name

abbrev time_text : ℕ → Text
time_text t = t ∷ []

abbrev query : Bool → Text
query presigned = []

abbrev mac : Text → Text → Text
mac key text = key

abbrev secrets : Text → List Text
secrets key = secret ∷ []

abbrev tenant : Text → Request
tenant name = record {
  method = codes "GET";
  path = codes "/a";
  host = codes "h";
  headers = (codes "X-Tenant", name ∷ []) ∷ [];
}

-- Signed is the host alone.
abbrev auth : ParsedAuth
auth = record {
  algorithm = codes "HMAC-SHA256";
  access_key_id = codes "k";
  timestamp = 1000;
  headers = codes "host" ∷ [];
  signature = secret;
  is_presigned = false;
}

accepted :
    authenticate same_name time_text same_name query mac secrets
      (some [])
      config
      1010
      (tenant (codes "a"))
      auth
    ≡ passed (codes "k")
unfolding authenticate text_eq to_lower algorithm_name required_missing first_missing is_missing get
    lookup check_secrets timestamp_holds validate_timestamp valid_secret_keys min_length hash_for
    check_signature signature_holds
accepted = refl

authenticate-passed_iff_example :
    (authenticate same_name time_text same_name query mac secrets
        (some [])
        config
        1010
        (tenant (codes "a"))
        auth
      ≡ passed (codes "k"))
    ↔ IsAuthentic same_name time_text same_name query mac secrets
        (some [])
        config
        1010
        (tenant (codes "a"))
        auth
authenticate-passed_iff_example =
    authenticate-passed_iff same_name time_text same_name query mac secrets (some []) config 1010
      (tenant (codes "a")) auth

tenant-IsUnsigned : IsUnsigned same_name (codes "X-Tenant") auth.headers
unfolding text_eq to_lower trim_space trim_left trim_right
tenant-IsUnsigned = (refl, tt)

abbrev line : Text
line = codes "HMAC-SHA256 Credential=k/1000, SignedHeaders=host, Signature=sig"

abbrev signed : Request
signed = record (tenant (codes "a")) {
  headers = (codes "X-Tenant", codes "a" ∷ []) ∷ (codes "Authorization", line ∷ []) ∷ [];
}

abbrev parse_time : Text → Text → Option ℕ
parse_time layout s = some 1000

abbrev decode : Text → Option Text
decode s = some secret

abbrev value_of : Text → Text
value_of name = []

parsed : parsed_auth parse_time decode value_of same_name config signed ≡ some auth
unfolding parsed_auth auth_header get lookup text_eq parse_authorization_header split_two
    split_auth_pairs read_pairs read_pair parse_credential parse_timestamp complete has_prefix split
    split_from trim_space trim_left trim_right
parsed = refl

-- An authorization without a signature.
unsigned :
    parse_authorization_header parse_time decode
      (codes "HMAC-SHA256 Credential=k/1000, SignedHeaders=host")
    ≡ none
unfolding text_eq parse_authorization_header split_two split_auth_pairs read_pairs read_pair
    parse_credential parse_timestamp complete has_prefix split split_from trim_space trim_left
    trim_right
unsigned = refl

tenant_there : get (codes "X-Tenant") signed.headers ≢ []
unfolding get lookup text_eq
tenant_there e = cc

tenant_other : text_eq (codes "X-Tenant") (codes "Authorization") ≡ false
unfolding text_eq
tenant_other = refl

header_unsigned_example :
    handle parse_time decode value_of same_name config time_text same_name query mac secrets
      (some [])
      1010
      (record signed { headers = set (codes "X-Tenant") (codes "b") signed.headers })
    ≡ handle parse_time decode value_of same_name config time_text same_name query mac secrets
        (some [])
        1010
        signed
header_unsigned_example =
    header_unsigned same_name time_text same_name query mac secrets (some []) config parse_time
      decode value_of 1010 signed auth (codes "X-Tenant") (codes "b") parsed tenant_other
      tenant-IsUnsigned tenant_there (λ e. cc)

untimed : IsUntimed same_name config.timestamp_header auth.headers
unfolding text_eq to_lower trim_space trim_left trim_right
untimed = (refl, tt)

held :
    timestamp_holds same_name time_text same_name query mac secrets (some []) config 1010 auth
    ≡ true
unfolding timestamp_holds validate_timestamp
held = refl

held_later :
    timestamp_holds same_name time_text same_name query mac secrets
      (some [])
      config
      9000
      (record auth { timestamp = 8990 })
    ≡ true
unfolding timestamp_holds validate_timestamp
held_later = refl

timestamp_unsigned_example :
    authenticate same_name time_text same_name query mac secrets
      (some [])
      config
      9000
      (tenant (codes "a"))
      (record auth { timestamp = 8990 })
    ≡ authenticate same_name time_text same_name query mac secrets
        (some [])
        config
        1010
        (tenant (codes "a"))
        auth
timestamp_unsigned_example =
    timestamp_unsigned same_name time_text same_name query mac secrets (some []) config 1010 9000
      8990 (tenant (codes "a")) auth untimed held held_later
