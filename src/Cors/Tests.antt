-- ===== src/Cors/Tests.antt =====
-- The CORS handler at concrete inputs.
use zerohttp.Prelude.{◌≡◌, refl, ◌↔◌, true, false, [], ◌∷◌, none}
use zerohttp.Prelude.Int.{pos}
use zerohttp.Text.{Text, codes, text_eq, to_lower}
use zerohttp.Map.{lookup, insert}
use zerohttp.Http.{get, set, Request, contains}
use zerohttp.Paths.{should_process_middleware}
use zerohttp.Cors.{
  Config, scan_origins, origin_allowed, allowed_origin, origin_headers, answer_preflight,
  handle_origin, handle, header_origin, header_allow_origin, header_max_age, header_request_method,
  header_request_headers,
}
use zerohttp.Cors.Laws.{response_of, credentials_no_star}
use zerohttp.Cors.Preflight.{MethodAllowed, HeadersAllowed, preflight_granted_iff}

abbrev site : Text
site = codes "https://a.example"

abbrev config : Config
config = record {
  allowed_origins = codes "https://A.example" ∷ [];
  allowed_methods = codes "GET" ∷ codes "POST" ∷ [];
  allowed_headers = codes "Accept" ∷ [];
  exposed_headers = [];
  allow_credentials = true;
  max_age = codes "600";
  options_passthrough = false;
  allow_origin_func = none;
  excluded_paths = [];
  included_paths = [];
}

abbrev ask : Text → Request
ask method = record {
  method = method;
  path = codes "/";
  host = codes "h";
  headers =
      (header_origin, site ∷ [])
      ∷ (header_request_method, codes "post" ∷ [])
      ∷ (header_request_headers, codes "accept, ACCEPT" ∷ [])
      ∷ [];
  content_length = pos 0;
}

handler : Unit {0}
unfolding handle handle_origin origin_headers allowed_origin origin_allowed scan_origins contains
    to_lower should_process_middleware text_eq get set lookup insert answer_preflight
handler = tt

credentials_no_star_example :
    get header_allow_origin (response_of config (ask (codes "GET")) [])
    ≡ get header_origin (ask (codes "GET")).headers
unfolding handler
credentials_no_star_example = credentials_no_star config (ask (codes "GET")) [] refl refl

preflight_granted_iff_example :
    (get header_max_age (response_of config (ask (codes "OPTIONS")) []) ≡ config.max_age) ↔ (
      MethodAllowed config (get header_request_method (ask (codes "OPTIONS")).headers)
      × HeadersAllowed config (get header_request_headers (ask (codes "OPTIONS")).headers))
unfolding handler
preflight_granted_iff_example =
    preflight_granted_iff config (ask (codes "OPTIONS")) [] refl (cc) refl refl
