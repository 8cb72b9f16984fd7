-- ===== src/Limit/Served/Tests.antt =====
-- The handler of the rate limiter at concrete inputs.
use zerohttp.Prelude.{ℕ, ◌≤◌, ◌≡◌, refl, true, List, [], ◌∷◌, All, length, keep, arith}
use zerohttp.Prelude.Int.{pos}
use zerohttp.Text.{codes, text_eq}
use zerohttp.Map.{lookup}
use zerohttp.Http.{Request, get}
use zerohttp.Paths.{should_process_middleware}
use zerohttp.Limit.{recent}
use zerohttp.Limit.Handler.{Config, header_key_extractor}
use zerohttp.Limit.Served.{serve, IsCounted, served_quota}

abbrev ask : Request
ask = record {
  method = codes "GET";
  path = codes "/a";
  host = codes "a.org";
  headers = (codes "X-Api-Key", codes "ann" ∷ []) ∷ [];
  content_length = pos 0;
}

abbrev config : Config
config = record {
  rate = 2;
  window_text = codes "10ns";
  key_extractor = header_key_extractor (codes "X-Api-Key");
  status_code = 429;
  message = codes "slow";
  include_headers = true;
  excluded_paths = [];
  included_paths = [];
}

abbrev asked : List (ℕ × ℕ × Request)
asked = (4, 4, ask) ∷ (8, 9, ask) ∷ (11, 11, ask) ∷ []

counted : All (IsCounted config 10 100 [] (codes "ann")) ((0, 1, ask) ∷ asked)
unfolding should_process_middleware header_key_extractor get lookup text_eq
counted = ((refl, refl), ((refl, refl), ((refl, refl), ((refl, refl), tt))))

served_quota_example :
    length (keep (recent 10 12) (serve config 10 100 [] ((0, 1, ask) ∷ asked) ([], []))) ≤ 2
unfolding lookup
served_quota_example =
    served_quota config 10 100 [] (codes "ann") (0, 1, ask) asked 12 [] (omega arith) refl counted
      (omega arith) (omega arith)

named : header_key_extractor (codes "X-Api-Key") ask ≡ codes "ann"
unfolding header_key_extractor get lookup text_eq
named = refl

unnamed : header_key_extractor (codes "X-User") ask ≡ []
unfolding header_key_extractor get lookup text_eq
unnamed = refl
