-- ===== src/Media/Tests.antt =====
-- Media types at concrete inputs.
use zerohttp.Prelude.{◌≡◌, refl, true, false, List, [], ◌∷◌, ◌++◌, none, All}
use zerohttp.Prelude.Int.{pos}
use zerohttp.Text.{
  Text, codes, text_eq, has_prefix, to_lower, trim_space, trim_left, trim_right, split, split_from,
  before, after,
}
use zerohttp.Http.{Request}
use zerohttp.Media.{
  Config, Pattern, normalize_pattern, normalize_patterns, after_first, match_rest, match_parts,
  match_wildcard, match_pattern, covered, match_media_type, accept_part, find_in,
  find_matching_type,
}
use zerohttp.Media.Wildcard.{match_wildcard_repeated}

split_example : split (codes "application/*json") b'*' ≡ codes "application/" ∷ codes "json" ∷ []
unfolding split split_from
split_example = refl

match_example : match_wildcard (codes "application/hal+json") (codes "application/*json") ≡ true
unfolding match_wildcard match_parts match_rest after_first split split_from has_prefix text_eq
match_example = refl

-- A range is found in place of a concrete type.
range_found :
    find_matching_type (codes "application/*") (normalize_patterns (codes "application/json" ∷ []))
    ≡ codes "application/*"
unfolding find_matching_type find_in normalize_patterns normalize_pattern match_media_type
    match_pattern covered match_wildcard match_parts match_rest accept_part split split_from before
    after trim_space trim_left trim_right to_lower has_prefix text_eq after_first
range_found = refl

match_wildcard_repeated_example :
    match_wildcard
      (codes "text/" ++ (codes "v1" ++ codes "v1"))
      (codes "text/" ++ b'*' ∷ codes "v1")
    ≡ false
match_wildcard_repeated_example =
    match_wildcard_repeated (codes "text/") (codes "v1") refl refl (λ e. cc)

abbrev config : Config
config = record {
  allowed_types = codes "application/json" ∷ [];
  default_type = codes "application/json";
  validate_content_type = true;
  response_type_header = codes "X-Type";
  response_type_func = none;
  excluded_paths = [];
  included_paths = [];
}

abbrev ask : Request
ask = record {
  method = codes "GET";
  path = codes "/";
  host = [];
  headers = (codes "Accept", codes "*/*" ∷ []) ∷ [];
  content_length = pos 0;
}

abbrev seen : Request
seen = record ask { headers = (codes "Accept", codes "application/json" ∷ []) ∷ [] }

abbrev preferred : Text
preferred = codes "text/html, Application/JSON;q=0.5"

abbrev json : List Pattern
json = normalize_patterns (codes "application/json" ∷ [])

found : find_matching_type preferred json ≡ codes "application/json"
unfolding find_matching_type find_in normalize_patterns normalize_pattern match_media_type
    match_pattern covered match_wildcard match_parts match_rest accept_part split split_from before
    after trim_space trim_left trim_right to_lower has_prefix text_eq after_first
found = refl

no_star : All (λ p. text_eq (accept_part p) (codes "*/*") ≡ false) (split preferred b',')
unfolding split split_from accept_part before trim_space trim_left trim_right text_eq
no_star = (refl, (refl, tt))
