-- ===== src/Media.antt =====
-- middleware/mediatype/media_type.go: the patterns of media types, their matching and the handler
-- of `New`. Whether the request has a body (`r.Body` is neither nil nor `http.NoBody`) is an
-- argument of the handler.
pub mod Wildcard
pub mod Negotiation
pub mod Tests
use zerohttp.Prelude.{
  Bool, true, false, not, ◌&&◌, ◌||◌, List, [], ◌∷◌, Option, none, some, if◌then◌else◌, any, length,
  drop, nat_beq,
}
use zerohttp.Text.{
  Text, codes, text_eq, has_prefix, to_lower, trim_space, split, before, after, join,
}
use zerohttp.Http.{Headers, get, set, Request, Outcome, pass, problem}
use zerohttp.Paths.{should_process_middleware}
use zerohttp.Content.{is_empty_body}

pub record Config : Type 0 where
  pub allowed_types : List Text
  pub default_type : Text
  pub validate_content_type : Bool
  pub response_type_header : Text
  pub response_type_func : Option (Text → Text)
  pub excluded_paths : List Text
  pub included_paths : List Text

pub record Pattern : Type 0 where
  pub media_type : Text
  pub suffix : Text
  pub has_media_type_wildcard : Bool
  pub has_suffix_wildcard : Bool

-- `strings.Contains(s, "*")`.
abbrev pub has_star : Text → Bool
has_star s = any (nat_beq b'*') s

unfoldable pub normalize_pattern : Text → Pattern
normalize_pattern p = record {
  media_type = before p b'+';
  suffix = after p b'+';
  has_media_type_wildcard = has_star (before p b'+');
  has_suffix_wildcard = has_star (after p b'+');
}

unfoldable pub normalize_patterns : List Text → List Pattern
normalize_patterns [] = []
normalize_patterns (p ∷ ps) =
    let rest = normalize_patterns ps in
    if text_eq (to_lower (trim_space p)) []
    then rest
    else normalize_pattern (to_lower (trim_space p)) ∷ rest

-- `strings.Index` and the slice behind the part that it finds.
unfoldable pub after_first : Text → Text → Option Text
after_first part [] = if has_prefix [] part then some [] else none
after_first part (c ∷ s) =
    let rest = after_first part s in
    if has_prefix (c ∷ s) part then some (drop (length part) (c ∷ s)) else rest

-- The loop over the parts that follow a star.
unfoldable pub match_rest : Text → List Text → Bool
match_rest s [] = text_eq s []
match_rest s ([] ∷ []) = true
match_rest s ([] ∷ p ∷ more) = match_rest s (p ∷ more)
match_rest s ((a ∷ part) ∷ more) = elim (after_first (a ∷ part) s) [
  | none ↦ false
  | some rest ↦ match_rest rest more
]

unfoldable pub match_parts : Text → Text → List Text → Bool
match_parts s pattern [] = false
match_parts s pattern (p ∷ []) = text_eq s pattern
match_parts s pattern (p ∷ q ∷ more) = has_prefix s p && match_rest (drop (length p) s) (q ∷ more)

unfoldable pub match_wildcard : Text → Text → Bool
match_wildcard s pattern = match_parts s pattern (split pattern b'*')

unfoldable pub match_pattern : Text → Text → Pattern → Bool
match_pattern base suffix p =
    (if p.has_suffix_wildcard
      then not (text_eq suffix []) && match_wildcard suffix p.suffix
      else text_eq p.suffix suffix)
    && (if p.has_media_type_wildcard
        then match_wildcard base p.media_type
        else text_eq base p.media_type)

-- The client's wildcard covers the allowed type.
unfoldable pub covered : Text → Text → Pattern → Bool
covered base suffix p =
    (text_eq suffix [] || text_eq p.suffix suffix) && match_wildcard (to_lower p.media_type) base

unfoldable pub match_media_type : Text → List Pattern → Bool
match_media_type t allowed =
    let base = before t b'+' in
    let suffix = after t b'+' in
    any (match_pattern base suffix) allowed || (has_star t && any (covered base suffix) allowed)

-- An element of `Accept` without its parameters.
unfoldable pub accept_part : Text → Text
accept_part part = trim_space (before (trim_space part) b';')

unfoldable pub find_in : List Pattern → List Text → Text
find_in allowed [] = []
find_in allowed (part ∷ parts) =
    let rest = find_in allowed parts in
    let t = accept_part part in
    if text_eq t [] || text_eq t (codes "*/*")
    then rest
    else if match_media_type (to_lower t) allowed
    then to_lower t
    else rest

unfoldable pub find_matching_type : Text → List Pattern → Text
find_matching_type accept allowed = find_in allowed (split accept b',')

unfoldable pub match_in : List Pattern → List Text → Bool
match_in allowed [] = false
match_in allowed (part ∷ parts) =
    let rest = match_in allowed parts in
    let t = accept_part part in
    if text_eq t []
    then rest
    else text_eq t (codes "*/*") || (match_media_type (to_lower t) allowed || rest)

unfoldable pub match_accept_header : Text → List Pattern → Bool
match_accept_header accept allowed = match_in allowed (split accept b',')

-- `Accept` asks for nothing in particular.
unfoldable pub is_open_accept : Text → Bool
is_open_accept accept = text_eq accept [] || text_eq accept (codes "*/*")

module _ (c : Config) where
  unfoldable pub negotiated_type : Text → List Pattern → Text
  negotiated_type accept allowed =
      if is_open_accept accept
      then c.default_type
      else if text_eq (find_matching_type accept allowed) []
      then c.default_type
      else find_matching_type accept allowed

  unfoldable pub effective_type : Text → Text
  effective_type t = elim c.response_type_func [ none ↦ t | some f ↦ f t ]

  unfoldable pub type_header : Text → Headers → Headers
  type_header t w =
      if not (text_eq c.response_type_header []) && not (text_eq t [])
      then set c.response_type_header t w
      else w

  unfoldable pub body_type : Request → Text
  body_type r = trim_space (to_lower (before (get (codes "Content-Type") r.headers) b';'))

  unfoldable pub body_refused : Request → Bool → List Pattern → Bool
  body_refused r has_body allowed =
      c.validate_content_type
      && (not (is_empty_body r.content_length)
          && (has_body
              && (not (text_eq (body_type r) []) && not (match_media_type (body_type r) allowed))))

  -- The request that the wrapped handler sees: an open `Accept` becomes the default type.
  unfoldable pub concrete_accept : Request → Request
  concrete_accept r =
      if not (text_eq c.default_type []) && is_open_accept (get (codes "Accept") r.headers)
      then record r { headers = set (codes "Accept") c.default_type r.headers }
      else r

  unfoldable pub accept_types : Headers → Headers
  accept_types w = set (codes "Accept") (join c.allowed_types (codes ", ")) w

  unfoldable pub check_types : Request → Bool → List Pattern → Headers → Outcome
  check_types r has_body allowed w =
      let accept = get (codes "Accept") r.headers in
      if not (is_open_accept accept) && not (match_accept_header accept allowed)
      then problem 406 (codes "The requested media type is not supported") (accept_types w)
      else let v = type_header (effective_type (negotiated_type accept allowed)) w in
        if body_refused r has_body allowed
        then problem 415 (codes "The request body content type is not supported") (accept_types v)
        else pass (concrete_accept r) v

  unfoldable pub handle : Request → Bool → Headers → Outcome
  handle r has_body w = elim c.allowed_types [
    | [] ↦ pass r w
    | t ∷ ts ↦
        if should_process_middleware r.path c.included_paths c.excluded_paths
        then check_types r has_body (normalize_patterns c.allowed_types) w
        else pass r w
  ]

-- `VendorShortType`.
unfoldable pub vendor_short_type : Text → Text
vendor_short_type t =
    let prefix = codes "application/vnd." in
    if has_prefix t prefix then before (drop (length prefix) t) b'+' else t
