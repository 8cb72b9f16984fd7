-- ===== src/Media/Negotiation.antt =====
-- The negotiation of middleware/mediatype/media_type.go: findMatchingType, matchAcceptHeader and the
-- handler.
use zerohttp.Prelude.{
  ◌≡◌, refl, ◌≢◌, ◌↔◌, Bool-cases, inl, inr, Bool, true, false, List, [], ◌∷◌, All, arith,
}
use zerohttp.Text.{Text, codes, text_eq, to_lower, split}
use zerohttp.Text.Laws.{text_eq_iff}
use zerohttp.Http.{Headers, get, Request}
use zerohttp.Media.{
  Config, Pattern, match_media_type, accept_part, find_in, find_matching_type, match_in,
  match_accept_header, normalize_patterns,
}

lower_empty : (t : Text) → text_eq (to_lower t) [] ≡ text_eq t []
unfolding to_lower text_eq
lower_empty [] = refl
lower_empty (a ∷ t) = refl

module _ (allowed : List Pattern) where
  find_in-match_in :
      (parts : List Text)
      → text_eq (find_in allowed parts) [] ≡ false
      → (match_in allowed parts ≡ true) × (match_media_type (find_in allowed parts) allowed ≡ true)
  unfolding find_in match_in text_eq
  find_in-match_in [] h = absurd (ground arith)
  find_in-match_in (p ∷ ps) h = ground (arith, find_in-match_in ps)

  -- Without `*/*` among the parts, one that matches is found.
  match_in-find_in :
      (parts : List Text)
      → All (λ p. text_eq (accept_part p) (codes "*/*") ≡ false) parts
      → match_in allowed parts ≡ true
      → text_eq (find_in allowed parts) [] ≡ false
  unfolding find_in match_in text_eq
  match_in-find_in [] a h = absurd (ground arith)
  match_in-find_in (p ∷ ps) (a, as_) h =
      ground (arith, match_in-find_in ps as_, lower_empty (accept_part p))

  found_full : (found : Text) → found ≢ [] → text_eq found [] ≡ false
  found_full found n = elim (Bool-cases (text_eq found [])) [
    | inl empty ↦ absurd (n ((text_eq_iff found []).0 empty))
    | inr full ↦ full
  ]

  -- Where findMatchingType finds a type, the header is accepted, and the type matches one of the
  -- allowed patterns.
  pub find_matching_type-match :
      (accept : Text)
      → find_matching_type accept allowed ≢ []
      → (match_accept_header accept allowed ≡ true)
        × (match_media_type (find_matching_type accept allowed) allowed ≡ true)
  unfolding find_matching_type match_accept_header
  find_matching_type-match accept n = find_in-match_in (split accept b',') (found_full _ n)

  -- Where no element of the header is `*/*`, findMatchingType finds a type exactly when the header is
  -- accepted.
  pub find_matching_type_iff :
      (accept : Text)
      → All (λ p. text_eq (accept_part p) (codes "*/*") ≡ false) (split accept b',')
      → (find_matching_type accept allowed ≢ []) ↔ (match_accept_header accept allowed ≡ true)
  unfolding find_matching_type match_accept_header
  find_matching_type_iff accept a =
      let parts = split accept b',' in
      (
        (λ n. (find_in-match_in parts (found_full _ n)).0),
        (λ h e.
            let full = match_in-find_in parts a h in
            let same = (text_eq_iff (find_in allowed parts) []).1 e in cc),
      )

module _ (c : Config) (r : Request) (has_body : Bool) (w : Headers) where
  abbrev accept : Text
  accept = get (codes "Accept") r.headers

  abbrev allowed : List Pattern
  allowed = normalize_patterns c.allowed_types
