-- ===== src/Content/Charset.antt =====
-- middleware/contentcharset/content_charset.go: the handler of `New`, contentEncoding and split.
use zerohttp.Prelude.{
  ◌≡◌, refl, ◌↔◌, ◌⊎◌, inl, inr, Bool, true, false, List, [], ◌∷◌, ◌++◌, map, if◌then◌else◌, All,
  Bool-cases,
}
use zerohttp.Text.{Text, codes, has_prefix, to_lower, trim_space, split, after}
use zerohttp.Http.{Headers, get, set, Request, Outcome, pass, problem, contains, verdict_iff}
use zerohttp.Http.Contains.{IsIn, contains_iff}

pub record Config : Type 0 where
  pub charsets : List Text

-- A parameter of the content type that names a charset, and the charset that it names.
unfoldable pub names_charset : Text → Bool
names_charset part = has_prefix (trim_space part) (codes "charset")

unfoldable pub charset_of : Text → Text
charset_of part = trim_space (trim_space (after (trim_space part) b'='))

module _ (charsets : List Text) where
  -- The loop over the parts: the first one that names a charset decides.
  unfoldable pub parts_allowed : List Text → Bool
  parts_allowed [] = contains [] charsets
  parts_allowed (p ∷ ps) =
      let rest = parts_allowed ps in
      if names_charset p then contains (charset_of p) charsets else rest

  unfoldable pub content_encoding : Text → Bool
  content_encoding ce = parts_allowed (split (to_lower ce) b';')

  -- The first part that names a charset names one of the list, or no part names one and the list
  -- has the empty charset.
  abbrev pub NamesAllowed : List Text → Type 0
  NamesAllowed parts =
      ((front : List Text) × (p : Text) × (back : List Text) × (parts ≡ front ++ p ∷ back)
        × All (λ q. names_charset q ≡ false) front
        × (names_charset p ≡ true)
        × IsIn (charset_of p) charsets)
      ⊎ (All (λ q. names_charset q ≡ false) parts × IsIn [] charsets)

  parts_sound : (parts : List Text) → parts_allowed parts ≡ true → NamesAllowed parts
  unfolding parts_allowed
  parts_sound [] h = inr (tt, (contains_iff [] charsets).0 h)
  parts_sound (p ∷ ps) h = elim (Bool-cases (names_charset p)) [
    | inl named ↦
        inl ([], p, ps, refl, tt, named, (contains_iff (charset_of p) charsets).0 (rw named at h))
    | inr other ↦ elim (parts_sound ps (rw other at h)) [
      | inl (front, q, back, e, none_, named, listed) ↦
          inl (p ∷ front, q, back, rw e, (other, none_), named, listed)
      | inr (none_, listed) ↦ inr ((other, none_), listed)
    ]
  ]

  front_allowed :
      (front : List Text) (p : Text) (back : List Text)
      → All (λ q. names_charset q ≡ false) front
      → names_charset p ≡ true
      → IsIn (charset_of p) charsets
      → parts_allowed (front ++ p ∷ back) ≡ true
  unfolding parts_allowed
  front_allowed [] p back none_ named i = rw named ((contains_iff (charset_of p) charsets).1 i)
  front_allowed (q ∷ front) p back (other, none_) named i =
      rw other (front_allowed front p back none_ named i)

  none_allowed :
      (parts : List Text)
      → All (λ q. names_charset q ≡ false) parts
      → IsIn [] charsets
      → parts_allowed parts ≡ true
  unfolding parts_allowed
  none_allowed [] n i = (contains_iff [] charsets).1 i
  none_allowed (p ∷ ps) (other, n) i = rw other (none_allowed ps n i)

  parts_iff : (parts : List Text) → (parts_allowed parts ≡ true) ↔ NamesAllowed parts
  parts_iff parts = (
    (λ h. parts_sound parts h),
    (λ n. elim n [
      | inl (front, p, back, e, none_, named, i) ↦ rw e (front_allowed front p back none_ named i)
      | inr (none_, i) ↦ none_allowed parts none_ i
    ]),
  )

-- `Accept-Post` of a refusal: JSON with the first allowed charset.
unfoldable pub accept_post : List Text → Headers → Headers
accept_post [] w = w
accept_post (s ∷ ss) w = set (codes "Accept-Post") (codes "application/json; charset=" ++ s) w

unfoldable pub handle : Config → Request → Headers → Outcome
unfolding content_encoding
handle c r w =
    if content_encoding (map to_lower c.charsets) (get (codes "Content-Type") r.headers)
    then pass r w
    else problem 415 (codes "Unsupported charset") (accept_post c.charsets w)

-- A request is passed on exactly when the first part of its content type that begins with `charset`
-- names an allowed charset, without regard to case, or no part does and the empty charset is
-- allowed; any other is answered with 415.
pub handle_charset_iff :
    (c : Config) (r : Request) (w : Headers)
    → let ok =
        NamesAllowed
          (map to_lower c.charsets)
          (split (to_lower (get (codes "Content-Type") r.headers)) b';') in
      ((handle c r w ≡ pass r w) ↔ ok)
      × ((handle c r w ≡ problem 415 (codes "Unsupported charset") (accept_post c.charsets w))
          ↔ (¬ ok))
unfolding handle
handle_charset_iff c r w =
    verdict_iff _ r 415 (codes "Unsupported charset") w (accept_post c.charsets w) (
      parts_iff (map to_lower c.charsets)
        (split (to_lower (get (codes "Content-Type") r.headers)) b';'))
