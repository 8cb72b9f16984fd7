-- ===== src/Content/Kind.antt =====
-- middleware/contenttype/content_type.go: the handler of `New`.
use zerohttp.Prelude.{
  ◌≡◌, ◌↔◌, ◌⊎◌, inl, inr, Bool, true, false, not, ◌||◌, List, [], ◌∷◌, if◌then◌else◌, Bool-cases,
  arith,
}
use zerohttp.Text.{Text, codes, to_lower, trim_space, before}
use zerohttp.Http.{Headers, get, set, Request, Outcome, pass, problem, contains, verdict_iff}
use zerohttp.Paths.{should_process_middleware}
use zerohttp.Http.Contains.{IsIn, contains_iff}
use zerohttp.Content.{is_empty_body, allowed_names}

pub record Config : Type 0 where
  pub content_types : List Text
  pub excluded_paths : List Text
  pub included_paths : List Text

-- The content type of the request without its parameters.
unfoldable pub content_type : Request → Text
content_type r = to_lower (trim_space (before (get (codes "Content-Type") r.headers) b';'))

unfoldable pub accept_post : List Text → Headers → Headers
accept_post [] w = w
accept_post (t ∷ ts) w = set (codes "Accept-Post") t w

module _ (c : Config) (r : Request) (w : Headers) where
  unfoldable pub handle : Outcome
  handle =
      if should_process_middleware r.path c.included_paths c.excluded_paths
      then if is_empty_body r.content_length
        then pass r w
        else if contains (content_type r) (allowed_names c.content_types)
        then pass r w
        else problem 415 (codes "Unsupported content type") (accept_post c.content_types w)
      else pass r w

  -- The middleware does not apply, there is no body, or its type is on the list.
  abbrev pub IsWelcome : Type 0
  IsWelcome =
      (should_process_middleware r.path c.included_paths c.excluded_paths ≡ false)
      ⊎ ((is_empty_body r.content_length ≡ true)
          ⊎ IsIn (content_type r) (allowed_names c.content_types))

  -- The tests of the handler, as one.
  abbrev welcome : Bool
  welcome =
      not (should_process_middleware r.path c.included_paths c.excluded_paths)
      || (is_empty_body r.content_length
          || contains (content_type r) (allowed_names c.content_types))

  handle-welcome : handle ≡ (
      if welcome
      then pass r w
      else problem 415 (codes "Unsupported content type") (accept_post c.content_types w))
  unfolding handle
  handle-welcome = ground arith

  welcome_iff : (welcome ≡ true) ↔ IsWelcome
  welcome_iff =
      let known = contains_iff (content_type r) (allowed_names c.content_types) in
      (
        λ h.
            elim (Bool-cases (should_process_middleware r.path c.included_paths c.excluded_paths)) [
              | inr skipped ↦ inl skipped
              | inl looked ↦ elim (Bool-cases (is_empty_body r.content_length)) [
                | inl empty ↦ inr (inl empty)
                | inr body ↦ inr (inr (known.0 (ground arith)))
              ]
            ],
        λ p. elim p [
          | inl skipped ↦ ground arith
          | inr (inl empty) ↦ ground arith
          | inr (inr listed) ↦ let there = known.1 listed in ground arith
        ],
      )

  -- A request is passed on exactly when the middleware does not apply to its path, it has no body,
  -- or the type of its body is one of the allowed types, without regard to case, spaces around it
  -- and parameters; any other is answered with 415 and the first allowed type in `Accept-Post`.
  pub handle_kind_iff :
      ((handle ≡ pass r w) ↔ IsWelcome)
      × ((handle ≡ problem 415 (codes "Unsupported content type") (accept_post c.content_types w))
          ↔ (¬ IsWelcome))
  handle_kind_iff = rw handle-welcome (
      verdict_iff welcome r 415 (codes "Unsupported content type") w (accept_post c.content_types w)
        welcome_iff)
