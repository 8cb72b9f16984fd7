-- ===== src/Content/Encoding.antt =====
-- middleware/contentencoding/content_encoding.go: the handler of `New`.
use zerohttp.Prelude.{
  ◌≡◌, refl, ◌↔◌, ◌⊎◌, inl, inr, Bool, true, false, not, ◌&&◌, ◌||◌, List, [], ◌∷◌, if◌then◌else◌,
  All, Bool-cases, arith,
}
use zerohttp.Text.{Text, codes, text_eq, to_lower, trim_space, split, join}
use zerohttp.Text.Laws.{text_eq_iff}
use zerohttp.Http.{Headers, values, set, Request, Outcome, pass, problem, contains, verdict_iff}
use zerohttp.Paths.{should_process_middleware}
use zerohttp.Http.Contains.{IsIn, contains_iff}
use zerohttp.Content.{is_empty_body, allowed_names}

pub record Config : Type 0 where
  pub encodings : List Text
  pub excluded_paths : List Text
  pub included_paths : List Text

unfoldable pub accept_encoding : List Text → Headers → Headers
accept_encoding [] w = w
accept_encoding (e ∷ es) w = set (codes "Accept-Encoding") (join (e ∷ es) (codes ", ")) w

module _ (allowed : List Text) where
  -- One element of a list of encodings: it is empty or allowed.
  unfoldable pub encoding_allowed : Text → Bool
  encoding_allowed e =
      text_eq (trim_space (to_lower e)) [] || contains (trim_space (to_lower e)) allowed

  unfoldable pub encodings_allowed : List Text → Bool
  encodings_allowed [] = true
  encodings_allowed (e ∷ es) = encoding_allowed e && encodings_allowed es

  -- The two loops, over the values of the header and the encodings that each lists.
  unfoldable pub values_allowed : List Text → Bool
  values_allowed [] = true
  values_allowed (v ∷ vs) = encodings_allowed (split v b',') && values_allowed vs

  abbrev pub Known : Text → Type 0
  Known e = (trim_space (to_lower e) ≡ []) ⊎ IsIn (trim_space (to_lower e)) allowed

  Known-iff : (e : Text) → (encoding_allowed e ≡ true) ↔ Known e
  unfolding encoding_allowed
  Known-iff e =
      let n = trim_space (to_lower e) in
      let empty = text_eq_iff n [] in
      let listed = contains_iff n allowed in
      (
        (λ h. elim (Bool-cases (text_eq n [])) [
          | inl none_ ↦ inl (empty.0 none_)
          | inr named ↦ inr (listed.0 (ground arith))
        ]),
        (λ p. elim p [
          | inl e ↦ let there = empty.1 e in ground arith
          | inr i ↦ let there = listed.1 i in ground arith
        ]),
      )

  All-Known_iff : (es : List Text) → (encodings_allowed es ≡ true) ↔ All Known es
  unfolding encodings_allowed
  All-Known_iff [] = ((λ _. tt), (λ _. refl))
  All-Known_iff (e ∷ es) =
      let one = Known-iff e in
      let more = All-Known_iff es in
      (
        (λ h. (one.0 (ground arith), more.0 (ground arith))),
        (λ (p : Known e × All Known es). let a = one.1 p.0 in let b = more.1 p.1 in ground arith),
      )

  values-Known_iff :
      (vs : List Text) → (values_allowed vs ≡ true) ↔ All (λ v. All Known (split v b',')) vs
  unfolding values_allowed
  values-Known_iff [] = ((λ _. tt), (λ _. refl))
  values-Known_iff (v ∷ vs) =
      let one = All-Known_iff (split v b',') in
      let more = values-Known_iff vs in
      (
        (λ h. (one.0 (ground arith), more.0 (ground arith))),
        (λ (p : All Known (split v b',') × All (λ u. All Known (split u b',')) vs).
            let a = one.1 p.0 in let b = more.1 p.1 in ground arith),
      )

module _ (c : Config) (r : Request) (w : Headers) where
  unfoldable pub handle : Outcome
  handle =
      if should_process_middleware r.path c.included_paths c.excluded_paths
      then if is_empty_body r.content_length
        then pass r w
        else if values_allowed (allowed_names c.encodings)
            (values (codes "Content-Encoding") r.headers)
        then pass r w
        else problem 415 (codes "Unsupported content encoding") (accept_encoding c.encodings w)
      else pass r w

  -- The middleware does not apply, there is no body, or all its encodings are allowed.
  abbrev pub IsWelcome : Type 0
  IsWelcome =
      (should_process_middleware r.path c.included_paths c.excluded_paths ≡ false)
      ⊎ ((is_empty_body r.content_length ≡ true)
          ⊎ All (λ v. All (Known (allowed_names c.encodings)) (split v b','))
              (values (codes "Content-Encoding") r.headers))

  abbrev welcome : Bool
  welcome =
      not (should_process_middleware r.path c.included_paths c.excluded_paths)
      || (is_empty_body r.content_length
          || values_allowed (allowed_names c.encodings)
              (values (codes "Content-Encoding") r.headers))

  handle-welcome : handle ≡ (
      if welcome
      then pass r w
      else problem 415 (codes "Unsupported content encoding") (accept_encoding c.encodings w))
  unfolding handle
  handle-welcome = ground arith

  welcome_iff : (welcome ≡ true) ↔ IsWelcome
  welcome_iff =
      let known =
        values-Known_iff (allowed_names c.encodings)
          (values (codes "Content-Encoding") r.headers) in
      (
        (λ h.
            elim (Bool-cases (should_process_middleware r.path c.included_paths c.excluded_paths)) [
              | inr skipped ↦ inl skipped
              | inl looked ↦ elim (Bool-cases (is_empty_body r.content_length)) [
                | inl empty ↦ inr (inl empty)
                | inr body ↦ inr (inr (known.0 (ground arith)))
              ]
            ]),
        (λ p. elim p [
          | inl skipped ↦ ground arith
          | inr (inl empty) ↦ ground arith
          | inr (inr listed) ↦ let there = known.1 listed in ground arith
        ]),
      )

  -- A request is passed on exactly when the middleware does not apply to its path, it has no body, or
  -- every element of every value of its `Content-Encoding` is empty or one of the allowed encodings,
  -- without regard to case and spaces around it; any other is answered with 415 and the allowed
  -- encodings, if there are any, in `Accept-Encoding`.
  pub handle_encoding_iff :
      ((handle ≡ pass r w) ↔ IsWelcome)
      × ((handle
            ≡ problem 415 (codes "Unsupported content encoding") (accept_encoding c.encodings w))
          ↔ (¬ IsWelcome))
  handle_encoding_iff = rw handle-welcome (
      verdict_iff welcome r 415 (codes "Unsupported content encoding") w
        (accept_encoding c.encodings w) welcome_iff)
