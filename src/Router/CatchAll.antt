-- ===== src/Router/CatchAll.antt =====
-- router.go: the handler of what no route takes (catchAllHandler). The header of the request identity
-- and what its generator gives are arguments; the requests that are logged are left out.
pub mod Laws
pub mod Unrouted
use zerohttp.Prelude.{ℕ, Bool, true, false, List, [], ◌∷◌, Option, none, some, if◌then◌else◌}
use zerohttp.Text.{Text, codes, text_eq}
use zerohttp.Http.{Headers, get, set, Request}
use zerohttp.Router.{Methods, Routes, Scope, has_method}
use zerohttp.Router.Pattern.{find_matching_route}
use zerohttp.Router.Allow.{allowed_methods}

-- A status without a body, or a handler that answers.
pub data Answer (H : Type 0) : Type 0 where
  write_status : (status : ℕ) → Headers → Answer H
  call : H → Headers → Answer H

pub record LogConfig : Type 0 where
  pub disable_default_middlewares : Bool
  pub enabled : Option Bool
  pub request_id_header : Text

unfoldable pub should_log_request : LogConfig → Bool
should_log_request c =
    if c.disable_default_middlewares then false else elim c.enabled [ none ↦ true | some b ↦ b ]

-- The header of the request identity: the request's own, or a generated one.
unfoldable pub request_id_headers : LogConfig → Text → Request → Headers → Headers
request_id_headers c generated r w =
    if should_log_request c
    then set c.request_id_header
        (if text_eq (get c.request_id_header r.headers) []
          then generated
          else get c.request_id_header r.headers)
        w
    else w

module _ {H : Type 0} where
  -- The answer for a path that some route takes.
  unfoldable pub answer_known : Scope H → Methods → Request → Headers → Answer H
  answer_known s methods r v =
      if text_eq r.method (codes "OPTIONS")
      then write_status 204 (set (codes "Allow") (allowed_methods methods) v)
      else if has_method r.method methods
      then call s.not_found_handler v
      else call s.method_not_allowed_handler (set (codes "Allow") (allowed_methods methods) v)

  unfoldable pub catch_all : LogConfig → Text → Scope H → Routes → Request → Headers → Answer H
  catch_all c generated s routes r w = elim (find_matching_route r.path routes) [
    | none ↦ call s.not_found_handler (request_id_headers c generated r w)
    | some methods ↦ answer_known s methods r (request_id_headers c generated r w)
  ]
