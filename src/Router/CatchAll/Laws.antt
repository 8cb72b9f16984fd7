-- ===== src/Router/CatchAll/Laws.antt =====
-- Which answer the catch-all handler of router.go gives.
use zerohttp.Prelude.{
  ◌≡◌, refl, ◌≢◌, ◌⊎◌, inl, inr, true, false, [], ◌∷◌, some, Option-cases, Bool-cases, arith,
  Exists,
}
use zerohttp.Text.{Text, codes, text_eq}
use zerohttp.Text.Laws.{text_eq_iff}
use zerohttp.Http.{Headers, set, Request}
use zerohttp.Map.{lookup, text_keys}
use zerohttp.Router.{Methods, Routes, Scope, has_method}
use zerohttp.Router.Pattern.{match_pattern, first_match, find_matching_route}
use zerohttp.Router.Pattern.Laws.{Takes, find_matching_route_iff}
use zerohttp.Router.Allow.{allowed_methods}
use zerohttp.Router.CatchAll.{
  Answer, write_status, call, LogConfig, request_id_headers, answer_known, catch_all,
}

-- These are the methods of a registered pattern that takes the path.
abbrev pub AreMethodsFor : Text → Routes → Methods → Type 0
AreMethodsFor path routes methods = Exists (λ p. Takes path p × (p.1 ≡ methods)) routes

lookup_methods :
    (path : Text) (methods : Methods) (routes : Routes)
    → lookup path routes ≡ some methods
    → AreMethodsFor path routes methods
unfolding lookup
lookup_methods path methods [] h = cc
lookup_methods path methods ((p, m) ∷ routes) h = elim (Bool-cases (text_eq p path)) [
  | inl same ↦ inl (inl ((text_eq_iff p path).0 same), ground arith)
  | inr other ↦ inr (lookup_methods path methods routes (ground arith))
]

first_match_methods :
    (path : Text) (methods : Methods) (routes : Routes)
    → first_match path routes ≡ some methods
    → AreMethodsFor path routes methods
unfolding first_match
first_match_methods path methods [] h = cc
first_match_methods path methods ((p, m) ∷ routes) h = elim (Bool-cases (match_pattern p path)) [
  | inl hit ↦ inl (inr hit, ground arith)
  | inr other ↦ inr (first_match_methods path methods routes (ground arith))
]

found_methods :
    (path : Text) (methods : Methods) (routes : Routes)
    → find_matching_route path routes ≡ some methods
    → AreMethodsFor path routes methods
unfolding find_matching_route
found_methods path methods routes h = elim (Option-cases (lookup path routes)) [
  | inl absent ↦ first_match_methods path methods routes (ground arith)
  | inr (ms, found) ↦ lookup_methods path methods routes (ground arith)
]

module _ {H : Type 0} where
  -- Which answer is the one of the request.
  abbrev pub IsAnswer : Scope H → Routes → Request → Headers → Answer H → Type 0
  IsAnswer s routes r v out =
      ((¬ Exists (Takes r.path) routes) × (out ≡ call s.not_found_handler v))
      ⊎ ((ms : Methods) × AreMethodsFor r.path routes ms
          × (((r.method ≡ codes "OPTIONS")
                × (out ≡ write_status 204 (set (codes "Allow") (allowed_methods ms) v)))
              ⊎ (((r.method ≢ codes "OPTIONS")
                    × (has_method r.method ms ≡ false)
                    × (out
                        ≡ call s.method_not_allowed_handler
                            (set (codes "Allow") (allowed_methods ms) v)))
                  ⊎ ((r.method ≢ codes "OPTIONS")
                      × (has_method r.method ms ≡ true)
                      × (out ≡ call s.not_found_handler v)))))

  -- The answer of a path that no registered pattern takes is that of the handler for 404. For any other
  -- path there is a registered pattern that takes it, and with its methods: OPTIONS is answered with 204
  -- and `Allow`, a method that is not among them by the handler for 405 with `Allow`, and one that is
  -- among them by the handler for 404.
  pub catch_all_lem :
      (c : LogConfig) (generated : Text) (s : Scope H) (routes : Routes) (r : Request) (w : Headers)
      → IsAnswer s routes r
          (request_id_headers c generated r w)
          (catch_all c generated s routes r w)
  unfolding catch_all answer_known
  catch_all_lem c generated s routes r w = elim (Option-cases (find_matching_route r.path routes)) [
    | inl nothing ↦
        inl
          ((λ t. (find_matching_route_iff r.path routes).1 t nothing), rw (nothing, catch_all) refl)
    | inr (ms, found) ↦
        let method = text_eq_iff r.method (codes "OPTIONS") in
        inr (
          ms,
          found_methods r.path ms routes found,
          elim (Bool-cases (text_eq r.method (codes "OPTIONS"))) [
            | inl options ↦ inl (method.0 options, rw (found, catch_all, options) refl)
            | inr other ↦
                let differs : r.method ≢ codes "OPTIONS" =
                  λ e. let k = method.1 e in ground arith in
                elim (Bool-cases (has_method r.method ms)) [
                  | inr missing ↦
                      inr (inl (differs, missing, rw (found, catch_all, other, missing) refl))
                  | inl there ↦ inr (inr (differs, there, rw (found, catch_all, other, there) refl))
                ]
          ],
        )
  ]
