-- ===== src/Router/CatchAll/Unrouted.antt =====
-- The requests that no route of a built router of router.go takes.
use zerohttp.Prelude.{
  ◌≡◌, sym, ap, ◌∙◌, ◌⊎◌, inl, inr, true, List, [], ◌∷◌, some, Option-cases, Bool-cases, arith,
  Exists,
}
use mathlib.Core.Path.{subst}
use zerohttp.Text.{Text, text_eq}
use zerohttp.Http.{Headers, Request}
use zerohttp.Map.{insert, text_keys}
use zerohttp.Router.{Methods, Routes, Scope, Shared, has_method, methods_of}
use zerohttp.Router.Build.{Calls, run_calls}
use zerohttp.Router.Build.Plan.{
  Route, register, register_all, plan, scope_after_all, run_calls-refines,
}
use zerohttp.Router.Pattern.{match_pattern}
use zerohttp.Router.Pattern.Laws.{Takes}
use zerohttp.Router.CatchAll.{call, LogConfig, request_id_headers, catch_all}
use zerohttp.Router.CatchAll.Laws.{AreMethodsFor, catch_all_lem}

insert_taken :
    (path k : Text) (ms : Methods) (routes : Routes)
    → Exists (Takes path) (insert k ms routes)
    → ((k ≡ path) ⊎ (match_pattern k path ≡ true)) ⊎ Exists (Takes path) routes
unfolding insert
insert_taken path k ms [] t = elim t [ inl this ↦ inl this | inr none_ ↦ absurd none_ ]
insert_taken path k ms ((p, m) ∷ routes) t = elim (Bool-cases (text_eq p k)) [
  | inl same ↦ elim (rw (same, insert) at t) [ inl this ↦ inl this | inr rest ↦ inr (inr rest) ]
  | inr other ↦ elim (rw (other, insert) at t) [
    | inl first ↦ inr (inl first)
    | inr rest ↦ elim (insert_taken path k ms routes rest) [
      | inl this ↦ inl this
      | inr more ↦ inr (inr more)
    ]
  ]
]

methods_taken :
    (path : Text) (ms : Methods) (routes : Routes)
    → AreMethodsFor path routes ms
    → Exists (Takes path) routes
methods_taken path ms [] t = t
methods_taken path ms ((p, m) ∷ routes) (inl t) = inl t.0
methods_taken path ms ((p, m) ∷ routes) (inr t) = inr (methods_taken path ms routes t)

module _ {H : Type 0} where
  -- The path of some route takes the path of the request.
  abbrev pub IsRouted : Text → List (Route H) → Type 0
  IsRouted path rs = Exists (λ r. (r.path ≡ path) ⊎ (match_pattern r.path path ≡ true)) rs

  register_taken :
      (path : Text) (r : Route H) (shared next : Shared H)
      → register r shared ≡ some next
      → Exists (Takes path) next.registered_routes
      → ((r.path ≡ path) ⊎ (match_pattern r.path path ≡ true))
        ⊎ Exists (Takes path) shared.registered_routes
  unfolding register
  register_taken path r shared next h t =
      let ms = methods_of r.path shared.registered_routes in
      elim (Bool-cases (has_method r.method ms)) [
        | inl there ↦ absurd (ground arith)
        | inr free ↦
            let e : next.registered_routes
                ≡ insert r.path (insert r.method true ms) shared.registered_routes =
              ground arith in
            insert_taken path r.path (insert r.method true ms) shared.registered_routes
              (subst (λ x. Exists (Takes path) x) e t)
      ]

  -- The patterns of the table after a plan are those before and those of the plan.
  registered_taken :
      (path : Text) (rs : List (Route H)) (shared next : Shared H)
      → register_all rs shared ≡ some next
      → Exists (Takes path) next.registered_routes
      → IsRouted path rs ⊎ Exists (Takes path) shared.registered_routes
  unfolding register_all
  registered_taken path [] shared next h t =
      let e : shared ≡ next = ground arith in
      inr (subst (λ (x : Shared H). Exists (Takes path) x.registered_routes) (sym e) t)
  registered_taken path (r ∷ rs) shared next h t = elim (Option-cases (register r shared)) [
    | inl panic ↦ absurd (ground arith)
    | inr (mid, fine) ↦ elim (registered_taken path rs mid next (ground arith) t) [
      | inl later ↦ inl (inr later)
      | inr before ↦ elim (register_taken path r shared mid fine before) [
        | inl this ↦ inl (inl this)
        | inr older ↦ inr older
      ]
    ]
  ]

  -- A router that is built without a panic from an empty table answers a request whose path no route of
  -- its plan takes by the handler for 404 that its own scope has in the end.
  pub unrouted_not_found :
      (cs : Calls H) (s t : Scope H) (shared : Shared H) (c : LogConfig) (generated : Text)
      (r : Request) (w : Headers)
      → run_calls cs s (record { registered_routes = []; mux = [] }) ≡ some (t, shared)
      → ¬ IsRouted r.path (plan cs s)
      → catch_all c generated t shared.registered_routes r w
        ≡ call (scope_after_all cs s).not_found_handler (request_id_headers c generated r w)
  unrouted_not_found cs s t shared c generated r w built n =
      let empty : Shared H = record { registered_routes = []; mux = [] } in
      let planned = sym (run_calls-refines cs s empty) ∙ built in
      elim (Option-cases (register_all (plan cs s) empty)) [
        | inl panic ↦ absurd (ground arith)
        | inr (next, fine) ↦
            let same_scope : scope_after_all cs s ≡ t = ground arith in
            let same_table : next ≡ shared = ground arith in
            elim (catch_all_lem c generated t shared.registered_routes r w) [
              | inl (_, answer) ↦
                  answer
                  ∙ ap
                      (λ (x : Scope H).
                        call x.not_found_handler (request_id_headers c generated r w))
                      (sym same_scope)
              | inr (ms, there, _) ↦
                  elim (registered_taken r.path (plan cs s) empty next fine (
                    subst (λ (x : Shared H). Exists (Takes r.path) x.registered_routes)
                      (sym same_table) (methods_taken r.path ms shared.registered_routes there))) [
                        | inl routed ↦ absurd (n routed)
                        | inr none_ ↦ absurd none_
                      ]
            ]
      ]
