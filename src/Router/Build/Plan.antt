-- ===== src/Router/Build/Plan.antt =====
-- What a program of calls on a router of router.go registers: the plan of its routes.
use zerohttp.Prelude.{
  ◌≡◌, refl, ap, sym, ◌∙◌, List, [], ◌∷◌, ◌++◌, Option, none, some, Option-cases, inl, inr, true,
  if◌then◌else◌,
}
use zerohttp.Text.{Text}
use zerohttp.Map.{insert, text_keys}
use zerohttp.Router.{
  Scope, Shared, apply_all, reverse_onto, wrap, use_all, not_found, method_not_allowed, group_scope,
  handle, mux_pattern, has_method, methods_of,
}
use zerohttp.Router.Build.{
  Call, Calls, use_call, not_found_call, method_not_allowed_call, route_call, group_call, done,
  then_call, with_scope, back_to, and_then, run_call, run_calls,
}

-- A route with all the middleware around its handler, the outermost first.
pub record Route (H : Type 0) : Type 0 where
  pub method : Text
  pub path : Text
  pub handler : H
  pub middleware : List (H → H)

module _ {H : Type 0} where
  -- The first middleware is the outermost.
  abbrev pub compose : List (H → H) → H → H
  compose [] fn = fn
  compose (m ∷ ms) fn = m (compose ms fn)

  -- The scope that a call leaves: a group changes nothing of it.
  abbrev pub scope_after : Call H → Scope H → Scope H
  scope_after (use_call mw) s = record s { chain = s.chain ++ mw }
  scope_after (not_found_call h) s = record s { not_found_handler = h }
  scope_after (method_not_allowed_call h) s = record s { method_not_allowed_handler = h }
  scope_after _ s = s

  abbrev pub scope_after_all : Calls H → Scope H → Scope H
  scope_after_all done s = s
  scope_after_all (then_call c cs) s = scope_after_all cs (scope_after c s)

-- The routes of a program, in their order, each with the middleware of its scope at that moment.
unfoldable mutual
  pub plan_call : {H : Type 0} → Call H → Scope H → List (Route H)
  plan_call (route_call method path fn mw) s =
      record { method = method; path = path; handler = fn; middleware = s.chain ++ mw } ∷ []
  plan_call (group_call cs) s = plan cs s
  plan_call (use_call mw) s = []
  plan_call (not_found_call h) s = []
  plan_call (method_not_allowed_call h) s = []

  pub plan : {H : Type 0} → Calls H → Scope H → List (Route H)
  plan done s = []
  plan (then_call c cs) s = plan_call c s ++ plan cs (scope_after c s)

module _ {H : Type 0} where
  apply_all_reverse :
      (ms done_ : List (H → H)) (fn : H)
      → apply_all (reverse_onto ms done_) fn ≡ apply_all done_ (compose ms fn)
  unfolding apply_all reverse_onto
  apply_all_reverse [] done_ fn = refl
  apply_all_reverse (m ∷ ms) done_ fn = apply_all_reverse ms (m ∷ done_) fn

  -- The handler of a route runs inside the middleware of its router and then its own, the first added
  -- outermost.
  wrap-compose :
      (s : Scope H) (fn : H) (mw : List (H → H)) → wrap s fn mw ≡ compose (s.chain ++ mw) fn
  unfolding wrap apply_all
  wrap-compose s fn mw = apply_all_reverse (s.chain ++ mw) [] fn

  -- A route is registered once; `none` where its method is registered for its path.
  unfoldable pub register : Route H → Shared H → Option (Shared H)
  register r shared =
      let methods = methods_of r.path shared.registered_routes in
      if has_method r.method methods
      then none
      else some (record {
        registered_routes = insert r.path (insert r.method true methods) shared.registered_routes;
        mux = shared.mux ++ (mux_pattern r.method r.path, compose r.middleware r.handler) ∷ [];
      })

  -- The routes of a plan, registered one after the other; `none` where one panics.
  unfoldable pub register_all : List (Route H) → Shared H → Option (Shared H)
  register_all [] shared = some shared
  register_all (r ∷ rs) shared = elim (register r shared) [
    | none ↦ none
    | some next ↦ register_all rs next
  ]

  register_all-append :
      (rs ss : List (Route H)) (shared : Shared H)
      → register_all (rs ++ ss) shared
        ≡ elim (register_all rs shared) [ none ↦ none | some next ↦ register_all ss next ]
  unfolding register_all
  register_all-append [] ss shared = refl
  register_all-append (r ∷ rs) ss shared = elim (Option-cases (register r shared)) [
    | inl panic ↦ rw (panic, register_all)
    | inr (next, fine) ↦ rw (fine, register_all) (register_all-append rs ss next)
  ]

  handle-register :
      (method path : Text) (fn : H) (mw : List (H → H)) (s : Scope H) (shared : Shared H)
      → handle method path fn mw s shared
        ≡ register
            (record { method = method; path = path; handler = fn; middleware = s.chain ++ mw })
            shared
  unfolding handle register
  handle-register method path fn mw s shared = rw (wrap-compose s fn mw) refl

  continue_calls :
      (f : Scope H → Shared H → Option (Scope H × Shared H)) (s : Scope H) (o : Option (Shared H))
      → and_then f (with_scope s o) ≡ elim o [ none ↦ none | some shared ↦ f s shared ]
  continue_calls f s none = refl
  continue_calls f s (some shared) = refl

  back_with : (s t : Scope H) (o : Option (Shared H)) → back_to s (with_scope t o) ≡ with_scope s o
  back_with s t none = refl
  back_with s t (some shared) = refl

  register_all-one :
      (r : Route H) (shared : Shared H) → register_all (r ∷ []) shared ≡ register r shared
  unfolding register_all
  register_all-one r shared = elim (Option-cases (register r shared)) [
    | inl panic ↦ rw (panic, register_all)
    | inr (next, fine) ↦ rw (fine, register_all)
  ]

  then_plan :
      (f : Scope H → Shared H → Option (Scope H × Shared H)) (s t : Scope H)
      (rs ss : List (Route H)) (shared : Shared H)
      → ((next : Shared H) → f s next ≡ with_scope t (register_all ss next))
      → and_then f (with_scope s (register_all rs shared))
        ≡ with_scope t (register_all (rs ++ ss) shared)
  then_plan f s t rs ss shared h =
      continue_calls f s (register_all rs shared) ∙ (elim (Option-cases (register_all rs shared)) [
        | inl panic ↦ rw (register_all-append rs ss shared, panic)
        | inr (next, fine) ↦ rw (register_all-append rs ss shared, fine) (h next)
      ])

mutual
  unfolding run_call run_calls plan_call plan use_all not_found method_not_allowed group_scope
      register_all

  run_call-plan :
      {H : Type 0} (c : Call H) (s : Scope H) (shared : Shared H)
      → run_call c s shared ≡ with_scope (scope_after c s) (register_all (plan_call c s) shared)
  run_call-plan (use_call mw) s shared = refl
  run_call-plan (not_found_call h) s shared = refl
  run_call-plan (method_not_allowed_call h) s shared = refl
  run_call-plan (route_call method path fn mw) s shared =
      ap (with_scope s)
        (handle-register method path fn mw s shared ∙ sym (register_all-one _ shared))
  run_call-plan (group_call cs) s shared =
      ap (back_to s) (run_calls-plan cs s shared) ∙ back_with s (scope_after_all cs s) _

  run_calls-plan :
      {H : Type 0} (cs : Calls H) (s : Scope H) (shared : Shared H)
      → run_calls cs s shared ≡ with_scope (scope_after_all cs s) (register_all (plan cs s) shared)
  run_calls-plan done s shared = refl
  run_calls-plan (then_call c cs) s shared =
      ap (and_then (run_calls cs)) (run_call-plan c s shared)
      ∙ then_plan (run_calls cs) (scope_after c s) (scope_after_all cs (scope_after c s))
          (plan_call c s) (plan cs (scope_after c s)) shared
          (λ next. run_calls-plan cs (scope_after c s) next)

-- What a program of calls does to a router: the routes of its plan are registered in their order, each
-- handler inside the middleware of its scope at that moment and then its own, the first added outermost;
-- a program panics exactly where the registration of its plan does. A group takes over the scope around
-- it, and what it changes of its own scope ends with it.
pub run_calls-refines :
    {H : Type 0} (cs : Calls H) (s : Scope H) (shared : Shared H)
    → run_calls cs s shared ≡ with_scope (scope_after_all cs s) (register_all (plan cs s) shared)
run_calls-refines cs s shared = run_calls-plan cs s shared
