-- ===== src/Router/Build.antt =====
-- The building of a router of router.go as a program: the calls of Use, NotFound, MethodNotAllowed, the
-- methods that register a route, and Group with the calls of its function.
pub mod Plan
pub mod Table
use zerohttp.Prelude.{List, [], ◌∷◌, ◌++◌, Option, none, some}
use zerohttp.Text.{Text}
use zerohttp.Router.{Scope, Shared, use_all, not_found, method_not_allowed, group_scope, handle}

mutual
  pub data Call (H : Type 0) : Type 0 where
    use_call : List (H → H) → Call H
    not_found_call : H → Call H
    method_not_allowed_call : H → Call H
    route_call : (method path : Text) → H → List (H → H) → Call H
    group_call : Calls H → Call H

  pub data Calls (H : Type 0) : Type 0 where
    done : Calls H
    then_call : Call H → Calls H → Calls H

abbrev pub with_scope : {H : Type 0} → Scope H → Option (Shared H) → Option (Scope H × Shared H)
with_scope s none = none
with_scope s (some shared) = some (s, shared)

-- What a group leaves: its scope is gone.
abbrev pub back_to :
    {H : Type 0} → Scope H → Option (Scope H × Shared H) → Option (Scope H × Shared H)
back_to s none = none
back_to s (some (inner, shared)) = some (s, shared)

abbrev pub and_then :
    {H : Type 0}
    → (Scope H → Shared H → Option (Scope H × Shared H))
    → Option (Scope H × Shared H)
    → Option (Scope H × Shared H)
and_then f none = none
and_then f (some (s, shared)) = f s shared

-- The calls on a router, `none` where one panics.
unfoldable mutual
  pub run_call : {H : Type 0} → Call H → Scope H → Shared H → Option (Scope H × Shared H)
  run_call (use_call mw) s shared = some (use_all mw s, shared)
  run_call (not_found_call h) s shared = some (not_found h s, shared)
  run_call (method_not_allowed_call h) s shared = some (method_not_allowed h s, shared)
  run_call (route_call method path fn mw) s shared =
      with_scope s (handle method path fn mw s shared)
  run_call (group_call cs) s shared = back_to s (run_calls cs (group_scope s) shared)

  pub run_calls : {H : Type 0} → Calls H → Scope H → Shared H → Option (Scope H × Shared H)
  run_calls done s shared = some (s, shared)
  run_calls (then_call c cs) s shared = and_then (run_calls cs) (run_call c s shared)
