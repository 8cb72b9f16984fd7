-- ===== src/Router.antt =====
-- router.go: what a router knows, how it is built, and how it answers a request that no route takes.
-- A handler is an element of any type `H`, a middleware a function on it. The multiplexer of net/http
-- is the list of what was registered with it; how it chooses is left to net/http.
pub mod Pattern
pub mod Allow
pub mod Build
pub mod CatchAll
pub mod Errors
pub mod Tests
use zerohttp.Prelude.{ℕ, Bool, true, false, List, [], ◌∷◌, ◌++◌, Option, none, some, if◌then◌else◌}
use zerohttp.Text.{Text, codes, text_eq}
use zerohttp.Map.{Map, lookup, insert, text_keys}

-- The methods of a path; the source stores `true` alone.
abbrev pub Methods : Type 0
Methods = Map Text Bool

unfoldable pub has_method : Text → Methods → Bool
has_method method methods = elim (lookup method methods) [ none ↦ false | some b ↦ b ]

abbrev pub Routes : Type 0
Routes = Map Text Methods

-- What a router shares with its groups: the route table and the multiplexer.
pub record Shared (H : Type 0) : Type 0 where
  pub registered_routes : Routes
  pub mux : List (Text × H)

-- What each group has of its own.
pub record Scope (H : Type 0) : Type 0 where
  pub chain : List (H → H)
  pub not_found_handler : H
  pub method_not_allowed_handler : H

unfoldable pub methods_of : Text → Routes → Methods
methods_of path routes = elim (lookup path routes) [ none ↦ [] | some ms ↦ ms ]

-- The pattern of a route for the multiplexer.
unfoldable pub mux_pattern : Text → Text → Text
mux_pattern method path =
    if text_eq path (codes "/") then method ++ codes " /{$}" else method ++ (b' ' ∷ path)

module _ {H : Type 0} where
  -- `for _, m := range middleware { out = m(out) }`.
  unfoldable pub apply_all : List (H → H) → H → H
  apply_all [] out = out
  apply_all (m ∷ ms) out = apply_all ms (m out)

  unfoldable pub reverse_onto : List (H → H) → List (H → H) → List (H → H)
  reverse_onto [] done = done
  reverse_onto (m ∷ ms) done = reverse_onto ms (m ∷ done)

  -- `wrap`: the chain and the route's middleware, applied from the last to the first.
  unfoldable pub wrap : Scope H → H → List (H → H) → H
  wrap s fn mw = apply_all (reverse_onto (s.chain ++ mw) []) fn

  -- `Use`.
  unfoldable pub use_all : List (H → H) → Scope H → Scope H
  use_all mw s = record s { chain = s.chain ++ mw }

  unfoldable pub not_found : H → Scope H → Scope H
  not_found h s = record s { not_found_handler = h }

  unfoldable pub method_not_allowed : H → Scope H → Scope H
  method_not_allowed h s = record s { method_not_allowed_handler = h }

  -- The scope that `Group` hands to its function.
  unfoldable pub group_scope : Scope H → Scope H
  group_scope s = record {
    chain = s.chain;
    not_found_handler = s.not_found_handler;
    method_not_allowed_handler = s.method_not_allowed_handler;
  }

  -- `handle`; `none` is the panic on a route that is there.
  unfoldable pub handle : Text → Text → H → List (H → H) → Scope H → Shared H → Option (Shared H)
  handle method path fn mw s shared =
      let methods = methods_of path shared.registered_routes in
      if has_method method methods
      then none
      else some (record {
        registered_routes = insert path (insert method true methods) shared.registered_routes;
        mux = shared.mux ++ (mux_pattern method path, wrap s fn mw) ∷ [];
      })

  -- `checkAndMarkRoot`; `none` is its panic.
  unfoldable pub check_and_mark_root : Shared H → Option (Shared H)
  check_and_mark_root shared =
      let methods = methods_of (codes "/") shared.registered_routes in
      if has_method (codes "GET") methods
      then none
      else some (record shared {
        registered_routes =
            insert (codes "/") (insert (codes "GET") true methods) shared.registered_routes;
      })
