-- ===== src/Router/Tests.antt =====
-- A router at concrete inputs. A handler is a number, and a middleware adds a digit to it.
use zerohttp.Prelude.{
  ℕ, ◌+◌, ◌*◌, ◌≡◌, refl, ap, ◌≢◌, ◌↔◌, inl, inr, true, false, [], ◌∷◌, none, some, Exists, arith,
}
use zerohttp.Prelude.Int.{pos}
use zerohttp.Text.{codes, text_eq, text_lt, has_prefix, has_suffix, split, join}
use zerohttp.Map.{lookup, insert}
use zerohttp.Http.{Request}
use zerohttp.Router.{Methods, Routes, Scope, Shared, has_method, methods_of, mux_pattern}
use zerohttp.Router.Pattern.{
  segments, match_pattern, match_parts, match_segments, is_param, is_rest_param, trim_slashes_left,
  trim_slashes_right, ends_in_dots, find_matching_route,
}
use zerohttp.Router.Pattern.Laws.{Fits, IsPlain, match_pattern_iff, Takes, find_matching_route_iff}
use zerohttp.Router.Allow.{sort, insert_sorted, implicit_methods, allowed_methods}
use zerohttp.Router.Allow.Order.{SameMap, swap, allowed_methods_order_free}
use zerohttp.Router.Build.{
  Calls, use_call, route_call, group_call, done, then_call, with_scope, run_calls,
}
use zerohttp.Router.Build.Plan.{register_all, plan, scope_after_all, run_calls-refines}
use zerohttp.Router.CatchAll.{LogConfig, call, request_id_headers, catch_all}
use zerohttp.Router.CatchAll.Laws.{IsAnswer, catch_all_lem}
use zerohttp.Router.CatchAll.Unrouted.{IsRouted, unrouted_not_found}
use zerohttp.Router.Errors.{
  Failure, report_of, write_header, write, flush, serve_head, serve_plain, status_of,
  is_informational, head_calls, head_call, calls_of, handle_handler_error, close, send_header,
  set_field,
}
use zerohttp.Router.Errors.Laws.{head_status_differs}

abbrev outer : ℕ → ℕ
outer n = n * 10 + 1

abbrev inner : ℕ → ℕ
inner n = n * 10 + 2

abbrev scope : Scope ℕ
scope = record { chain = []; not_found_handler = 404; method_not_allowed_handler = 405 }

abbrev empty : Shared ℕ
empty = record { registered_routes = []; mux = [] }

-- The group's middleware is around its own route alone.
abbrev program : Calls ℕ
program = then_call (use_call (outer ∷ [])) (
    then_call
      (group_call (
        then_call (use_call (inner ∷ []))
          (then_call (route_call (codes "GET") (codes "/a/{id}") 7 []) done)))
      (then_call (route_call (codes "POST") (codes "/b") 8 (inner ∷ [])) done))

abbrev table : Routes
table = (codes "/a/{id}", (codes "GET", true) ∷ []) ∷ (codes "/b", (codes "POST", true) ∷ []) ∷ []

abbrev built : Shared ℕ
built = record {
  registered_routes = table;
  mux = (codes "GET /a/{id}", 721) ∷ (codes "POST /b", 821) ∷ [];
}

abbrev scope_built : Scope ℕ
scope_built = record scope { chain = outer ∷ [] }

built_lem : run_calls program scope empty ≡ some (scope_built, built)
unfolding run_calls zerohttp.Router.handle has_method lookup methods_of insert text_eq
    zerohttp.Router.use_all mux_pattern zerohttp.Router.wrap zerohttp.Router.apply_all
    zerohttp.Router.reverse_onto zerohttp.Router.group_scope
built_lem = refl

run_calls-refines_example :
    run_calls program scope empty
    ≡ with_scope (scope_after_all program scope) (register_all (plan program scope) empty)
run_calls-refines_example = run_calls-refines program scope empty

plain : IsPlain (segments (codes "/a/{id}"))
unfolding segments trim_slashes_left trim_slashes_right split text_eq
plain = (refl, (refl, tt))

match_pattern_iff_example :
    (match_pattern (codes "/a/{id}") (codes "/a/5/") ≡ true)
    ↔ Fits (segments (codes "/a/{id}")) (segments (codes "/a/5/"))
match_pattern_iff_example = match_pattern_iff (codes "/a/{id}") (codes "/a/5/") plain

-- A wildcard of several segments does not match them.
rest_wildcard : match_pattern (codes "/files/{path...}") (codes "/files/a/b") ≡ false
unfolding match_pattern match_parts segments trim_slashes_left trim_slashes_right split ends_in_dots
    text_eq
rest_wildcard = refl

find_matching_route_iff_example :
    (find_matching_route (codes "/a/5") table ≢ none) ↔ Exists (Takes (codes "/a/5")) table
find_matching_route_iff_example = find_matching_route_iff (codes "/a/5") table

abbrev two_methods : Methods
two_methods = (codes "PUT", true) ∷ (codes "GET", true) ∷ []

abbrev swapped : Methods
swapped = (codes "GET", true) ∷ (codes "PUT", true) ∷ []

same_map : SameMap two_methods swapped
unfolding text_eq
same_map = swap (codes "PUT", true) (codes "GET", true) [] refl

allowed : allowed_methods two_methods ≡ codes "GET, HEAD, OPTIONS, PUT"
unfolding allowed_methods implicit_methods has_method lookup text_eq sort insert_sorted text_lt join
allowed = refl

allowed_methods_order_free_example : allowed_methods two_methods ≡ allowed_methods swapped
allowed_methods_order_free_example = allowed_methods_order_free same_map

abbrev logs : LogConfig
logs = record {
  disable_default_middlewares = false;
  enabled = none;
  request_id_header = codes "X-Request-Id";
}

abbrev ask : Request
ask = record {
  method = codes "PUT";
  path = codes "/c";
  host = [];
  headers = [];
  content_length = pos 0;
}

catch_all_lem_example :
    IsAnswer scope table ask
      (request_id_headers logs (codes "id") ask [])
      (catch_all logs (codes "id") scope table ask [])
catch_all_lem_example = catch_all_lem logs (codes "id") scope table ask []

unrouted : ¬ IsRouted (codes "/c") (plan program scope)
unfolding plan match_pattern match_parts segments trim_slashes_left trim_slashes_right split
    match_segments is_param is_rest_param ends_in_dots text_eq has_prefix has_suffix
unrouted (inl (inl e)) = cc
unrouted (inl (inr e)) = cc
unrouted (inr (inl (inl e))) = let same : true ≡ false = ap (text_eq (codes "/b")) e in cc
unrouted (inr (inl (inr e))) = cc
unrouted (inr (inr e)) = e

unrouted_not_found_example :
    catch_all logs (codes "id") scope_built table ask []
    ≡ call
        (scope_after_all program scope).not_found_handler
        (request_id_headers logs (codes "id") ask [])
unrouted_not_found_example =
    unrouted_not_found program scope scope_built built logs (codes "id") ask [] built_lem unrouted

abbrev failure : Failure
failure = record { is_validation = false; is_bind = false; is_max_bytes = false }

head_status_differs_example :
    (status_of (serve_head (λ e. 9) (write_header 200 ∷ write (codes "ok") ∷ []) (some failure) [])
      ≡ (report_of failure).status)
    × (status_of (serve_plain (write_header 200 ∷ write (codes "ok") ∷ []) (some failure) []) ≡ 200)
head_status_differs_example =
    head_status_differs (λ e. 9) 200 (write (codes "ok") ∷ []) failure [] (omega arith) (tt, tt)

-- A flush sends 200 before the error.
flushed : status_of (serve_head (λ e. 9) (flush ∷ []) (some failure) []) ≡ 200
unfolding serve_head head_calls head_call calls_of handle_handler_error report_of close send_header
    set_field status_of is_informational
flushed = refl
