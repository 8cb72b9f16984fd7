-- ===== src/Router/Build/Table.antt =====
-- The route table of router.go after a plan of routes.
use zerohttp.Prelude.{
  ◌≡◌, refl, ap, sym, ◌≢◌, ◌↔◌, inl, inr, Bool, true, false, ◌&&◌, ◌||◌, List, [], ◌∷◌, none, some,
  Option-cases, Bool-cases, any, arith, if◌then◌else◌,
}
use zerohttp.Text.{Text, text_eq}
use zerohttp.Text.Laws.{text_eq_iff}
use zerohttp.Map.{insert, text_keys, lookup-insert}
use zerohttp.Router.{Shared, Methods, Routes, has_method, methods_of}
use zerohttp.Router.Build.Plan.{Route, register, register_all}

methods_of-insert :
    (k j : Text) (ms : Methods) (routes : Routes)
    → methods_of j (insert k ms routes) ≡ (if text_eq k j then ms else methods_of j routes)
unfolding methods_of
methods_of-insert k j ms routes = ground (arith, lookup-insert k j ms routes)

has_method-insert :
    (k j : Text) (ms : Methods) → has_method j (insert k true ms) ≡ (text_eq k j || has_method j ms)
unfolding has_method
has_method-insert k j ms = ground (arith, lookup-insert k j true ms)

module _ {H : Type 0} where
  -- The route is for the method and the path.
  abbrev pub is_for : Text → Text → Route H → Bool
  is_for method path r = text_eq r.path path && text_eq r.method method

  -- Some route of the table is for them.
  unfoldable pub has_route : Text → Text → Shared H → Bool
  has_route method path shared = has_method method (methods_of path shared.registered_routes)

  has_route-register :
      (method path : Text) (r : Route H) (shared next : Shared H)
      → register r shared ≡ some next
      → has_route method path next ≡ (is_for method path r || has_route method path shared)
  unfolding has_route register
  has_route-register method path r shared next h =
      elim (Bool-cases (has_method r.method (methods_of r.path shared.registered_routes))) [
        | inl there ↦ absurd (ground arith)
        | inr free ↦ ground (
          arith,
          text_eq_iff r.path path,
          methods_of-insert r.path path
              (insert r.method true (methods_of r.path shared.registered_routes))
              shared.registered_routes,
          has_method-insert r.method method (methods_of r.path shared.registered_routes),
        )
      ]

  register-none :
      (r : Route H) (shared : Shared H)
      → (register r shared ≡ none) ↔ (has_route r.method r.path shared ≡ true)
  unfolding has_route register
  register-none r shared = ((λ h. ground arith), (λ h. ground arith))

  -- No route is in the table, and no two have both their method and their path in common.
  abbrev pub IsFresh : List (Route H) → Shared H → Type 0
  IsFresh [] shared = Unit
  IsFresh (r ∷ rs) shared =
      (has_route r.method r.path shared ≡ false)
      × (any (is_for r.method r.path) rs ≡ false)
      × IsFresh rs shared

  -- What a plan leaves in the table: a method is registered for a path exactly when it was before or a
  -- route of the plan is for them.
  register_all-has_route :
      (method path : Text) (rs : List (Route H)) (shared next : Shared H)
      → register_all rs shared ≡ some next
      → has_route method path next ≡ (any (is_for method path) rs || has_route method path shared)
  unfolding register_all
  register_all-has_route method path [] shared next h =
      let e : shared ≡ next = ground arith in ap (has_route method path) (sym e)
  register_all-has_route method path (r ∷ rs) shared next h =
      elim (Option-cases (register r shared)) [
        | inl panic ↦ absurd (ground arith)
        | inr (mid, fine) ↦
            let one = has_route-register method path r shared mid fine in
            let more = register_all-has_route method path rs mid next (ground arith) in ground arith
      ]

  is_for_sym : (r s : Route H) → is_for r.method r.path s ≡ is_for s.method s.path r
  is_for_sym r s = ground (
    arith,
    text_eq_iff r.path s.path,
    text_eq_iff s.path r.path,
    text_eq_iff r.method s.method,
    text_eq_iff s.method r.method,
  )

  fresh_route :
      (r : Route H) (shared mid : Shared H)
      → register r shared ≡ some mid
      → has_route r.method r.path shared ≡ false
  unfolding register has_route
  fresh_route r shared mid h = ground arith

  IsFresh-after :
      (r : Route H) (rs : List (Route H)) (shared mid : Shared H)
      → register r shared ≡ some mid
      → (IsFresh rs mid ↔ (IsFresh rs shared × (any (is_for r.method r.path) rs ≡ false)))
  IsFresh-after r [] shared mid h = ((λ _. (tt, refl)), (λ _. tt))
  IsFresh-after r (s ∷ rs) shared mid h =
      let one = has_route-register s.method s.path r shared mid h in
      let same = is_for_sym s r in
      let (f, g) = IsFresh-after r rs shared mid h in
      (
        (λ (p : IsFresh (s ∷ rs) mid).
            let (rest, none_) = f p.2 in ((ground arith, p.1, rest), ground arith)),
        (λ (p : IsFresh (s ∷ rs) shared × (any (is_for r.method r.path) (s ∷ rs) ≡ false)).
            (ground arith, p.0.1, g (p.0.2, ground arith))),
      )

  -- A plan is registered without a panic exactly when none of its routes is registered before and no two
  -- of them have both their method and their path in common.
  pub register_all_iff :
      (rs : List (Route H)) (shared : Shared H)
      → (register_all rs shared ≢ none) ↔ IsFresh rs shared
  unfolding register_all
  register_all_iff [] shared = ((λ _. tt), (λ _ e. ground arith))
  register_all_iff (r ∷ rs) shared = elim (Option-cases (register r shared)) [
    | inl panic ↦
        let there = (register-none r shared).0 panic in
        (
          (λ n. absurd (n (ground arith))),
          (λ (p : IsFresh (r ∷ rs) shared) e. let free = p.0 in ground arith),
        )
    | inr (mid, fine) ↦
        let (f, g) = register_all_iff rs mid in
        let (h, k) = IsFresh-after r rs shared mid fine in
        let free = fresh_route r shared mid fine in
        (
          (λ n. let (rest, none_) = h (f (λ e. n (ground arith))) in (free, none_, rest)),
          (λ (p : IsFresh (r ∷ rs) shared) e. g (k (p.2, p.1)) (ground arith)),
        )
  ]
