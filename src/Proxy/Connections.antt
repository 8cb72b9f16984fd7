-- ===== src/Proxy/Connections.antt =====
-- The counts of connections of middleware/reverseproxy/reverse_proxy.go while requests come and go in any
-- order.
pub mod Fewest
use mathlib.Core.Path.{subst}
use zerohttp.Prelude.{
  ℕ, zero, suc, ◌+◌, ◌≤◌, ◌<◌, ◌≡◌, ◌≢◌, refl, sym, ◌∙◌, ap, ◌⊎◌, inl, inr, Bool, true, false, List,
  [], ◌∷◌, All, Exists, arith, if◌then◌else◌, nat_beq, nat_beq_iff, Bool-cases, List-cases, ltb,
}
use zerohttp.Prelude.Int.{ℤ, pos, negsuc, ◌+ℤ◌}
use zerohttp.Proxy.{
  Backend, ReverseProxy, healthy_from, healthy_backends, no_backend, chosen, least_from,
  least_connections, add_conns,
}
use zerohttp.Proxy.Rotation.{IsHealthyAt}

-- The requests on their way: the place of the backend of each.
abbrev pub in_flight_at : ℕ → List ℕ → ℕ
in_flight_at i [] = 0
in_flight_at i (j ∷ js) = (if nat_beq j i then 1 else 0) + in_flight_at i js

abbrev pub finished : ℕ → List ℕ → List ℕ
finished i [] = []
finished i (j ∷ js) = let rest = finished i js in if nat_beq j i then js else j ∷ rest

-- The backends after another check of their health.
abbrev pub with_health : List Bool → List Backend → List Backend
with_health (h ∷ hs) (b ∷ bs) = record b { healthy = h } ∷ with_health hs bs
with_health _ bs = bs

-- One backend more or less in use by one request, or a round of health checks.
pub data Reachable : List Backend → List ℕ → Type 0 where
  started : (bs : List Backend) → All (λ (b : Backend). b.active_conns ≡ pos 0) bs → Reachable bs []
  begin :
      (i : ℕ) {bs : List Backend} {js : List ℕ}
      → Reachable bs js
      → Reachable (add_conns i (pos 1) bs) (i ∷ js)
  end :
      (i : ℕ) {bs : List Backend} {js : List ℕ}
      → 0 < in_flight_at i js
      → Reachable bs js
      → Reachable (add_conns i (negsuc 0) bs) (finished i js)
  checked :
      (hs : List Bool) {bs : List Backend} {js : List ℕ}
      → Reachable bs js
      → Reachable (with_health hs bs) js

-- Each backend, from the place of the first on, counts its requests.
IsCounted : ℕ → List Backend → List ℕ → Type 0
IsCounted m [] js = Unit
IsCounted m (b ∷ bs) js = (b.active_conns ≡ pos (in_flight_at m js)) × IsCounted (m + 1) bs js

IsCounted-same :
    (m : ℕ) (bs : List Backend) (js ks : List ℕ)
    → ((i : ℕ) → m ≤ i → in_flight_at i ks ≡ in_flight_at i js)
    → IsCounted m bs js
    → IsCounted m bs ks
unfolding IsCounted
IsCounted-same m [] js ks same c = tt
IsCounted-same m (b ∷ bs) js ks same (h, c) = (
  h ∙ ap pos (sym (same m (omega arith))),
  IsCounted-same (m + 1) bs js ks (λ i l. same i (omega arith)) c,
)

IsCounted-add_conns :
    (i m k : ℕ) (n : ℤ) (bs : List Backend) (js ks : List ℕ)
    → k ≡ m + i
    → (pos (in_flight_at k js) +ℤ n ≡ pos (in_flight_at k ks))
    → ((j : ℕ) → j ≢ k → in_flight_at j ks ≡ in_flight_at j js)
    → IsCounted m bs js
    → IsCounted m (add_conns i n bs) ks
unfolding add_conns IsCounted
IsCounted-add_conns i m k n [] js ks at changed same c = tt
IsCounted-add_conns zero m k n (b ∷ bs) js ks at changed same (h, c) =
    let here : k ≡ m = omega arith in
    (
      ap (λ (c : ℤ). c +ℤ n) h
          ∙ subst (λ (x : ℕ). pos (in_flight_at x js) +ℤ n ≡ pos (in_flight_at x ks)) here changed,
      IsCounted-same (m + 1) bs js ks (λ j l. same j (λ e. omega arith)) c,
    )
IsCounted-add_conns (suc i) m k n (b ∷ bs) js ks at changed same (h, c) = (
  h ∙ ap pos (sym (same m (λ e. omega arith))),
  IsCounted-add_conns i (m + 1) k n bs js ks (omega arith) changed same c,
)

in_flight_at-finished :
    (i j : ℕ) (js : List ℕ) → j ≢ i → in_flight_at j (finished i js) ≡ in_flight_at j js
in_flight_at-finished i j [] n = refl
in_flight_at-finished i j (k ∷ js) n = ground (arith, in_flight_at-finished i j js n)

in_flight_at_one_less :
    (i : ℕ) (js : List ℕ)
    → 0 < in_flight_at i js
    → in_flight_at i (finished i js) + 1 ≡ in_flight_at i js
in_flight_at_one_less i [] p = absurd (omega arith)
in_flight_at_one_less i (k ∷ js) p = ground (arith, in_flight_at_one_less i js)

IsCounted-started :
    (m : ℕ) (bs : List Backend)
    → All (λ (b : Backend). b.active_conns ≡ pos 0) bs
    → IsCounted m bs []
unfolding IsCounted
IsCounted-started m [] h = tt
IsCounted-started m (b ∷ bs) (h, hs) = (h, IsCounted-started (m + 1) bs hs)

IsCounted-with_health :
    (m : ℕ) (hs : List Bool) (bs : List Backend) (js : List ℕ)
    → IsCounted m bs js
    → IsCounted m (with_health hs bs) js
unfolding IsCounted
IsCounted-with_health m [] bs js c = c
IsCounted-with_health m (h ∷ hs) [] js c = c
IsCounted-with_health m (h ∷ hs) (b ∷ bs) js (n, c) = (n, IsCounted-with_health (m + 1) hs bs js c)

Reachable-IsCounted : {bs : List Backend} {js : List ℕ} → Reachable bs js → IsCounted 0 bs js
Reachable-IsCounted (started bs h) = IsCounted-started 0 bs h
Reachable-IsCounted (begin i {bs = bs} {js = js} r) =
    IsCounted-add_conns i 0 i (pos 1) bs js (i ∷ js) (omega arith) (ground (arith, nat_beq_iff i i))
      (λ j n. ground (arith, nat_beq_iff i j)) (Reachable-IsCounted r)
Reachable-IsCounted (end i {bs = bs} {js = js} p r) =
    IsCounted-add_conns i 0 i (negsuc 0) bs js (finished i js) (omega arith)
      (ground (arith, in_flight_at_one_less i js p)) (λ j n. in_flight_at-finished i j js n)
      (Reachable-IsCounted r)
Reachable-IsCounted (checked hs {bs = bs} {js = js} r) =
    IsCounted-with_health 0 hs bs js (Reachable-IsCounted r)
