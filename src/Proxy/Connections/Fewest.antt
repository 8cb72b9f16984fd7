-- ===== src/Proxy/Connections/Fewest.antt =====
-- The backend that leastConnections of middleware/reverseproxy/reverse_proxy.go chooses, after requests in
-- any order.
use mathlib.Core.Path.{subst}
use zerohttp.Prelude.{
  ℕ, zero, suc, ◌+◌, ◌≤◌, ◌≡◌, refl, sym, ◌∙◌, ap, ◌⊎◌, inl, inr, true, false, List, [], ◌∷◌, All,
  Exists, arith, Bool-cases, List-cases, ltb,
}
use zerohttp.Prelude.Int.{pos, negsuc}
use zerohttp.Proxy.{
  Backend, ReverseProxy, healthy_from, healthy_backends, no_backend, chosen, least_from,
  least_connections,
}
use zerohttp.Proxy.Rotation.{IsHealthyAt}
use zerohttp.Proxy.Connections.{in_flight_at, Reachable, IsCounted, Reachable-IsCounted}

-- Entries of the healthy backends with their counts.
abbrev AreCounted : List ℕ → List (ℕ × Backend) → Type 0
AreCounted js h = All (λ (x : ℕ × Backend). x.1.active_conns ≡ pos (in_flight_at x.0 js)) h

healthy_from-AreCounted :
    (m : ℕ) (bs : List Backend) (js : List ℕ)
    → IsCounted m bs js
    → AreCounted js (healthy_from m bs)
unfolding IsCounted healthy_from
healthy_from-AreCounted m [] js c = tt
healthy_from-AreCounted m (b ∷ bs) js (h, c) = elim (Bool-cases b.healthy) [
  | inl healthy ↦ rw healthy (h, healthy_from-AreCounted (m + 1) bs js c)
  | inr ill ↦ rw ill (healthy_from-AreCounted (m + 1) bs js c)
]

-- The loop, once a backend is selected.
least_from_lem :
    (i : ℕ) (js : List ℕ) (h : List (ℕ × Backend))
    → AreCounted js h
    → (r : ℕ) × (least_from (pos (in_flight_at i js)) (chosen i) h ≡ chosen r)
      × ((r ≡ i) ⊎ Exists (λ (x : ℕ × Backend). x.0 ≡ r) h)
      × (in_flight_at r js ≤ in_flight_at i js)
      × All (λ (x : ℕ × Backend). in_flight_at r js ≤ in_flight_at x.0 js) h
unfolding least_from
least_from_lem i js [] c = (i, refl, inl refl, omega arith, tt)
least_from_lem i js ((j, b) ∷ h) (n, c) =
    elim (Bool-cases (ltb (in_flight_at j js) (in_flight_at i js))) [
      | inl fewer ↦
          let (r, e, origin, below, least) = least_from_lem j js h c in
          (
            r,
            rw n (ground arith),
            elim origin [ inl same ↦ inr (inl (sym same)) | inr later ↦ inr (inr later) ],
            ground arith,
            (below, least),
          )
      | inr more ↦
          let (r, e, origin, below, least) = least_from_lem i js h c in
          (
            r,
            rw n (ground arith),
            elim origin [ inl same ↦ inl same | inr later ↦ inr (inr later) ],
            below,
            (ground arith, least),
          )
    ]

healthy_from-healthy :
    (m : ℕ) (b : Backend) (bs : List Backend)
    → b.healthy ≡ true
    → healthy_from m (b ∷ bs) ≡ (m, b) ∷ healthy_from (m + 1) bs
unfolding healthy_from
healthy_from-healthy m b bs h = rw h refl

healthy_from-ill :
    (m : ℕ) (b : Backend) (bs : List Backend)
    → b.healthy ≡ false
    → healthy_from m (b ∷ bs) ≡ healthy_from (m + 1) bs
unfolding healthy_from
healthy_from-ill m b bs h = rw h refl

healthy_at :
    (m r : ℕ) (bs : List Backend)
    → Exists (λ (x : ℕ × Backend). x.0 ≡ r) (healthy_from m bs)
    → (k : ℕ) × (r ≡ m + k) × IsHealthyAt k bs
unfolding healthy_from
healthy_at m r [] e = absurd e
healthy_at m r (b ∷ bs) e = elim (Bool-cases b.healthy) [
  | inl healthy ↦
      let here : (m ≡ r) ⊎ Exists (λ (x : ℕ × Backend). x.0 ≡ r) (healthy_from (m + 1) bs) =
        subst (λ h. Exists (λ (x : ℕ × Backend). x.0 ≡ r) h) (healthy_from-healthy m b bs healthy)
          e in
      elim here [
        | inl same ↦ (0, omega arith, healthy)
        | inr later ↦ let (k, at, h) = healthy_at (m + 1) r bs later in (suc k, omega arith, h)
      ]
  | inr ill ↦
      let later =
        subst (λ h. Exists (λ (x : ℕ × Backend). x.0 ≡ r) h) (healthy_from-ill m b bs ill) e in
      let (k, at, h) = healthy_at (m + 1) r bs later in (suc k, omega arith, h)
]

all_healthy :
    (P : ℕ → Type 0) (m k : ℕ) (bs : List Backend)
    → All (λ (x : ℕ × Backend). P x.0) (healthy_from m bs)
    → IsHealthyAt k bs
    → P (m + k)
unfolding healthy_from
all_healthy P m k [] a h = absurd h
all_healthy P m zero (b ∷ bs) a h =
    let here : P m × All (λ (x : ℕ × Backend). P x.0) (healthy_from (m + 1) bs) =
      subst (λ h. All (λ (x : ℕ × Backend). P x.0) h) (healthy_from-healthy m b bs h) a in
    let same : m ≡ m + 0 = omega arith in subst P same here.0
all_healthy P m (suc k) (b ∷ bs) a h =
    let same : m + 1 + k ≡ m + suc k = omega arith in
    let rest : All (λ (x : ℕ × Backend). P x.0) (healthy_from (m + 1) bs) =
      elim (Bool-cases b.healthy) [
        | inl healthy ↦
            let both : P m × All (λ (x : ℕ × Backend). P x.0) (healthy_from (m + 1) bs) =
              subst (λ h. All (λ (x : ℕ × Backend). P x.0) h) (healthy_from-healthy m b bs healthy)
                a in
            both.1
        | inr ill ↦ subst (λ h. All (λ (x : ℕ × Backend). P x.0) h) (healthy_from-ill m b bs ill) a
      ] in
    subst P same (all_healthy P (m + 1) k bs rest h)

-- However requests came and went and health changed: the backend that leastConnections chooses is
-- healthy and has no more requests on their way than any other that is healthy; it chooses none exactly
-- where none is healthy.
pub least_connections-fewest :
    (rp : ReverseProxy) (js : List ℕ)
    → Reachable rp.backends js
    → ((least_connections rp ≡ no_backend) × ((k : ℕ) → ¬ IsHealthyAt k rp.backends))
      ⊎ ((r : ℕ) × (least_connections rp ≡ chosen r)
          × IsHealthyAt r rp.backends
          × ((k : ℕ) → IsHealthyAt k rp.backends → in_flight_at r js ≤ in_flight_at k js))
unfolding least_connections healthy_backends least_from
least_connections-fewest rp js reached =
    let counted = healthy_from-AreCounted 0 rp.backends js (Reachable-IsCounted reached) in
    elim (List-cases (healthy_from 0 rp.backends)) [
      | inl none_healthy ↦ inl (
        rw none_healthy refl,
        (λ k h.
            all_healthy (λ _. ⊥) 0 k rp.backends
              (subst (λ x. All (λ (y : ℕ × Backend). ⊥) x) (sym none_healthy) tt) h),
      )
      | inr ((i, b), h, e) ↦
          let (here, others) : (b.active_conns ≡ pos (in_flight_at i js)) × AreCounted js h =
            subst (λ x. AreCounted js x) e counted in
          let (r, result, origin, below, least) = least_from_lem i js h others in
          let found : Exists (λ (x : ℕ × Backend). x.0 ≡ r) ((i, b) ∷ h) = elim origin [
            | inl same ↦ inl (sym same)
            | inr later ↦ inr later
          ] in
          let (k, at, healthy) =
            healthy_at 0 r rp.backends
              (subst (λ x. Exists (λ (y : ℕ × Backend). y.0 ≡ r) x) (sym e) found) in
          let same : k ≡ r = omega arith in
          inr (
            r,
            (ap (least_from (negsuc 0) no_backend) e
                ∙ ap (λ c. least_from c (chosen i) h) here
                ∙ result),
            subst (λ p. IsHealthyAt p rp.backends) same healthy,
            (λ p is_healthy.
                let there : 0 + p ≡ p = omega arith in
                subst (λ q. in_flight_at r js ≤ in_flight_at q js) there
                  (all_healthy (λ q. in_flight_at r js ≤ in_flight_at q js) 0 p rp.backends
                    (subst
                      (λ x. All (λ (y : ℕ × Backend). in_flight_at r js ≤ in_flight_at y.0 js) x)
                      (sym e) (below, least))
                    is_healthy)),
          )
    ]
