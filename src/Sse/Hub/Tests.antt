-- ===== src/Sse/Hub/Tests.antt =====
-- The hub at a concrete state.
use zerohttp.Prelude.{ℕ, ◌≡◌, refl, Bool, not, ◌&&◌, ◌||◌, [], ◌∷◌, nat_beq}
use zerohttp.Text.{codes, text_eq}
use zerohttp.Map.{lookup}
use zerohttp.Sse.Hub.{Hub, register, unregister, subscribe, unsubscribe, broadcast, broadcast_to}
use zerohttp.Sse.Hub.Views.{IsValid, is_registered, is_subscribed, hub-refines}
use zerohttp.Sse.Hub.Broadcast.{broadcast-refines}

abbrev hub : Hub
hub = record {
  connections = (1, tt) ∷ (2, tt) ∷ [];
  topics = (codes "a", (1, tt) ∷ []) ∷ (codes "b", (1, tt) ∷ (2, tt) ∷ []) ∷ [];
}

hub-IsValid_here : IsValid hub
unfolding lookup text_eq
hub-IsValid_here = (refl, refl, (refl, refl, tt))

abbrev fails : ℕ → Bool
fails = nat_beq 1

hub-refines_example :
    ((is_registered 1 (register 1 hub) ≡ (nat_beq 1 1 || is_registered 1 hub))
      × (is_subscribed (codes "a") 1 (register 1 hub) ≡ is_subscribed (codes "a") 1 hub))
    × ((is_registered 1 (subscribe 1 (codes "a") hub) ≡ is_registered 1 hub)
        × (is_subscribed (codes "a") 1 (subscribe 1 (codes "a") hub)
            ≡ (text_eq (codes "a") (codes "a") && nat_beq 1 1 || is_subscribed (codes "a") 1 hub)))
    × ((is_registered 1 (unsubscribe 1 (codes "a") hub) ≡ is_registered 1 hub)
        × (is_subscribed (codes "a") 1 (unsubscribe 1 (codes "a") hub) ≡ (
            not (text_eq (codes "a") (codes "a") && nat_beq 1 1)
            && is_subscribed (codes "a") 1 hub)))
    × ((is_registered 1 (unregister 1 hub) ≡ (not (nat_beq 1 1) && is_registered 1 hub))
        × (is_subscribed (codes "a") 1 (unregister 1 hub)
            ≡ (not (nat_beq 1 1) && is_subscribed (codes "a") 1 hub)))
hub-refines_example = hub-refines 1 1 (codes "a") (codes "a") hub hub-IsValid_here

broadcast-refines_example :
    ((is_registered 1 (broadcast fails hub)
        ≡ (not (is_registered 1 hub && fails 1) && is_registered 1 hub))
      × (is_subscribed (codes "a") 1 (broadcast fails hub)
          ≡ (not (is_registered 1 hub && fails 1) && is_subscribed (codes "a") 1 hub)))
    × ((is_registered 1 (broadcast_to (codes "b") fails hub)
          ≡ (not (is_subscribed (codes "b") 1 hub && fails 1) && is_registered 1 hub))
        × (is_subscribed (codes "a") 1 (broadcast_to (codes "b") fails hub) ≡ (
            not (is_subscribed (codes "b") 1 hub && fails 1) && is_subscribed (codes "a") 1 hub)))
broadcast-refines_example = broadcast-refines fails 1 (codes "b") (codes "a") hub hub-IsValid_here
