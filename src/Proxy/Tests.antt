-- ===== src/Proxy/Tests.antt =====
-- The load balancer at concrete backends.
use zerohttp.Prelude.{
  ℕ, ◌-◌, ◌*◌, ◌%◌, ◌≤◌, ◌<◌, ◌≡◌, ◌≢◌, ◌↔◌, ◌⊎◌, refl, true, false, [], ◌∷◌, arith, length,
}
use zerohttp.Prelude.Int.{pos}
use zerohttp.Text.{codes}
use zerohttp.Proxy.{
  Backend, ReverseProxy, balance_round_robin, healthy_from, healthy_backends, no_backend, chosen,
  out_of_range, round_robin, nth_modulo, at_index, at_int, least_connections, add_conns,
}
use zerohttp.Proxy.Rotation.{
  IsHealthyAt, choices, times, round_robin-fair, round_robin-out_of_range_iff,
}
use zerohttp.Proxy.Connections.{in_flight_at, Reachable, started, begin, end}
use zerohttp.Proxy.Connections.Fewest.{least_connections-fewest}

abbrev well : Backend
well = record { target = codes "http://a"; weight = pos 1; active_conns = pos 0; healthy = true }

abbrev ill : Backend
ill = record well { healthy = false }

abbrev rp : ReverseProxy
rp = record { backends = well ∷ ill ∷ well ∷ []; current = 5; load_balancer = balance_round_robin }

in_turn : choices 3 rp ≡ chosen 2 ∷ chosen 0 ∷ chosen 2 ∷ []
unfolding round_robin nth_modulo at_int at_index healthy_backends healthy_from
in_turn = refl

two_healthy : length (healthy_backends rp) ≡ 2
unfolding healthy_backends healthy_from
two_healthy = refl

round_robin-fair_example : times 2 (choices (3 * length (healthy_backends rp)) rp) ≡ 3
round_robin-fair_example = round_robin-fair 3 2 rp refl (omega (arith, two_healthy))

round_robin-out_of_range_iff_example : ((round_robin rp).1 ≡ out_of_range) ↔ (
    (0 < length (healthy_backends rp))
    × (9223372036854775808 ≤ 5)
    × ((18446744073709551616 - 5) % length (healthy_backends rp) ≢ 0))
round_robin-out_of_range_iff_example = round_robin-out_of_range_iff rp (omega arith)

-- Half of the numbers of the counter are negative as an int.
overflow_panics : (round_robin (record rp { current = 9223372036854775809 })).1 ≡ out_of_range
unfolding round_robin nth_modulo at_int at_index healthy_backends healthy_from
overflow_panics = refl

-- Two requests, of which the first has ended.
abbrev busy : ReverseProxy
busy = record rp { backends = well ∷ ill ∷ record well { active_conns = pos 1 } ∷ [] }

reached : Reachable busy.backends (2 ∷ [])
unfolding add_conns
reached = end 0 (omega arith) (begin 0 (begin 2 (started rp.backends (refl, (refl, (refl, tt))))))

least_connections-fewest_example :
    ((least_connections busy ≡ no_backend) × ((k : ℕ) → ¬ IsHealthyAt k busy.backends))
    ⊎ ((r : ℕ) × (least_connections busy ≡ chosen r)
        × IsHealthyAt r busy.backends
        × ((k : ℕ)
            → IsHealthyAt k busy.backends
            → in_flight_at r (2 ∷ []) ≤ in_flight_at k (2 ∷ [])))
least_connections-fewest_example = least_connections-fewest busy (2 ∷ []) reached
