-- ===== src/Proxy.antt =====
-- middleware/reverseproxy/reverse_proxy.go: which backend a request goes to. A backend is its place among
-- the backends, and an int has 64 bits. The proxying itself is net/http/httputil's.
pub mod Rotation
pub mod Connections
pub mod Tests
use zerohttp.Prelude.{
  ℕ, ◌+◌, ◌-◌, ◌%◌, Bool, true, false, List, [], ◌∷◌, ◌++◌, Option, none, some, if◌then◌else◌, ltb,
  nat_beq, length, ◌&&◌,
}
use zerohttp.Prelude.Int.{ℤ, pos, negsuc, ◌+ℤ◌, ◌-ℤ◌, leb_ℤ, ltb_ℤ, to_signed, remainder}
use zerohttp.Text.{Text, text_eq, codes, has_prefix}

pub record Backend : Type 0 where
  pub target : Text
  pub weight : ℤ
  pub active_conns : ℤ
  pub healthy : Bool

pub data LoadBalancer : Type 0 where
  balance_round_robin : LoadBalancer
  balance_random : LoadBalancer
  balance_least_connections : LoadBalancer
  balance_other : LoadBalancer

pub record ReverseProxy : Type 0 where
  pub backends : List Backend
  -- An unsigned integer of 64 bits.
  pub current : ℕ
  pub load_balancer : LoadBalancer

-- `initBackend`, with the weight that `New` gives it.
unfoldable pub init_backend : Text → ℤ → Bool → List Backend → List Backend
init_backend target weight healthy backends =
    backends
    ++ record {
      target = target;
      weight = (if leb_ℤ weight (pos 0) then pos 1 else weight);
      active_conns = pos 0;
      healthy = healthy;
    }
      ∷ []

-- The places of the healthy backends, from the place of the first.
unfoldable pub healthy_from : ℕ → List Backend → List (ℕ × Backend)
healthy_from i [] = []
healthy_from i (b ∷ bs) =
    let rest = healthy_from (i + 1) bs in if b.healthy then (i, b) ∷ rest else rest

unfoldable pub healthy_backends : ReverseProxy → List (ℕ × Backend)
healthy_backends rp = healthy_from 0 rp.backends

-- A choice: none, a backend, or the panic of an index out of range.
pub data Choice : Type 0 where
  no_backend : Choice
  chosen : ℕ → Choice
  out_of_range : Choice

unfoldable pub at_index : ℕ → List (ℕ × Backend) → Choice
at_index i [] = out_of_range
at_index ℕ.zero ((i, b) ∷ bs) = chosen i
at_index (ℕ.suc n) (_ ∷ bs) = at_index n bs

-- A negative index panics.
unfoldable pub at_int : ℤ → List (ℕ × Backend) → Choice
at_int (pos i) healthy = at_index i healthy
at_int (negsuc i) healthy = out_of_range

-- `healthy[int(next)%len(healthy)]`.
unfoldable pub nth_modulo : ℕ → List (ℕ × Backend) → Choice
nth_modulo next healthy = at_int (remainder (to_signed next) (length healthy)) healthy

unfoldable pub round_robin : ReverseProxy → ReverseProxy × Choice
round_robin rp = elim (healthy_backends rp) [
  | [] ↦ (rp, no_backend)
  | b ∷ bs ↦ (
    record rp { current = (rp.current + 1) % 18446744073709551616 },
    nth_modulo rp.current (b ∷ bs),
  )
]

-- `random`, at a time in nanoseconds that is not negative.
unfoldable pub random : ℕ → ReverseProxy → Choice
random nanos rp = elim (healthy_backends rp) [
  | [] ↦ no_backend
  | b ∷ bs ↦ at_index (nanos % length (b ∷ bs)) (b ∷ bs)
]

-- The loop of `leastConnections`, with `minConns` and the backend selected so far.
unfoldable pub least_from : ℤ → Choice → List (ℕ × Backend) → Choice
least_from min_conns selected [] = selected
least_from min_conns selected ((i, b) ∷ bs) =
    let taken = least_from b.active_conns (chosen i) bs in
    let kept = least_from min_conns selected bs in
    if leb_ℤ min_conns (negsuc 0) && leb_ℤ (negsuc 0) min_conns
    then taken
    else if ltb_ℤ b.active_conns min_conns
    then taken
    else kept

unfoldable pub least_connections : ReverseProxy → Choice
least_connections rp = least_from (negsuc 0) no_backend (healthy_backends rp)

unfoldable pub select_backend : (nanos : ℕ) → ReverseProxy → ReverseProxy × Choice
select_backend nanos rp = elim rp.load_balancer [
  | balance_round_robin ↦ round_robin rp
  | balance_random ↦ (rp, random nanos rp)
  | balance_least_connections ↦ (rp, least_connections rp)
  | balance_other ↦ round_robin rp
]

-- `activeConns.Add` on a backend.
unfoldable pub add_conns : ℕ → ℤ → List Backend → List Backend
add_conns i n [] = []
add_conns ℕ.zero n (b ∷ bs) = record b { active_conns = b.active_conns +ℤ n } ∷ bs
add_conns (ℕ.suc i) n (b ∷ bs) = b ∷ add_conns i n bs
