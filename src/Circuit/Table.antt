-- ===== src/Circuit/Table.antt =====
-- The handler of middleware/circuitbreaker/circuit_breaker.go over its table of circuits.
use zerohttp.Prelude.{ℕ, ◌≡◌, refl, inl, inr, [], ◌∷◌, none, some, arith, Bool-cases, if◌then◌else◌}
use zerohttp.Text.{Text, text_eq}
use zerohttp.Text.Laws.{text_eq_iff}
use zerohttp.Map.{lookup, insert, text_keys, lookup-insert}
use zerohttp.Circuit.{
  Config, Circuit, fresh, is_open, record_result, reset_circuit, Circuits, get_circuit, serve_start,
  serve_finish, blocked, admitted, get_state, reset, state_gauge, rejected,
}

-- The circuit that a key stands for: a fresh one until it is stored.
pub circuit_of : Text → Circuits → Circuit
circuit_of key m = elim (lookup key m) [ none ↦ fresh | some c ↦ c ]

circuit_of-insert :
    (key j : Text) (c : Circuit) (m : Circuits)
    → circuit_of j (insert key c m) ≡ (if text_eq key j then c else circuit_of j m)
unfolding circuit_of
circuit_of-insert key j c m = ground (arith, lookup-insert key j c m)

circuit_of-get_circuit :
    (key j : Text) (m : Circuits) → circuit_of j (get_circuit key m).0 ≡ circuit_of j m
unfolding get_circuit circuit_of
circuit_of-get_circuit key j m = ground (arith, lookup-insert key j fresh m, text_eq_iff key j)

get_circuit_lem : (key : Text) (m : Circuits) → (get_circuit key m).1 ≡ circuit_of key m
unfolding get_circuit circuit_of
get_circuit_lem key m = ground arith

store_circuit :
    (key j : Text) (d : Circuit) (m : Circuits)
    → circuit_of j (insert key d (get_circuit key m).0)
      ≡ (if text_eq key j then d else circuit_of j m)
store_circuit key j d m = simp (circuit_of-insert, circuit_of-get_circuit)

module _ {Request : Type 0} (cfg : Config Request) (r : Request) (now : ℕ) (m : Circuits) where
  -- The first half of the handler runs `isOpen` on the circuit of the request's key, changes no
  -- other circuit, and blocks the request with the configured status and message exactly when
  -- `isOpen` says so. It reports the state that the circuit had before.
  pub serve_start-refines :
      ((j : Text)
        → circuit_of j (serve_start cfg r now m).0 ≡ (
            if text_eq (cfg.key_extractor r) j
            then (is_open cfg now (circuit_of (cfg.key_extractor r) m)).0
            else circuit_of j m))
      × ((serve_start cfg r now m).1
          ≡ state_gauge (circuit_of (cfg.key_extractor r) m).state
            ∷ (if (is_open cfg now (circuit_of (cfg.key_extractor r) m)).1
                then rejected ∷ []
                else []))
      × ((serve_start cfg r now m).2 ≡ (
          if (is_open cfg now (circuit_of (cfg.key_extractor r) m)).1
          then blocked cfg.open_status_code cfg.open_message
          else admitted))
  unfolding serve_start
  serve_start-refines =
      let key = cfg.key_extractor r in
      rw (get_circuit_lem key m) (elim (Bool-cases (is_open cfg now (circuit_of key m)).1) [
        | inl stopped ↦ rw stopped (λ j. store_circuit key j _ m, refl, refl)
        | inr free ↦ rw free (λ j. store_circuit key j _ m, refl, refl)
      ])

  -- The second half of the handler runs `recordResult` on the circuit of the request's key, with its
  -- metrics, and changes no other circuit.
  pub serve_finish-refines :
      (status : ℕ)
      → ((j : Text)
          → circuit_of j (serve_finish cfg r now status m).0 ≡ (
              if text_eq (cfg.key_extractor r) j
              then (record_result cfg now r status (circuit_of (cfg.key_extractor r) m)).0
              else circuit_of j m))
        × ((serve_finish cfg r now status m).1
            ≡ (record_result cfg now r status (circuit_of (cfg.key_extractor r) m)).1)
  unfolding serve_finish
  serve_finish-refines status =
      let key = cfg.key_extractor r in
      rw (get_circuit_lem key m) (λ j. store_circuit key j _ m, refl)

-- `GetState` reads the circuit of the key, and `Reset` closes it and clears its counters, without a
-- change of any other circuit.
pub reset-refines :
    (key j : Text) (m : Circuits)
    → (circuit_of j (reset key m)
        ≡ (if text_eq key j then reset_circuit (circuit_of key m) else circuit_of j m))
      × (get_state j m ≡ (circuit_of j m).state)
unfolding reset get_state circuit_of reset_circuit
reset-refines key j m = (
  ground (arith, lookup-insert key j (reset_circuit (circuit_of key m)) m, text_eq_iff key j),
  ground arith,
)
