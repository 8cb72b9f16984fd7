-- ===== src/Circuit.antt =====
-- middleware/circuitbreaker/circuit_breaker.go: one circuit, and the table of circuits by key.
-- Times are nanoseconds on one clock; `time.Since(t) >= d` is `t + d ≤ now`. Thresholds are natural
-- numbers, and `half_open_in_flight` is an integer since the source decrements it below zero.
-- A handler is two steps, before and after the wrapped handler, so that requests can interleave.
pub mod Trip
pub mod Recovery
pub mod Table
pub mod Tests
use zerohttp.Prelude.{
  ℕ, ◌+◌, Bool, true, false, List, [], ◌∷◌, ◌++◌, Option, none, some, leb, if◌then◌else◌,
}
use zerohttp.Prelude.Int.{ℤ, pos, ◌+ℤ◌, ◌-ℤ◌, leb_ℤ}
use zerohttp.Text.{Text}
use zerohttp.Map.{Map, lookup, insert, text_keys}

pub data CircuitState : Type 0 where
  state_closed state_open state_half_open : CircuitState

-- What the source takes from a request is `KeyExtractor` and `IsFailure`.
pub record Config (Request : Type 0) : Type 0 where
  pub failure_threshold : ℕ
  pub recovery_timeout : ℕ
  pub success_threshold : ℕ
  pub max_half_open_requests : ℕ
  pub is_failure : Request → ℕ → Bool
  pub key_extractor : Request → Text
  pub open_status_code : ℕ
  pub open_message : Text

pub record Circuit : Type 0 where
  pub state : CircuitState
  pub failure_count : ℕ
  pub success_count : ℕ
  pub half_open_in_flight : ℤ
  pub last_failure_time : ℕ

-- The updates of the metrics registry, each with the key as its label.
pub data Metric : Type 0 where
  state_gauge : CircuitState → Metric
  failures trips allowed rejected : Metric

-- The zero value that `getCircuit` stores: closed.
abbrev pub fresh : Circuit
fresh = record {
  state = state_closed;
  failure_count = 0;
  success_count = 0;
  half_open_in_flight = pos 0;
  last_failure_time = 0;
}

module _ {Request : Type 0} (cfg : Config Request) where
  -- `isOpen`, by the state: the circuit afterwards, and whether the request is blocked.
  unfoldable pub is_open_in : CircuitState → ℕ → Circuit → Circuit × Bool
  is_open_in state_closed now c = (c, false)
  is_open_in state_open now c =
      if leb (c.last_failure_time + cfg.recovery_timeout) now
      then (
        record c { state = state_half_open; success_count = 0; half_open_in_flight = pos 0 },
        false,
      )
      else (c, true)
  is_open_in state_half_open now c =
      if leb_ℤ (pos cfg.max_half_open_requests) c.half_open_in_flight
      then (c, true)
      else (record c { half_open_in_flight = c.half_open_in_flight +ℤ pos 1 }, false)

  unfoldable pub is_open : ℕ → Circuit → Circuit × Bool
  unfolding is_open_in
  is_open now c = is_open_in c.state now c

  -- `recordResult` in the closed state.
  unfoldable pub record_closed : ℕ → Bool → Circuit → Circuit × List Metric
  record_closed now true c =
      let counted = record c { failure_count = c.failure_count + 1 } in
      if leb cfg.failure_threshold counted.failure_count
      then (
        record counted { state = state_open; last_failure_time = now },
        failures ∷ trips ∷ allowed ∷ [],
      )
      else (counted, failures ∷ allowed ∷ [])
  record_closed now false c = (record c { failure_count = 0 }, allowed ∷ [])

  -- `recordResult` in the half-open state.
  unfoldable pub record_half_open : ℕ → Bool → Circuit → Circuit × List Metric
  record_half_open now true c = (
    record c {
      state = state_open;
      last_failure_time = now;
      failure_count = c.failure_count + 1;
      success_count = 0;
      half_open_in_flight = pos 0;
    },
    failures ∷ trips ∷ rejected ∷ [],
  )
  record_half_open now false c =
      let left = record c {
        half_open_in_flight = c.half_open_in_flight -ℤ pos 1;
        success_count = c.success_count + 1;
      } in
      if leb cfg.success_threshold left.success_count
      then (
        record left {
          state = state_closed;
          failure_count = 0;
          success_count = 0;
          half_open_in_flight = pos 0;
        },
        allowed ∷ [],
      )
      else (left, allowed ∷ [])

  unfoldable pub record_in : CircuitState → ℕ → Bool → Circuit → Circuit × List Metric
  unfolding record_closed record_half_open
  record_in state_closed now failed c = record_closed now failed c
  record_in state_open now failed c = (c, [])
  record_in state_half_open now failed c = record_half_open now failed c

  unfoldable pub record_result : ℕ → Request → ℕ → Circuit → Circuit × List Metric
  unfolding record_in
  record_result now r status c = record_in c.state now (cfg.is_failure r status) c

-- `Reset` on one circuit; the time of the last failure stays.
unfoldable pub reset_circuit : Circuit → Circuit
reset_circuit c = record c {
  state = state_closed;
  failure_count = 0;
  success_count = 0;
  half_open_in_flight = pos 0;
}

abbrev pub Circuits : Type 0
Circuits = Map Text Circuit

-- `getCircuit`: the circuit of the key, stored if it is new.
unfoldable pub get_circuit : Text → Circuits → Circuits × Circuit
get_circuit key m = elim (lookup key m) [ none ↦ (insert key fresh m, fresh) | some c ↦ (m, c) ]

pub data Admission : Type 0 where
  -- The problem response with the status and the message of the configuration.
  blocked : ℕ → Text → Admission
  admitted : Admission

module _ {Request : Type 0} (cfg : Config Request) where
  -- The handler of `New` up to the call of the wrapped handler.
  unfoldable pub serve_start : Request → ℕ → Circuits → Circuits × List Metric × Admission
  serve_start r now m =
      let key = cfg.key_extractor r in
      let (known, circ) = get_circuit key m in
      let (after, stopped) = is_open cfg now circ in
      if stopped
      then (
        insert key after known,
        state_gauge circ.state ∷ rejected ∷ [],
        blocked cfg.open_status_code cfg.open_message,
      )
      else (insert key after known, state_gauge circ.state ∷ [], admitted)

  -- The handler after the wrapped handler has answered with `status`. The circuit found before is
  -- the one that the table still holds, since entries are never removed.
  unfoldable pub serve_finish : Request → ℕ → ℕ → Circuits → Circuits × List Metric
  serve_finish r now status m =
      let key = cfg.key_extractor r in
      let (known, circ) = get_circuit key m in
      let (after, events) = record_result cfg now r status circ in (insert key after known, events)

-- `GetState`: an unknown key counts as closed.
unfoldable pub get_state : Text → Circuits → CircuitState
get_state key m = elim (lookup key m) [ none ↦ state_closed | some c ↦ c.state ]

unfoldable pub reset : Text → Circuits → Circuits
reset key m = elim (lookup key m) [ none ↦ m | some c ↦ insert key (reset_circuit c) m ]
