-- ===== src/Circuit/Tests.antt =====
-- Runs of the circuit breaker, and its theorems at concrete inputs.
use zerohttp.Prelude.{ℕ, ◌+◌, ◌≡◌, refl, ◌↔◌, true, false, List, [], ◌∷◌, arith, leb, All, min}
use zerohttp.Prelude.Int.{pos}
use zerohttp.Text.{Text, codes}
use zerohttp.Circuit.{state_closed, state_open, Config, Circuit, fresh, record_result}
use zerohttp.Circuit.Trip.{record_all, Trips, record_all-open_iff}
use zerohttp.Circuit.Recovery.{
  Event, check, result, run, open_blocks, burst, open_burst, requests, recovers,
}

-- A request is its path; 5xx is a failure.
abbrev config : Config Text
config = record {
  failure_threshold = 2;
  recovery_timeout = 30;
  success_threshold = 2;
  max_half_open_requests = 1;
  is_failure = λ r status. leb 500 status;
  key_extractor = λ r. r;
  open_status_code = 503;
  open_message = codes "busy";
}

abbrev path : Text
path = codes "/a"

abbrev opened : Circuit
opened = record {
  state = state_open;
  failure_count = 2;
  success_count = 0;
  half_open_in_flight = pos 0;
  last_failure_time = 100;
}

abbrev two_failures : List (ℕ × Text × ℕ)
two_failures = (7, path, 200) ∷ (8, path, 500) ∷ (9, path, 503) ∷ (10, path, 200) ∷ []

record_all-open_iff_example :
    ((record_all config two_failures fresh).state ≡ state_open) ↔ Trips config two_failures
record_all-open_iff_example = record_all-open_iff config two_failures (omega arith)

two_failures_open : (record_all config two_failures fresh).state ≡ state_open
unfolding record_all record_result
two_failures_open = refl

abbrev early : List (Event Text)
early = check 101 ∷ result 105 path 200 ∷ check 129 ∷ []

open_blocks_example :
    ((run config early opened).0 ≡ opened) × All (λ b. b ≡ true) (run config early opened).1
open_blocks_example = open_blocks config early opened refl (omega arith, (tt, (omega arith, tt)))

-- Two requests get through at once, though the configured limit is 1.
open_burst_example : burst config 5 130 opened ≡ min 5 (config.max_half_open_requests + 1)
open_burst_example = open_burst config 5 130 opened refl (omega arith)

recovers_example :
    let out =
      run config (requests config ((130, 131, path, 200) ∷ (140, 141, path, 200) ∷ [])) opened in
    (out.0.state ≡ state_closed) × (out.0.failure_count ≡ 0) × All (λ b. b ≡ false) out.1
recovers_example =
    recovers config (130, 131, path, 200) ((140, 141, path, 200) ∷ []) opened refl (omega arith)
      refl (refl, (refl, tt))

abbrev table : List (Text × Circuit)
table = (path, opened) ∷ []
