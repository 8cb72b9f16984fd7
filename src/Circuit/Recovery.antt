-- ===== src/Circuit/Recovery.antt =====
-- The open and the half-open state of middleware/circuitbreaker/circuit_breaker.go.
use zerohttp.Prelude.{
  ℕ, zero, suc, ◌+◌, ◌≤◌, ◌<◌, ◌≡◌, refl, ap, Bool, true, false, List, [], ◌∷◌, arith, leb,
  if◌then◌else◌, min, All, length,
}
use zerohttp.Prelude.Int.{pos, negsuc}
use zerohttp.Circuit.{
  state_closed, state_open, state_half_open, Config, Circuit, is_open, is_open_in, record_result,
}

-- One locked operation on a circuit.
pub data Event (Request : Type 0) : Type 0 where
  check : ℕ → Event Request
  result : ℕ → Request → ℕ → Event Request

module _ {Request : Type 0} (cfg : Config Request) where
  -- The circuit after a sequence of operations, and the answers of `isOpen` among them.
  pub run : List (Event Request) → Circuit → Circuit × List Bool
  run [] c = (c, [])
  run (check now ∷ es) c =
      let (d, stopped) = is_open cfg now c in
      let (last, answers) = run es d in (last, stopped ∷ answers)
  run (result now r status ∷ es) c = run es (record_result cfg now r status c).0

  abbrev pub IsBefore : ℕ → Event Request → Type 0
  IsBefore t (check now) = now < t
  IsBefore t (result now r status) = Unit

  check_blocked :
      (now : ℕ) (c : Circuit)
      → c.state ≡ state_open
      → now < c.last_failure_time + cfg.recovery_timeout
      → is_open cfg now c ≡ (c, true)
  unfolding is_open is_open_in
  check_blocked now c o h = ground arith

  result_ignored :
      (now : ℕ) (r : Request) (status : ℕ) (c : Circuit)
      → c.state ≡ state_open
      → (record_result cfg now r status c).0 ≡ c
  unfolding record_result
  result_ignored now r status c o = ground arith

  -- An open circuit is blocked until the recovery timeout has passed since the failure that opened
  -- it: in every sequence of checks and of results of requests admitted earlier, without a Reset, whose
  -- checks come before that time, every check blocks its request, and nothing of it changes the circuit.
  pub open_blocks :
      (es : List (Event Request)) (c : Circuit)
      → c.state ≡ state_open
      → All (IsBefore (c.last_failure_time + cfg.recovery_timeout)) es
      → ((run es c).0 ≡ c) × All (λ b. b ≡ true) (run es c).1
  unfolding run
  open_blocks [] c o h = (refl, tt)
  open_blocks (check now ∷ es) c o h =
      let (same, blocked) = open_blocks es c o h.1 in
      rw (check_blocked now c o h.0) (same, (refl, blocked))
  open_blocks (result now r status ∷ es) c o h =
      rw (result_ignored now r status c o, run) (open_blocks es c o h.1)

  -- `k` checks at one time, with no result between them: how many requests are admitted.
  pub burst : ℕ → ℕ → Circuit → ℕ
  burst zero now c = 0
  burst (suc k) now c =
      let (d, stopped) = is_open cfg now c in
      let more = burst k now d in if stopped then more else more + 1

  full :
      (now : ℕ) (c : Circuit)
      → c.state ≡ state_half_open
      → c.half_open_in_flight ≡ pos cfg.max_half_open_requests
      → is_open cfg now c ≡ (c, true)
  unfolding is_open is_open_in
  full now c h e = ground arith

  free_slot :
      (now n : ℕ) (c : Circuit)
      → c.state ≡ state_half_open
      → c.half_open_in_flight ≡ pos n
      → n < cfg.max_half_open_requests
      → is_open cfg now c ≡ (record c { half_open_in_flight = pos (n + 1) }, false)
  unfolding is_open is_open_in
  free_slot now n c h e s = ground arith

  half_open_burst :
      (k now n free : ℕ) (c : Circuit)
      → c.state ≡ state_half_open
      → c.half_open_in_flight ≡ pos n
      → n + free ≡ cfg.max_half_open_requests
      → burst k now c ≡ min k free
  unfolding burst
  half_open_burst zero now n free c h e s = omega arith
  half_open_burst (suc k) now n zero c h e s =
      rw (full now c h (rw e (ap pos (omega arith))))
        (omega (arith, half_open_burst k now n zero c h e s))
  half_open_burst (suc k) now n (suc free) c h e s =
      let d = record c { half_open_in_flight = pos (n + 1) } in
      rw (free_slot now n c h e (omega arith))
        (omega (arith, half_open_burst k now (n + 1) free d h refl (omega arith)))

  check_admitted :
      (now : ℕ) (c : Circuit)
      → c.state ≡ state_open
      → c.last_failure_time + cfg.recovery_timeout ≤ now
      → is_open cfg now c ≡ (
        record c { state = state_half_open; success_count = 0; half_open_in_flight = pos 0 },
        false,
      )
  unfolding is_open is_open_in
  check_admitted now c o h = ground arith

  -- Once the recovery timeout has passed, `k` requests that arrive at an open circuit before any of
  -- them has a result are admitted up to `MaxHalfOpenRequests` plus one: the request that moves the
  -- circuit to half-open is not counted.
  pub open_burst :
      (k now : ℕ) (c : Circuit)
      → c.state ≡ state_open
      → c.last_failure_time + cfg.recovery_timeout ≤ now
      → burst k now c ≡ min k (cfg.max_half_open_requests + 1)
  unfolding burst
  open_burst zero now c o h = omega arith
  open_burst (suc k) now c o h =
      let d = record c {
        state = state_half_open;
        success_count = 0;
        half_open_in_flight = pos 0;
      } in
      rw (check_admitted now c o h) (
        omega (arith, half_open_burst k now 0 cfg.max_half_open_requests d refl refl (omega arith)))

  -- Requests one after the other, each with the times of its check and its result.
  pub requests : List (ℕ × ℕ × Request × ℕ) → List (Event Request)
  requests [] = []
  requests ((start, end, r, status) ∷ ps) = check start ∷ result end r status ∷ requests ps

  abbrev pub Succeeds : ℕ × ℕ × Request × ℕ → Type 0
  Succeeds (start, end, r, status) = cfg.is_failure r status ≡ false

  -- After a success: one more, or closed.
  success_step :
      (now : ℕ) (r : Request) (status : ℕ) (c : Circuit)
      → c.state ≡ state_half_open
      → c.half_open_in_flight ≡ pos 0
      → cfg.is_failure r status ≡ false
      → (record_result cfg now r status c).0 ≡ (
          if leb cfg.success_threshold (c.success_count + 1)
          then record c {
            state = state_closed;
            failure_count = 0;
            success_count = 0;
            half_open_in_flight = pos 0;
          }
          else record c { half_open_in_flight = negsuc 0; success_count = c.success_count + 1 })
  unfolding record_result
  success_step now r status c h e s = ground arith

  unfilled :
      (now : ℕ) (c : Circuit)
      → c.state ≡ state_half_open
      → c.half_open_in_flight ≡ negsuc 0
      → is_open cfg now c ≡ (record c { half_open_in_flight = pos 0 }, false)
  unfolding is_open is_open_in
  unfilled now c h e = ground arith

  -- The state that consecutive successes lead to.
  abbrev Recovered : Circuit × List Bool → Type 0
  Recovered out =
      (out.0.state ≡ state_closed) × (out.0.failure_count ≡ 0) × All (λ b. b ≡ false) out.1

  successes_close :
      (ps : List (ℕ × ℕ × Request × ℕ)) (p : ℕ × ℕ × Request × ℕ) (c d : Circuit)
      → d.state ≡ state_half_open
      → d.half_open_in_flight ≡ pos 0
      → All Succeeds (p ∷ ps)
      → d.success_count + length (p ∷ ps) ≡ cfg.success_threshold
      → is_open cfg p.0 c ≡ (d, false)
      → Recovered (run (requests (p ∷ ps)) c)
  unfolding run requests
  successes_close [] (start, end, r, status) c d h e s n o =
      let last : leb cfg.success_threshold (d.success_count + 1) ≡ true = ground arith in
      rw (o, run, success_step end r status d h e s.0, last) (refl, refl, (refl, tt))
  successes_close (q ∷ ps) (start, end, r, status) c d h e s n o =
      let more : leb cfg.success_threshold (d.success_count + 1) ≡ false = ground arith in
      let left = record d { half_open_in_flight = negsuc 0; success_count = d.success_count + 1 } in
      let next = record left { half_open_in_flight = pos 0 } in
      let (closed, zeroed, passed) =
        successes_close ps q left next h refl s.1 (omega arith) (unfilled q.0 left h refl) in
      rw (o, run, success_step end r status d h e s.0, more) (closed, zeroed, (refl, passed))

  -- Recovery: once the recovery timeout has passed, as many requests in a row as the success
  -- threshold, each checked after the one before it has its result and each a success, are all
  -- admitted, and the last result closes the circuit and clears its count of failures.
  pub recovers :
      (p : ℕ × ℕ × Request × ℕ) (ps : List (ℕ × ℕ × Request × ℕ)) (c : Circuit)
      → c.state ≡ state_open
      → c.last_failure_time + cfg.recovery_timeout ≤ p.0
      → length (p ∷ ps) ≡ cfg.success_threshold
      → All Succeeds (p ∷ ps)
      → let out = run (requests (p ∷ ps)) c in
        (out.0.state ≡ state_closed) × (out.0.failure_count ≡ 0) × All (λ b. b ≡ false) out.1
  recovers p ps c o h n s =
      let d = record c {
        state = state_half_open;
        success_count = 0;
        half_open_in_flight = pos 0;
      } in
      successes_close ps p c d refl refl s (omega arith) (check_admitted p.0 c o h)
