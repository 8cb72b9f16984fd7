-- ===== src/Circuit/Trip.antt =====
-- The invariant of a circuit of middleware/circuitbreaker/circuit_breaker.go, and when results trip
-- a closed circuit.
use mathlib.Core.Path.{subst}
use zerohttp.Prelude.{
  ℕ, zero, suc, ◌+◌, ◌≤◌, ◌<◌, ◌≡◌, refl, ap, ◌⊎◌, ◌↔◌, inl, inr, Bool, true, false, List, [], ◌∷◌,
  ◌++◌, arith,
}
use zerohttp.Prelude.Int.{pos, ◌≤ℤ◌}
use zerohttp.Circuit.{
  CircuitState, state_closed, state_open, state_half_open, Config, Circuit, fresh, is_open,
  is_open_in, record_closed, record_in, record_result, reset_circuit,
}

module _ {Request : Type 0} (cfg : Config Request) where
  -- What the counters satisfy in each state.
  abbrev pub Bounds : CircuitState → Circuit → Type 0
  Bounds state_closed c = c.failure_count < cfg.failure_threshold
  Bounds state_open c = Unit
  Bounds state_half_open c =
      (c.success_count < cfg.success_threshold)
      × (c.half_open_in_flight ≤ℤ pos cfg.max_half_open_requests)

  abbrev pub IsValid : Circuit → Type 0
  IsValid c = Bounds c.state c

  is_open_in-IsValid :
      (s : CircuitState) (now : ℕ) (c : Circuit)
      → c.state ≡ s
      → 0 < cfg.success_threshold
      → Bounds s c
      → IsValid (is_open_in cfg s now c).0
  unfolding is_open_in
  is_open_in-IsValid state_closed now c e p v = rw e v
  is_open_in-IsValid state_open now c e p v = ground arith
  is_open_in-IsValid state_half_open now c e p v = ground arith

  record_in-IsValid :
      (s : CircuitState) (now : ℕ) (failed : Bool) (c : Circuit)
      → c.state ≡ s
      → 0 < cfg.failure_threshold
      → Bounds s c
      → IsValid (record_in cfg s now failed c).0
  unfolding record_in
  record_in-IsValid state_closed now true c e p v = ground arith
  record_in-IsValid state_closed now false c e p v = ground arith
  record_in-IsValid state_open now failed c e p v = rw e tt
  record_in-IsValid state_half_open now true c e p v = ground arith
  record_in-IsValid state_half_open now false c e p v = ground arith

  -- Both steps of the handler and `Reset` keep the invariant, and the circuit that `getCircuit`
  -- stores has it, if the failure and the success thresholds are at least 1.
  pub circuit-IsValid :
      (now : ℕ) (r : Request) (status : ℕ) (c : Circuit)
      → 0 < cfg.failure_threshold
      → 0 < cfg.success_threshold
      → IsValid c
      → IsValid fresh
        × IsValid (is_open cfg now c).0
        × IsValid (record_result cfg now r status c).0
        × IsValid (reset_circuit c)
  unfolding is_open record_result reset_circuit
  circuit-IsValid now r status c p q v = (
    p,
    is_open_in-IsValid c.state now c refl q v,
    record_in-IsValid c.state now (cfg.is_failure r status) c refl p v,
    p,
  )

  -- The results of a sequence of requests, each with its time and its status, on one circuit.
  unfoldable pub record_all : List (ℕ × Request × ℕ) → Circuit → Circuit
  record_all [] c = c
  record_all ((now, r, status) ∷ more) c = record_all more (record_result cfg now r status c).0

  abbrev failed : ℕ × Request × ℕ → Bool
  failed (now, r, status) = cfg.is_failure r status

  -- `n` results in a row that are failures.
  abbrev pub Streak : ℕ → List (ℕ × Request × ℕ) → Type 0
  Streak zero rs = Unit
  Streak (suc n) [] = ⊥
  Streak (suc n) (x ∷ rs) = (failed x ≡ true) × Streak n rs

  record_open_step :
      (x : ℕ × Request × ℕ) (c : Circuit)
      → c.state ≡ state_open
      → (record_result cfg x.0 x.1 x.2 c).0 ≡ c
  unfolding record_result
  record_open_step (now, r, status) c e = ground arith

  record_all_open :
      (rs : List (ℕ × Request × ℕ)) (c : Circuit) → c.state ≡ state_open → record_all rs c ≡ c
  unfolding record_all
  record_all_open [] c e = refl
  record_all_open ((now, r, status) ∷ rs) c e =
      let same : (record_result cfg now r status c).0 ≡ c = record_open_step (now, r, status) c e in
      rw same (record_all_open rs c e)

  -- A failure in the closed state opens the circuit or counts one more; a success counts from 0.
  closed_step :
      (x : ℕ × Request × ℕ) (c : Circuit)
      → c.state ≡ state_closed
      → let d = (record_result cfg x.0 x.1 x.2 c).0 in
        ((failed x ≡ true) × (cfg.failure_threshold ≤ c.failure_count + 1) × (d.state ≡ state_open))
        ⊎ (((failed x ≡ true)
              × (c.failure_count + 1 < cfg.failure_threshold)
              × (d.state ≡ state_closed)
              × (d.failure_count ≡ c.failure_count + 1))
            ⊎ ((failed x ≡ false) × (d.state ≡ state_closed) × (d.failure_count ≡ 0)))
  unfolding record_result record_closed
  closed_step (now, r, status) c e = ground arith

  Streak-opens :
      (k : ℕ) (rs : List (ℕ × Request × ℕ)) (c : Circuit)
      → c.state ≡ state_closed
      → c.failure_count < cfg.failure_threshold
      → cfg.failure_threshold ≤ c.failure_count + k
      → Streak k rs
      → (record_all rs c).state ≡ state_open
  unfolding record_all
  Streak-opens zero rs c e lt le h = absurd (omega arith)
  Streak-opens (suc k) [] c e lt le h = absurd h
  Streak-opens (suc k) (x ∷ rs) c e lt le h =
      let d = (record_result cfg x.0 x.1 x.2 c).0 in
      elim (closed_step x c e) [
        | inl (_, _, opened) ↦ rw (record_all_open rs d opened) opened
        | inr (inl (_, below, closed, count)) ↦
            Streak-opens k rs d closed (omega arith) (omega arith) h.1
        | inr (inr (passed, _, _)) ↦ cc
      ]

  -- A streak of as many failures as the threshold somewhere among the results.
  abbrev pub Trips : List (ℕ × Request × ℕ) → Type 0
  Trips rs =
      (earlier : List (ℕ × Request × ℕ)) × (later : List (ℕ × Request × ℕ)) × (rs
        ≡ earlier ++ later)
      × Streak cfg.failure_threshold later

  trips_open :
      (earlier later : List (ℕ × Request × ℕ)) (c : Circuit)
      → c.state ≡ state_closed
      → c.failure_count < cfg.failure_threshold
      → Streak cfg.failure_threshold later
      → (record_all (earlier ++ later) c).state ≡ state_open
  unfolding record_all
  trips_open [] later c e lt h = Streak-opens cfg.failure_threshold later c e lt (omega arith) h
  trips_open (x ∷ earlier) later c e lt h =
      let d = (record_result cfg x.0 x.1 x.2 c).0 in
      elim (closed_step x c e) [
        | inl (_, _, opened) ↦ rw (record_all_open (earlier ++ later) d opened) opened
        | inr (inl (_, below, closed, count)) ↦ trips_open earlier later d closed (omega arith) h
        | inr (inr (_, closed, count)) ↦ trips_open earlier later d closed (omega arith) h
      ]

  Trips-cons : (x : ℕ × Request × ℕ) (rs : List (ℕ × Request × ℕ)) → Trips rs → Trips (x ∷ rs)
  Trips-cons x rs (earlier, later, e, h) = (x ∷ earlier, later, ap (◌∷◌ x) e, h)

  Streak-eq : {j k : ℕ} (rs : List (ℕ × Request × ℕ)) → j ≡ k → Streak j rs → Streak k rs
  Streak-eq rs e h = subst (λ n. Streak n rs) e h

  open-Trips :
      (rs : List (ℕ × Request × ℕ)) (c : Circuit)
      → c.state ≡ state_closed
      → c.failure_count < cfg.failure_threshold
      → (record_all rs c).state ≡ state_open
      → ((k : ℕ) × (c.failure_count + k ≡ cfg.failure_threshold) × Streak k rs) ⊎ Trips rs
  unfolding record_all
  open-Trips [] c e lt h = cc
  open-Trips (x ∷ rs) c e lt h =
      let d = (record_result cfg x.0 x.1 x.2 c).0 in
      elim (closed_step x c e) [
        | inl (hit, le, opened) ↦ inl (1, omega arith, (hit, tt))
        | inr (inl (hit, below, closed, count)) ↦ elim (open-Trips rs d closed (omega arith) h) [
          | inl (k, total, streak) ↦ inl (suc k, omega arith, (hit, streak))
          | inr later ↦ inr (Trips-cons x rs later)
        ]
        | inr (inr (passed, closed, count)) ↦ elim (open-Trips rs d closed (omega arith) h) [
          | inl (k, total, streak) ↦ inr (x ∷ [], rs, refl, Streak-eq rs (omega arith) streak)
          | inr later ↦ inr (Trips-cons x rs later)
        ]
      ]

  -- A fresh circuit that is given any sequence of results, whatever their times, ends open exactly
  -- when somewhere among them as many failures as the failure threshold (at least 1) come in a row.
  pub record_all-open_iff :
      (rs : List (ℕ × Request × ℕ))
      → 0 < cfg.failure_threshold
      → ((record_all rs fresh).state ≡ state_open) ↔ Trips rs
  record_all-open_iff rs p = (
    λ h. elim (open-Trips rs fresh refl p h) [
      | inl (k, total, streak) ↦ ([], rs, refl, Streak-eq rs (omega arith) streak)
      | inr trips ↦ trips
    ],
    λ (t : Trips rs). rw t.2 (trips_open t.0 t.1 fresh refl p t.3),
  )
