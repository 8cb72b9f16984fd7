-- ===== src/Limit/Fixed.antt =====
-- The fixed window of middleware/ratelimit/store.go.
use zerohttp.Prelude.{
  ℕ, ◌+◌, ◌-◌, ◌≤◌, ◌<◌, ◌≡◌, ◌⊎◌, inl, inr, true, false, List, [], ◌∷◌, none, some, arith, ltb,
  leb, Bool-cases, All, length, if◌then◌else◌, min,
}
use zerohttp.Prelude.Int.{pos, ◌-ℤ◌}
use zerohttp.Text.{Text}
use zerohttp.Text.Laws.{text_eq_refl}
use zerohttp.Map.{Map, lookup, insert, text_keys, lookup-insert}
use zerohttp.Limit.{CounterEntry, check_fixed_window, make_room}

module _ (window rate max_keys : ℕ) (key : Text) where
  -- The calls for one key at the given times: the map afterwards, and how many were allowed.
  pub calls : List ℕ → Map Text CounterEntry → Map Text CounterEntry × ℕ
  calls [] m = (m, 0)
  calls (now ∷ times) m =
      let (next, answer) = check_fixed_window window rate max_keys key now m in
      let (last, n) = calls times next in (last, if answer.0 then n + 1 else n)

  abbrev pub IsWithin : ℕ → ℕ → Type 0
  IsWithin start t = t < start + window

  counted :
      (now : ℕ) (m : Map Text CounterEntry) (e : CounterEntry)
      → lookup key m ≡ some e
      → now < e.window_start + window
      → e.count < rate
      → check_fixed_window window rate max_keys key now m ≡ (
        insert key (record e { count = e.count + 1; last_access = now }) m,
        (true, pos rate -ℤ pos (e.count + 1), e.window_start + window),
      )
  unfolding check_fixed_window
  counted now m e found h lt =
      let open_window : leb (e.window_start + window) now ≡ false = ground arith in
      let room : ltb e.count rate ≡ true = ground arith in
      rw (found, check_fixed_window, open_window, room)

  refused :
      (now : ℕ) (m : Map Text CounterEntry) (e : CounterEntry)
      → lookup key m ≡ some e
      → now < e.window_start + window
      → rate ≤ e.count
      → check_fixed_window window rate max_keys key now m
        ≡ (insert key (record e { last_access = now }) m, (false, pos 0, e.window_start + window))
  unfolding check_fixed_window
  refused now m e found h le =
      let open_window : leb (e.window_start + window) now ≡ false = ground arith in
      let full : ltb e.count rate ≡ false = ground arith in
      rw (found, check_fixed_window, open_window, full)

  opened :
      (now : ℕ) (m : Map Text CounterEntry)
      → (lookup key m ≡ none)
        ⊎ ((e : CounterEntry) × (lookup key m ≡ some e) × (e.window_start + window ≤ now))
      → check_fixed_window window rate max_keys key now m ≡ (
        insert key
            (record { count = 1; window_start = now; last_access = now })
            (make_room (λ e. e.last_access) max_keys key m),
        (true, pos rate -ℤ pos 1, now + window),
      )
  unfolding check_fixed_window
  opened now m (inl absent) = rw (absent, check_fixed_window)
  opened now m (inr (e, found, over)) =
      let expired : leb (e.window_start + window) now ≡ true = ground arith in
      rw (found, check_fixed_window, expired)

  lookup-insert_self :
      (e : CounterEntry) (m : Map Text CounterEntry) → lookup key (insert key e m) ≡ some e
  lookup-insert_self e m = rw (lookup-insert, text_eq_refl key)

  calls_counted :
      (times : List ℕ) (m : Map Text CounterEntry) (e : CounterEntry)
      → lookup key m ≡ some e
      → e.count ≤ rate
      → All (IsWithin e.window_start) times
      → (calls times m).1 ≡ min (length times) (rate - e.count)
  unfolding calls
  calls_counted [] m e found le h = omega arith
  calls_counted (now ∷ times) m e found le h = elim (Bool-cases (ltb e.count rate)) [
    | inl room ↦
        let d = record e { count = e.count + 1; last_access = now } in
        let rest =
          calls_counted times (insert key d m) d (lookup-insert_self d m) (ground arith) h.1 in
        rw (counted now m e found h.0 (ground arith), calls) (ground (arith, rest))
    | inr full ↦
        let d = record e { last_access = now } in
        let rest = calls_counted times (insert key d m) d (lookup-insert_self d m) le h.1 in
        rw (refused now m e found h.0 (ground arith), calls) (ground (arith, rest))
  ]

  -- A window admits exactly its quota. The call that opens it, since the key has no entry or the
  -- window of its entry is over, is allowed; of it and the further calls for the key before the
  -- window ends, with no call for another key between them, as many are allowed as the rate (at least
  -- 1), or all if they are fewer.
  pub window_quota :
      (now : ℕ) (times : List ℕ) (m : Map Text CounterEntry)
      → 0 < rate
      → (lookup key m ≡ none)
        ⊎ ((e : CounterEntry) × (lookup key m ≡ some e) × (e.window_start + window ≤ now))
      → All (IsWithin now) times
      → (calls (now ∷ times) m).1 ≡ min (length (now ∷ times)) rate
  unfolding calls
  window_quota now times m p over h =
      let d : CounterEntry = record { count = 1; window_start = now; last_access = now } in
      let next = insert key d (make_room (λ e. e.last_access) max_keys key m) in
      let rest = calls_counted times next d (lookup-insert_self d _) p h in
      rw (opened now m over, calls) (omega (arith, rest))
