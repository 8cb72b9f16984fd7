-- ===== src/Limit.antt =====
-- middleware/ratelimit/store.go: the in-memory store of the rate limiter. Times and durations are
-- nanoseconds: `now.Sub(t) > d` is `t + d < now`, and `now.Sub(t) >= d` is `t + d ≤ now`. The rate
-- is a natural number. A call is one step: what another call does between the release of the
-- store's lock and the entry's lock is left out.
pub mod Evict
pub mod Fixed
pub mod Sliding
pub mod Mixed
pub mod Handler
pub mod Served
pub mod Tests
use zerohttp.Prelude.{
  ℕ, ◌+◌, Bool, true, false, ◌&&◌, ◌||◌, List, [], ◌∷◌, ◌++◌, Option, none, some, ltb, leb, nat_beq,
  if◌then◌else◌, length, keep,
}
use zerohttp.Prelude.Int.{ℤ, pos, ◌-ℤ◌}
use zerohttp.Text.{Text, text_eq, text_lt}
use zerohttp.Map.{Map, lookup, insert, delete, text_keys}

pub record CounterEntry : Type 0 where
  pub count : ℕ
  pub window_start : ℕ
  pub last_access : ℕ

pub record WindowEntry : Type 0 where
  pub timestamps : List ℕ
  pub last_access : ℕ

-- `evictOldest`, over any entries with a time of last access.
module _ {E : Type 0} (last_access : E → ℕ) where
  -- The loop: the key and the time of the oldest entry so far, `none` in place of `first`.
  unfoldable pub oldest_from : Option (Text × ℕ) → Map Text E → Option (Text × ℕ)
  oldest_from best [] = best
  oldest_from none ((key, entry) ∷ m) = oldest_from (some (key, last_access entry)) m
  oldest_from (some (k, t)) ((key, entry) ∷ m) =
      oldest_from
        (if ltb (last_access entry) t || (nat_beq (last_access entry) t && text_lt key k)
          then some (key, last_access entry)
          else some (k, t))
        m

  unfoldable pub evict_oldest : Map Text E → Map Text E
  evict_oldest m = elim (oldest_from none m) [
    | none ↦ m
    | some (k, t) ↦ if text_eq k [] then m else delete k m
  ]

  -- Before a new entry is stored: the expired one goes, and the oldest if there is no room.
  unfoldable pub make_room : ℕ → Text → Map Text E → Map Text E
  make_room max_keys key m =
      let kept = delete key m in if leb max_keys (length kept) then evict_oldest kept else kept

-- A check answers: allowed, the requests that remain, and the time of the reset.
abbrev pub Answer : Type 0
Answer = Bool × ℤ × ℕ

-- Timestamps after `now - window`.
abbrev pub recent : ℕ → ℕ → ℕ → Bool
recent window now t = ltb now (t + window)

module _ (window rate max_keys : ℕ) where
  fresh_counter : Text → ℕ → Map Text CounterEntry → Map Text CounterEntry × Answer
  fresh_counter key now m = (
    insert key (record { count = 1; window_start = now; last_access = now })
        (make_room (λ e. e.last_access) max_keys key m),
    (true, pos rate -ℤ pos 1, now + window),
  )

  unfoldable pub check_fixed_window :
      Text → ℕ → Map Text CounterEntry → Map Text CounterEntry × Answer
  unfolding fresh_counter
  check_fixed_window key now m = elim (lookup key m) [
    | none ↦ fresh_counter key now m
    | some e ↦
        if leb (e.window_start + window) now
        then fresh_counter key now m
        else if ltb e.count rate
        then (
          insert key (record e { count = e.count + 1; last_access = now }) m,
          (true, pos rate -ℤ pos (e.count + 1), e.window_start + window),
        )
        else (
          insert key (record e { last_access = now }) m,
          (false, pos 0, e.window_start + window),
        )
  ]

  fresh_window : Text → ℕ → Map Text WindowEntry → Map Text WindowEntry × Option Answer
  fresh_window key now m = (
    insert key (record { timestamps = now ∷ []; last_access = now })
        (make_room (λ e. e.last_access) max_keys key m),
    some (true, pos rate -ℤ pos 1, now + window),
  )

  -- The first timestamp plus the window, where there is one: `newTimestamps[0]` panics otherwise.
  abbrev first_reset : List ℕ → Option ℕ
  first_reset [] = none
  first_reset (t ∷ ts) = some (t + window)

  -- An entry that has not expired; `none` is a panic.
  slide_entry : Text → ℕ → List ℕ → Map Text WindowEntry → Map Text WindowEntry × Option Answer
  slide_entry key now kept m =
      let stamps = kept ++ now ∷ [] in
      if ltb (length kept) rate
      then (
        insert key (record { timestamps = stamps; last_access = now }) m,
        elim (first_reset stamps) [
          | none ↦ some (true, pos rate -ℤ pos (length stamps), now + window)
          | some reset ↦ some (true, pos rate -ℤ pos (length stamps), reset)
        ],
      )
      else (
        insert key (record { timestamps = kept; last_access = now }) m,
        elim (first_reset kept) [ none ↦ none | some reset ↦ some (false, pos 0, reset) ],
      )

  unfoldable pub check_sliding_window :
      Text → ℕ → Map Text WindowEntry → Map Text WindowEntry × Option Answer
  unfolding fresh_window slide_entry
  check_sliding_window key now m = elim (lookup key m) [
    | none ↦ fresh_window key now m
    | some e ↦
        if ltb (e.last_access + window) now
        then fresh_window key now m
        else slide_entry key now (keep (recent window now) e.timestamps) m
  ]
