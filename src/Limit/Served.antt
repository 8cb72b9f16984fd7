-- ===== src/Limit/Served.antt =====
-- The handler of middleware/ratelimit/rate_limit.go over the sliding window of its store.
pub mod Tests
use zerohttp.Prelude.{
  ℕ, ◌≤◌, ◌<◌, ◌≡◌, ◌≢◌, refl, Bool, true, false, List, [], ◌∷◌, ◌++◌, Option, none, some, arith,
  All, Option-cases, inl, inr, length, keep, if◌then◌else◌,
}
use zerohttp.Text.{Text}
use zerohttp.Text.Laws.{text_eq_iff}
use zerohttp.Map.{Map, lookup, text_keys}
use zerohttp.Http.{Headers, Request, Outcome, pass, problem}
use zerohttp.Paths.{should_process_middleware}
use zerohttp.Limit.{WindowEntry, Answer, check_sliding_window, recent}
use zerohttp.Limit.Handler.{Store, Config, Metric, handle, decide, respond, composite_key_extractor}
use zerohttp.Limit.Sliding.{was_allowed, slide, Ascending, slide_quota}

abbrev pub sliding_store : ℕ → ℕ → ℕ → Store (Map Text WindowEntry)
sliding_store window rate max_keys = record {
  check_and_record = check_sliding_window window rate max_keys;
}

-- The wrapped handler got a request.
abbrev pub was_passed : Option (List Metric × Outcome) → Bool
was_passed (some (ms, pass r w)) = true
was_passed _ = false

module _ (c : Config) (window max_keys : ℕ) (w : Headers) where
  -- Requests served one after the other, each with the times of its two readings of the clock: the
  -- times at which one was passed on, after those of earlier requests.
  unfoldable pub serve : List (ℕ × ℕ × Request) → Map Text WindowEntry × List ℕ → List ℕ
  serve [] s = s.1
  serve ((now, later, r) ∷ rs) (m, log) =
      let (next, out) = handle c (sliding_store window c.rate max_keys) now later r w m in
      serve rs (next, if was_passed out then log ++ now ∷ [] else log)

  abbrev pub times : List (ℕ × ℕ × Request) → List ℕ
  times [] = []
  times ((now, later, r) ∷ rs) = now ∷ times rs

  -- The middleware applies to the request, and this is its key.
  abbrev pub IsCounted : Text → ℕ × ℕ × Request → Type 0
  IsCounted key (now, later, r) =
      (should_process_middleware r.path c.included_paths c.excluded_paths ≡ true)
      × (c.key_extractor r ≡ key)

  passed_decide :
      (key : Text) (a : Answer) (later : ℕ) (r : Request)
      → was_passed (some (decide c key a later r w)) ≡ a.0
  unfolding decide
  passed_decide key (true, remaining, reset) later r = refl
  passed_decide key (false, remaining, reset) later r = refl

  passed_respond :
      (key : Text) (a : Option Answer) (later : ℕ) (r : Request)
      → was_passed (respond c key later r w a) ≡ was_allowed window c.rate max_keys key a
  unfolding respond
  passed_respond key none later r = refl
  passed_respond key (some a) later r = passed_decide key a later r

  handle_counted :
      (key : Text) (now later : ℕ) (r : Request) (m : Map Text WindowEntry)
      → IsCounted key (now, later, r)
      → let a = check_sliding_window window c.rate max_keys key now m in
        let out = handle c (sliding_store window c.rate max_keys) now later r w m in
        (out.0 ≡ a.0) × (was_passed out.1 ≡ was_allowed window c.rate max_keys key a.1)
  unfolding handle
  handle_counted key now later r m (looked, same) =
      rw (looked, same)
        (refl, passed_respond key (check_sliding_window window c.rate max_keys key now m).1 later r)

  served_slide :
      (key : Text) (rs : List (ℕ × ℕ × Request)) (m : Map Text WindowEntry) (log : List ℕ)
      → All (IsCounted key) rs
      → serve rs (m, log) ≡ (slide window c.rate max_keys key (times rs) (m, log)).1
  unfolding serve slide
  served_slide key [] m log h = refl
  served_slide key ((now, later, r) ∷ rs) m log (h, hs) =
      let (next, passed) = handle_counted key now later r m h in
      rw (next, passed) (served_slide key rs _ _ hs)

  -- The handler over the sliding window: if the rate is at least 1, the key has no entry at first, the
  -- requests have this key and paths to which the middleware applies, and the clock does not go back
  -- from one to the next, then at no time `t` from the last request on were more requests passed on
  -- after `t - window` than the rate.
  pub served_quota :
      (key : Text) (p : ℕ × ℕ × Request) (rs : List (ℕ × ℕ × Request)) (t : ℕ)
      (m : Map Text WindowEntry)
      → 0 < c.rate
      → lookup key m ≡ none
      → All (IsCounted key) (p ∷ rs)
      → Ascending window c.rate max_keys key p.0 (times rs)
      → All (λ u. u ≤ t) (times (p ∷ rs))
      → length (keep (recent window t) (serve (p ∷ rs) (m, []))) ≤ c.rate
  served_quota key p rs t m positive absent counted up below =
      rw (served_slide key (p ∷ rs) m [] counted)
        (slide_quota window c.rate max_keys key p.0 t (times rs) m positive absent up below)

-- CompositeKeyExtractor gives the first key that is not empty: the extractors before it give none.
pub composite_first :
    (front : List (Request → Text)) (ex : Request → Text) (back : List (Request → Text))
    (r : Request)
    → All (λ f. f r ≡ []) front
    → ex r ≢ []
    → composite_key_extractor (front ++ ex ∷ back) r ≡ ex r
unfolding composite_key_extractor
composite_first [] ex back r h n = ground (arith, text_eq_iff (ex r) [])
composite_first (f ∷ front) ex back r (e, h) n =
    ground (arith, text_eq_iff (f r) [], composite_first front ex back r h n)
