-- ===== src/Limit/Handler.antt =====
-- middleware/ratelimit/rate_limit.go: the handler of `New` over any store, and the extractors of
-- keys. The clock is an argument, read once for the check and once for `Retry-After`; the text of the
-- window's duration is part of the configuration. A check that panics is `none`.
use zerohttp.Prelude.{
  ℕ, zero, suc, ◌+◌, ◌-◌, ◌/◌, ◌%◌, Bool, not, ◌&&◌, List, [], ◌∷◌, ◌++◌, Option, none, some,
  if◌then◌else◌, ltb, leb,
}
use zerohttp.Prelude.Int.{ℤ, pos, negsuc}
use zerohttp.Text.{Text, codes, text_eq, before, trim_space}
use zerohttp.Http.{Headers, get, set, Request, Outcome, pass, problem}
use zerohttp.Paths.{should_process_middleware}
use zerohttp.Host.{split_host_port}
use zerohttp.Limit.{Answer}

-- What the handler asks of its store.
pub record Store (S : Type 0) : Type 0 where
  pub check_and_record : Text → ℕ → S → S × Option Answer

pub record Config : Type 0 where
  pub rate : ℕ
  pub window_text : Text
  pub key_extractor : Request → Text
  pub status_code : ℕ
  pub message : Text
  pub include_headers : Bool
  pub excluded_paths : List Text
  pub included_paths : List Text

pub data Metric : Type 0 where
  remaining_gauge : (key : Text) → (remaining : ℤ) → Metric
  rejected : (key : Text) → Metric
  allowed : (key : Text) → Metric

-- `strconv.Itoa`: one unit of fuel for a digit; a number has at most as many digits as it counts, and
-- one more.
unfoldable pub digits : ℕ → ℕ → Text
digits zero n = []
digits (suc fuel) n =
    let front = digits fuel (n / 10) in
    if ltb n 10 then (48 + n) ∷ [] else front ++ (48 + n % 10) ∷ []

unfoldable pub itoa : ℤ → Text
unfolding digits
itoa (pos n) = digits (suc n) n
itoa (negsuc n) = b'-' ∷ digits (suc (suc n)) (suc n)

abbrev pub second : ℕ
second = 1000000000

-- `int(time.Until(resetTime).Seconds())`, toward zero.
unfoldable pub seconds_until : ℕ → ℕ → ℤ
seconds_until reset now =
    if leb now reset
    then pos ((reset - now) / second)
    else if ltb (now - reset) second
    then pos 0
    else negsuc ((now - reset) / second - 1)

module _ (c : Config) where
  unfoldable pub limit_headers : ℤ → ℕ → Request → Headers → Headers
  limit_headers remaining reset r w =
      if c.include_headers
        && not (text_eq (get (codes "Accept") r.headers) (codes "text/event-stream"))
      then set (codes "X-RateLimit-Window") c.window_text (
          set (codes "X-RateLimit-Reset") (itoa (pos (reset / second))) (
            set (codes "X-RateLimit-Remaining") (itoa remaining)
              (set (codes "X-RateLimit-Limit") (itoa (pos c.rate)) w)))
      else w

  unfoldable pub decide : Text → Answer → ℕ → Request → Headers → List Metric × Outcome
  decide key (ok, remaining, reset) later r w =
      let v = limit_headers remaining reset r w in
      if ok then (remaining_gauge key remaining ∷ allowed key ∷ [], pass r v) else (
        remaining_gauge key remaining ∷ rejected key ∷ [],
        problem c.status_code c.message
            (set (codes "Retry-After") (itoa (seconds_until reset later)) v),
      )

  -- The response to what the check answered.
  unfoldable pub respond :
      Text → ℕ → Request → Headers → Option Answer → Option (List Metric × Outcome)
  respond key later r w none = none
  respond key later r w (some a) = some (decide key a later r w)

  unfoldable pub handle :
      {S : Type 0} → Store S → ℕ → ℕ → Request → Headers → S → S × Option (List Metric × Outcome)
  handle store now later r w s =
      if should_process_middleware r.path c.included_paths c.excluded_paths
      then (
        (store.check_and_record (c.key_extractor r) now s).0,
        respond (c.key_extractor r) later r w (store.check_and_record (c.key_extractor r) now s).1,
      )
      else (s, some ([], pass r w))

-- `IPKeyExtractor`, for the remote address of the connection.
unfoldable pub ip_key_extractor : Text → Request → Text
ip_key_extractor remote r =
    let forwarded = get (codes "X-Forwarded-For") r.headers in
    let ip = if text_eq forwarded [] then remote else trim_space (before forwarded b',') in
    elim (split_host_port ip) [ none ↦ ip | some (host, port) ↦ host ]

unfoldable pub header_key_extractor : Text → Request → Text
header_key_extractor header r = get header r.headers

unfoldable pub composite_key_extractor : List (Request → Text) → Request → Text
composite_key_extractor [] r = []
composite_key_extractor (ex ∷ extractors) r =
    let rest = composite_key_extractor extractors r in if text_eq (ex r) [] then rest else ex r
