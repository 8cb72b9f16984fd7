-- ===== src/Cache.antt =====
-- middleware/cache/cache.go: the middleware that caches responses, over its own MemoryStore, with Matches
-- of middleware/etag/etag.go. The clock, the parser and the printer of HTTP dates and the hash of a body
-- are arguments. The counters of the metrics are left out.
pub mod Store
pub mod Recording
pub mod Replayed
pub mod Tests
use zerohttp.Prelude.{
  ℕ, ◌+◌, Bool, true, false, not, ◌&&◌, ◌||◌, List, [], ◌∷◌, ◌++◌, Option, none, some,
  if◌then◌else◌, leb, length, any, map, drop,
}
use zerohttp.Text.{Text, codes, text_eq, has_prefix, split, trim_space}
use zerohttp.Map.{insert, text_keys}
use zerohttp.Http.{Headers, get, set, values}
use zerohttp.Paths.{should_process_middleware}
use zerohttp.Cache.Store.{MemoryStore, get_at, set_at}
use zerohttp.Cache.Recording.{
  Call, Client, send_header, send_body, client_calls, Recorder, new_recorder, recorder_calls,
  finalize,
}

pub record Record : Type 0 where
  pub status_code : ℕ
  pub headers : Headers
  pub body : Text
  pub etag : Text
  pub last_modified : ℕ
  pub vary_headers : List (Text × Text)

pub record Config : Type 0 where
  pub cache_control : Text
  pub default_ttl : ℕ
  pub max_body_size : ℕ
  pub etag : Bool
  pub last_modified : Bool
  pub vary : List Text
  pub excluded_paths : List Text
  pub included_paths : List Text
  pub status_codes : List ℕ
  -- Empty: no such field is sent.
  pub cache_status_header : Text

pub record Request : Type 0 where
  pub method : Text
  pub path : Text
  pub raw_query : Text
  pub headers : Headers

-- `extractVaryHeaders`, as the fields in the order of the configuration.
unfoldable pub extract_vary_headers : Request → List Text → List (Text × Text)
extract_vary_headers q [] = []
extract_vary_headers q (header ∷ vary) =
    let rest = extract_vary_headers q vary in
    if text_eq (get header q.headers) [] then rest else (header, get header q.headers) ∷ rest

-- The loop of `generateCacheKey`.
unfoldable pub vary_key : Request → List Text → Text
vary_key q [] = []
vary_key q (header ∷ vary) =
    let rest = vary_key q vary in
    if text_eq (get header q.headers) []
    then rest
    else (b'|' ∷ header) ++ ((b'=' ∷ get header q.headers) ++ rest)

unfoldable pub generate_cache_key : Request → List Text → Text
generate_cache_key q vary =
    (if text_eq q.method (codes "HEAD") then codes "GET" else q.method)
    ++ ((b'|' ∷ q.path) ++ ((b'|' ∷ q.raw_query) ++ vary_key q vary))

-- `etag.Matches`: one tag of the list.
unfoldable pub tag_matches : Text → Text → Bool
tag_matches etag et =
    if has_prefix et (codes "W/") && has_prefix etag (codes "W/")
    then text_eq et etag
    else if has_prefix et (codes "W/")
    then text_eq (drop 2 et) etag
    else if has_prefix etag (codes "W/")
    then text_eq et (drop 2 etag)
    else text_eq et etag

unfoldable pub matches : Text → Text → Bool
matches if_none_match etag =
    if text_eq if_none_match (codes "*")
    then true
    else any (λ et. tag_matches etag (trim_space et)) (split if_none_match b',')

-- `Header.Add` of each value.
unfoldable pub add_all : Text → List Text → Headers → Headers
add_all name [] hs = hs
add_all name (v ∷ vs) hs = add_all name vs (insert name (values name hs ++ v ∷ []) hs)

-- The stored fields, but those that are there.
unfoldable pub replay_headers : Headers → Headers → Headers
replay_headers [] hs = hs
replay_headers ((name, vs) ∷ stored) hs =
    let rest = replay_headers stored (add_all name vs hs) in
    let skipped = replay_headers stored hs in
    if not (text_eq (get name hs) []) then skipped else rest

unfoldable pub etag_header : Text → Headers → Headers
etag_header etag hs = if text_eq etag [] then hs else set (codes "Etag") etag hs

module _ (c : Config) where
  unfoldable pub status_header : Text → Headers → Headers
  status_header value hs =
      if text_eq c.cache_status_header [] then hs else set c.cache_status_header value hs

  -- Whether a request is looked up at all.
  unfoldable pub is_cached : Request → Bool
  is_cached q =
      (text_eq q.method (codes "GET") || text_eq q.method (codes "HEAD"))
      && (should_process_middleware q.path c.included_paths c.excluded_paths
          && not (
              text_eq (get (codes "Cache-Control") q.headers) (codes "no-cache")
              || text_eq (get (codes "Cache-Control") q.headers) (codes "no-store")))

module _ (parse_time : Text → Option ℕ) (format_time : ℕ → Text) (strong_etag : Text → Text)
    (c : Config) where
  -- Whether If-Modified-Since is a time from which on the record did not change.
  unfoldable pub not_modified_since : Text → Record → Bool
  not_modified_since since record_ =
      if text_eq since []
      then false
      else elim (parse_time since) [ none ↦ false | some t ↦ leb record_.last_modified t ]

  -- The response to a request whose record was found.
  unfoldable pub answer_hit : Request → Record → Client → Client
  answer_hit q record_ w =
      let hs = status_header c (codes "HIT") w.header in
      let if_none_match = get (codes "If-None-Match") q.headers in
      if not (text_eq if_none_match []) && matches if_none_match record_.etag
      then send_header 304 (record w { header = etag_header record_.etag hs })
      else if not_modified_since (get (codes "If-Modified-Since") q.headers) record_
      then send_header 304
          (record w { header = set (codes "Last-Modified") (format_time record_.last_modified) hs })
      else let sent = send_header record_.status_code (record w {
        header =
            (set (codes "Cache-Control") c.cache_control
              (etag_header record_.etag (replay_headers record_.headers hs)));
      }) in
        if text_eq q.method (codes "HEAD") then sent else send_body record_.body sent

  -- The record of a response that the recorder has decided to store.
  unfoldable pub new_record : (modified : ℕ) → Request → Recorder → Record
  new_record modified q r = record {
    status_code = r.status;
    headers = r.headers;
    body = r.buf;
    etag = (if c.etag then strong_etag r.buf else []);
    last_modified = modified;
    vary_headers = extract_vary_headers q c.vary;
  }

  -- What `Finalize` sets.
  unfoldable pub cache_headers : (modified : ℕ) → Text → Headers → Headers
  cache_headers modified etag hs =
      let controlled =
        if text_eq c.cache_control [] then hs else set (codes "Cache-Control") c.cache_control hs in
      let tagged = if c.etag then etag_header etag controlled else controlled in
      if c.last_modified then set (codes "Last-Modified") (format_time modified) tagged else tagged

  -- The response to a request without a record: the wrapped handler's, which may be stored.
  unfoldable pub answer_miss :
      (now modified : ℕ)
      → Request
      → List Call
      → Client
      → MemoryStore Record
      → Client × MemoryStore Record
  answer_miss now modified q handler w s =
      let started = record w { header = status_header c (codes "MISS") w.header } in
      let r = recorder_calls c.status_codes c.max_body_size handler (new_recorder started) in
      let made = new_record modified q r in
      if r.should_cache
      then (
        (finalize (cache_headers modified made.etag) r).client,
        set_at now (generate_cache_key q c.vary) made c.default_ttl s,
      )
      else ((finalize (λ hs. hs) r).client, s)

  -- The answer to what the store found.
  unfoldable pub answer :
      (now modified : ℕ)
      → Request
      → List Call
      → Client
      → MemoryStore Record × Option Record
      → Client × MemoryStore Record
  answer now modified q handler w (s, some record_) = (answer_hit q record_ w, s)
  answer now modified q handler w (s, none) = answer_miss now modified q handler w s

  -- The middleware: the times are those of the lookup, of the write to the store, and of the record.
  unfoldable pub handle :
      (looked now modified : ℕ)
      → Request
      → List Call
      → Client
      → MemoryStore Record
      → Client × MemoryStore Record
  handle looked now modified q handler w s =
      if is_cached c q
      then answer now modified q handler w (get_at looked (generate_cache_key q c.vary) s)
      else (client_calls handler w, s)
