-- ===== src/Cache/Replayed.antt =====
-- A response that the middleware of middleware/cache/cache.go has stored, and the request after it.
use zerohttp.Prelude.{ℕ, ◌≤◌, ◌≡◌, refl, true, List, [], ◌∷◌, Option, none, some, if◌then◌else◌}
use zerohttp.Text.{Text, codes}
use zerohttp.Http.{get}
use zerohttp.Cache.{
  Record, Config, Request, generate_cache_key, matches, status_header, etag_header, cache_headers,
  answer_miss, is_cached, answer, handle, replay_headers,
}
use zerohttp.Cache.Store.{MemoryStore, get_at}
use zerohttp.Cache.Recording.{Call, Client, new_recorder, stored_headers}
use zerohttp.Cache.Recording.Stored.{IsImplicit, should_cache-implicit, concat, is_over}

module _ (parse_time : Text → Option ℕ) (format_time : ℕ → Text) (strong_etag : Text → Text)
    (c : Config) where
  -- Without conditions of the client.
  abbrev pub IsPlainGet : Request → Type 0
  IsPlainGet q =
      (q.method ≡ codes "GET")
      × (get (codes "If-None-Match") q.headers ≡ [])
      × (get (codes "If-Modified-Since") q.headers ≡ [])

  answer-implicit :
      (now modified : ℕ) (q : Request) (handler : List Call) (w : Client)
      (p : MemoryStore Record × Option Record)
      → IsImplicit handler
      → (answer parse_time format_time strong_etag c now modified q handler w p).1 ≡ p.0
  unfolding answer answer_miss new_recorder
  answer-implicit now modified q handler w (s, some r) implicit = refl
  answer-implicit now modified q handler w (s, none) implicit =
      let started : Client = record w { header = status_header c (codes "MISS") w.header } in
      let no_store =
        should_cache-implicit c.status_codes c.max_body_size handler (new_recorder started) implicit
          refl in
      rw (no_store, answer, answer_miss) refl

  -- What the store has after a response that is stored.
  abbrev pub kept_body : List Text → Text
  kept_body bs = if is_over c.status_codes c.max_body_size (concat bs) then [] else concat bs

  abbrev stored_record : ℕ → Request → ℕ → List Text → Client → Record
  stored_record modified q code bs w = record {
    status_code = code;
    headers = stored_headers (status_header c (codes "MISS") w.header);
    body = kept_body bs;
    etag = (if c.etag then strong_etag (kept_body bs) else []);
    last_modified = modified;
    vary_headers = zerohttp.Cache.extract_vary_headers q c.vary;
  }

  -- The middleware stores nothing of a response whose handler never calls WriteHeader, whatever header
  -- fields and bodies it writes and however it flushes: the store is as the lookup left it.
  pub implicit_not_stored :
      (looked now modified : ℕ) (q : Request) (handler : List Call) (w : Client)
      (s : MemoryStore Record)
      → IsImplicit handler
      → is_cached c q ≡ true
      → (handle parse_time format_time strong_etag c looked now modified q handler w s).1
        ≡ (get_at looked (generate_cache_key q c.vary) s).0
  unfolding handle
  implicit_not_stored looked now modified q handler w s implicit cached = rw cached (
      answer-implicit now modified q handler w (get_at looked (generate_cache_key q c.vary) s)
        implicit)

  -- A request and the times at which it is looked up and answered, with what its handler would do.
  pub record Visit : Type 0 where
    pub looked : ℕ
    pub now : ℕ
    pub modified : ℕ
    pub request : Request
    pub handler : List Call
    pub writer : Client

  abbrev visited : MemoryStore Record → Visit → Client × MemoryStore Record
  visited s v =
      handle parse_time format_time strong_etag c v.looked v.now v.modified v.request v.handler
        v.writer s

  unfoldable pub after_visits : List Visit → MemoryStore Record → MemoryStore Record
  after_visits [] s = s
  after_visits (v ∷ vs) s =
      after_visits vs
        (handle parse_time format_time strong_etag c v.looked v.now v.modified v.request v.handler
          v.writer s).1

  -- A request that is looked up under the key, not later than the given time.
  abbrev pub IsRepeat : Text → ℕ → Visit → Type 0
  IsRepeat key until v =
      (is_cached c v.request ≡ true)
      × (generate_cache_key v.request c.vary ≡ key)
      × (v.looked ≤ until)
