-- ===== src/Cache/Tests.antt =====
-- The response cache at concrete requests.
use zerohttp.Prelude.{ℕ, ◌+◌, ◌≡◌, refl, true, List, [], ◌∷◌, Option, none, arith}
use zerohttp.Text.{Text, codes, text_eq}
use zerohttp.Map.{lookup}
use zerohttp.Http.{get}
use zerohttp.Paths.{should_process_middleware}
use zerohttp.Cache.{Record, Config, Request, generate_cache_key, is_cached, handle}
use zerohttp.Cache.Store.{MemoryStore, new_memory_store, get_at}
use zerohttp.Cache.Recording.{
  Call, set_header, write_header, write, flush, Client, client_calls, new_recorder, recorder_calls,
  finalize, is_cacheable, recorder_call, recorder_write_header, client_call, send_header,
  is_informational,
}
use zerohttp.Cache.Recording.Transparent.{final_status, recorder_transparent}
use zerohttp.Cache.Recording.Stored.{writes}
use zerohttp.Cache.Replayed.{Visit, after_visits, implicit_not_stored}

abbrev config : Config
config = record {
  cache_control = codes "private";
  default_ttl = 60;
  max_body_size = 4;
  etag = true;
  last_modified = true;
  vary = codes "Accept" ∷ [];
  excluded_paths = [];
  included_paths = [];
  status_codes = 200 ∷ 404 ∷ [];
  cache_status_header = codes "X-Cache";
}

abbrev parse : Text → Option ℕ
parse t = none

abbrev print : ℕ → Text
print n = codes "date"

abbrev hash : Text → Text
hash body = codes "hash"

abbrev ask : Text → Request
ask method = record { method = method; path = codes "/a"; raw_query = []; headers = [] }

abbrev client : Client
client = record { header = []; sent = none; body = [] }

abbrev empty_store : MemoryStore Record
empty_store = new_memory_store 10

abbrev pieces : List Text
pieces = codes "ab" ∷ codes "c" ∷ []

cached :
    (method : Text) → text_eq method (codes "GET") ≡ true → is_cached config (ask method) ≡ true
unfolding is_cached should_process_middleware get lookup text_eq
cached method h = ground arith

abbrev first : MemoryStore Record
first =
    (handle parse print hash config 0 1 1 (ask (codes "GET")) (write_header 200 ∷ writes pieces)
      client empty_store).1

abbrev visit : ℕ → Text → Visit parse print hash config
visit now method = record {
  looked = now;
  now = now + 1;
  modified = now + 1;
  request = ask method;
  handler = write_header 500 ∷ [];
  writer = client;
}

abbrev third : Client
third =
    (handle parse print hash config 9 10 10 (ask (codes "GET")) (write_header 500 ∷ []) client
      (after_visits parse print hash config (visit 5 (codes "HEAD") ∷ []) first)).0

abbrev calls : List Call
calls =
    set_header (codes "A") (codes "1")
    ∷ write_header 200
    ∷ write (codes "abc")
    ∷ write (codes "def")
    ∷ flush
    ∷ write (codes "g")
    ∷ []

abbrev through : Client
through = (finalize (λ hs. hs) (recorder_calls (200 ∷ []) 4 calls (new_recorder client))).client

recorder_transparent_example :
    (final_status through ≡ final_status (client_calls calls client))
    × (through.body ≡ (client_calls calls client).body)
recorder_transparent_example =
    recorder_transparent (200 ∷ []) 4 calls (λ hs. hs) []
      (tt, (omega arith, (tt, (tt, (tt, (tt, tt))))))

-- After an informational status the recorder drops the one that is written.
abbrev hinted : List Call
hinted = write_header 103 ∷ write_header 404 ∷ []

lost :
    (final_status
        (finalize (λ hs. hs) (recorder_calls (200 ∷ []) 4 hinted (new_recorder client))).client
      ≡ 200)
    × (final_status (client_calls hinted client) ≡ 404)
unfolding finalize recorder_calls recorder_call recorder_write_header is_cacheable new_recorder
    client_calls client_call send_header is_informational
lost = (refl, refl)

implicit_not_stored_example :
    (handle parse print hash config 0 1 1
      (ask (codes "GET"))
      (write (codes "abc") ∷ [])
      client
      first).1
    ≡ (get_at 0 (generate_cache_key (ask (codes "GET")) config.vary) first).0
unfolding text_eq
implicit_not_stored_example =
    implicit_not_stored parse print hash config 0 1 1 (ask (codes "GET")) (write (codes "abc") ∷ [])
      client first (tt, tt) (cached (codes "GET") refl)
