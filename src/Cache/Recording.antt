-- ===== src/Cache/Recording.antt =====
-- What middleware/cache/cache.go puts around a handler's ResponseWriter (cacheResponseRecorder), with the
-- buffer of internal/rwutil/response_buffer.go that it embeds. A handler is the calls that it makes; the
-- client is net/http's writer: the first final status counts, a body without one is 200. Hijacked
-- connections, failing writes and the text of informational responses are left out.
pub mod Transparent
pub mod Stored
use zerohttp.Prelude.{
  ℕ, ◌+◌, Bool, true, false, not, ◌&&◌, List, [], ◌∷◌, ◌++◌, Option, none, some, if◌then◌else◌, leb,
  ltb, length, nat_beq, any,
}
use zerohttp.Text.{Text, codes, text_eq}
use zerohttp.Map.{Map, lookup, insert, text_keys}
use zerohttp.Http.{Headers, set}

-- A call on a ResponseWriter.
pub data Call : Type 0 where
  set_header : Text → Text → Call
  write_header : ℕ → Call
  write : Text → Call
  flush : Call

pub record Client : Type 0 where
  pub header : Headers
  -- The status and the header fields as they were sent.
  pub sent : Option (ℕ × Headers)
  -- The bytes handed to net/http, which sends none with a 204 or 304.
  pub body : Text

-- An informational status is sent on its own and settles nothing.
unfoldable pub is_informational : ℕ → Bool
is_informational code = leb 100 code && (leb code 199 && not (nat_beq code 101))

unfoldable pub send_header : ℕ → Client → Client
send_header code c = elim c.sent [
  | none ↦ if is_informational code then c else record c { sent = some (code, c.header) }
  | some s ↦ c
]

unfoldable pub send_body : Text → Client → Client
send_body p c = record (send_header 200 c) { body = c.body ++ p }

unfoldable pub client_call : Call → Client → Client
client_call (set_header name value) c = record c { header = set name value c.header }
client_call (write_header code) c = send_header code c
client_call (write p) c = send_body p c
client_call flush c = send_header 200 c

unfoldable pub client_calls : List Call → Client → Client
client_calls [] c = c
client_calls (call ∷ cs) c = client_calls cs (client_call call c)

pub record Recorder : Type 0 where
  pub client : Client
  pub buf : Text
  pub status : ℕ
  pub has_written : Bool
  pub header_written : Bool
  pub buffering : Bool
  pub headers : Headers
  pub should_cache : Bool

-- `NewResponseBuffer` in a new recorder.
unfoldable pub new_recorder : Client → Recorder
new_recorder w = record {
  client = w;
  buf = [];
  status = 200;
  has_written = false;
  header_written = false;
  buffering = true;
  headers = [];
  should_cache = false;
}

-- The header fields that are not stored.
abbrev pub hop_by_hop : List Text
hop_by_hop =
    codes "Set-Cookie"
    ∷ codes "Connection"
    ∷ codes "Keep-Alive"
    ∷ codes "Authorization"
    ∷ codes "Proxy-Authenticate"
    ∷ codes "Proxy-Authorization"
    ∷ codes "TE"
    ∷ codes "Trailer"
    ∷ codes "Transfer-Encoding"
    ∷ codes "Upgrade"
    ∷ []

unfoldable pub stored_headers : Headers → Headers
stored_headers [] = []
stored_headers ((name, values) ∷ hs) =
    let rest = stored_headers hs in
    if any (text_eq name) hop_by_hop then rest else (name, values) ∷ rest

-- `CommitHeader`.
unfoldable pub commit_header : Recorder → Recorder
commit_header r =
    if r.header_written
    then r
    else record r { client = send_header r.status r.client; header_written = true }

-- The buffer goes to the client, if it holds anything.
unfoldable pub send_buffer : Recorder → Recorder
send_buffer r =
    if ltb 0 (length r.buf) then record r { client = send_body r.buf r.client; buf = [] } else r

-- `Commit`.
unfoldable pub commit : Recorder → Recorder
commit r = if r.buffering then send_buffer (commit_header (record r { buffering = false })) else r

-- The configuration: the statuses to cache, and the size of the buffer, 0 for no limit.
module _ (status_codes : List ℕ) (max_body_size : ℕ) where
  unfoldable pub is_cacheable : ℕ → Bool
  is_cacheable code = any (nat_beq code) status_codes

  -- `ResponseBuffer.Write` past the limit.
  unfoldable pub overflow : Text → Recorder → Recorder
  overflow p r =
      let sent = send_buffer (commit_header (record r { buffering = false })) in
      record sent { client = send_body p sent.client }

  -- `ResponseBuffer.Write`, with its own WriteHeader.
  unfoldable pub buffer_write : Text → Recorder → Recorder
  buffer_write p r =
      let started = if r.has_written then r else record r { has_written = true; status = 200 } in
      if not started.buffering
      then record started { client = send_body p started.client }
      else if ltb 0 max_body_size && ltb max_body_size (length started.buf + length p)
      then overflow p started
      else record started { buf = started.buf ++ p }

  -- `WriteHeader`.
  unfoldable pub recorder_write_header : ℕ → Recorder → Recorder
  recorder_write_header code r =
      if r.has_written
      then r
      else if is_cacheable code
      then record r {
        has_written = true;
        status = code;
        should_cache = true;
        headers = stored_headers r.client.header;
      }
      else if r.header_written
      then record r { has_written = true; status = code; should_cache = false }
      else record r {
        has_written = true;
        status = code;
        should_cache = false;
        client = send_header code r.client;
        header_written = true;
      }

  -- `Write`.
  unfoldable pub recorder_write : Text → Recorder → Recorder
  recorder_write p r =
      if r.should_cache && r.buffering
      then buffer_write p r
      else record r { client = send_body p r.client }

  -- `Flush`.
  unfoldable pub recorder_flush : Recorder → Recorder
  recorder_flush r =
      let done = commit (record r { should_cache = false }) in
      record done { client = send_header 200 done.client }

  unfoldable pub recorder_call : Call → Recorder → Recorder
  recorder_call (set_header name value) r = record r {
    client = client_call (set_header name value) r.client;
  }
  recorder_call (write_header code) r = recorder_write_header code r
  recorder_call (write p) r = recorder_write p r
  recorder_call flush r = recorder_flush r

  unfoldable pub recorder_calls : List Call → Recorder → Recorder
  recorder_calls [] r = r
  recorder_calls (c ∷ cs) r = recorder_calls cs (recorder_call c r)

-- `Finalize`: the header fields of the cache, which the arguments give as calls, and what is buffered.
unfoldable pub finalize : (Headers → Headers) → Recorder → Recorder
finalize cache_headers r =
    if r.buffering && r.should_cache
    then commit (record r {
      status = (if r.has_written then r.status else 200);
      client = (record r.client { header = cache_headers r.client.header });
    })
    else r
