-- ===== src/Router/Errors.antt =====
-- router.go: HandlerFunc.ServeHTTP, which answers a handler's error (handleHandlerError) and buffers the
-- response to HEAD (headResponseWriter). An error is what the source asks of it; a handler is the calls
-- that it makes on its ResponseWriter, and the error that it returns. The body of the answer to an error
-- is given by its title, status and detail.
pub mod Laws
use zerohttp.Prelude.{
  ℕ, ◌+◌, Bool, true, false, not, ◌&&◌, ◌||◌, List, [], ◌∷◌, ◌++◌, Option, none, some,
  if◌then◌else◌, leb, nat_beq, length,
}
use zerohttp.Prelude.Int.{pos}
use zerohttp.Text.{Text, codes, text_eq}
use zerohttp.Http.{Headers, set}
use zerohttp.Limit.Handler.{itoa}

-- What `errors.As` and `IsBindError` say of an error.
pub record Failure : Type 0 where
  pub is_validation : Bool
  pub is_bind : Bool
  pub is_max_bytes : Bool

pub record Report : Type 0 where
  pub title : Text
  pub status : ℕ
  pub detail : Text

unfoldable pub report_of : Failure → Report
report_of e =
    if e.is_validation
    then record {
      title = codes "Unprocessable Entity";
      status = 422;
      detail = codes "Validation failed";
    }
    else if e.is_bind
    then record { title = codes "Bad Request"; status = 400; detail = codes "Invalid request body" }
    else if e.is_max_bytes
    then record {
      title = codes "Payload Too Large";
      status = 413;
      detail = codes "Request body exceeds maximum allowed size";
    }
    else record {
      title = codes "Internal Server Error";
      status = 500;
      detail = codes "An unexpected error occurred";
    }

-- A call on a ResponseWriter.
pub data Call : Type 0 where
  write_header : ℕ → Call
  write : Text → Call
  set_header : Text → Text → Call
  write_report : Report → Call
  flush : Call

-- `handleHandlerError`, as calls on the ResponseWriter.
unfoldable pub handle_handler_error : Failure → List Call
handle_handler_error e =
    set_header (codes "Content-Type") (codes "application/problem+json")
    ∷ write_header (report_of e).status
    ∷ write_report (report_of e)
    ∷ []

-- `HandlerFunc.ServeHTTP` as calls: those of the handler, and those for its error.
unfoldable pub calls_of : List Call → Option Failure → List Call
calls_of body none = body
calls_of body (some e) = body ++ handle_handler_error e

-- net/http's writer: the first final code counts, a body without one or a flush is 200, and the header
-- fields are those at that moment. An informational code is sent on its own and settles
-- nothing. net/http's panic at a code below 100 or above 999 is left out.
pub record Writer : Type 0 where
  pub header : Headers
  pub sent : Option (ℕ × Headers)

unfoldable pub is_informational : ℕ → Bool
is_informational code = leb 100 code && (leb code 199 && not (nat_beq code 101))

unfoldable pub send_header : ℕ → Writer → Writer
send_header code w = elim w.sent [
  | none ↦ if is_informational code then w else record w { sent = some (code, w.header) }
  | some s ↦ w
]

unfoldable pub set_field : Text → Text → Writer → Writer
set_field name value w = record w { header = set name value w.header }

-- headResponseWriter: the number of buffered bytes and the code, 0 where there is none.
pub record HeadWriter : Type 0 where
  pub response_writer : Writer
  pub buf : ℕ
  pub code : ℕ

-- The length of a report's encoding is an argument.
module _ (report_length : Report → ℕ) where
  unfoldable pub head_call : Call → HeadWriter → HeadWriter
  head_call (write_header code) h = record h { code = code }
  head_call (write p) h = record h { buf = h.buf + length p }
  head_call (set_header name value) h = record h {
    response_writer = set_field name value h.response_writer;
  }
  head_call (write_report e) h = record h { buf = h.buf + report_length e }
  head_call flush h = record h { response_writer = send_header 200 h.response_writer }

  unfoldable pub head_calls : List Call → HeadWriter → HeadWriter
  head_calls [] h = h
  head_calls (c ∷ cs) h = head_calls cs (head_call c h)

  -- `Close`.
  unfoldable pub close : HeadWriter → Writer
  close h =
      let code = if nat_beq h.code 0 then 200 else h.code in
      if nat_beq h.buf 0
      then send_header code h.response_writer
      else send_header code
          (set_field (codes "Content-Length") (itoa (pos h.buf)) h.response_writer)

  -- The response to a HEAD request.
  unfoldable pub serve_head : List Call → Option Failure → Headers → Writer
  serve_head body e header = close (
      head_calls (calls_of body e)
        (record { response_writer = (record { header = header; sent = none }); buf = 0; code = 0 }))

-- The writer of any other request.
unfoldable pub plain_call : Call → Writer → Writer
plain_call (write_header code) w = send_header code w
plain_call (write p) w = send_header 200 w
plain_call (set_header name value) w = set_field name value w
plain_call (write_report e) w = send_header 200 w
plain_call flush w = send_header 200 w

unfoldable pub plain_calls : List Call → Writer → Writer
plain_calls [] w = w
plain_calls (c ∷ cs) w = plain_calls cs (plain_call c w)

unfoldable pub serve_plain : List Call → Option Failure → Headers → Writer
serve_plain body e header = plain_calls (calls_of body e) (record { header = header; sent = none })

-- The status that the client sees: 200 where the handler left it to net/http.
unfoldable pub status_of : Writer → ℕ
status_of w = elim w.sent [ none ↦ 200 | some s ↦ s.0 ]
