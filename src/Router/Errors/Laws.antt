-- ===== src/Router/Errors/Laws.antt =====
-- The status of a handler's answer in router.go, to HEAD and to other requests.
use zerohttp.Prelude.{
  ℕ, ◌≤◌, ◌≡◌, refl, ◌∙◌, ap, ◌≢◌, false, List, [], ◌∷◌, ◌++◌, All, none, some, arith,
}
use zerohttp.Http.{Headers}
use zerohttp.Router.Errors.{
  Failure, Report, report_of, Call, write_header, write, set_header, write_report, flush,
  handle_handler_error, calls_of, Writer, is_informational, send_header, set_field, HeadWriter,
  head_call, head_calls, close, serve_head, plain_call, plain_calls, serve_plain, status_of,
}

-- A call that is no flush.
abbrev pub IsBuffered : Call → Type 0
IsBuffered flush = ⊥
IsBuffered (write_header code) = Unit
IsBuffered (write p) = Unit
IsBuffered (set_header name value) = Unit
IsBuffered (write_report e) = Unit

head_call-unsent :
    (n : Report → ℕ) (c : Call) (h : HeadWriter)
    → IsBuffered c
    → h.response_writer.sent ≡ none
    → (head_call n c h).response_writer.sent ≡ none
unfolding head_call set_field
head_call-unsent n flush h b e = absurd b
head_call-unsent n (write_header code) h b e = e
head_call-unsent n (write p) h b e = e
head_call-unsent n (set_header name value) h b e = e
head_call-unsent n (write_report r) h b e = e

-- Without a flush nothing is sent before the end, and the code is that of the error.
head_failure :
    (n : Report → ℕ) (body : List Call) (e : Failure) (h : HeadWriter)
    → All IsBuffered body
    → h.response_writer.sent ≡ none
    → ((head_calls n (body ++ handle_handler_error e) h).code ≡ (report_of e).status)
      × ((head_calls n (body ++ handle_handler_error e) h).response_writer.sent ≡ none)
unfolding head_calls head_call handle_handler_error set_field
head_failure n [] e h b unsent = (refl, unsent)
head_failure n (c ∷ body) e h (b, bs) unsent =
    head_failure n body e (head_call n c h) bs (head_call-unsent n c h b unsent)

report_status :
    (e : Failure) → ((report_of e).status ≢ 0) × (is_informational (report_of e).status ≡ false)
unfolding report_of is_informational
report_status e = ((λ h. ground arith), ground arith)

plain_call-sent :
    (c : Call) (w : Writer) (s : ℕ × Headers) → w.sent ≡ some s → (plain_call c w).sent ≡ some s
unfolding plain_call send_header set_field
plain_call-sent (write_header code) w s h = ground arith
plain_call-sent (write body) w s h = ground arith
plain_call-sent (set_header name value) w s h = h
plain_call-sent (write_report e) w s h = ground arith
plain_call-sent flush w s h = ground arith

plain_calls-sent :
    (cs : List Call) (w : Writer) (s : ℕ × Headers)
    → w.sent ≡ some s
    → (plain_calls cs w).sent ≡ some s
unfolding plain_calls
plain_calls-sent [] w s h = h
plain_calls-sent (c ∷ cs) w s h = plain_calls-sent cs (plain_call c w) s (plain_call-sent c w s h)

close-status :
    (n : Report → ℕ) (h : HeadWriter)
    → h.response_writer.sent ≡ none
    → h.code ≢ 0
    → is_informational h.code ≡ false
    → status_of (close n h) ≡ h.code
unfolding close status_of send_header set_field
close-status n h unsent coded final = ground arith

-- A handler that has sent a final status (200 or above), flushes nothing and then fails: the client of a HEAD request
-- sees the status of the error, that of any other request the status that was sent first.
pub head_status_differs :
    (n : Report → ℕ) (code : ℕ) (body : List Call) (e : Failure) (w : Headers)
    → 200 ≤ code
    → All IsBuffered body
    → (status_of (serve_head n (write_header code ∷ body) (some e) w) ≡ (report_of e).status)
      × (status_of (serve_plain (write_header code ∷ body) (some e) w) ≡ code)
unfolding serve_head serve_plain calls_of head_calls head_call plain_calls plain_call send_header
    status_of is_informational
head_status_differs n code body e w final buffered =
    let started : HeadWriter = record {
      response_writer = (record { header = w; sent = none });
      buf = 0;
      code = code;
    } in
    let done = head_calls n (body ++ handle_handler_error e) started in
    let (last, unsent) = head_failure n body e started buffered refl in
    let (some_status, final_status) = report_status e in
    let begun : (plain_call (write_header code) (record { header = w; sent = none })).sent
        ≡ some (code, w) =
      ground arith in
    let first =
      plain_calls-sent (body ++ handle_handler_error e)
        (plain_call (write_header code) (record { header = w; sent = none })) (code, w) begun in
    (
      close-status n done unsent (λ z. ground arith) (ap is_informational last ∙ final_status)
          ∙ last,
      ground arith,
    )
