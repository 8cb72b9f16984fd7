-- ===== src/Cache/Recording/Transparent.antt =====
-- The recorder of middleware/cache/cache.go and a client that it does not stand in front of.
use mathlib.Core.List.{append_assoc, append-nil}
use zerohttp.Prelude.{
  ℕ, ◌≤◌, ◌≡◌, ◌≢◌, refl, Bool, true, false, not, ◌&&◌, List, [], ◌∷◌, ◌++◌, All, Option, none,
  some, if◌then◌else◌, ltb, length, arith,
}
use zerohttp.Text.{Text}
use zerohttp.Http.{Headers}
use zerohttp.Cache.Recording.{
  Call, set_header, write_header, write, flush, Client, send_header, send_body, client_call,
  client_calls, is_informational, Recorder, new_recorder, commit_header, send_buffer, commit,
  overflow, buffer_write, recorder_write_header, recorder_write, recorder_flush, recorder_call,
  recorder_calls, finalize,
}

abbrev pub code_of : Option (ℕ × Headers) → Option ℕ
code_of none = none
code_of (some (code, _)) = some code

-- The status that the client gets: 200 where none was sent.
abbrev pub final_status : Client → ℕ
final_status c = elim (code_of c.sent) [ none ↦ 200 | some code ↦ code ]

-- The status waits in the recorder.
abbrev is_pending : Recorder → Bool
is_pending r = r.should_cache && (r.buffering && not r.header_written)

abbrev expected_code : Option ℕ → Bool → ℕ → Option ℕ
expected_code (some code) pending status = some code
expected_code none pending status = if pending then some status else none

-- The recorder and the plain client after the same calls.
record IsAhead (r : Recorder) (p : Client) : Type 0 where
  same_status : code_of p.sent ≡ expected_code (code_of r.client.sent) (is_pending r) r.status
  header_was_sent : r.header_written ≡ true → code_of r.client.sent ≢ none
  storing_began : r.should_cache ≡ true → r.has_written ≡ true
  written_was_sent : r.has_written ≡ true → code_of p.sent ≢ none
  passing_was_sent : r.buffering ≡ false → code_of r.client.sent ≢ none
  first_status : r.has_written ≡ false → r.status ≡ 200
  is_final : 200 ≤ r.status

-- The statuses that are written are final ones.
abbrev pub IsFinal : Call → Type 0
IsFinal (write_header code) = 200 ≤ code
IsFinal (set_header name value) = Unit
IsFinal (write b) = Unit
IsFinal flush = Unit

module _ (status_codes : List ℕ) (max_body_size : ℕ) where
  write_header-IsAhead :
      (code : ℕ) (r : Recorder) (p : Client)
      → 200 ≤ code
      → IsAhead r p
      → IsAhead (recorder_write_header status_codes max_body_size code r) (send_header code p)
  unfolding recorder_write_header send_header is_informational
  write_header-IsAhead code r p final h = record {
    same_status = ground (
      arith, h.same_status, h.header_was_sent, h.storing_began, h.written_was_sent,
      h.passing_was_sent, h.is_final,
    );
    header_was_sent = λ e n. ground (arith, h.header_was_sent);
    storing_began = λ e. ground (arith, h.storing_began);
    written_was_sent = λ e n. ground (arith, h.written_was_sent);
    passing_was_sent = λ e n. ground (arith, h.passing_was_sent);
    first_status = λ e. ground (arith, h.first_status);
    is_final = ground (arith, h.is_final);
  }

  set_header-IsAhead :
      (name value : Text) (r : Recorder) (p : Client)
      → IsAhead r p
      → IsAhead
          (recorder_call status_codes max_body_size (set_header name value) r)
          (client_call (set_header name value) p)
  unfolding recorder_call client_call
  set_header-IsAhead name value r p h = record {
    same_status = h.same_status;
    header_was_sent = h.header_was_sent;
    storing_began = h.storing_began;
    written_was_sent = h.written_was_sent;
    passing_was_sent = h.passing_was_sent;
    first_status = h.first_status;
    is_final = h.is_final;
  }

  write-IsAhead :
      (b : Text) (r : Recorder) (p : Client)
      → IsAhead r p
      → IsAhead (recorder_write status_codes max_body_size b r) (send_body b p)
  unfolding recorder_write buffer_write overflow commit_header send_buffer send_body send_header
      is_informational
  write-IsAhead b r p h = record {
    same_status = ground (
      arith, h.same_status, h.header_was_sent, h.storing_began, h.written_was_sent,
      h.passing_was_sent, h.is_final,
    );
    header_was_sent = λ e n. ground (arith, h.header_was_sent);
    storing_began = λ e. ground (arith, h.storing_began);
    written_was_sent = λ e n. ground (arith, h.written_was_sent);
    passing_was_sent = λ e n. ground (arith, h.header_was_sent, h.passing_was_sent, h.is_final);
    first_status = λ e. ground (arith, h.first_status, h.storing_began);
    is_final = ground (arith, h.is_final);
  }

  flush-IsAhead :
      (r : Recorder) (p : Client)
      → IsAhead r p
      → IsAhead (recorder_flush status_codes max_body_size r) (send_header 200 p)
  unfolding recorder_flush commit commit_header send_buffer send_body send_header is_informational
  flush-IsAhead r p h = record {
    same_status = ground (
      arith, h.same_status, h.header_was_sent, h.storing_began, h.written_was_sent,
      h.passing_was_sent, h.first_status, h.is_final,
    );
    header_was_sent = λ e n. ground (arith, h.header_was_sent);
    storing_began = λ e. ground arith;
    written_was_sent = λ e n. ground (arith, h.written_was_sent);
    passing_was_sent = λ e n. ground (arith, h.header_was_sent, h.passing_was_sent, h.is_final);
    first_status = λ e. ground (arith, h.first_status, h.storing_began);
    is_final = ground (arith, h.is_final);
  }

  -- What the client has of the body, and what waits.
  record IsBehind (r : Recorder) (p : Client) : Type 0 where
    same_body : r.client.body ++ r.buf ≡ p.body
    nothing_waits : (r.should_cache && r.buffering) ≡ false → r.buf ≡ []

  empty_length : (s : Text) → ltb 0 (length s) ≡ false → s ≡ []
  empty_length [] h = refl
  empty_length (c ∷ s) h = absurd (ground arith)

  write_header-IsBehind :
      (code : ℕ) (r : Recorder) (p : Client)
      → IsAhead r p
      → IsBehind r p
      → IsBehind (recorder_write_header status_codes max_body_size code r) (send_header code p)
  unfolding recorder_write_header send_header
  write_header-IsBehind code r p a h = record {
    same_body = ground (arith, h.same_body);
    nothing_waits = λ e. ground (arith, h.nothing_waits, a.storing_began);
  }

  write-IsBehind :
      (b : Text) (r : Recorder) (p : Client)
      → IsAhead r p
      → IsBehind r p
      → IsBehind (recorder_write status_codes max_body_size b r) (send_body b p)
  unfolding recorder_write buffer_write overflow commit_header send_buffer send_body send_header
      is_informational
  write-IsBehind b r p a h = record {
    same_body = ground (
      arith,
      h.same_body,
      h.nothing_waits,
      append_assoc r.client.body r.buf b,
      append-nil r.client.body,
      append-nil (r.client.body ++ b),
      empty_length r.buf,
      append-nil ((r.client.body ++ r.buf) ++ b),
    );
    nothing_waits = λ e. ground (arith, h.nothing_waits, empty_length r.buf);
  }

  flush-IsBehind :
      (r : Recorder) (p : Client)
      → IsBehind r p
      → IsBehind (recorder_flush status_codes max_body_size r) (send_header 200 p)
  unfolding recorder_flush commit commit_header send_buffer send_body send_header is_informational
  flush-IsBehind r p h = record {
    same_body = ground (
      arith,
      h.same_body,
      h.nothing_waits,
      append-nil r.client.body,
      empty_length r.buf,
      append-nil (r.client.body ++ r.buf),
    );
    nothing_waits = λ e. ground (arith, h.nothing_waits, empty_length r.buf);
  }

  calls-IsAhead :
      (cs : List Call) (r : Recorder) (p : Client)
      → All IsFinal cs
      → IsAhead r p
      → IsBehind r p
      → IsAhead (recorder_calls status_codes max_body_size cs r) (client_calls cs p)
        × IsBehind (recorder_calls status_codes max_body_size cs r) (client_calls cs p)
  unfolding recorder_calls client_calls recorder_call client_call
  calls-IsAhead [] r p f a h = (a, h)
  calls-IsAhead (set_header name value ∷ cs) r p (_, f) a h =
      calls-IsAhead cs _ _ f (set_header-IsAhead name value r p a)
        (record { same_body = h.same_body; nothing_waits = h.nothing_waits })
  calls-IsAhead (write_header code ∷ cs) r p (final, f) a h =
      calls-IsAhead cs _ _ f (write_header-IsAhead code r p final a)
        (write_header-IsBehind code r p a h)
  calls-IsAhead (write b ∷ cs) r p (_, f) a h =
      calls-IsAhead cs _ _ f (write-IsAhead b r p a) (write-IsBehind b r p a h)
  calls-IsAhead (flush ∷ cs) r p (_, f) a h =
      calls-IsAhead cs _ _ f (flush-IsAhead r p a) (flush-IsBehind r p h)

  finalize_lem :
      (cache_headers : Headers → Headers) (r : Recorder) (p : Client)
      → IsAhead r p
      → IsBehind r p
      → (final_status (finalize cache_headers r).client ≡ final_status p)
        × ((finalize cache_headers r).client.body ≡ p.body)
  unfolding finalize commit commit_header send_buffer send_body send_header is_informational
  finalize_lem cache_headers r p a h = (
    ground (
      arith, a.same_status, a.header_was_sent, a.storing_began, a.written_was_sent,
      a.passing_was_sent, a.is_final,
    ),
    ground (arith, h.same_body, h.nothing_waits, append-nil r.client.body, empty_length r.buf),
  )

  -- Whatever header fields, final statuses (200 or above) and bodies a handler writes, and however it
  -- flushes, a client that nothing was sent to before gets the same status and the same body through the
  -- recorder as without it.
  pub recorder_transparent :
      (cs : List Call) (cache_headers : Headers → Headers) (header : Headers)
      → All IsFinal cs
      → let w : Client = record { header = header; sent = none; body = [] } in
        let through =
          finalize cache_headers (recorder_calls status_codes max_body_size cs (new_recorder w)) in
        (final_status through.client ≡ final_status (client_calls cs w))
        × (through.client.body ≡ (client_calls cs w).body)
  unfolding new_recorder
  recorder_transparent cs cache_headers header final =
      let w : Client = record { header = header; sent = none; body = [] } in
      let (a, h) =
        calls-IsAhead cs (new_recorder w) w final
          (record {
            same_status = refl;
            header_was_sent = λ e. cc;
            storing_began = λ e. cc;
            written_was_sent = λ e. cc;
            passing_was_sent = λ e. cc;
            first_status = λ e. refl;
            is_final = omega arith;
          })
          (record { same_body = refl; nothing_waits = λ e. refl }) in
      finalize_lem cache_headers (recorder_calls status_codes max_body_size cs (new_recorder w))
        (client_calls cs w) a h
