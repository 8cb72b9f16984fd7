-- ===== src/Cache/Recording/Stored.antt =====
-- What a recorder of middleware/cache/cache.go has stored of a response at its end.
use mathlib.Core.Path.{subst}
use mathlib.Core.List.{append_assoc, append-nil}
use zerohttp.Prelude.{
  ℕ, ◌≡◌, sym, ◌∙◌, ap, Bool, true, false, not, ◌&&◌, List, [], ◌∷◌, ◌++◌, if◌then◌else◌, ltb,
  length, length-append, arith, Bool-cases, inl, inr, All,
}
use zerohttp.Text.{Text}
use zerohttp.Http.{Headers}
use zerohttp.Cache.Recording.{
  Call, set_header, write_header, write, flush, Client, Recorder, new_recorder, commit_header,
  send_buffer, commit, is_cacheable, overflow, buffer_write, recorder_write_header, stored_headers,
  recorder_write, recorder_flush, recorder_call, recorder_calls,
}

abbrev pub writes : List Text → List Call
writes [] = []
writes (b ∷ bs) = write b ∷ writes bs

abbrev pub concat : List Text → Text
concat [] = []
concat (b ∷ bs) = b ++ concat bs

-- No call of WriteHeader.
abbrev pub IsImplicit : List Call → Type 0
IsImplicit cs =
    All
      (λ c. elim c [
        | write_header code ↦ ⊥
        | set_header name value ↦ Unit
        | write b ↦ Unit
        | flush ↦ Unit
      ])
      cs

module _ (status_codes : List ℕ) (max_body_size : ℕ) where
  -- A handler that leaves the status to its first write never decides to store.
  pub should_cache-implicit :
      (cs : List Call) (r : Recorder)
      → IsImplicit cs
      → r.should_cache ≡ false
      → (recorder_calls status_codes max_body_size cs r).should_cache ≡ false
  unfolding recorder_calls recorder_call recorder_write recorder_flush commit commit_header
      send_buffer
  should_cache-implicit [] r i h = h
  should_cache-implicit (set_header name value ∷ cs) r (_, i) h = should_cache-implicit cs _ i h
  should_cache-implicit (write_header code ∷ cs) r (never, i) h = absurd never
  should_cache-implicit (write b ∷ cs) r (_, i) h = should_cache-implicit cs _ i (ground arith)
  should_cache-implicit (flush ∷ cs) r (_, i) h = should_cache-implicit cs _ i (ground arith)

  abbrev pub is_over : Text → Bool
  is_over s = ltb 0 max_body_size && ltb max_body_size (length s)

  -- What is behind the limit stays behind it.
  is_over_append : (s t : Text) → is_over s ≡ true → is_over (s ++ t) ≡ true
  is_over_append s t h = ground (arith, length-append s t)

  -- What the recorder has decided and holds.
  pub record IsStoring (code : ℕ) (headers : Headers) (buffering : Bool) (buf : Text) (r : Recorder)
      : Type 0 where
    pub stores : r.should_cache ≡ true
    pub began : r.has_written ≡ true
    pub with_status : r.status ≡ code
    pub with_headers : r.headers ≡ headers
    pub buffers : r.buffering ≡ buffering
    pub holds : r.buf ≡ buf

  write-IsStoring :
      (code : ℕ) (headers : Headers) (buf b : Text) (r : Recorder)
      → IsStoring code headers true buf r
      → IsStoring code headers
          (not (is_over (buf ++ b)))
          (if is_over (buf ++ b) then [] else buf ++ b)
          (recorder_write status_codes max_body_size b r)
  unfolding recorder_write buffer_write overflow commit_header send_buffer
  write-IsStoring code headers buf b r h = record {
    stores = ground (arith, h.stores, h.began);
    began = ground (arith, h.stores, h.began);
    with_status = ground (arith, h.stores, h.began, h.with_status);
    with_headers = ground (arith, h.stores, h.began, h.with_headers);
    buffers = ground (arith, h.stores, h.began, h.buffers, h.holds, length-append buf b);
    holds = ground (arith, h.stores, h.began, h.buffers, h.holds, length-append buf b);
  }

  passing-IsStoring :
      (code : ℕ) (headers : Headers) (bs : List Text) (r : Recorder)
      → IsStoring code headers false [] r
      → IsStoring code headers false [] (recorder_calls status_codes max_body_size (writes bs) r)
  unfolding recorder_calls recorder_call recorder_write
  passing-IsStoring code headers [] r h = h
  passing-IsStoring code headers (b ∷ bs) r h = passing-IsStoring code headers bs _ (record {
    stores = ground (arith, h.stores, h.buffers);
    began = ground (arith, h.buffers, h.began);
    with_status = ground (arith, h.buffers, h.with_status);
    with_headers = ground (arith, h.buffers, h.with_headers);
    buffers = ground (arith, h.buffers);
    holds = ground (arith, h.buffers, h.holds);
  })

  buffer_over :
      (code : ℕ) (headers : Headers) (s : Text) (r : Recorder)
      → is_over s ≡ true
      → IsStoring code headers (not (is_over s)) (if is_over s then [] else s) r
      → IsStoring code headers false [] r
  buffer_over code headers s r over h =
      subst (λ (b : Bool). IsStoring code headers (not b) (if b then [] else s) r) over h

  buffer_fits :
      (code : ℕ) (headers : Headers) (s : Text) (r : Recorder)
      → is_over s ≡ false
      → IsStoring code headers (not (is_over s)) (if is_over s then [] else s) r
      → IsStoring code headers true s r
  buffer_fits code headers s r fits h =
      subst (λ (b : Bool). IsStoring code headers (not b) (if b then [] else s) r) fits h

  writes-IsStoring :
      (code : ℕ) (headers : Headers) (bs : List Text) (buf : Text) (r : Recorder)
      → is_over buf ≡ false
      → IsStoring code headers true buf r
      → IsStoring code headers
          (not (is_over (buf ++ concat bs)))
          (if is_over (buf ++ concat bs) then [] else buf ++ concat bs)
          (recorder_calls status_codes max_body_size (writes bs) r)
  unfolding recorder_calls recorder_call
  writes-IsStoring code headers [] buf r small h = rw (append-nil buf, small) h
  writes-IsStoring code headers (b ∷ bs) buf r small h =
      let next = write-IsStoring code headers buf b r h in
      elim (Bool-cases (is_over (buf ++ b))) [
        | inl over ↦
            let all_over : is_over (buf ++ (b ++ concat bs)) ≡ true =
              ap is_over (sym (append_assoc buf b (concat bs)))
              ∙ is_over_append (buf ++ b) (concat bs) over in
            rw all_over (
              passing-IsStoring code headers bs (recorder_write status_codes max_body_size b r)
                (buffer_over code headers (buf ++ b) _ over next))
        | inr fits ↦ rw (sym (append_assoc buf b (concat bs))) (
            writes-IsStoring code headers bs (buf ++ b)
              (recorder_write status_codes max_body_size b r) fits
              (buffer_fits code headers (buf ++ b) _ fits next))
      ]

  -- A handler that writes a status which is cached, and then a body in pieces: the status, the header
  -- fields at that moment and the whole body are stored; but of a body over the limit none is.
  pub recorded :
      (code : ℕ) (bs : List Text) (w : Client)
      → is_cacheable status_codes max_body_size code ≡ true
      → IsStoring code
          (stored_headers w.header)
          (not (is_over (concat bs)))
          (if is_over (concat bs) then [] else concat bs)
          (recorder_calls status_codes max_body_size
            (write_header code ∷ writes bs)
            (new_recorder w))
  unfolding recorder_calls recorder_call recorder_write_header new_recorder
  recorded code bs w cacheable =
      writes-IsStoring code (stored_headers w.header) bs []
        (recorder_write_header status_codes max_body_size code (new_recorder w)) (ground arith)
        (record {
          stores = ground (arith, cacheable);
          began = ground (arith, cacheable);
          with_status = ground (arith, cacheable);
          with_headers = ground (arith, cacheable);
          buffers = ground (arith, cacheable);
          holds = ground (arith, cacheable);
        })
